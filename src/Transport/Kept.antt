-- ===== src/Transport/Kept.antt =====
-- What STARTTLS on a connection of src/transport.rs does not touch.
use rust_adv_pop.Prelude.{◌≡◌, refl, ap, ◌∙◌, List, Bool, ltb, Bool-cases, inl, inr}
use rust_adv_pop.Text.{Text}
use rust_adv_pop.Error.{PopResult, ok, err}
use rust_adv_pop.Transport.{
  InnerStream, plain, rustls_tls, openssl_tls, mock, upgrading, Sent, Transport, tls_handshake,
  handshake_over, after_handshake, upgrade_in_place,
}
use rust_adv_pop.Transport.Upgrade.{placeholder, guards_passed, pending_kept, encrypted_kept}

-- What an upgrade leaves alone: what was sent, and the mark of a closed connection.
abbrev kept : Transport → List Sent × Bool
kept t = (t.sent, t.is_closed)

after_handshake-kept :
    (r : PopResult InnerStream) (t : Transport) → kept (after_handshake r t).1 ≡ kept t
unfolding after_handshake
after_handshake-kept (err e) t = refl
after_handshake-kept (ok inner) t = refl

handshake-kept :
    (s : InnerStream) (hostname : Text) (t : Transport)
    → kept (handshake_over s hostname t).1 ≡ kept t
unfolding handshake_over
handshake-kept plain hostname t = after_handshake-kept (tls_handshake (t.net.handshake hostname)) t
handshake-kept rustls_tls hostname t = refl
handshake-kept openssl_tls hostname t = refl
handshake-kept mock hostname t = refl
handshake-kept upgrading hostname t = refl

upgrade-kept : (hostname : Text) (t : Transport) → kept (upgrade_in_place hostname t).1 ≡ kept t
upgrade-kept hostname t = elim (Bool-cases (ltb 0 t.buffered)) [
  | inl pending ↦ ap kept (pending_kept hostname t pending)
  | inr empty ↦ elim (Bool-cases t.encrypted) [
    | inl secure ↦ ap kept (encrypted_kept hostname t empty secure)
    | inr bare ↦
        ap (λ (r : PopResult (Unit {0}) × Transport). kept r.1)
          (guards_passed hostname t empty bare)
        ∙ handshake-kept t.stream hostname (placeholder t)
  ]
]

-- An upgrade hands nothing to the writer of the client.
pub upgrade-sent : (hostname : Text) (t : Transport) → (upgrade_in_place hostname t).1.sent ≡ t.sent
upgrade-sent hostname t = ap (λ (k : List Sent × Bool). k.0) (upgrade-kept hostname t)

pub upgrade-closed :
    (hostname : Text) (t : Transport) → (upgrade_in_place hostname t).1.is_closed ≡ t.is_closed
upgrade-closed hostname t = ap (λ (k : List Sent × Bool). k.1) (upgrade-kept hostname t)
