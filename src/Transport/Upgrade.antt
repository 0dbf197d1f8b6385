-- ===== src/Transport/Upgrade.antt =====
-- STARTTLS on a connection of src/transport.rs, branch by branch.
use rust_adv_pop.Prelude.{
  ◌<◌, ◌≡◌, ◌≢◌, refl, ap, sym, subst, ◌∙◌, true, false, ◌⊎◌, inl, inr, arith, ltb, Bool-cases,
}
use rust_adv_pop.Text.{Text, crlf}
use rust_adv_pop.Error.{Pop3Error, io, PopResult, ok, err}
use rust_adv_pop.Exec.{Exec, continue, ◌>>◌}
use rust_adv_pop.Transport.{
  InnerStream, plain, rustls_tls, openssl_tls, mock, upgrading, Handshake, rustls, openssl,
  RustlsHandshake, secured, bad_name, bad_root, rejected, OpensslHandshake, negotiated,
  not_configured, not_connected, handshake_rustls, handshake_openssl, tls_handshake, Transport,
  upgrading_error, on_stream, write_all, flush, send_command, read_line, handshake_over,
  after_handshake, upgrade_in_place,
}

-- The stream of one of the two TLS libraries.
abbrev pub IsTls : InnerStream → Type 0
IsTls plain = ⊥
IsTls rustls_tls = Unit
IsTls openssl_tls = Unit
IsTls mock = ⊥
IsTls upgrading = ⊥

-- The connection before an upgrade to TLS and the one behind it.
pub record Upgraded (t u : Transport) : Type 0 where
  pub was_plain : t.stream ≡ plain
  pub was_empty : t.buffered ≡ 0
  pub now_tls : IsTls u.stream
  pub now_encrypted : u.encrypted ≡ true
  pub now_empty : u.buffered ≡ 0
  pub sent_eq : u.sent ≡ t.sent

state_of : {r s : PopResult (Unit {0}) × Transport} → r ≡ s → r.1 ≡ s.1
state_of h = ap (λ (r : PopResult (Unit {0}) × Transport). r.1) h

read_dead : (t : Transport) → t.stream ≡ upgrading → read_line t ≡ (err (io upgrading_error), t)
unfolding read_line on_stream
read_dead t dead = simp dead

flush_dead : (t u : Transport) → t.stream ≡ upgrading → flush t ≢ (ok tt, u)
unfolding flush on_stream
flush_dead t u dead h = ground arith

-- Writing keeps the stream, and the flush behind it fails.
write_dead :
    (r : PopResult (Unit {0}) × Transport) (k : Exec Transport (Unit {0})) (u : Transport)
    → ((v : Transport) → k r.1 ≢ (ok tt, v))
    → continue r (λ _. k) ≢ (ok tt, u)
write_dead (ok tt, t) k u dead h = dead u h
write_dead (err e, t) k u dead h = cc

send_dead : (cmd : Text) (t u : Transport) → t.stream ≡ upgrading → send_command cmd t ≢ (ok tt, u)
unfolding send_command write_all
send_dead cmd t u dead =
    let t1 = (write_all cmd t).1 in
    let t2 = (write_all crlf t1).1 in
    write_dead (write_all cmd t) (write_all crlf >> flush) u
      (λ v. write_dead (write_all crlf t1) flush v (λ w. flush_dead t2 w dead))

abbrev secured_link : InnerStream → Transport → Transport
secured_link inner t = record t { stream = inner; encrypted = true; buffered = 0 }

-- What the handshake of either library gives is a stream of its own.
abbrev GivesTls : PopResult InnerStream → Type 0
GivesTls (ok inner) = IsTls inner
GivesTls (err e) = Unit

handshake_rustls-GivesTls : (o : RustlsHandshake) → GivesTls (handshake_rustls o)
unfolding handshake_rustls
handshake_rustls-GivesTls secured = tt
handshake_rustls-GivesTls (bad_name e) = tt
handshake_rustls-GivesTls (bad_root e) = tt
handshake_rustls-GivesTls (rejected e) = tt

handshake_openssl-GivesTls : (o : OpensslHandshake) → GivesTls (handshake_openssl o)
unfolding handshake_openssl
handshake_openssl-GivesTls negotiated = tt
handshake_openssl-GivesTls (not_configured e) = tt
handshake_openssl-GivesTls (not_connected e) = tt

tls_handshake-GivesTls : (o : Handshake) → GivesTls (tls_handshake o)
unfolding tls_handshake
tls_handshake-GivesTls (rustls o) = handshake_rustls-GivesTls o
tls_handshake-GivesTls (openssl o) = handshake_openssl-GivesTls o

abbrev IsSecured : Transport → Transport → Type 0
IsSecured t u = (inner : InnerStream) × (IsTls inner × (u ≡ secured_link inner t))

after_handshake-ok :
    (r : PopResult InnerStream) (t u : Transport)
    → GivesTls r
    → after_handshake r t ≡ (ok tt, u)
    → IsSecured t u
unfolding after_handshake
after_handshake-ok (err e) t u over h = cc
after_handshake-ok (ok inner) t u over h = (inner, (over, sym (state_of h)))

handshake-ok :
    (s : InnerStream) (hostname : Text) (t u : Transport)
    → handshake_over s hostname t ≡ (ok tt, u)
    → (s ≡ plain) × IsSecured t u
unfolding handshake_over
handshake-ok plain hostname t u h = (
  refl,
  after_handshake-ok (tls_handshake (t.net.handshake hostname)) t u
      (tls_handshake-GivesTls (t.net.handshake hostname)) h,
)
handshake-ok rustls_tls hostname t u h = cc
handshake-ok openssl_tls hostname t u h = cc
handshake-ok mock hostname t u h = cc
handshake-ok upgrading hostname t u h = cc

abbrev pub placeholder : Transport → Transport
placeholder t = record t { stream = upgrading; buffered = 0 }

-- Behind both guards the outcome is that of the handshake.
pub guards_passed :
    (hostname : Text) (t : Transport)
    → ltb 0 t.buffered ≡ false
    → t.encrypted ≡ false
    → upgrade_in_place hostname t ≡ handshake_over t.stream hostname (placeholder t)
unfolding upgrade_in_place
guards_passed hostname t empty bare = simp (empty, bare)

pending_refused :
    (hostname : Text) (t u : Transport)
    → ltb 0 t.buffered ≡ true
    → upgrade_in_place hostname t ≢ (ok tt, u)
unfolding upgrade_in_place
pending_refused hostname t u pending h = ground arith

encrypted_refused :
    (hostname : Text) (t u : Transport)
    → t.encrypted ≡ true
    → upgrade_in_place hostname t ≢ (ok tt, u)
unfolding upgrade_in_place
encrypted_refused hostname t u secure h = ground arith

Upgraded-guarded :
    (t u : Transport)
    → ltb 0 t.buffered ≡ false
    → (t.stream ≡ plain) × IsSecured (placeholder t) u
    → Upgraded t u
Upgraded-guarded t u empty (was, (inner, (over, now))) = record {
  was_plain = was;
  was_empty = ground arith;
  now_tls = subst IsTls (sym (ap (λ (v : Transport). v.stream) now)) over;
  now_encrypted = ap (λ (v : Transport). v.encrypted) now;
  now_empty = ap (λ (v : Transport). v.buffered) now;
  sent_eq = ap (λ (v : Transport). v.sent) now;
}

-- An upgrade that succeeds was made on a plain connection with an empty read buffer, and leaves an
-- encrypted one on which nothing was sent meanwhile, and no byte from before TLS is left to be read.
pub upgrade_in_place-ok :
    (hostname : Text) (t u : Transport) → upgrade_in_place hostname t ≡ (ok tt, u) → Upgraded t u
upgrade_in_place-ok hostname t u h = elim (Bool-cases (ltb 0 t.buffered)) [
  | inl pending ↦ absurd (pending_refused hostname t u pending h)
  | inr empty ↦ elim (Bool-cases t.encrypted) [
    | inl secure ↦ absurd (encrypted_refused hostname t u secure h)
    | inr bare ↦ Upgraded-guarded t u empty (
        handshake-ok t.stream hostname (placeholder t) u
          (sym (guards_passed hostname t empty bare) ∙ h))
  ]
]

after_handshake-err :
    (r : PopResult InnerStream) (t u : Transport) (e : Pop3Error)
    → after_handshake r t ≡ (err e, u)
    → u ≡ t
unfolding after_handshake
after_handshake-err (err f) t u e h = sym (state_of h)
after_handshake-err (ok inner) t u e h = cc

handshake-err :
    (s : InnerStream) (hostname : Text) (t u : Transport) (e : Pop3Error)
    → handshake_over s hostname t ≡ (err e, u)
    → u ≡ t
unfolding handshake_over
handshake-err plain hostname t u e h =
    after_handshake-err (tls_handshake (t.net.handshake hostname)) t u e h
handshake-err rustls_tls hostname t u e h = sym (state_of h)
handshake-err openssl_tls hostname t u e h = sym (state_of h)
handshake-err mock hostname t u e h = sym (state_of h)
handshake-err upgrading hostname t u e h = sym (state_of h)

pub pending_kept :
    (hostname : Text) (t : Transport)
    → ltb 0 t.buffered ≡ true
    → (upgrade_in_place hostname t).1 ≡ t
unfolding upgrade_in_place
pending_kept hostname t pending = rw (pending, upgrade_in_place)

pub encrypted_kept :
    (hostname : Text) (t : Transport)
    → ltb 0 t.buffered ≡ false
    → t.encrypted ≡ true
    → (upgrade_in_place hostname t).1 ≡ t
unfolding upgrade_in_place
encrypted_kept hostname t empty secure = simp (empty, secure)

-- An upgrade that fails leaves the connection as it was if bytes were pending or it was encrypted
-- before, and on any other connection, whatever its stream, it leaves the placeholder stream and an
-- empty buffer in it, and the rest of it as it was.
pub upgrade_in_place-err :
    (hostname : Text) (t u : Transport) (e : Pop3Error)
    → upgrade_in_place hostname t ≡ (err e, u)
    → (((0 < t.buffered) ⊎ (t.encrypted ≡ true)) × (u ≡ t))
      ⊎ ((t.buffered ≡ 0)
          × ((t.encrypted ≡ false) × (u ≡ record t { stream = upgrading; buffered = 0 })))
upgrade_in_place-err hostname t u e h = elim (Bool-cases (ltb 0 t.buffered)) [
  | inl pending ↦ inl (inl (ground arith), sym (state_of h) ∙ pending_kept hostname t pending)
  | inr empty ↦ elim (Bool-cases t.encrypted) [
    | inl secure ↦ inl (inr secure, sym (state_of h) ∙ encrypted_kept hostname t empty secure)
    | inr bare ↦ inr (
      ground arith,
      (
        bare,
        handshake-err t.stream hostname (placeholder t) u e
            (sym (guards_passed hostname t empty bare) ∙ h),
      ),
    )
  ]
]

-- On a connection in the middle of an upgrade no command is sent and no line is read.
upgrading-dead :
    (cmd : Text) (t u : Transport)
    → t.stream ≡ upgrading
    → (read_line t ≡ (err (io upgrading_error), t)) × (send_command cmd t ≢ (ok tt, u))
upgrading-dead cmd t u dead = (read_dead t dead, send_dead cmd t u dead)
