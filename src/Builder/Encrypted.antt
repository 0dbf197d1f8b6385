-- ===== src/Builder/Encrypted.antt =====
-- What a builder of src/builder.rs in the TLS mode writes.
use rust_adv_pop.Prelude.{◌≡◌, ap, sym, subst, ◌∙◌, List, [], ◌∷◌, All}
use rust_adv_pop.Text.{Text}
use rust_adv_pop.Error.{PopResult, ok, err}
use rust_adv_pop.Exec.{◌>>◌}
use rust_adv_pop.Transport.{Handshake, rustls, openssl, Sent, Transport}
use rust_adv_pop.Transport.Opening.{tls_stream}
use rust_adv_pop.Transport.Upgrade.{IsTls}
use rust_adv_pop.Transport.Discipline.{OverStream, OverStream-discipline, read_line-Keeps}
use rust_adv_pop.Client.{Pop3Client}
use rust_adv_pop.Client.Exchanges.{Habit, IsHexDigit}
use rust_adv_pop.Client.Batch.Links.{OnLink, link_habit}
use rust_adv_pop.Client.Opening.{Opened, connect_tls-Opened}
use rust_adv_pop.Builder
use rust_adv_pop.Builder.{
  TlsMode, tls, Pop3ClientBuilder, effective_port, Network, open_for, upgrade_for, authenticate_by,
  set_up, connect,
}
use rust_adv_pop.Builder.Secrecy.{authenticate-Keeps, finished-sent}

abbrev OnTls : Handshake → Transport → Type 0
OnTls o = OverStream (tls_stream o) []

encrypted_habit : (o : Handshake) → Habit (OnLink (OnTls o))
encrypted_habit o =
    link_habit (OverStream-discipline (tls_stream o) [])
      (record { line = λ body no_cr no_lf. tt; whole_line = λ body no_cr no_lf. tt })

-- The text was handed to a TLS stream.
abbrev pub IsEncrypted : Sent → Type 0
IsEncrypted s = IsTls s.channel

tls_stream-IsTls : (o : Handshake) → IsTls (tls_stream o)
tls_stream-IsTls (rustls o) = tt
tls_stream-IsTls (openssl o) = tt

over-IsEncrypted :
    (o : Handshake) (l : List Sent) → All (λ s. s.channel ≡ tls_stream o) l → All IsEncrypted l
over-IsEncrypted o [] h = tt
over-IsEncrypted o (s ∷ l) (e, h) =
    (subst IsTls (sym e) (tls_stream-IsTls o), over-IsEncrypted o l h)

OnTls-all : (o : Handshake) (t : Transport) → OnTls o t → All IsEncrypted t.sent
OnTls-all o t h =
    over-IsEncrypted o t.sent (subst (All (λ s. s.channel ≡ tls_stream o)) (sym h.grown) h.over)

set_up_on-IsEncrypted :
    (md5 : Text → Text) (b : Pop3ClientBuilder) (o : Handshake) (r : PopResult Pop3Client)
    → ((s : Text) → All IsHexDigit (md5 s))
    → b.tls_mode ≡ tls
    → Opened (OnTls o) r
    → All IsEncrypted (Builder.set_up_on md5 b r).1
unfolding set_up upgrade_for
set_up_on-IsEncrypted md5 b o (err e) hex mode h = tt
set_up_on-IsEncrypted md5 b o (ok c) hex mode (fresh, h) =
    subst (All IsEncrypted)
      (sym (
          ap
            (λ (m : TlsMode).
              ((upgrade_for m b.hostname >> authenticate_by md5 b.auth) c).1.transport.sent)
            mode)
        ∙ sym (finished-sent (set_up md5 b c)))
      (OnTls-all o _ ((authenticate-Keeps (OnTls o) (encrypted_habit o) md5 hex b.auth).at c h))

-- With TLS from the start, everything that a builder's connection writes, the credentials included,
-- goes over TLS, whatever the server answers and wherever the set-up fails, if the MD5 digest is
-- printed in hexadecimal digits.
pub tls-IsEncrypted :
    (md5 : Text → Text) (b : Pop3ClientBuilder) (network : Network)
    → ((s : Text) → All IsHexDigit (md5 s))
    → b.tls_mode ≡ tls
    → All IsEncrypted (connect md5 b network).1
unfolding connect
tls-IsEncrypted md5 b network hex mode =
    let dial = network b.hostname (effective_port b) in
    let o = dial.accepted.handshake b.hostname in
    set_up_on-IsEncrypted md5 b o _ hex mode (
      subst
        (λ (m : TlsMode).
          Opened (OnTls o)
            (open_for m b.hostname b.timeout (network b.hostname (effective_port b))))
        (sym mode)
        (unfold open_for in
          connect_tls-Opened (OnTls o) (read_line-Keeps (OverStream-discipline (tls_stream o) []))
            b.hostname b.timeout dial
            (λ t on empty. record { on = on; more = []; grown = empty; over = tt })))
