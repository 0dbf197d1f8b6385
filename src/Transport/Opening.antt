-- ===== src/Transport/Opening.antt =====
-- New connections of src/transport.rs: their stream and what was sent on them.
use rust_adv_pop.Prelude.{ℕ, ◌≡◌, refl, Option, none, some, []}
use rust_adv_pop.Text.{Text}
use rust_adv_pop.Error.{IoError, PopResult, ok, err}
use rust_adv_pop.Transport.{
  InnerStream, plain, rustls_tls, openssl_tls, RustlsHandshake, secured, bad_name, bad_root,
  rejected, OpensslHandshake, negotiated, not_configured, not_connected, Handshake, rustls, openssl,
  Transport, Dial, connect_rustls, connect_openssl, rejected_behind, dialled, connect_plain,
  connect_secured, connect_tls,
}

-- A connection on the stream with nothing sent, where there is one.
abbrev pub IsNew : InnerStream → PopResult Transport → Type 0
IsNew s (ok t) = (t.stream ≡ s) × (t.sent ≡ [])
IsNew s (err e) = Unit

dialled-IsNew :
    (s : InnerStream) (o : Option IoError) (t : Transport)
    → t.stream ≡ s
    → t.sent ≡ []
    → IsNew s (dialled o t)
unfolding dialled
dialled-IsNew s none t on empty = (on, empty)
dialled-IsNew s (some e) t on empty = tt

pub connect_plain-IsNew : (duration : ℕ) (d : Dial) → IsNew plain (connect_plain duration d)
unfolding connect_plain
connect_plain-IsNew duration d = dialled-IsNew plain d.refused _ refl refl

-- The stream of the TLS library that answers.
abbrev pub tls_stream : Handshake → InnerStream
tls_stream (rustls o) = rustls_tls
tls_stream (openssl o) = openssl_tls

refused-IsNew :
    (s : InnerStream) (o : Option IoError) (text : Text) → IsNew s (rejected_behind o text)
unfolding rejected_behind
refused-IsNew s none text = tt
refused-IsNew s (some f) text = tt

connect_rustls-IsNew :
    (o : RustlsHandshake) (duration : ℕ) (d : Dial) → IsNew rustls_tls (connect_rustls o duration d)
unfolding connect_rustls
connect_rustls-IsNew (bad_name e) duration d = tt
connect_rustls-IsNew (bad_root e) duration d = tt
connect_rustls-IsNew (rejected e) duration d = refused-IsNew rustls_tls d.refused e
connect_rustls-IsNew secured duration d = dialled-IsNew rustls_tls d.refused _ refl refl

connect_openssl-IsNew :
    (o : OpensslHandshake) (duration : ℕ) (d : Dial)
    → IsNew openssl_tls (connect_openssl o duration d)
unfolding connect_openssl
connect_openssl-IsNew (not_configured e) duration d = tt
connect_openssl-IsNew (not_connected e) duration d = refused-IsNew openssl_tls d.refused e
connect_openssl-IsNew negotiated duration d = dialled-IsNew openssl_tls d.refused _ refl refl

connect_secured-IsNew :
    (o : Handshake) (duration : ℕ) (d : Dial) → IsNew (tls_stream o) (connect_secured o duration d)
unfolding connect_secured
connect_secured-IsNew (rustls o) duration d = connect_rustls-IsNew o duration d
connect_secured-IsNew (openssl o) duration d = connect_openssl-IsNew o duration d

pub connect_tls-IsNew :
    (hostname : Text) (duration : ℕ) (d : Dial)
    → IsNew (tls_stream (d.accepted.handshake hostname)) (connect_tls hostname duration d)
unfolding connect_tls
connect_tls-IsNew hostname duration d =
    connect_secured-IsNew (d.accepted.handshake hostname) duration d
