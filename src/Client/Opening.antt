-- ===== src/Client/Opening.antt =====
-- New clients, `connect` and `connect_tls` of src/client.rs: from a property of a connection to one of
-- the client behind the greeting.
use rust_adv_pop.Prelude.{ℕ, ◌≡◌, refl, []}
use rust_adv_pop.Text.{Text}
use rust_adv_pop.Error.{PopResult, ok, err}
use rust_adv_pop.Exec.{lift, ◌>>=◌}
use rust_adv_pop.Exec.Keeps.{Keeps, Keeps-bind, Keeps-lift}
use rust_adv_pop.Response.{parse_status_line}
use rust_adv_pop.Types.{connected}
use rust_adv_pop.Transport as Connection
use rust_adv_pop.Transport.{InnerStream, plain, Transport, Dial, connect_plain, read_line}
use rust_adv_pop.Transport.Opening.{IsNew, connect_plain-IsNew, connect_tls-IsNew, tls_stream}
use rust_adv_pop.Client.{Pop3Client, greeted, greet, greet_on, connect, connect_tls}

-- A new client, where there is one: its session is not authenticated, and its connection is good.
abbrev pub Opened : (Transport → Type 0) → PopResult Pop3Client → Type 0
Opened P (ok c) = (c.state ≡ connected) × P c.transport
Opened P (err e) = Unit

greeted-Opened :
    (P : Transport → Type 0) (r : PopResult Text × Transport) → P r.1 → Opened P (greeted r)
greeted-Opened P (ok greeting, t) h = (refl, h)
greeted-Opened P (err e, t) h = tt

module _ (P : Transport → Type 0) (reads : Keeps P read_line) (s : InnerStream)
    (start : (t : Transport) → t.stream ≡ s → t.sent ≡ [] → P t) where
  greet_on-Opened : (r : PopResult Transport) → IsNew s r → Opened P (greet_on r)
  unfolding greet
  greet_on-Opened (err e) h = tt
  greet_on-Opened (ok t) (on, empty) =
      greeted-Opened P ((do line ← read_line; lift (parse_status_line line)) t) (
        (Keeps-bind read_line (λ line. lift (parse_status_line line)) reads
            (λ line. Keeps-lift _)).at
          t (start t on empty))

pub connect-Opened :
    (P : Transport → Type 0)
    → Keeps P read_line
    → ((t : Transport) → t.stream ≡ plain → t.sent ≡ [] → P t)
    → (duration : ℕ) (d : Dial) → Opened P (connect duration d)
unfolding connect
connect-Opened P reads start duration d =
    greet_on-Opened P reads plain start (connect_plain duration d) (connect_plain-IsNew duration d)

pub connect_tls-Opened :
    (P : Transport → Type 0)
    → Keeps P read_line
    → (hostname : Text) (duration : ℕ) (d : Dial)
    → ((t : Transport) → t.stream ≡ tls_stream (d.accepted.handshake hostname) → t.sent ≡ [] → P t)
    → Opened P (connect_tls hostname duration d)
unfolding connect_tls
connect_tls-Opened P reads hostname duration d start =
    greet_on-Opened P reads (tls_stream (d.accepted.handshake hostname)) start
      (Connection.connect_tls hostname duration d) (connect_tls-IsNew hostname duration d)
