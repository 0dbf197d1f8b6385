-- ===== src/Builder.antt =====
-- src/builder.rs: `Pop3ClientBuilder`.
pub mod Discreet
pub mod Secrecy
pub mod Encrypted
use rust_adv_pop.Prelude.{ℕ, Option, none, some, List, []}
use rust_adv_pop.Text.{Text}
use rust_adv_pop.Error.{PopResult, Result, ok, err}
use rust_adv_pop.Exec.{Exec, pure, continue, ◌>>=◌, ◌>>◌}
use rust_adv_pop.Transport.{Dial, Sent, default_timeout}
use rust_adv_pop.Client
use rust_adv_pop.Client.{Pop3Client, stls, login}

pub data TlsMode : Type 0 where
  plain tls start_tls : TlsMode

pub data AuthMode : Type 0 where
  no_auth : AuthMode
  login_auth apop_auth : Text → Text → AuthMode

pub record Pop3ClientBuilder : Type 0 where
  pub hostname : Text
  pub port : Option ℕ
  pub timeout : ℕ
  pub tls_mode : TlsMode
  pub auth : AuthMode

unfoldable pub new : Text → Pop3ClientBuilder
new hostname = record {
  hostname = hostname;
  port = none;
  timeout = default_timeout;
  tls_mode = plain;
  auth = no_auth;
}

unfoldable pub with_port : ℕ → Pop3ClientBuilder → Pop3ClientBuilder
with_port port b = record b { port = some port }

unfoldable pub with_timeout : ℕ → Pop3ClientBuilder → Pop3ClientBuilder
with_timeout duration b = record b { timeout = duration }

unfoldable pub with_tls : Pop3ClientBuilder → Pop3ClientBuilder
with_tls b = record b { tls_mode = tls }

unfoldable pub with_starttls : Pop3ClientBuilder → Pop3ClientBuilder
with_starttls b = record b { tls_mode = start_tls }

unfoldable pub with_credentials : Text → Text → Pop3ClientBuilder → Pop3ClientBuilder
with_credentials username password b = record b { auth = login_auth username password }

unfoldable pub with_apop : Text → Text → Pop3ClientBuilder → Pop3ClientBuilder
with_apop username password b = record b { auth = apop_auth username password }

abbrev default_port : TlsMode → ℕ
default_port tls = 995
default_port plain = 110
default_port start_tls = 110

unfoldable pub effective_port : Pop3ClientBuilder → ℕ
effective_port b = elim b.port [ some port ↦ port | none ↦ default_port b.tls_mode ]

open_for : TlsMode → Text → ℕ → Dial → PopResult Pop3Client
open_for plain hostname duration d = Client.connect duration d
open_for tls hostname duration d = Client.connect_tls hostname duration d
open_for start_tls hostname duration d = Client.connect duration d

upgrade_for : TlsMode → Text → Exec Pop3Client (Unit {0})
upgrade_for start_tls hostname = stls hostname
upgrade_for plain hostname = pure tt
upgrade_for tls hostname = pure tt

unfoldable pub authenticate_by : (Text → Text) → AuthMode → Exec Pop3Client (Unit {0})
authenticate_by md5 no_auth = pure tt
authenticate_by md5 (login_auth username password) = login username password
authenticate_by md5 (apop_auth username password) = Client.apop md5 username password

-- What `connect` does on a connection that has greeted.
unfoldable pub set_up : (Text → Text) → Pop3ClientBuilder → Exec Pop3Client (Unit {0})
unfolding upgrade_for authenticate_by
set_up md5 b = do upgrade_for b.tls_mode b.hostname; authenticate_by md5 b.auth

-- The client, or the error behind which it was dropped; and what had been handed to its writer.
abbrev pub finished : PopResult (Unit {0}) × Pop3Client → PopResult Pop3Client × List Sent
finished (ok done, c) = (ok c, c.transport.sent)
finished (err e, c) = (err e, c.transport.sent)

abbrev pub set_up_on :
    (Text → Text) → Pop3ClientBuilder → PopResult Pop3Client → PopResult Pop3Client × List Sent
set_up_on md5 b (ok c) = finished (set_up md5 b c)
set_up_on md5 b (err e) = (err e, [])

-- What dialling a host at a port comes to.
abbrev pub Network : Type 0
Network = Text → ℕ → Dial

unfoldable pub connect :
    (Text → Text) → Pop3ClientBuilder → Network → PopResult Pop3Client × List Sent
unfolding set_up open_for effective_port
connect md5 b network =
    set_up_on md5 b
      (open_for b.tls_mode b.hostname b.timeout (network b.hostname (effective_port b)))
