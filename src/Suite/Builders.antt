-- ===== src/Suite/Builders.antt =====
-- The unit tests of src/builder.rs.
use rust_adv_pop.Prelude.{◌≡◌, refl, Bool, true, false, ◌&&◌, [], ◌∷◌, ◌==◌}
use rust_adv_pop.Text.{codes, text_eq}
use rust_adv_pop.Builder.{
  TlsMode, tls, start_tls, AuthMode, login_auth, apop_auth, Pop3ClientBuilder, new, with_port,
  with_timeout, with_tls, with_starttls, with_credentials, with_apop, effective_port,
}
use rust_adv_pop.Suite.{all_pass}

abbrev host : Pop3ClientBuilder
host = new (codes "host.example.com")

is_tls : TlsMode → Bool
is_tls tls = true
is_tls m = false

is_start_tls : TlsMode → Bool
is_start_tls start_tls = true
is_start_tls m = false

is_login : AuthMode → Bool
is_login (login_auth username password) = true
is_login m = false

is_apop : AuthMode → Bool
is_apop (apop_auth username password) = true
is_apop m = false

default_port_plain : Bool
default_port_plain = effective_port host == 110

default_port_tls : Bool
default_port_tls = effective_port (with_tls host) == 995

default_port_starttls : Bool
default_port_starttls = effective_port (with_starttls host) == 110

explicit_port_overrides_default : Bool
explicit_port_overrides_default = effective_port (with_port 2525 host) == 2525

explicit_port_overrides_tls_default : Bool
explicit_port_overrides_tls_default = effective_port (with_port 9950 (with_tls host)) == 9950

timeout_is_configurable : Bool
timeout_is_configurable = (with_timeout 60 host).timeout == 60

default_timeout_is_30_seconds : Bool
default_timeout_is_30_seconds = host.timeout == 30

tls_mode_last_wins : Bool
unfolding is_tls is_start_tls
tls_mode_last_wins =
    is_start_tls (with_starttls (with_tls host)).tls_mode
    && is_tls (with_tls (with_starttls host)).tls_mode

credentials_sets_login_auth : Bool
unfolding is_login
credentials_sets_login_auth = is_login (with_credentials (codes "user") (codes "pass") host).auth

apop_sets_apop_auth : Bool
unfolding is_apop
apop_sets_apop_auth = is_apop (with_apop (codes "user") (codes "pass") host).auth

auth_last_wins : Bool
unfolding is_login is_apop
auth_last_wins =
    is_apop
      (with_apop (codes "user") (codes "pass")
        (with_credentials (codes "user") (codes "pass") host)).auth
    && is_login
        (with_credentials (codes "user") (codes "pass")
          (with_apop (codes "user") (codes "pass") host)).auth

hostname_stored_correctly : Bool
hostname_stored_correctly = text_eq (new (codes "pop.gmail.com")).hostname (codes "pop.gmail.com")

hostname_from_string : Bool
hostname_from_string = text_eq (new (codes "pop.example.com")).hostname (codes "pop.example.com")

builders_pass :
    all_pass (
      default_port_plain ∷ default_port_tls ∷ default_port_starttls
      ∷ explicit_port_overrides_default ∷ explicit_port_overrides_tls_default
      ∷ timeout_is_configurable ∷ default_timeout_is_30_seconds ∷ tls_mode_last_wins
      ∷ credentials_sets_login_auth ∷ apop_sets_apop_auth ∷ auth_last_wins
      ∷ hostname_stored_correctly ∷ hostname_from_string ∷ [])
    ≡ true
unfolding default_port_plain default_port_tls default_port_starttls explicit_port_overrides_default
    explicit_port_overrides_tls_default timeout_is_configurable default_timeout_is_30_seconds
    tls_mode_last_wins credentials_sets_login_auth apop_sets_apop_auth auth_last_wins
    hostname_stored_correctly hostname_from_string is_tls is_start_tls is_login is_apop new
    with_port with_timeout with_tls with_starttls with_credentials with_apop effective_port text_eq
builders_pass = refl
