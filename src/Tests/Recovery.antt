-- ===== src/Tests/Recovery.antt =====
-- Examples of reconnections.
use rust_adv_pop.Prelude.{ℕ, ◌≡◌, refl, true, none, List, [], ◌∷◌, ◌==◌, if◌then◌else◌}
use rust_adv_pop.Text.{
  codes, strip_prefix, chomp, trim_start, text_eq, contains, is_white, is_ascii_white,
}
use rust_adv_pop.Error.{server_error, ok, err}
use rust_adv_pop.Types.{authenticated}
use rust_adv_pop.Transport.{ReadEvent, send_command, read_line, connect_plain}
use rust_adv_pop.Response.{parse_status_line, has_status, parse_resp_code}
use rust_adv_pop.Client
use rust_adv_pop.Client.{Pop3Client}
use rust_adv_pop.Builder
use rust_adv_pop.Builder.{Pop3ClientBuilder, Network}
use rust_adv_pop.Reconnect.{
  fresh, reconnected, ReconnectingClient, connect_and_auth, do_reconnect, retried, retried_when,
  is_retryable, attempts, notices,
}
use rust_adv_pop.Reconnect.Retry.{plain_retry, plain_retry-RetryLaw, Renewed, do_reconnect-Renewed}
use rust_adv_pop.Reconnect.Credentials.{IsFailure, connect_and_auth-credentials}
use rust_adv_pop.Reconnect.Outcomes.{Told, retried-Reported, Failed, retried-Failed}
use rust_adv_pop.Tests.{said, client_on, digest, digest-hex, reached}

abbrev pub bare : Pop3ClientBuilder
bare = record {
  hostname = codes "host";
  port = none;
  timeout = 30;
  tls_mode = Builder.plain;
  auth = Builder.no_auth;
}

abbrev pub with_login : Pop3ClientBuilder
with_login = record bare { auth = Builder.login_auth (codes "ann") (codes "pw") }

-- A greeting, two answers to a login, and a refused CAPA.
abbrev pub login_script : List ReadEvent → List ReadEvent
login_script rest = said "+OK" ∷ said "+OK" ∷ said "+OK" ∷ said "-ERR" ∷ rest

connect_and_auth-credentials_example :
    IsFailure
      (connect_and_auth digest with_login (codes "ann") (codes "pw") (reached (login_script [])))
connect_and_auth-credentials_example =
    connect_and_auth-credentials digest with_login (codes "ann") (codes "pw")
      (reached (login_script [])) digest-hex (λ e. cc)

-- Its connection is gone: the server has closed it.
abbrev pub stale : ReconnectingClient
stale = record {
  builder = bare;
  username = codes "ann";
  password = codes "pw";
  client = client_on authenticated [];
  max_retries = 3;
  initial_delay = 1;
  max_delay = 30;
  jitter = true;
  on_reconnect = true;
  dialled = 1;
  notified = [];
}

-- The first attempt behind the loss fails, and the next one meets a server that answers NOOP twice.
abbrev pub networks : ℕ → Network
networks n = if n == 1 then reached [] else reached (login_script (said "+OK" ∷ said "+OK" ∷ []))

do_reconnect-Renewed_example :
    Renewed plain_retry digest networks stale (do_reconnect plain_retry digest networks stale)
do_reconnect-Renewed_example =
    do_reconnect-Renewed plain_retry digest networks stale plain_retry-RetryLaw

comes_back : (retried plain_retry digest networks Client.noop stale).0 ≡ ok (reconnected tt)
unfolding retried retried_when plain_retry do_reconnect attempts notices is_retryable
    connect_and_auth Builder.connect Builder.authenticate_by Client.connect Client.noop Client.login
    Client.user_pass Client.require_connected Client.require_auth Client.send_and_check
    Client.check_no_crlf Client.set_state Client.probe Client.capa send_command read_line
    connect_plain parse_status_line has_status parse_resp_code strip_prefix chomp trim_start text_eq
    contains is_white is_ascii_white Client.promote
comes_back = refl

retried-Reported_example :
    Told plain_retry digest networks Client.noop stale
      (reconnected tt)
      (retried plain_retry digest networks Client.noop stale).1
retried-Reported_example =
    retried-Reported plain_retry digest networks Client.noop stale (reconnected tt)
      plain_retry-RetryLaw comes_back

abbrev refusing : ReconnectingClient
refusing = record stale { client = client_on authenticated (said "-ERR no" ∷ []) }

fails :
    (retried plain_retry digest networks Client.noop refusing).0 ≡ err (server_error (codes "no"))
unfolding retried Client.noop Client.require_auth Client.send_and_check send_command read_line
    parse_status_line has_status parse_resp_code strip_prefix chomp trim_start text_eq is_white
    is_ascii_white is_retryable
fails = refl

retried-Failed_example :
    Failed plain_retry digest networks Client.noop refusing
      (server_error (codes "no"))
      (retried plain_retry digest networks Client.noop refusing).1
retried-Failed_example =
    retried-Failed plain_retry digest networks Client.noop refusing (server_error (codes "no"))
      plain_retry-RetryLaw fails

-- It takes a login, refuses one command and accepts the next.
abbrev pub moody : ℕ → Network
moody n = reached (login_script (said "-ERR gone" ∷ said "+OK" ∷ []))

-- A call that comes to a bare error behind a reconnection, and the next call, which says `Fresh`.
refused_behind :
    (retried plain_retry digest moody (Client.dele 1) stale).0 ≡ err (server_error (codes "gone"))
unfolding retried retried_when plain_retry do_reconnect attempts notices is_retryable
    connect_and_auth Builder.connect Builder.authenticate_by Client.connect Client.noop Client.dele
    Client.validate_message_id Client.login Client.user_pass Client.require_connected
    Client.require_auth Client.send_and_check Client.check_no_crlf Client.set_state Client.probe
    Client.capa send_command read_line connect_plain parse_status_line has_status parse_resp_code
    strip_prefix chomp trim_start text_eq contains is_white is_ascii_white Client.promote
refused_behind = refl

fresh_next :
    (retried plain_retry digest moody Client.noop
      (retried plain_retry digest moody (Client.dele 1) stale).1).0
    ≡ ok (fresh tt)
unfolding retried retried_when plain_retry do_reconnect attempts notices is_retryable
    connect_and_auth Builder.connect Builder.authenticate_by Client.connect Client.noop Client.dele
    Client.validate_message_id Client.login Client.user_pass Client.require_connected
    Client.require_auth Client.send_and_check Client.check_no_crlf Client.set_state Client.probe
    Client.capa send_command read_line connect_plain parse_status_line has_status parse_resp_code
    strip_prefix chomp trim_start text_eq contains is_white is_ascii_white Client.promote
fresh_next = refl
