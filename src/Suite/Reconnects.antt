-- ===== src/Suite/Reconnects.antt =====
-- The unit tests of src/reconnect.rs.
use rust_adv_pop.Prelude.{
  ℕ, ◌≡◌, refl, Bool, true, false, not, ◌&&◌, Option, none, some, List, [], ◌∷◌, ◌==◌,
}
use rust_adv_pop.Text.{
  Text, codes, text_eq, strip_prefix, chomp, trim_start, trim_end_crlf, is_white, is_ascii_white,
  split_whitespace, words_from, parse_uint, scan, decimal, emit,
}
use rust_adv_pop.Error.{
  io, system, connection_closed, timeout, sys_temp, auth_failed, server_error, parse, invalid_input,
  tls, mailbox_in_use, sys_perm, login_delay, not_authenticated,
}
use rust_adv_pop.Response.{parse_status_line, has_status, parse_resp_code, parse_stat, number_field}
use rust_adv_pop.Transport
use rust_adv_pop.Transport.{send_command, read_line}
use rust_adv_pop.Client
use rust_adv_pop.Client.{Pop3Client, is_authenticated}
use rust_adv_pop.Builder
use rust_adv_pop.Builder.{Pop3ClientBuilder, Network}
use rust_adv_pop.Reconnect.{
  fresh, reconnected, into_inner, is_reconnected, is_retryable, new, ReconnectingClient, retried,
}
use rust_adv_pop.Reconnect.Commands.{
  stat, dele, noop, quit, state, greeting, is_encrypted, is_closed, supports_pipelining,
}
use rust_adv_pop.Reconnect.Retry.{plain_retry}
use rust_adv_pop.Suite.{
  MockStep, write, read, mock_transport, build_authenticated_test_client, Test, ◌>>=◌, ◌>>◌, unwrap,
  result_of, assert, assert_that, played, all_pass, fails, is_err, is_server_error, vector,
}

is_retryable_io_error : Bool
is_retryable_io_error = is_retryable (io (record { kind = system 104; message = codes "reset" }))

is_retryable_connection_closed : Bool
is_retryable_connection_closed = is_retryable connection_closed

is_retryable_timeout : Bool
is_retryable_timeout = is_retryable timeout

is_retryable_sys_temp : Bool
is_retryable_sys_temp = is_retryable (sys_temp (codes "transient"))

is_retryable_auth_failed : Bool
is_retryable_auth_failed = not (is_retryable (auth_failed (codes "bad pass")))

is_retryable_server_error : Bool
is_retryable_server_error = not (is_retryable (server_error (codes "no msg")))

is_retryable_parse_error : Bool
is_retryable_parse_error = not (is_retryable (parse (codes "bad resp")))

is_retryable_invalid_input : Bool
is_retryable_invalid_input = not (is_retryable invalid_input)

is_retryable_tls : Bool
is_retryable_tls = not (is_retryable (tls (codes "cert error")))

is_retryable_mailbox_in_use : Bool
is_retryable_mailbox_in_use = not (is_retryable (mailbox_in_use (codes "in use")))

outcome_fresh_into_inner : Bool
outcome_fresh_into_inner = into_inner (fresh 42) == 42

outcome_reconnected_into_inner : Bool
outcome_reconnected_into_inner = into_inner (reconnected 42) == 42

outcome_fresh_is_reconnected : Bool
outcome_fresh_is_reconnected = not (is_reconnected {A = ℕ} (fresh 0))

outcome_reconnected_is_reconnected : Bool
outcome_reconnected_is_reconnected = is_reconnected {A = ℕ} (reconnected 0)

is_retryable_sys_perm_false : Bool
is_retryable_sys_perm_false = not (is_retryable (sys_perm (codes "x")))

is_retryable_login_delay_false : Bool
is_retryable_login_delay_false = not (is_retryable (login_delay (codes "x")))

is_retryable_not_authenticated_false : Bool
is_retryable_not_authenticated_false = not (is_retryable not_authenticated)

reconnecting_builder_defaults : Bool
reconnecting_builder_defaults =
    let b = new (Builder.new (codes "localhost")) in
    b.max_retries == 3 && b.initial_delay == 1 && b.max_delay == 30 && b.jitter

unfoldable new_for_test : Pop3Client → Pop3ClientBuilder → Text → Text → ReconnectingClient
new_for_test client builder username password = record {
  client = client;
  builder = builder;
  username = username;
  password = password;
  max_retries = 3;
  initial_delay = 0;
  max_delay = 0;
  jitter = false;
  on_reconnect = false;
  dialled = 0;
  notified = [];
}

-- No test comes to a reconnection.
abbrev nowhere : ℕ → Network
nowhere n hostname port = record {
  refused = some (record { kind = system 111; message = codes "refused" });
  accepted = (mock_transport []).net;
}

abbrev verdict : List MockStep → Option (Unit {0} × ReconnectingClient) → Bool
verdict script none = false
verdict script (some (done, s)) = played script s.client.transport

abbrev reconnects : List MockStep → Test ReconnectingClient (Unit {0}) → Bool
reconnects script test = verdict script (
    test (
      new_for_test (build_authenticated_test_client script) (Builder.new (codes "localhost"))
        (codes "user") (codes "pass")))

stat_fresh_on_success : Bool
stat_fresh_on_success = reconnects (write "STAT" ∷ read ("+OK 3 512" ∷ []) ∷ []) (do
  outcome ← unwrap (stat plain_retry vector nowhere)
  assert (not (is_reconnected outcome))
  assert ((into_inner outcome).message_count == 3)
  assert ((into_inner outcome).mailbox_size == 512))

stat_propagates_server_error_immediately : Bool
stat_propagates_server_error_immediately =
    reconnects (write "STAT" ∷ read ("-ERR permission denied" ∷ []) ∷ []) (do
      result ← result_of (stat plain_retry vector nowhere)
      assert (fails (is_server_error (λ msg. true)) result))

dele_fresh_on_success : Bool
dele_fresh_on_success =
    reconnects (write "DELE 1" ∷ read ("+OK message deleted" ∷ []) ∷ []) (do
      outcome ← unwrap (dele plain_retry vector nowhere 1)
      assert (not (is_reconnected outcome)))

noop_fresh_on_success : Bool
noop_fresh_on_success =
    reconnects (write "NOOP" ∷ read ("+OK" ∷ []) ∷ [])
      (do outcome ← unwrap (noop plain_retry vector nowhere); assert (not (is_reconnected outcome)))

accessor_state_delegates_to_inner : Bool
accessor_state_delegates_to_inner = reconnects [] (do
  assert_that (λ s. is_authenticated (state s))
  assert_that (λ s. not (is_encrypted s))
  assert_that (λ s. not (is_closed s))
  assert_that (λ s. not (supports_pipelining s))
  assert_that (λ s. text_eq (greeting s) []))

-- `quit` consumes the reconnecting client.
quit_propagates_error_on_dead_connection : Bool
quit_propagates_error_on_dead_connection =
    is_err
      (quit (
        new_for_test (build_authenticated_test_client (write "QUIT" ∷ []))
          (Builder.new (codes "localhost")) (codes "user") (codes "pass"))).0

reconnects_pass :
    all_pass (
      is_retryable_io_error ∷ is_retryable_connection_closed ∷ is_retryable_timeout
      ∷ is_retryable_sys_temp ∷ is_retryable_auth_failed ∷ is_retryable_server_error
      ∷ is_retryable_parse_error ∷ is_retryable_invalid_input ∷ is_retryable_tls
      ∷ is_retryable_mailbox_in_use ∷ outcome_fresh_into_inner ∷ outcome_reconnected_into_inner
      ∷ outcome_fresh_is_reconnected ∷ outcome_reconnected_is_reconnected
      ∷ is_retryable_sys_perm_false ∷ is_retryable_login_delay_false
      ∷ is_retryable_not_authenticated_false ∷ reconnecting_builder_defaults ∷ stat_fresh_on_success
      ∷ stat_propagates_server_error_immediately ∷ dele_fresh_on_success ∷ noop_fresh_on_success
      ∷ accessor_state_delegates_to_inner ∷ quit_propagates_error_on_dead_connection ∷ [])
    ≡ true
unfolding is_retryable_io_error is_retryable_connection_closed is_retryable_timeout
    is_retryable_sys_temp is_retryable_auth_failed is_retryable_server_error
    is_retryable_parse_error is_retryable_invalid_input is_retryable_tls is_retryable_mailbox_in_use
    outcome_fresh_into_inner outcome_reconnected_into_inner outcome_fresh_is_reconnected
    outcome_reconnected_is_reconnected is_retryable_sys_perm_false is_retryable_login_delay_false
    is_retryable_not_authenticated_false reconnecting_builder_defaults stat_fresh_on_success
    stat_propagates_server_error_immediately dele_fresh_on_success noop_fresh_on_success
    accessor_state_delegates_to_inner quit_propagates_error_on_dead_connection new_for_test
    is_retryable into_inner is_reconnected new Builder.new stat dele noop quit state greeting
    is_encrypted is_closed supports_pipelining retried Client.stat Client.dele Client.noop
    Client.quit Client.greeting Client.is_encrypted Client.supports_pipelining Client.require_auth
    Client.validate_message_id Client.send_and_check Transport.is_encrypted send_command read_line
    parse_status_line has_status parse_resp_code parse_stat number_field chomp trim_end_crlf text_eq
    strip_prefix trim_start is_white is_ascii_white split_whitespace words_from parse_uint scan
    decimal emit
reconnects_pass = refl
