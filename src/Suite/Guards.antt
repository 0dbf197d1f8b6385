-- ===== src/Suite/Guards.antt =====
-- The unit tests of src/client.rs on guards and accessors.
use rust_adv_pop.Prelude.{◌≡◌, refl, Bool, true, none, not, [], ◌∷◌, ◌++◌}
use rust_adv_pop.Text.{
  codes, cr, lf, crlf, is_white, is_ascii_white, text_eq, contains, strip_prefix, trim, chomp,
}
use rust_adv_pop.Error.{is_ok}
use rust_adv_pop.Response.{parse_resp_code, has_status, parse_status_line}
use rust_adv_pop.Transport
use rust_adv_pop.Transport.{
  set_closed, upgrading_error, on_stream, write_all, flush, send_command, read_from, read_line,
  is_end, unstuff, push_line, multiline_from, read_multiline, upgrade_in_place,
}
use rust_adv_pop.Client.{
  is_encrypted, is_closed, check_no_crlf, validate_message_id, require_auth, send_and_check, stls,
  stat, list, retr, dele,
}
use rust_adv_pop.Suite.{
  write, read, build_test_client, build_authenticated_test_client, ◌>>=◌, ◌>>◌, result_of, assert,
  assert_that, runs, passes, all_pass, is_err, fails, has_text, is_server_error,
  is_not_authenticated,
}

test_crlf_injection_rejected : Bool
test_crlf_injection_rejected = passes (do
  assert (is_ok (check_no_crlf (codes "normal")))
  assert (is_err (check_no_crlf (codes "has" ++ ((cr ∷ []) ++ (codes "newline")))))
  assert (is_err (check_no_crlf (codes "has" ++ ((lf ∷ []) ++ (codes "newline")))))
  assert (is_err (check_no_crlf (codes "has" ++ (crlf ++ (codes "both")))))
  assert (is_ok (check_no_crlf [])))

test_validate_message_id : Bool
test_validate_message_id = passes (do
  assert (is_ok (validate_message_id 1))
  assert (is_ok (validate_message_id 100))
  assert (is_err (validate_message_id 0)))

is_encrypted_returns_false_for_plain_client : Bool
is_encrypted_returns_false_for_plain_client =
    runs build_test_client [] (do assert_that (λ c. not (is_encrypted c)))

is_encrypted_returns_false_for_authenticated_client : Bool
is_encrypted_returns_false_for_authenticated_client =
    runs build_authenticated_test_client [] (do assert_that (λ c. not (is_encrypted c)))

is_closed_false_on_new_client : Bool
is_closed_false_on_new_client = runs build_test_client [] (do assert_that (λ c. not (is_closed c)))

is_closed_true_after_eof : Bool
is_closed_true_after_eof =
    runs build_authenticated_test_client (write "STAT" ∷ [])
      (do result ← result_of stat; assert (is_err result); assert_that is_closed)

stls_rejects_when_authenticated : Bool
stls_rejects_when_authenticated = runs build_authenticated_test_client [] (do
  result ← result_of (stls (codes "example.com"))
  assert (is_err result)
  assert (
      fails (is_server_error (λ msg. has_text (codes "not allowed after authentication") msg))
        result))

stls_rejects_server_err : Bool
stls_rejects_server_err =
    runs build_test_client (write "STLS" ∷ read ("-ERR STLS not supported" ∷ []) ∷ []) (do
      result ← result_of (stls (codes "example.com"))
      assert (fails (is_server_error (λ msg. true)) result))

stls_sends_command_correctly : Bool
stls_sends_command_correctly =
    runs build_test_client (write "STLS" ∷ read ("+OK begin TLS negotiation" ∷ []) ∷ [])
      (do result ← result_of (stls (codes "example.com")); assert (is_err result))

commands_require_authentication : Bool
commands_require_authentication = all_pass (
    runs build_test_client []
      (do result ← result_of stat; assert (fails is_not_authenticated result))
    ∷ runs build_test_client []
        (do result ← result_of (list none); assert (fails is_not_authenticated result))
    ∷ runs build_test_client []
        (do result ← result_of (retr 1); assert (fails is_not_authenticated result))
    ∷ runs build_test_client []
        (do result ← result_of (dele 1); assert (fails is_not_authenticated result))
    ∷ [])

guards_pass :
    all_pass (
      test_crlf_injection_rejected ∷ test_validate_message_id
      ∷ is_encrypted_returns_false_for_plain_client
      ∷ is_encrypted_returns_false_for_authenticated_client ∷ is_closed_false_on_new_client
      ∷ is_closed_true_after_eof ∷ stls_rejects_when_authenticated ∷ stls_rejects_server_err
      ∷ stls_sends_command_correctly ∷ commands_require_authentication ∷ [])
    ≡ true
unfolding test_crlf_injection_rejected test_validate_message_id
    is_encrypted_returns_false_for_plain_client is_encrypted_returns_false_for_authenticated_client
    is_closed_false_on_new_client is_closed_true_after_eof stls_rejects_when_authenticated
    stls_rejects_server_err stls_sends_command_correctly commands_require_authentication is_white
    is_ascii_white text_eq contains strip_prefix trim chomp parse_resp_code has_status
    parse_status_line send_command read_line upgrade_in_place is_encrypted is_closed check_no_crlf
    validate_message_id require_auth send_and_check stls stat list retr dele Transport.is_encrypted
    Transport.is_closed
guards_pass = refl
