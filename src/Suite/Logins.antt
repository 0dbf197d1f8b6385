-- ===== src/Suite/Logins.antt =====
-- The unit tests of src/client.rs on logins and the probe behind them.
use rust_adv_pop.Prelude.{◌≡◌, refl, Bool, true, not, [], ◌∷◌, ◌++◌}
use rust_adv_pop.Text.{
  codes, crlf, is_white, is_ascii_white, text_eq, contains, cut_at, strip_prefix, trim,
  split_whitespace, chomp, lines,
}
use rust_adv_pop.Error.{is_ok}
use rust_adv_pop.Response.{parse_resp_code, has_status, parse_status_line, parse_capa}
use rust_adv_pop.Transport.{send_command, read_line, is_end, read_multiline}
use rust_adv_pop.Client.{
  state, supports_pipelining, check_no_crlf, require_connected, send_and_check, capa,
  advertises_pipelining, promote, set_state, probe, user_pass, login, is_connected,
  is_authenticated,
}
use rust_adv_pop.Suite.{
  write, read, build_test_client, build_authenticated_test_client, ◌>>=◌, ◌>>◌, unwrap, result_of,
  assert, assert_that, runs, all_pass, is_err, fails, has_text, is_auth_failed, is_mailbox_in_use,
  is_not_authenticated, is_invalid_input,
}

login_sets_authenticated_after_pass_ok_fix03 : Bool
login_sets_authenticated_after_pass_ok_fix03 =
    runs build_test_client
      (write "USER user"
        ∷ read ("+OK" ∷ [])
        ∷ write "PASS pass"
        ∷ read ("+OK logged in" ∷ [])
        ∷ write "CAPA"
        ∷ read ("+OK" ∷ [])
        ∷ read ("." ∷ [])
        ∷ [])
      (do
        assert_that (λ c. is_connected (state c))
        unwrap (login (codes "user") (codes "pass"))
        assert_that (λ c. is_authenticated (state c)))

login_not_authenticated_when_pass_fails_fix03 : Bool
login_not_authenticated_when_pass_fails_fix03 =
    runs build_test_client
      (write "USER user"
        ∷ read ("+OK" ∷ [])
        ∷ write "PASS wrongpass"
        ∷ read ("-ERR invalid password" ∷ [])
        ∷ [])
      (do
        result ← result_of (login (codes "user") (codes "wrongpass"))
        assert (is_err result)
        assert_that (λ c. is_connected (state c))
        assert (fails (is_auth_failed (λ msg. text_eq msg (codes "invalid password"))) result))

login_happy_path : Bool
login_happy_path =
    runs build_test_client
      (write "USER alice"
        ∷ read ("+OK" ∷ [])
        ∷ write "PASS secret"
        ∷ read ("+OK logged in" ∷ [])
        ∷ write "CAPA"
        ∷ read ("+OK" ∷ [])
        ∷ read ("." ∷ [])
        ∷ [])
      (do
        result ← result_of (login (codes "alice") (codes "secret"))
        assert (is_ok result)
        assert_that (λ c. is_authenticated (state c)))

login_user_command_rejected_returns_auth_failed : Bool
login_user_command_rejected_returns_auth_failed =
    runs build_test_client (write "USER nobody" ∷ read ("-ERR no such user" ∷ []) ∷ []) (do
      result ← result_of (login (codes "nobody") (codes "pass"))
      assert (is_err result)
      assert_that (λ c. is_connected (state c))
      assert (fails (is_auth_failed (λ msg. has_text (codes "no such user") msg)) result))

login_rejects_crlf_in_username : Bool
login_rejects_crlf_in_username = runs build_test_client [] (do
  result ← result_of (login (codes "user" ++ (crlf ++ (codes "INJECT"))) (codes "pass"))
  assert (fails is_invalid_input result))

login_rejects_crlf_in_password : Bool
login_rejects_crlf_in_password = runs build_test_client [] (do
  result ← result_of (login (codes "user") (codes "pass" ++ (crlf ++ (codes "INJECT"))))
  assert (fails is_invalid_input result))

login_rejects_when_already_authenticated : Bool
login_rejects_when_already_authenticated = runs build_authenticated_test_client [] (do
  result ← result_of (login (codes "user") (codes "pass"))
  assert (fails is_not_authenticated result))

login_with_auth_resp_code_returns_auth_failed : Bool
login_with_auth_resp_code_returns_auth_failed =
    runs build_test_client
      (write "USER user"
        ∷ read ("+OK" ∷ [])
        ∷ write "PASS wrong"
        ∷ read ("-ERR [AUTH] invalid credentials" ∷ [])
        ∷ [])
      (do
        result ← result_of (login (codes "user") (codes "wrong"))
        assert (fails (is_auth_failed (λ msg. text_eq msg (codes "invalid credentials"))) result))

login_with_in_use_resp_code_returns_mailbox_in_use : Bool
login_with_in_use_resp_code_returns_mailbox_in_use =
    runs build_test_client
      (write "USER user"
        ∷ read ("+OK" ∷ [])
        ∷ write "PASS pass"
        ∷ read ("-ERR [IN-USE] mailbox locked" ∷ [])
        ∷ [])
      (do
        result ← result_of (login (codes "user") (codes "pass"))
        assert (fails (is_mailbox_in_use (λ msg. text_eq msg (codes "mailbox locked"))) result))

pipelining_detected_via_capa : Bool
pipelining_detected_via_capa =
    runs build_test_client
      (write "USER user"
        ∷ read ("+OK" ∷ [])
        ∷ write "PASS pass"
        ∷ read ("+OK logged in" ∷ [])
        ∷ write "CAPA"
        ∷ read ("+OK" ∷ [])
        ∷ read ("TOP" ∷ [])
        ∷ read ("UIDL" ∷ [])
        ∷ read ("PIPELINING" ∷ [])
        ∷ read ("." ∷ [])
        ∷ [])
      (do unwrap (login (codes "user") (codes "pass")); assert_that supports_pipelining)

pipelining_not_detected_without_capa_entry : Bool
pipelining_not_detected_without_capa_entry =
    runs build_test_client
      (write "USER user"
        ∷ read ("+OK" ∷ [])
        ∷ write "PASS pass"
        ∷ read ("+OK logged in" ∷ [])
        ∷ write "CAPA"
        ∷ read ("+OK" ∷ [])
        ∷ read ("TOP" ∷ [])
        ∷ read ("UIDL" ∷ [])
        ∷ read ("." ∷ [])
        ∷ [])
      (do
        unwrap (login (codes "user") (codes "pass"))
        assert_that (λ c. not (supports_pipelining c)))

pipelining_false_when_capa_fails : Bool
pipelining_false_when_capa_fails =
    runs build_test_client
      (write "USER user"
        ∷ read ("+OK" ∷ [])
        ∷ write "PASS pass"
        ∷ read ("+OK logged in" ∷ [])
        ∷ write "CAPA"
        ∷ read ("-ERR command not supported" ∷ [])
        ∷ [])
      (do
        unwrap (login (codes "user") (codes "pass"))
        assert_that (λ c. not (supports_pipelining c)))

supports_pipelining_false_before_login : Bool
supports_pipelining_false_before_login =
    runs build_test_client [] (do assert_that (λ c. not (supports_pipelining c)))

logins_pass :
    all_pass (
      login_sets_authenticated_after_pass_ok_fix03 ∷ login_not_authenticated_when_pass_fails_fix03
      ∷ login_happy_path ∷ login_user_command_rejected_returns_auth_failed
      ∷ login_rejects_crlf_in_username ∷ login_rejects_crlf_in_password
      ∷ login_rejects_when_already_authenticated ∷ login_with_auth_resp_code_returns_auth_failed
      ∷ login_with_in_use_resp_code_returns_mailbox_in_use ∷ pipelining_detected_via_capa
      ∷ pipelining_not_detected_without_capa_entry ∷ pipelining_false_when_capa_fails
      ∷ supports_pipelining_false_before_login ∷ [])
    ≡ true
unfolding login_sets_authenticated_after_pass_ok_fix03 login_not_authenticated_when_pass_fails_fix03
    login_happy_path login_user_command_rejected_returns_auth_failed login_rejects_crlf_in_username
    login_rejects_crlf_in_password login_rejects_when_already_authenticated
    login_with_auth_resp_code_returns_auth_failed login_with_in_use_resp_code_returns_mailbox_in_use
    pipelining_detected_via_capa pipelining_not_detected_without_capa_entry
    pipelining_false_when_capa_fails supports_pipelining_false_before_login is_white is_ascii_white
    text_eq contains cut_at strip_prefix trim split_whitespace chomp lines parse_resp_code
    has_status parse_status_line parse_capa send_command read_line is_end read_multiline state
    supports_pipelining check_no_crlf require_connected send_and_check capa advertises_pipelining
    promote set_state probe user_pass login
logins_pass = refl
