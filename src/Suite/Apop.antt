-- ===== src/Suite/Apop.antt =====
-- The unit tests of src/client.rs on APOP.
use rust_adv_pop.Prelude.{◌≡◌, refl, Bool, true, [], ◌∷◌, ◌++◌}
use rust_adv_pop.Text.{
  codes, crlf, is_white, is_ascii_white, text_eq, contains, cut_at, strip_prefix, trim, chomp,
}
use rust_adv_pop.Response.{parse_resp_code, has_status, parse_status_line}
use rust_adv_pop.Transport.{send_command, read_line, is_end, read_multiline}
use rust_adv_pop.Client.{
  state, check_no_crlf, extract_apop_timestamp, compute_apop_digest, require_connected,
  send_and_check, capa, promote, set_state, probe, timestamp_of, apop_digest, apop, is_connected,
  is_authenticated,
}
use rust_adv_pop.Suite.{
  write, read, build_authenticated_test_client, build_test_client_with_greeting, ◌>>=◌, ◌>>◌,
  unwrap, result_of, assert, assert_that, runs, passes, all_pass, fails, has_text, is_server_error,
  is_auth_failed, is_mailbox_in_use, is_not_authenticated, is_invalid_input, is_none, is_text,
  vector,
}

apop_happy_path : Bool
apop_happy_path =
    runs (build_test_client_with_greeting "POP3 server ready <1896.697170952@dbc.mtview.ca.us>")
      (write "APOP mrose c4c9334bac560ecc979e58001b3e22fb"
        ∷ read ("+OK mastrstrmt mastrstrmt is strstrmt" ∷ [])
        ∷ write "CAPA"
        ∷ read ("+OK" ∷ [])
        ∷ read ("." ∷ [])
        ∷ [])
      (do
        unwrap (apop vector (codes "mrose") (codes "tanstaaf"))
        assert_that (λ c. is_authenticated (state c)))

apop_no_timestamp_in_greeting : Bool
apop_no_timestamp_in_greeting = runs (build_test_client_with_greeting "POP3 server ready") [] (do
  result ← result_of (apop vector (codes "user") (codes "pass"))
  assert (fails (is_server_error (λ msg. has_text (codes "no timestamp") msg)) result))

apop_server_rejects_returns_auth_failed : Bool
apop_server_rejects_returns_auth_failed =
    runs (build_test_client_with_greeting "ready <1896.697170952@dbc.mtview.ca.us>")
      (write "APOP user c4c9334bac560ecc979e58001b3e22fb"
        ∷ read ("-ERR permission denied" ∷ [])
        ∷ [])
      (do
        result ← result_of (apop vector (codes "user") (codes "tanstaaf"))
        assert (fails (is_auth_failed (λ msg. has_text (codes "permission denied") msg)) result)
        assert_that (λ c. is_connected (state c)))

apop_with_auth_resp_code_returns_auth_failed : Bool
apop_with_auth_resp_code_returns_auth_failed =
    runs (build_test_client_with_greeting "ready <1896.697170952@dbc.mtview.ca.us>")
      (write "APOP user c4c9334bac560ecc979e58001b3e22fb"
        ∷ read ("-ERR [AUTH] invalid credentials" ∷ [])
        ∷ [])
      (do
        result ← result_of (apop vector (codes "user") (codes "tanstaaf"))
        assert (fails (is_auth_failed (λ msg. text_eq msg (codes "invalid credentials"))) result))

apop_with_in_use_resp_code_does_not_promote : Bool
apop_with_in_use_resp_code_does_not_promote =
    runs (build_test_client_with_greeting "ready <1896.697170952@dbc.mtview.ca.us>")
      (write "APOP user c4c9334bac560ecc979e58001b3e22fb"
        ∷ read ("-ERR [IN-USE] mailbox locked" ∷ [])
        ∷ [])
      (do
        result ← result_of (apop vector (codes "user") (codes "tanstaaf"))
        assert (fails (is_mailbox_in_use (λ msg. text_eq msg (codes "mailbox locked"))) result))

apop_rejects_when_already_authenticated : Bool
apop_rejects_when_already_authenticated = runs build_authenticated_test_client [] (do
  result ← result_of (apop vector (codes "user") (codes "pass"))
  assert (fails is_not_authenticated result))

apop_rejects_crlf_in_username : Bool
apop_rejects_crlf_in_username =
    runs (build_test_client_with_greeting "ready <timestamp@host>") [] (do
      result ← result_of (apop vector (codes "user" ++ (crlf)) (codes "pass"))
      assert (fails is_invalid_input result))

apop_rejects_crlf_in_password : Bool
apop_rejects_crlf_in_password =
    runs (build_test_client_with_greeting "ready <timestamp@host>") [] (do
      result ← result_of (apop vector (codes "user") (codes "pass" ++ (crlf)))
      assert (fails is_invalid_input result))

extract_apop_timestamp_from_greeting : Bool
extract_apop_timestamp_from_greeting = passes (do
  assert (
      is_text (codes "<1896.697170952@dbc.mtview.ca.us>")
        (extract_apop_timestamp (codes "POP3 server ready <1896.697170952@dbc.mtview.ca.us>"))))

extract_apop_timestamp_at_beginning : Bool
extract_apop_timestamp_at_beginning = passes (do
  assert (is_text (codes "<ts@host>") (extract_apop_timestamp (codes "<ts@host> POP3 ready"))))

extract_apop_timestamp_missing : Bool
extract_apop_timestamp_missing =
    passes (do assert (is_none (extract_apop_timestamp (codes "POP3 server ready"))))

extract_apop_timestamp_no_close_bracket : Bool
extract_apop_timestamp_no_close_bracket =
    passes (do assert (is_none (extract_apop_timestamp (codes "POP3 <broken"))))

apop_pass :
    all_pass (
      apop_happy_path ∷ apop_no_timestamp_in_greeting ∷ apop_server_rejects_returns_auth_failed
      ∷ apop_with_auth_resp_code_returns_auth_failed ∷ apop_with_in_use_resp_code_does_not_promote
      ∷ apop_rejects_when_already_authenticated ∷ apop_rejects_crlf_in_username
      ∷ apop_rejects_crlf_in_password ∷ extract_apop_timestamp_from_greeting
      ∷ extract_apop_timestamp_at_beginning ∷ extract_apop_timestamp_missing
      ∷ extract_apop_timestamp_no_close_bracket ∷ [])
    ≡ true
unfolding apop_happy_path apop_no_timestamp_in_greeting apop_server_rejects_returns_auth_failed
    apop_with_auth_resp_code_returns_auth_failed apop_with_in_use_resp_code_does_not_promote
    apop_rejects_when_already_authenticated apop_rejects_crlf_in_username
    apop_rejects_crlf_in_password extract_apop_timestamp_from_greeting
    extract_apop_timestamp_at_beginning extract_apop_timestamp_missing
    extract_apop_timestamp_no_close_bracket is_white is_ascii_white text_eq contains cut_at
    strip_prefix trim chomp parse_resp_code has_status parse_status_line send_command read_line
    is_end read_multiline state check_no_crlf extract_apop_timestamp compute_apop_digest
    require_connected send_and_check capa promote set_state probe timestamp_of apop_digest apop
apop_pass = refl
