-- ===== src/Suite/Statuses.antt =====
-- The unit tests of src/response.rs on status lines.
use rust_adv_pop.Prelude.{◌≡◌, refl, Bool, true, [], ◌∷◌, ◌++◌}
use rust_adv_pop.Text.{
  codes, crlf, is_white, is_ascii_white, text_eq, cut_at, strip_prefix, trim_start, chomp,
}
use rust_adv_pop.Exec.{lift}
use rust_adv_pop.Response.{parse_resp_code, has_status, parse_status_line}
use rust_adv_pop.Suite.{
  ◌>>=◌, ◌>>◌, result_of, assert, passes, all_pass, is_err, holds_ok, fails, is_server_error,
  is_auth_failed, is_mailbox_in_use, is_login_delay, is_sys_temp, is_sys_perm, is_parse,
}

test_parse_status_ok : Bool
test_parse_status_ok = passes (do
  result ← result_of (lift (parse_status_line (codes "+OK server ready" ++ (crlf))))
  assert (holds_ok (λ x. text_eq x (codes "server ready")) result))

test_parse_status_ok_empty : Bool
test_parse_status_ok_empty = passes (do
  result ← result_of (lift (parse_status_line (codes "+OK" ++ (crlf))))
  assert (holds_ok (λ x. text_eq x []) result))

test_parse_status_err : Bool
test_parse_status_err = passes (do
  result ← result_of (lift (parse_status_line (codes "-ERR invalid password" ++ (crlf))))
  assert (is_err result)
  assert (fails (is_server_error (λ msg. text_eq msg (codes "invalid password"))) result))

test_parse_status_unexpected : Bool
test_parse_status_unexpected = passes (do
  result ← result_of (lift (parse_status_line (codes "GARBAGE" ++ (crlf))))
  assert (is_err result)
  assert (fails (is_parse (λ msg. true)) result))

test_parse_status_rejects_okay : Bool
test_parse_status_rejects_okay = passes (do
  result ← result_of (lift (parse_status_line (codes "+OKAY" ++ (crlf))))
  assert (is_err result)
  assert (fails (is_parse (λ msg. true)) result))

test_parse_status_rejects_error : Bool
test_parse_status_rejects_error = passes (do
  result ← result_of (lift (parse_status_line (codes "-ERROR" ++ (crlf))))
  assert (is_err result)
  assert (fails (is_parse (λ msg. true)) result))

test_parse_status_resp_code_in_use : Bool
test_parse_status_resp_code_in_use = passes (do
  result ←
      result_of (
        lift
          (parse_status_line (codes "-ERR [IN-USE] mailbox locked by another session" ++ (crlf))))
  assert (
      fails (is_mailbox_in_use (λ msg. text_eq msg (codes "mailbox locked by another session")))
        result))

test_parse_status_resp_code_login_delay : Bool
test_parse_status_resp_code_login_delay = passes (do
  result ←
      result_of
        (lift (parse_status_line (codes "-ERR [LOGIN-DELAY] try again in 60 seconds" ++ (crlf))))
  assert (fails (is_login_delay (λ msg. text_eq msg (codes "try again in 60 seconds"))) result))

test_parse_status_resp_code_sys_temp : Bool
test_parse_status_resp_code_sys_temp = passes (do
  result ← result_of (lift (parse_status_line (codes "-ERR [SYS/TEMP] disk full" ++ (crlf))))
  assert (fails (is_sys_temp (λ msg. text_eq msg (codes "disk full"))) result))

test_parse_status_resp_code_sys_perm : Bool
test_parse_status_resp_code_sys_perm = passes (do
  result ←
      result_of (lift (parse_status_line (codes "-ERR [SYS/PERM] user account disabled" ++ (crlf))))
  assert (fails (is_sys_perm (λ msg. text_eq msg (codes "user account disabled"))) result))

test_parse_status_resp_code_auth : Bool
test_parse_status_resp_code_auth = passes (do
  result ← result_of (lift (parse_status_line (codes "-ERR [AUTH] invalid credentials" ++ (crlf))))
  assert (fails (is_auth_failed (λ msg. text_eq msg (codes "invalid credentials"))) result))

test_parse_status_resp_code_unknown_falls_through : Bool
test_parse_status_resp_code_unknown_falls_through = passes (do
  result ←
      result_of
        (lift (parse_status_line (codes "-ERR [UNKNOWN-CODE] something happened" ++ (crlf))))
  assert (
      fails (is_server_error (λ msg. text_eq msg (codes "[UNKNOWN-CODE] something happened")))
        result))

test_parse_status_plain_err_still_works : Bool
test_parse_status_plain_err_still_works = passes (do
  result ← result_of (lift (parse_status_line (codes "-ERR bad command" ++ (crlf))))
  assert (fails (is_server_error (λ msg. text_eq msg (codes "bad command"))) result))

statuses_pass :
    all_pass (
      test_parse_status_ok ∷ test_parse_status_ok_empty ∷ test_parse_status_err
      ∷ test_parse_status_unexpected ∷ test_parse_status_rejects_okay
      ∷ test_parse_status_rejects_error ∷ test_parse_status_resp_code_in_use
      ∷ test_parse_status_resp_code_login_delay ∷ test_parse_status_resp_code_sys_temp
      ∷ test_parse_status_resp_code_sys_perm ∷ test_parse_status_resp_code_auth
      ∷ test_parse_status_resp_code_unknown_falls_through ∷ test_parse_status_plain_err_still_works
      ∷ [])
    ≡ true
unfolding test_parse_status_ok test_parse_status_ok_empty test_parse_status_err
    test_parse_status_unexpected test_parse_status_rejects_okay test_parse_status_rejects_error
    test_parse_status_resp_code_in_use test_parse_status_resp_code_login_delay
    test_parse_status_resp_code_sys_temp test_parse_status_resp_code_sys_perm
    test_parse_status_resp_code_auth test_parse_status_resp_code_unknown_falls_through
    test_parse_status_plain_err_still_works is_white is_ascii_white text_eq cut_at strip_prefix
    trim_start chomp parse_resp_code has_status parse_status_line
statuses_pass = refl
