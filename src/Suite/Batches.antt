-- ===== src/Suite/Batches.antt =====
-- The unit tests of src/client.rs on batches.
use rust_adv_pop.Prelude.{◌≡◌, refl, Bool, true, [], ◌∷◌, ◌++◌, length, ◌==◌}
use rust_adv_pop.Text.{
  codes, lf, is_white, is_ascii_white, text_eq, strip_prefix, trim, chomp, decimal,
}
use rust_adv_pop.Error.{is_ok}
use rust_adv_pop.Response.{parse_resp_code, has_status, parse_status_line}
use rust_adv_pop.Transport.{send_command, read_line, is_end, read_multiline}
use rust_adv_pop.Client.{validate_message_id, require_auth, send_and_check, retr, dele}
use rust_adv_pop.Client.Batch.{
  retr_many_pipelined, dele_many_pipelined, sequential, validate_all, retr_many, dele_many,
}
use rust_adv_pop.Suite.{
  write, read, build_test_client, build_authenticated_test_client,
  build_authenticated_test_client_with_pipelining, ◌>>=◌, ◌>>◌, unwrap, result_of, assert, runs,
  all_pass, is_err, holds_ok, fails, at, all_of, is_empty, is_not_authenticated, is_invalid_input,
}

retr_many_sequential_fallback : Bool
retr_many_sequential_fallback =
    runs build_authenticated_test_client
      (write "RETR 1"
        ∷ read ("+OK" ∷ [])
        ∷ read ("message 1 body" ∷ [])
        ∷ read ("." ∷ [])
        ∷ write "RETR 2"
        ∷ read ("+OK" ∷ [])
        ∷ read ("message 2 body" ∷ [])
        ∷ read ("." ∷ [])
        ∷ [])
      (do
        results ← unwrap (retr_many (1 ∷ 2 ∷ []))
        assert (length results == 2)
        assert (at 0 is_ok results)
        assert (at 1 is_ok results)
        assert
            (at 0 (holds_ok (λ x. text_eq x.body (codes "message 1 body" ++ ((lf ∷ []))))) results)
        assert
            (at 1 (holds_ok (λ x. text_eq x.body (codes "message 2 body" ++ ((lf ∷ []))))) results))

dele_many_sequential_fallback : Bool
dele_many_sequential_fallback =
    runs build_authenticated_test_client
      (write "DELE 1"
        ∷ read ("+OK message 1 deleted" ∷ [])
        ∷ write "DELE 2"
        ∷ read ("+OK message 2 deleted" ∷ [])
        ∷ [])
      (do
        results ← unwrap (dele_many (1 ∷ 2 ∷ []))
        assert (length results == 2)
        assert (at 0 is_ok results)
        assert (at 1 is_ok results))

retr_many_pipelined_path : Bool
retr_many_pipelined_path =
    runs build_authenticated_test_client_with_pipelining
      (write "RETR 1"
        ∷ write "RETR 2"
        ∷ write "RETR 3"
        ∷ read ("+OK" ∷ [])
        ∷ read ("body 1" ∷ [])
        ∷ read ("." ∷ [])
        ∷ read ("+OK" ∷ [])
        ∷ read ("body 2" ∷ [])
        ∷ read ("." ∷ [])
        ∷ read ("+OK" ∷ [])
        ∷ read ("body 3" ∷ [])
        ∷ read ("." ∷ [])
        ∷ [])
      (do
        results ← unwrap (retr_many (1 ∷ 2 ∷ 3 ∷ []))
        assert (length results == 3)
        assert (at 0 (holds_ok (λ x. text_eq x.body (codes "body 1" ++ ((lf ∷ []))))) results)
        assert (at 1 (holds_ok (λ x. text_eq x.body (codes "body 2" ++ ((lf ∷ []))))) results)
        assert (at 2 (holds_ok (λ x. text_eq x.body (codes "body 3" ++ ((lf ∷ []))))) results))

dele_many_pipelined_path : Bool
dele_many_pipelined_path =
    runs build_authenticated_test_client_with_pipelining
      (write "DELE 1"
        ∷ write "DELE 2"
        ∷ write "DELE 3"
        ∷ read ("+OK message 1 deleted" ∷ [])
        ∷ read ("+OK message 2 deleted" ∷ [])
        ∷ read ("+OK message 3 deleted" ∷ [])
        ∷ [])
      (do
        results ← unwrap (dele_many (1 ∷ 2 ∷ 3 ∷ []))
        assert (length results == 3)
        assert (all_of is_ok results))

retr_many_pipelined_per_item_error : Bool
retr_many_pipelined_per_item_error =
    runs build_authenticated_test_client_with_pipelining
      (write "RETR 1"
        ∷ write "RETR 2"
        ∷ write "RETR 3"
        ∷ read ("+OK" ∷ [])
        ∷ read ("body 1" ∷ [])
        ∷ read ("." ∷ [])
        ∷ read ("-ERR no such message" ∷ [])
        ∷ read ("+OK" ∷ [])
        ∷ read ("body 3" ∷ [])
        ∷ read ("." ∷ [])
        ∷ [])
      (do
        results ← unwrap (retr_many (1 ∷ 2 ∷ 3 ∷ []))
        assert (length results == 3)
        assert (at 0 is_ok results)
        assert (at 1 is_err results)
        assert (at 2 is_ok results))

dele_many_pipelined_per_item_error : Bool
dele_many_pipelined_per_item_error =
    runs build_authenticated_test_client_with_pipelining
      (write "DELE 1"
        ∷ write "DELE 2"
        ∷ read ("+OK deleted" ∷ [])
        ∷ read ("-ERR message already deleted" ∷ [])
        ∷ [])
      (do
        results ← unwrap (dele_many (1 ∷ 2 ∷ []))
        assert (length results == 2)
        assert (at 0 is_ok results)
        assert (at 1 is_err results))

retr_many_rejects_zero_id : Bool
retr_many_rejects_zero_id =
    runs build_authenticated_test_client []
      (do result ← result_of (retr_many (1 ∷ 0 ∷ 3 ∷ [])); assert (fails is_invalid_input result))

dele_many_rejects_zero_id : Bool
dele_many_rejects_zero_id =
    runs build_authenticated_test_client []
      (do result ← result_of (dele_many (0 ∷ [])); assert (fails is_invalid_input result))

retr_many_empty_ids_returns_empty : Bool
retr_many_empty_ids_returns_empty =
    runs build_authenticated_test_client []
      (do results ← unwrap (retr_many []); assert (is_empty results))

retr_many_requires_auth : Bool
retr_many_requires_auth =
    runs build_test_client []
      (do result ← result_of (retr_many (1 ∷ [])); assert (fails is_not_authenticated result))

dele_many_requires_auth : Bool
dele_many_requires_auth =
    runs build_test_client []
      (do result ← result_of (dele_many (1 ∷ [])); assert (fails is_not_authenticated result))

retr_many_windowed_8_messages : Bool
retr_many_windowed_8_messages =
    runs build_authenticated_test_client_with_pipelining
      (write "RETR 1"
        ∷ write "RETR 2"
        ∷ write "RETR 3"
        ∷ write "RETR 4"
        ∷ read ("+OK" ∷ [])
        ∷ read ("body1" ∷ [])
        ∷ read ("." ∷ [])
        ∷ read ("+OK" ∷ [])
        ∷ read ("body2" ∷ [])
        ∷ read ("." ∷ [])
        ∷ read ("+OK" ∷ [])
        ∷ read ("body3" ∷ [])
        ∷ read ("." ∷ [])
        ∷ read ("+OK" ∷ [])
        ∷ read ("body4" ∷ [])
        ∷ read ("." ∷ [])
        ∷ write "RETR 5"
        ∷ write "RETR 6"
        ∷ write "RETR 7"
        ∷ write "RETR 8"
        ∷ read ("+OK" ∷ [])
        ∷ read ("body5" ∷ [])
        ∷ read ("." ∷ [])
        ∷ read ("+OK" ∷ [])
        ∷ read ("body6" ∷ [])
        ∷ read ("." ∷ [])
        ∷ read ("+OK" ∷ [])
        ∷ read ("body7" ∷ [])
        ∷ read ("." ∷ [])
        ∷ read ("+OK" ∷ [])
        ∷ read ("body8" ∷ [])
        ∷ read ("." ∷ [])
        ∷ [])
      (do
        results ← unwrap (retr_many (1 ∷ 2 ∷ 3 ∷ 4 ∷ 5 ∷ 6 ∷ 7 ∷ 8 ∷ []))
        assert (length results == 8)
        assert (all_of is_ok results))

batches_pass :
    all_pass (
      retr_many_sequential_fallback ∷ dele_many_sequential_fallback ∷ retr_many_pipelined_path
      ∷ dele_many_pipelined_path ∷ retr_many_pipelined_per_item_error
      ∷ dele_many_pipelined_per_item_error ∷ retr_many_rejects_zero_id ∷ dele_many_rejects_zero_id
      ∷ retr_many_empty_ids_returns_empty ∷ retr_many_requires_auth ∷ dele_many_requires_auth
      ∷ retr_many_windowed_8_messages ∷ [])
    ≡ true
unfolding retr_many_sequential_fallback dele_many_sequential_fallback retr_many_pipelined_path
    dele_many_pipelined_path retr_many_pipelined_per_item_error dele_many_pipelined_per_item_error
    retr_many_rejects_zero_id dele_many_rejects_zero_id retr_many_empty_ids_returns_empty
    retr_many_requires_auth dele_many_requires_auth retr_many_windowed_8_messages is_white
    is_ascii_white text_eq strip_prefix trim chomp decimal parse_resp_code has_status
    parse_status_line send_command read_line is_end read_multiline validate_message_id require_auth
    send_and_check retr dele retr_many_pipelined dele_many_pipelined sequential validate_all
    retr_many dele_many
batches_pass = refl
