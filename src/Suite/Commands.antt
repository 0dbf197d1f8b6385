-- ===== src/Suite/Commands.antt =====
-- The unit tests of src/client.rs on single commands.
use rust_adv_pop.Prelude.{◌≡◌, refl, Bool, true, none, some, not, [], ◌∷◌, length, ◌==◌}
use rust_adv_pop.Text.{
  codes, is_white, is_ascii_white, text_eq, strip_prefix, trim, split_whitespace, chomp, lines,
  decimal, parse_uint,
}
use rust_adv_pop.Response.{
  parse_resp_code, has_status, parse_status_line, parse_stat, parse_list_entry, parse_uidl_entry,
  collect_lines, parse_list_multi, parse_list_single, parse_uidl_multi, parse_uidl_single,
  parse_capa,
}
use rust_adv_pop.Transport.{set_closed, send_command, read_line, is_end, read_multiline}
use rust_adv_pop.Client.{
  state, validate_message_id, require_auth, send_and_check, capa, stat, list, uidl, retr, dele,
  rset, noop, top, quit, is_authenticated,
}
use rust_adv_pop.Suite.{
  write, read, build_test_client, build_authenticated_test_client, ◌>>=◌, ◌>>◌, unwrap, result_of,
  assert, assert_that, runs, all_pass, is_err, fails, at, has_text, is_server_error,
}

rset_sends_correct_command_fix01 : Bool
rset_sends_correct_command_fix01 =
    runs build_authenticated_test_client (write "RSET" ∷ read ("+OK" ∷ []) ∷ []) (do unwrap rset)

noop_sends_correct_command_fix02 : Bool
noop_sends_correct_command_fix02 =
    runs build_authenticated_test_client (write "NOOP" ∷ read ("+OK" ∷ []) ∷ []) (do unwrap noop)

list_single_round_trip_fix04 : Bool
list_single_round_trip_fix04 =
    runs build_authenticated_test_client (write "LIST 1" ∷ read ("+OK 1 1234" ∷ []) ∷ []) (do
      entries ← unwrap (list (some 1))
      assert (length entries == 1)
      assert (at 0 (λ x. x.message_id == 1) entries)
      assert (at 0 (λ x. x.size == 1234) entries))

stat_happy_path : Bool
stat_happy_path =
    runs build_authenticated_test_client (write "STAT" ∷ read ("+OK 5 12345" ∷ []) ∷ [])
      (do stat ← unwrap stat; assert (stat.message_count == 5); assert (stat.mailbox_size == 12345))

stat_server_error : Bool
stat_server_error =
    runs build_authenticated_test_client (write "STAT" ∷ read ("-ERR mailbox locked" ∷ []) ∷ []) (do
      result ← result_of stat
      assert (is_err result)
      assert (fails (is_server_error (λ msg. has_text (codes "mailbox locked") msg)) result))

list_single_happy_path : Bool
list_single_happy_path =
    runs build_authenticated_test_client (write "LIST 1" ∷ read ("+OK 1 1234" ∷ []) ∷ []) (do
      entries ← unwrap (list (some 1))
      assert (length entries == 1)
      assert (at 0 (λ x. x.message_id == 1) entries)
      assert (at 0 (λ x. x.size == 1234) entries))

list_single_server_error : Bool
list_single_server_error =
    runs build_authenticated_test_client (write "LIST 99" ∷ read ("-ERR no such message" ∷ []) ∷ [])
      (do
        result ← result_of (list (some 99))
        assert (is_err result)
        assert (fails (is_server_error (λ msg. has_text (codes "no such message") msg)) result))

list_all_happy_path : Bool
list_all_happy_path =
    runs build_authenticated_test_client
      (write "LIST" ∷ read ("+OK" ∷ "1 100" ∷ "2 200" ∷ "." ∷ []) ∷ [])
      (do
        entries ← unwrap (list none)
        assert (length entries == 2)
        assert (at 0 (λ x. x.message_id == 1) entries)
        assert (at 0 (λ x. x.size == 100) entries)
        assert (at 1 (λ x. x.message_id == 2) entries)
        assert (at 1 (λ x. x.size == 200) entries))

retr_happy_path : Bool
retr_happy_path =
    runs build_authenticated_test_client
      (write "RETR 1" ∷ read ("+OK" ∷ "Subject: Test" ∷ "" ∷ "Body line 1" ∷ "." ∷ []) ∷ [])
      (do
        msg ← unwrap (retr 1)
        assert (has_text (codes "Subject: Test") msg.body)
        assert (has_text (codes "Body line 1") msg.body))

retr_server_error : Bool
retr_server_error =
    runs build_authenticated_test_client (write "RETR 1" ∷ read ("-ERR no such message" ∷ []) ∷ [])
      (do
        result ← result_of (retr 1)
        assert (is_err result)
        assert (fails (is_server_error (λ msg. true)) result))

retr_dot_unstuffing : Bool
retr_dot_unstuffing =
    runs build_authenticated_test_client
      (write "RETR 1" ∷ read ("+OK" ∷ "..This had a leading dot" ∷ "Normal line" ∷ "." ∷ []) ∷ [])
      (do
        msg ← unwrap (retr 1)
        assert (has_text (codes ".This had a leading dot") msg.body)
        assert (not (has_text (codes "..This") msg.body)))

dele_happy_path : Bool
dele_happy_path =
    runs build_authenticated_test_client (write "DELE 1" ∷ read ("+OK message deleted" ∷ []) ∷ [])
      (do unwrap (dele 1))

dele_server_error : Bool
dele_server_error =
    runs build_authenticated_test_client (write "DELE 1" ∷ read ("-ERR message locked" ∷ []) ∷ [])
      (do
        result ← result_of (dele 1)
        assert (is_err result)
        assert (fails (is_server_error (λ msg. true)) result))

uidl_single_happy_path : Bool
uidl_single_happy_path =
    runs build_authenticated_test_client (write "UIDL 1" ∷ read ("+OK 1 abc123" ∷ []) ∷ []) (do
      entries ← unwrap (uidl (some 1))
      assert (length entries == 1)
      assert (at 0 (λ x. x.message_id == 1) entries)
      assert (at 0 (λ x. text_eq x.unique_id (codes "abc123")) entries))

uidl_all_happy_path : Bool
uidl_all_happy_path =
    runs build_authenticated_test_client
      (write "UIDL" ∷ read ("+OK" ∷ "1 uid-a" ∷ "2 uid-b" ∷ "." ∷ []) ∷ [])
      (do
        entries ← unwrap (uidl none)
        assert (length entries == 2)
        assert (at 0 (λ x. x.message_id == 1) entries)
        assert (at 0 (λ x. text_eq x.unique_id (codes "uid-a")) entries)
        assert (at 1 (λ x. x.message_id == 2) entries)
        assert (at 1 (λ x. text_eq x.unique_id (codes "uid-b")) entries))

uidl_server_error : Bool
uidl_server_error =
    runs build_authenticated_test_client (write "UIDL 1" ∷ read ("-ERR" ∷ []) ∷ []) (do
      result ← result_of (uidl (some 1))
      assert (is_err result)
      assert (fails (is_server_error (λ msg. true)) result))

quit_happy_path : Bool
quit_happy_path =
    runs build_authenticated_test_client (write "QUIT" ∷ read ("+OK goodbye" ∷ []) ∷ [])
      (do unwrap quit)

quit_consumes_client : Bool
quit_consumes_client =
    runs build_authenticated_test_client (write "QUIT" ∷ read ("+OK goodbye" ∷ []) ∷ [])
      (do assert_that (λ c. is_authenticated (state c)); unwrap quit)

capa_happy_path : Bool
capa_happy_path =
    runs build_test_client
      (write "CAPA" ∷ read ("+OK" ∷ "TOP" ∷ "UIDL" ∷ "SASL PLAIN" ∷ "." ∷ []) ∷ [])
      (do caps ← unwrap capa; assert (length caps == 3))

capa_server_error : Bool
capa_server_error =
    runs build_test_client (write "CAPA" ∷ read ("-ERR not supported" ∷ []) ∷ []) (do
      result ← result_of capa
      assert (is_err result)
      assert (fails (is_server_error (λ msg. true)) result))

top_happy_path : Bool
top_happy_path =
    runs build_authenticated_test_client
      (write "TOP 1 5" ∷ read ("+OK" ∷ "Subject: Test" ∷ "" ∷ "First line" ∷ "." ∷ []) ∷ [])
      (do
        msg ← unwrap (top 1 5)
        assert (has_text (codes "Subject: Test") msg.body)
        assert (has_text (codes "First line") msg.body))

top_server_error : Bool
top_server_error =
    runs build_authenticated_test_client (write "TOP 1 5" ∷ read ("-ERR no such message" ∷ []) ∷ [])
      (do
        result ← result_of (top 1 5)
        assert (is_err result)
        assert (fails (is_server_error (λ msg. true)) result))

commands_pass :
    all_pass (
      rset_sends_correct_command_fix01 ∷ noop_sends_correct_command_fix02
      ∷ list_single_round_trip_fix04 ∷ stat_happy_path ∷ stat_server_error ∷ list_single_happy_path
      ∷ list_single_server_error ∷ list_all_happy_path ∷ retr_happy_path ∷ retr_server_error
      ∷ retr_dot_unstuffing ∷ dele_happy_path ∷ dele_server_error ∷ uidl_single_happy_path
      ∷ uidl_all_happy_path ∷ uidl_server_error ∷ quit_happy_path ∷ quit_consumes_client
      ∷ capa_happy_path ∷ capa_server_error ∷ top_happy_path ∷ top_server_error ∷ [])
    ≡ true
unfolding rset_sends_correct_command_fix01 noop_sends_correct_command_fix02
    list_single_round_trip_fix04 stat_happy_path stat_server_error list_single_happy_path
    list_single_server_error list_all_happy_path retr_happy_path retr_server_error
    retr_dot_unstuffing dele_happy_path dele_server_error uidl_single_happy_path uidl_all_happy_path
    uidl_server_error quit_happy_path quit_consumes_client capa_happy_path capa_server_error
    top_happy_path top_server_error is_white is_ascii_white text_eq strip_prefix trim
    split_whitespace chomp lines decimal parse_uint parse_resp_code has_status parse_status_line
    parse_stat parse_list_entry parse_uidl_entry collect_lines parse_list_multi parse_list_single
    parse_uidl_multi parse_uidl_single parse_capa set_closed send_command read_line is_end
    read_multiline state validate_message_id require_auth send_and_check capa stat list uidl retr
    dele rset noop top quit
commands_pass = refl
