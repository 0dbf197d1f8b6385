-- ===== src/Suite/Flows.antt =====
-- The unit tests of src/client.rs on whole sessions.
use rust_adv_pop.Prelude.{◌≡◌, refl, Bool, true, none, [], ◌∷◌, length, ◌==◌}
use rust_adv_pop.Text.{
  codes, is_white, is_ascii_white, text_eq, contains, strip_prefix, trim, split_whitespace, chomp,
  lines, decimal, parse_uint,
}
use rust_adv_pop.Response.{
  has_status, parse_status_line, parse_stat, parse_list_entry, parse_uidl_entry, collect_lines,
  parse_list_multi, parse_uidl_multi, parse_capa,
}
use rust_adv_pop.Transport.{set_closed, send_command, read_line, is_end, read_multiline}
use rust_adv_pop.Client.{
  state, check_no_crlf, validate_message_id, require_auth, require_connected, send_and_check, capa,
  set_state, probe, user_pass, login, stat, list, uidl, retr, dele, rset, noop, top, quit,
  is_authenticated,
}
use rust_adv_pop.Suite.{
  write, read, build_test_client, ◌>>=◌, ◌>>◌, unwrap, assert, assert_that, runs, all_pass, at,
  any_of, has_text,
}

full_session_flow : Bool
full_session_flow =
    runs build_test_client
      (write "USER alice"
        ∷ read ("+OK" ∷ [])
        ∷ write "PASS secret"
        ∷ read ("+OK logged in" ∷ [])
        ∷ write "CAPA"
        ∷ read ("+OK" ∷ [])
        ∷ read ("." ∷ [])
        ∷ write "STAT"
        ∷ read ("+OK 2 5000" ∷ [])
        ∷ write "LIST"
        ∷ read ("+OK" ∷ "1 2500" ∷ "2 2500" ∷ "." ∷ [])
        ∷ write "RETR 1"
        ∷ read ("+OK" ∷ "Subject: Hello" ∷ "" ∷ "Body" ∷ "." ∷ [])
        ∷ write "QUIT"
        ∷ read ("+OK goodbye" ∷ [])
        ∷ [])
      (do
        unwrap (login (codes "alice") (codes "secret"))
        assert_that (λ c. is_authenticated (state c))
        stat ← unwrap stat
        assert (stat.message_count == 2)
        assert (stat.mailbox_size == 5000)
        entries ← unwrap (list none)
        assert (length entries == 2)
        assert (at 0 (λ x. x.size == 2500) entries)
        msg ← unwrap (retr 1)
        assert (has_text (codes "Subject: Hello") msg.body)
        unwrap quit)

capa_then_login_then_top_flow : Bool
capa_then_login_then_top_flow =
    runs build_test_client
      (write "CAPA"
        ∷ read ("+OK" ∷ "TOP" ∷ "UIDL" ∷ "SASL PLAIN" ∷ "STLS" ∷ "." ∷ [])
        ∷ write "USER bob"
        ∷ read ("+OK" ∷ [])
        ∷ write "PASS pass123"
        ∷ read ("+OK welcome" ∷ [])
        ∷ write "CAPA"
        ∷ read ("+OK" ∷ [])
        ∷ read ("TOP" ∷ [])
        ∷ read ("UIDL" ∷ [])
        ∷ read ("." ∷ [])
        ∷ write "TOP 1 3"
        ∷ read (
            "+OK" ∷ "From: sender@example.com" ∷ "Subject: Test" ∷ "" ∷ "Line 1" ∷ "Line 2"
            ∷ "Line 3" ∷ "." ∷ [])
        ∷ write "QUIT"
        ∷ read ("+OK bye" ∷ [])
        ∷ [])
      (do
        caps ← unwrap capa
        assert (length caps == 4)
        assert (any_of (λ x. text_eq x.name (codes "TOP")) caps)
        assert (any_of (λ x. text_eq x.name (codes "STLS")) caps)
        unwrap (login (codes "bob") (codes "pass123"))
        msg ← unwrap (top 1 3)
        assert (has_text (codes "From: sender@example.com") msg.body)
        assert (has_text (codes "Subject: Test") msg.body)
        assert (has_text (codes "Line 1") msg.body)
        assert (has_text (codes "Line 3") msg.body)
        unwrap quit)

uidl_then_dele_then_rset_flow : Bool
uidl_then_dele_then_rset_flow =
    runs build_test_client
      (write "USER user"
        ∷ read ("+OK" ∷ [])
        ∷ write "PASS pass"
        ∷ read ("+OK" ∷ [])
        ∷ write "CAPA"
        ∷ read ("+OK" ∷ [])
        ∷ read ("." ∷ [])
        ∷ write "UIDL"
        ∷ read ("+OK" ∷ "1 msg-aaa" ∷ "2 msg-bbb" ∷ "3 msg-ccc" ∷ "." ∷ [])
        ∷ write "DELE 2"
        ∷ read ("+OK message 2 deleted" ∷ [])
        ∷ write "RSET"
        ∷ read ("+OK" ∷ [])
        ∷ write "NOOP"
        ∷ read ("+OK" ∷ [])
        ∷ write "QUIT"
        ∷ read ("+OK" ∷ [])
        ∷ [])
      (do
        unwrap (login (codes "user") (codes "pass"))
        uids ← unwrap (uidl none)
        assert (length uids == 3)
        assert (at 1 (λ x. text_eq x.unique_id (codes "msg-bbb")) uids)
        unwrap (dele 2)
        unwrap rset
        unwrap noop
        unwrap quit)

flows_pass :
    all_pass
      (full_session_flow ∷ capa_then_login_then_top_flow ∷ uidl_then_dele_then_rset_flow ∷ [])
    ≡ true
unfolding full_session_flow capa_then_login_then_top_flow uidl_then_dele_then_rset_flow is_white
    is_ascii_white text_eq contains strip_prefix trim split_whitespace chomp lines decimal
    parse_uint has_status parse_status_line parse_stat parse_list_entry parse_uidl_entry
    collect_lines parse_list_multi parse_uidl_multi parse_capa set_closed send_command read_line
    is_end read_multiline state check_no_crlf validate_message_id require_auth require_connected
    send_and_check capa set_state probe user_pass login stat list uidl retr dele rset noop top quit
flows_pass = refl
