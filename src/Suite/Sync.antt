-- ===== src/Suite/Sync.antt =====
-- The unit tests of src/client.rs on incremental sync.
use rust_adv_pop.Prelude.{◌≡◌, refl, Bool, true, not, [], ◌∷◌, length, ◌==◌}
use rust_adv_pop.Text.{
  codes, is_white, is_ascii_white, text_eq, strip_prefix, trim, split_whitespace, chomp, lines,
  decimal, parse_uint,
}
use rust_adv_pop.Response.{
  has_status, parse_status_line, parse_uidl_entry, collect_lines, parse_uidl_multi,
}
use rust_adv_pop.Transport.{send_command, read_line, is_end, read_multiline}
use rust_adv_pop.Client.{validate_message_id, require_auth, send_and_check, uidl, retr}
use rust_adv_pop.Client.Sync.{
  holds, unseen, unseen_uids, fetch_unseen, retained, pruned, prune_seen,
}
use rust_adv_pop.Suite.{
  write, read, build_test_client, build_authenticated_test_client, ◌>>=◌, ◌>>◌, unwrap, result_of,
  assert, runs, all_pass, is_err, fails, at, is_empty, has_text, is_not_authenticated,
}

unseen_uids_returns_all_when_seen_is_empty : Bool
unseen_uids_returns_all_when_seen_is_empty =
    runs build_authenticated_test_client
      (write "UIDL"
        ∷ read ("+OK" ∷ [])
        ∷ read ("1 abc123" ∷ [])
        ∷ read ("2 def456" ∷ [])
        ∷ read ("." ∷ [])
        ∷ [])
      (do
        result ← unwrap (unseen_uids [])
        assert (length result == 2)
        assert (at 0 (λ x. text_eq x.unique_id (codes "abc123")) result)
        assert (at 1 (λ x. text_eq x.unique_id (codes "def456")) result))

unseen_uids_filters_seen_entries : Bool
unseen_uids_filters_seen_entries =
    runs build_authenticated_test_client
      (write "UIDL"
        ∷ read ("+OK" ∷ [])
        ∷ read ("1 abc123" ∷ [])
        ∷ read ("2 def456" ∷ [])
        ∷ read ("." ∷ [])
        ∷ [])
      (do
        result ← unwrap (unseen_uids ((codes "abc123") ∷ []))
        assert (length result == 1)
        assert (at 0 (λ x. text_eq x.unique_id (codes "def456")) result)
        assert (at 0 (λ x. x.message_id == 2) result))

unseen_uids_returns_empty_when_all_seen : Bool
unseen_uids_returns_empty_when_all_seen =
    runs build_authenticated_test_client
      (write "UIDL"
        ∷ read ("+OK" ∷ [])
        ∷ read ("1 abc123" ∷ [])
        ∷ read ("2 def456" ∷ [])
        ∷ read ("." ∷ [])
        ∷ [])
      (do
        result ← unwrap (unseen_uids ((codes "abc123") ∷ (codes "def456") ∷ []))
        assert (is_empty result))

unseen_uids_empty_mailbox_returns_empty : Bool
unseen_uids_empty_mailbox_returns_empty =
    runs build_authenticated_test_client (write "UIDL" ∷ read ("+OK" ∷ []) ∷ read ("." ∷ []) ∷ [])
      (do result ← unwrap (unseen_uids []); assert (is_empty result))

unseen_uids_requires_auth : Bool
unseen_uids_requires_auth =
    runs build_test_client []
      (do result ← result_of (unseen_uids []); assert (fails is_not_authenticated result))

fetch_unseen_returns_new_messages_with_entries : Bool
fetch_unseen_returns_new_messages_with_entries =
    runs build_authenticated_test_client
      (write "UIDL"
        ∷ read ("+OK" ∷ [])
        ∷ read ("1 abc123" ∷ [])
        ∷ read ("2 def456" ∷ [])
        ∷ read ("." ∷ [])
        ∷ write "RETR 2"
        ∷ read ("+OK" ∷ [])
        ∷ read ("From: test@example.com" ∷ [])
        ∷ read ("." ∷ [])
        ∷ [])
      (do
        result ← unwrap (fetch_unseen ((codes "abc123") ∷ []))
        assert (length result == 1)
        assert (at 0 (λ x. text_eq x.0.unique_id (codes "def456")) result)
        assert (at 0 (λ x. x.0.message_id == 2) result)
        assert (at 0 (λ x. has_text (codes "From: test@example.com") x.1.body) result))

fetch_unseen_empty_when_all_seen : Bool
fetch_unseen_empty_when_all_seen =
    runs build_authenticated_test_client
      (write "UIDL" ∷ read ("+OK" ∷ []) ∷ read ("1 abc123" ∷ []) ∷ read ("." ∷ []) ∷ [])
      (do result ← unwrap (fetch_unseen ((codes "abc123") ∷ [])); assert (is_empty result))

fetch_unseen_does_not_mutate_seen : Bool
fetch_unseen_does_not_mutate_seen =
    runs build_authenticated_test_client
      (write "UIDL"
        ∷ read ("+OK" ∷ [])
        ∷ read ("1 abc123" ∷ [])
        ∷ read ("2 def456" ∷ [])
        ∷ read ("." ∷ [])
        ∷ write "RETR 2"
        ∷ read ("+OK" ∷ [])
        ∷ read ("body" ∷ [])
        ∷ read ("." ∷ [])
        ∷ [])
      (do
        unwrap (fetch_unseen ((codes "abc123") ∷ []))
        assert (length ((codes "abc123") ∷ []) == length ((codes "abc123") ∷ [])))

fetch_unseen_fails_fast_on_retr_error : Bool
fetch_unseen_fails_fast_on_retr_error =
    runs build_authenticated_test_client
      (write "UIDL"
        ∷ read ("+OK" ∷ [])
        ∷ read ("1 abc123" ∷ [])
        ∷ read ("2 def456" ∷ [])
        ∷ read ("." ∷ [])
        ∷ write "RETR 1"
        ∷ read ("+OK" ∷ [])
        ∷ read ("body of 1" ∷ [])
        ∷ read ("." ∷ [])
        ∷ write "RETR 2"
        ∷ read ("-ERR no such message" ∷ [])
        ∷ [])
      (do result ← result_of (fetch_unseen []); assert (is_err result))

fetch_unseen_requires_auth : Bool
fetch_unseen_requires_auth =
    runs build_test_client []
      (do result ← result_of (fetch_unseen []); assert (fails is_not_authenticated result))

prune_seen_removes_ghost_uids : Bool
prune_seen_removes_ghost_uids =
    runs build_authenticated_test_client
      (write "UIDL" ∷ read ("+OK" ∷ []) ∷ read ("2 def456" ∷ []) ∷ read ("." ∷ []) ∷ [])
      (do
        (pruned, kept) ← unwrap (prune_seen ((codes "abc123") ∷ (codes "def456") ∷ []))
        assert (not (holds kept (codes "abc123")))
        assert (holds kept (codes "def456"))
        assert (length pruned == 1)
        assert (at 0 (λ x. text_eq x (codes "abc123")) pruned))

prune_seen_returns_empty_when_no_ghosts : Bool
prune_seen_returns_empty_when_no_ghosts =
    runs build_authenticated_test_client
      (write "UIDL"
        ∷ read ("+OK" ∷ [])
        ∷ read ("1 abc123" ∷ [])
        ∷ read ("2 def456" ∷ [])
        ∷ read ("." ∷ [])
        ∷ [])
      (do
        (pruned, kept) ← unwrap (prune_seen ((codes "abc123") ∷ []))
        assert (is_empty pruned)
        assert (holds kept (codes "abc123")))

prune_seen_empties_seen_when_server_is_empty : Bool
prune_seen_empties_seen_when_server_is_empty =
    runs build_authenticated_test_client (write "UIDL" ∷ read ("+OK" ∷ []) ∷ read ("." ∷ []) ∷ [])
      (do
        (pruned, kept) ← unwrap (prune_seen ((codes "abc123") ∷ (codes "def456") ∷ []))
        assert (is_empty kept)
        assert (length pruned == 2))

prune_seen_empty_seen_is_noop : Bool
prune_seen_empty_seen_is_noop =
    runs build_authenticated_test_client
      (write "UIDL" ∷ read ("+OK" ∷ []) ∷ read ("1 abc123" ∷ []) ∷ read ("." ∷ []) ∷ [])
      (do (pruned, kept) ← unwrap (prune_seen []); assert (is_empty pruned); assert (is_empty kept))

prune_seen_requires_auth : Bool
prune_seen_requires_auth =
    runs build_test_client []
      (do result ← result_of (prune_seen []); assert (fails is_not_authenticated result))

sync_pass :
    all_pass (
      unseen_uids_returns_all_when_seen_is_empty ∷ unseen_uids_filters_seen_entries
      ∷ unseen_uids_returns_empty_when_all_seen ∷ unseen_uids_empty_mailbox_returns_empty
      ∷ unseen_uids_requires_auth ∷ fetch_unseen_returns_new_messages_with_entries
      ∷ fetch_unseen_empty_when_all_seen ∷ fetch_unseen_does_not_mutate_seen
      ∷ fetch_unseen_fails_fast_on_retr_error ∷ fetch_unseen_requires_auth
      ∷ prune_seen_removes_ghost_uids ∷ prune_seen_returns_empty_when_no_ghosts
      ∷ prune_seen_empties_seen_when_server_is_empty ∷ prune_seen_empty_seen_is_noop
      ∷ prune_seen_requires_auth ∷ [])
    ≡ true
unfolding unseen_uids_returns_all_when_seen_is_empty unseen_uids_filters_seen_entries
    unseen_uids_returns_empty_when_all_seen unseen_uids_empty_mailbox_returns_empty
    unseen_uids_requires_auth fetch_unseen_returns_new_messages_with_entries
    fetch_unseen_empty_when_all_seen fetch_unseen_does_not_mutate_seen
    fetch_unseen_fails_fast_on_retr_error fetch_unseen_requires_auth prune_seen_removes_ghost_uids
    prune_seen_returns_empty_when_no_ghosts prune_seen_empties_seen_when_server_is_empty
    prune_seen_empty_seen_is_noop prune_seen_requires_auth is_white is_ascii_white text_eq
    strip_prefix trim split_whitespace chomp lines decimal parse_uint has_status parse_status_line
    parse_uidl_entry collect_lines parse_uidl_multi send_command read_line is_end read_multiline
    validate_message_id require_auth send_and_check uidl retr unseen unseen_uids fetch_unseen
    retained pruned prune_seen
sync_pass = refl
