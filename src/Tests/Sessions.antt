-- ===== src/Tests/Sessions.antt =====
-- Examples of sessions: guards, states, batches, and what goes over which stream.
use rust_adv_pop.Prelude.{
  ◌≡◌, refl, inr, true, not, ◌&&◌, ◌||◌, none, List, [], ◌∷◌, ◌++◌, arith, All,
}
use rust_adv_pop.Text.{
  Text, codes, cr, lf, crlf, contains, strip_prefix, chomp, trim_start, text_eq, is_white,
  is_ascii_white, lines, trim, split_whitespace, parse_uint, scan,
}
use rust_adv_pop.Error.{invalid_input, ok, err}
use rust_adv_pop.Types.{UidlEntry, connected, authenticated}
use rust_adv_pop.Transport.Discipline.{SentLines}
use rust_adv_pop.Client
use rust_adv_pop.Client.{
  Pop3Client, require_auth, send_and_check, stat, list, uidl, retr, dele, rset, noop, top,
}
use rust_adv_pop.Client.Batch.{retr_many_pipelined, dele_many_pipelined, retr_many, dele_many}
use rust_adv_pop.Client.Batch.Ahead.{IsAhead, batches-IsAhead}
use rust_adv_pop.Client.Batch.Length.{OnePerId, batches-OnePerId}
use rust_adv_pop.Client.Sync.{
  holds, unseen, server_uids, retained, pruned, unseen_uids, fetch_unseen, prune_seen,
}
use rust_adv_pop.Client.Sync.Sets.{Split, prune_seen-Split, unseen_uids-new}
use rust_adv_pop.Response.{
  parse_status_line, has_status, parse_uidl_multi, collect_lines, parse_uidl_entry,
}
use rust_adv_pop.Transport.{send_command, read_line, read_multiline, is_end}
use rust_adv_pop.Client.Call.{Call, session}
use rust_adv_pop.Client.Call.Guards.{Refused, commands_require_auth, line_break_refused}
use rust_adv_pop.Client.Call.Lines.{session-SentLines}
use rust_adv_pop.Client.Call.States.{Entered, logins-Entered, Move, session-Move}
use rust_adv_pop.Builder
use rust_adv_pop.Builder.{
  Pop3ClientBuilder, new, with_credentials, with_starttls, with_tls, connect,
}
use rust_adv_pop.Builder.Secrecy.{StlsAlone, start_tls-StlsAlone}
use rust_adv_pop.Builder.Encrypted.{IsEncrypted, tls-IsEncrypted}
use rust_adv_pop.Tests.{said, client_on, digest, digest-hex, reached}

abbrev guest : Pop3Client
guest = client_on connected (said "+OK" ∷ said "+OK" ∷ said "-ERR" ∷ [])

abbrev member : Pop3Client
member = client_on authenticated (said "+OK" ∷ said "body" ∷ said "." ∷ said "-ERR gone" ∷ [])

commands_require_auth_example :
    Refused stat guest
    × Refused (list none) guest
    × Refused (uidl none) guest
    × Refused (retr 1) guest
    × Refused (dele 1) guest
    × Refused (retr_many (1 ∷ 2 ∷ [])) guest
    × Refused (dele_many (1 ∷ 2 ∷ [])) guest
    × Refused rset guest
    × Refused noop guest
    × Refused (top 1 5) guest
    × Refused (unseen_uids []) guest
    × Refused (fetch_unseen []) guest
    × Refused (prune_seen []) guest
commands_require_auth_example = commands_require_auth guest 1 5 (1 ∷ 2 ∷ []) none [] (λ e. cc)

broken : (contains cr (codes "a" ++ crlf) || contains lf (codes "a" ++ crlf)) ≡ true
unfolding contains
broken = refl

line_break_refused_example :
    (Client.login (codes "ann") (codes "a" ++ crlf) guest ≡ (err invalid_input, guest))
    × (Client.apop digest (codes "ann") (codes "a" ++ crlf) guest ≡ (err invalid_input, guest))
line_break_refused_example =
    line_break_refused digest guest (codes "ann") (codes "a" ++ crlf) refl (inr broken)

logins-Entered_example :
    Entered connected (Client.login (codes "ann") (codes "pw") guest)
    × Entered connected (Client.apop digest (codes "ann") (codes "pw") guest)
logins-Entered_example = logins-Entered digest (codes "ann") (codes "pw") guest digest-hex

abbrev calls : List Call
calls =
    Call.login (codes "ann") (codes "pw") ∷ Call.stat ∷ Call.dele 1 ∷ Call.stls (codes "host") ∷ []

session-Move_example : Move connected (session digest calls guest).state
session-Move_example = session-Move digest calls guest digest-hex

session-SentLines_example : SentLines (session digest calls guest).transport
session-SentLines_example = session-SentLines digest calls guest digest-hex tt

abbrev fast_member : Pop3Client
fast_member = record member { is_pipelining = true }

-- The server answers one command of a window and hangs up.
abbrev left_alone : Pop3Client
left_alone = client_on authenticated (said "+OK" ∷ said "." ∷ [])

batches-IsAhead_example :
    IsAhead 4 left_alone (retr_many_pipelined (1 ∷ 2 ∷ 3 ∷ 4 ∷ 5 ∷ []) left_alone)
    × IsAhead 4 left_alone (dele_many_pipelined (1 ∷ 2 ∷ 3 ∷ 4 ∷ 5 ∷ []) left_alone)
batches-IsAhead_example = batches-IsAhead (1 ∷ 2 ∷ 3 ∷ 4 ∷ 5 ∷ []) left_alone

batches-OnePerId_example :
    OnePerId (1 ∷ 2 ∷ 3 ∷ []) (retr_many (1 ∷ 2 ∷ 3 ∷ []) fast_member).0
    × OnePerId (1 ∷ 2 ∷ 3 ∷ []) (dele_many (1 ∷ 2 ∷ 3 ∷ []) fast_member).0
batches-OnePerId_example =
    batches-OnePerId (1 ∷ 2 ∷ 3 ∷ []) fast_member refl
      (omega arith, (omega arith, (omega arith, tt)))

abbrev credentials : Pop3ClientBuilder
credentials = record {
  hostname = codes "host";
  port = none;
  timeout = 30;
  tls_mode = Builder.start_tls;
  auth = Builder.login_auth (codes "ann") (codes "pw");
}

start_tls-StlsAlone_example :
    All
      (λ s. StlsAlone s.channel s.text)
      (connect digest credentials (reached (said "+OK" ∷ said "+OK" ∷ said "+OK" ∷ []))).1
start_tls-StlsAlone_example =
    start_tls-StlsAlone digest credentials (reached (said "+OK" ∷ said "+OK" ∷ said "+OK" ∷ []))
      digest-hex refl

abbrev tls_credentials : Pop3ClientBuilder
tls_credentials = record credentials { tls_mode = Builder.tls }

tls-IsEncrypted_example :
    All IsEncrypted (connect digest tls_credentials (reached (said "+OK" ∷ said "+OK" ∷ []))).1
tls-IsEncrypted_example =
    tls-IsEncrypted digest tls_credentials (reached (said "+OK" ∷ said "+OK" ∷ [])) digest-hex refl

-- The server lists one known id and one new one.
abbrev listed : Pop3Client
listed = client_on authenticated (said "+OK" ∷ said "1 a" ∷ said "2 b" ∷ said "." ∷ [])

abbrev uids : List Text
uids = codes "a" ∷ codes "z" ∷ []

prunes : (prune_seen uids listed).0 ≡ ok (codes "z" ∷ [], codes "a" ∷ [])
unfolding prune_seen unseen_uids unseen retained pruned uidl require_auth send_and_check
    send_command read_line read_multiline parse_status_line has_status strip_prefix chomp trim_start
    text_eq is_white is_ascii_white is_end parse_uidl_multi collect_lines parse_uidl_entry lines
    trim split_whitespace parse_uint scan
prunes = refl

prune_seen-Split_example :
    (entries : List UidlEntry) × (((uidl none listed).0 ≡ ok entries)
      × Split uids (codes "z" ∷ []) (codes "a" ∷ []) entries)
prune_seen-Split_example = prune_seen-Split uids (codes "z" ∷ []) (codes "a" ∷ []) listed prunes

abbrev new_entry : UidlEntry
new_entry = record { message_id = 2; unique_id = codes "b" }

finds_new : (unseen_uids uids listed).0 ≡ ok (new_entry ∷ [])
unfolding prune_seen unseen_uids unseen retained pruned uidl require_auth send_and_check
    send_command read_line read_multiline parse_status_line has_status strip_prefix chomp trim_start
    text_eq is_white is_ascii_white is_end parse_uidl_multi collect_lines parse_uidl_entry lines
    trim split_whitespace parse_uint scan
finds_new = refl

unseen_uids-new_example :
    (entries : List UidlEntry) × (((uidl none listed).0 ≡ ok entries)
      × ((uid : Text)
          → holds (server_uids (new_entry ∷ [])) uid
            ≡ (holds (server_uids entries) uid && not (holds uids uid))))
unseen_uids-new_example = unseen_uids-new uids (new_entry ∷ []) listed finds_new
