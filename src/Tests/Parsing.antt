-- ===== src/Tests/Parsing.antt =====
-- Examples of the parsers.
use rust_adv_pop.Prelude.{◌≡◌, ◌≢◌, refl, true, some, List, [], ◌∷◌, ◌++◌, arith}
use rust_adv_pop.Text.{
  Text, codes, crlf, chomp, trim_start, parse_uint, scan, text_eq, strip_prefix, is_white,
  is_ascii_white, IsSolid,
}
use rust_adv_pop.Error.{login_delay, server_error, ok, err}
use rust_adv_pop.Types.{ListEntry, UidlEntry}
use rust_adv_pop.Wire.{list_text, uidl_text, listing}
use rust_adv_pop.Response.{
  ends_word, has_status, parse_status_line, parse_list_multi, parse_uidl_multi,
}
use rust_adv_pop.Response.Status.{parse_status_line-ok}
use rust_adv_pop.Response.Codes.{
  RespCode, in_use, login_delay_code, sys_temp_code, sys_perm_code, auth, code_text,
  parse_status_line-code, parse_status_line-unknown_code,
}
use rust_adv_pop.Response.Entries.{parse_list_multi-listing, parse_uidl_multi-listing}

read_120 : parse_uint 255 (codes "120") ≡ some 120
unfolding parse_uint scan
read_120 = refl

ok_2_320 : parse_status_line (codes "+OK 2 320" ++ crlf) ≡ ok (codes "2 320")
unfolding parse_status_line has_status chomp text_eq strip_prefix trim_start is_ascii_white is_white
ok_2_320 = refl

parse_status_line-ok_example :
    (rest : Text) × (chomp (codes "+OK 2 320" ++ crlf) ≡ codes "+OK" ++ rest)
    × (ends_word rest ≡ true)
    × (codes "2 320" ≡ trim_start rest)
parse_status_line-ok_example =
    parse_status_line-ok (codes "+OK 2 320" ++ crlf) (codes "2 320") ok_2_320

parse_status_line-code_example :
    parse_status_line (codes "-ERR [" ++ (codes "LOGIN-DELAY" ++ b']' ∷ (codes " wait" ++ crlf)))
    ≡ err (login_delay (trim_start (codes " wait")))
parse_status_line-code_example =
    parse_status_line-code login_delay_code (codes " wait")
      (omega arith, (omega arith, (omega arith, (omega arith, (omega arith, tt)))))

x_unknown : (c : RespCode) → codes "X" ≢ code_text c
x_unknown in_use = λ e. cc
x_unknown login_delay_code = λ e. cc
x_unknown sys_temp_code = λ e. cc
x_unknown sys_perm_code = λ e. cc
x_unknown auth = λ e. cc

parse_status_line-unknown_code_example :
    parse_status_line (codes "-ERR [" ++ (codes "X" ++ b']' ∷ (codes " no" ++ crlf)))
    ≡ err (server_error (b'[' ∷ (codes "X" ++ b']' ∷ codes " no")))
parse_status_line-unknown_code_example =
    parse_status_line-unknown_code (codes "X") (codes " no") (omega arith, tt) (omega arith, tt)
      (omega arith, (omega arith, (omega arith, tt))) x_unknown

abbrev scan_entries : List ListEntry
scan_entries = record { message_id = 1; size = 120 } ∷ record { message_id = 2; size = 200 } ∷ []

parse_list_multi-listing_example :
    parse_list_multi (listing list_text scan_entries) ≡ ok scan_entries
parse_list_multi-listing_example = parse_list_multi-listing scan_entries (
  record { id_fits = omega arith; size_fits = omega arith },
  (record { id_fits = omega arith; size_fits = omega arith }, tt),
)

ab-IsSolid : IsSolid (codes "ab")
unfolding is_white
ab-IsSolid = (refl, (refl, tt))

abbrev uid_entries : List UidlEntry
uid_entries = record { message_id = 1; unique_id = codes "ab" } ∷ []

parse_uidl_multi-listing_example : parse_uidl_multi (listing uidl_text uid_entries) ≡ ok uid_entries
parse_uidl_multi-listing_example =
    parse_uidl_multi-listing uid_entries
      (record { id_fits = omega arith; uid_full = λ e. cc; uid_solid = ab-IsSolid }, tt)
