-- ===== src/Tests/Programs.antt =====
-- Runs of the example programs against a server.
use rust_adv_pop.Prelude.{◌≡◌, refl, true, none, List, [], ◌∷◌, ◌&&◌, length, ◌==◌}
use rust_adv_pop.Text.{
  strip_prefix, chomp, trim_end_crlf, trim_start, text_eq, contains, is_white, is_ascii_white,
  lines, trim, split_whitespace, words_from, lines_from, parse_uint, scan, decimal, emit, strip_cr,
  trim_end_by,
}
use rust_adv_pop.Error.{is_ok}
use rust_adv_pop.Transport
use rust_adv_pop.Transport.{
  ReadEvent, Dial, send_command, read_line, read_multiline, connect_plain, set_closed, is_end,
  upgrade_in_place,
}
use rust_adv_pop.Response.{
  parse_status_line, has_status, parse_resp_code, parse_stat, parse_list_multi, parse_list_entry,
  number_field, collect_lines,
}
use rust_adv_pop.Client
use rust_adv_pop.Examples.{basic_main, starttls_main, print_entries, print_first, first}
use rust_adv_pop.Tests.{said, server}

abbrev on : List ReadEvent → Dial
on script = record { refused = none; accepted = server script }

-- A greeting, a login with its CAPA refused, a STAT.
abbrev entering : List ReadEvent → List ReadEvent
entering rest = said "+OK hi" ∷ said "+OK" ∷ said "+OK" ∷ said "-ERR" ∷ said "+OK 1 20" ∷ rest

all_steps : Dial
all_steps = on (
    entering
      (said "+OK" ∷ said "1 20" ∷ said "." ∷ said "+OK" ∷ said "body" ∷ said "." ∷ said "+OK" ∷ []))

basic_prints : (is_ok (basic_main all_steps).0 && length (basic_main all_steps).1 == 5) ≡ true
unfolding all_steps basic_main print_entries print_first first Client.connect Client.greeting
    Client.login Client.user_pass Client.require_connected Client.check_no_crlf Client.set_state
    Client.probe Client.capa Client.promote Client.require_auth Client.send_and_check Client.stat
    Client.list Client.retr Client.validate_message_id Client.quit connect_plain send_command
    read_line read_multiline is_end set_closed parse_status_line has_status parse_resp_code
    parse_stat parse_list_multi parse_list_entry number_field collect_lines strip_prefix chomp
    trim_end_crlf trim_start text_eq contains is_white is_ascii_white lines trim split_whitespace
    words_from lines_from parse_uint scan decimal emit strip_cr trim_end_by
basic_prints = refl

short_steps : Dial
short_steps = on (
    said "+OK hi"
    ∷ said "+OK"
    ∷ said "+OK"
    ∷ said "+OK"
    ∷ said "-ERR"
    ∷ said "+OK 1 20"
    ∷ said "+OK"
    ∷ [])

starttls_prints :
    (is_ok (starttls_main short_steps).0 && length (starttls_main short_steps).1 == 3) ≡ true
unfolding short_steps starttls_main Client.connect Client.is_encrypted Client.stls Client.login
    Client.user_pass Client.require_connected Client.check_no_crlf Client.set_state Client.probe
    Client.capa Client.promote Client.require_auth Client.send_and_check Client.stat Client.quit
    Client.not_before_auth Client.not_encrypted connect_plain send_command read_line set_closed
    upgrade_in_place parse_status_line has_status parse_resp_code parse_stat number_field
    strip_prefix chomp trim_end_crlf trim_start text_eq contains is_white is_ascii_white trim
    split_whitespace words_from parse_uint scan decimal emit trim_end_by Transport.is_encrypted
starttls_prints = refl
