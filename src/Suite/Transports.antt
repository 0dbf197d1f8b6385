-- ===== src/Suite/Transports.antt =====
-- The unit tests of src/transport.rs.
use rust_adv_pop.Prelude.{◌≡◌, refl, Bool, true, not, [], ◌∷◌, ◌++◌}
use rust_adv_pop.Text.{codes, crlf, text_eq, strip_prefix, chomp}
use rust_adv_pop.Transport.{
  is_encrypted, is_closed, send_command, read_line, is_end, read_multiline,
}
use rust_adv_pop.Suite.{
  write, read, ◌>>=◌, ◌>>◌, unwrap, result_of, assert, assert_that, runs_transport, all_pass, fails,
  has_text, is_connection_closed,
}

dot_unstuffing_via_transport : Bool
dot_unstuffing_via_transport =
    runs_transport
      (read ("..This had a leading dot" ∷ []) ∷ read ("Normal line" ∷ []) ∷ read ("." ∷ []) ∷ [])
      (do
        body ← unwrap read_multiline
        assert (has_text (codes ".This had a leading dot") body)
        assert (not (has_text (codes "..This") body))
        assert (has_text (codes "Normal line") body))

send_command_writes_crlf : Bool
send_command_writes_crlf =
    runs_transport (write "STAT" ∷ []) (do unwrap (send_command (codes "STAT")))

read_line_returns_eof_error : Bool
read_line_returns_eof_error =
    runs_transport [] (do result ← result_of read_line; assert (fails is_connection_closed result))

is_closed_false_initially : Bool
is_closed_false_initially = runs_transport [] (do assert_that (λ c. not (is_closed c)))

is_closed_true_after_eof : Bool
is_closed_true_after_eof = runs_transport [] (do
  result ← result_of read_line
  assert (fails is_connection_closed result)
  assert_that is_closed)

send_command_works_with_bufwriter : Bool
send_command_works_with_bufwriter =
    runs_transport (write "NOOP" ∷ []) (do unwrap (send_command (codes "NOOP")))

read_line_returns_line : Bool
read_line_returns_line =
    runs_transport (read ("+OK ready" ∷ []) ∷ [])
      (do line ← unwrap read_line; assert (text_eq line (codes "+OK ready" ++ (crlf))))

is_encrypted_false_for_mock : Bool
is_encrypted_false_for_mock = runs_transport [] (do assert_that (λ c. not (is_encrypted c)))

transports_pass :
    all_pass (
      dot_unstuffing_via_transport ∷ send_command_writes_crlf ∷ read_line_returns_eof_error
      ∷ is_closed_false_initially ∷ is_closed_true_after_eof ∷ send_command_works_with_bufwriter
      ∷ read_line_returns_line ∷ is_encrypted_false_for_mock ∷ [])
    ≡ true
unfolding dot_unstuffing_via_transport send_command_writes_crlf read_line_returns_eof_error
    is_closed_false_initially is_closed_true_after_eof send_command_works_with_bufwriter
    read_line_returns_line is_encrypted_false_for_mock text_eq strip_prefix chomp is_encrypted
    is_closed send_command read_line is_end read_multiline
transports_pass = refl
