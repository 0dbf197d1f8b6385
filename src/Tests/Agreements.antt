-- ===== src/Tests/Agreements.antt =====
-- Examples of batches in both ways.
use rust_adv_pop.Prelude.{◌≡◌, refl, ◌≢◌, true, false, [], ◌∷◌, ◌++◌, arith}
use rust_adv_pop.Text.{
  codes, lf, strip_prefix, chomp, trim_start, text_eq, is_white, is_ascii_white,
}
use rust_adv_pop.Error.{server_error, ok, err}
use rust_adv_pop.Types.{Message, authenticated}
use rust_adv_pop.Transport.{plain, upgrading, send_command, read_line, read_multiline, is_end}
use rust_adv_pop.Transport.Quiet.{Quiet}
use rust_adv_pop.Response.{parse_status_line, has_status, parse_resp_code}
use rust_adv_pop.Client
use rust_adv_pop.Client.{Pop3Client}
use rust_adv_pop.Client.Batch
use rust_adv_pop.Client.Batch.Agreement.{marked, Agree, retr_many-Agree, dele_many-Agree}
use rust_adv_pop.Tests.{said, client_on}

abbrev two_replies : Pop3Client
two_replies = client_on authenticated (said "+OK" ∷ said "hi" ∷ said "." ∷ said "-ERR gone" ∷ [])

plain-live : plain ≢ upgrading
plain-live e = cc

two_replies-Quiet : Quiet plain two_replies.transport
two_replies-Quiet = record { on = refl; no_write_fault = refl; no_flush_fault = refl }

abbrev one_gone : Batch.Outcomes Message
one_gone = ok (record { body = codes "hi" ++ lf ∷ [] }) ∷ err (server_error (codes "gone")) ∷ []

fetched : (Batch.retr_many (1 ∷ 2 ∷ []) (marked false two_replies)).0 ≡ ok one_gone
unfolding Batch.retr_many Batch.validate_all Batch.sequential Client.retr Client.require_auth
    Client.validate_message_id Client.send_and_check send_command read_line read_multiline is_end
    parse_status_line has_status parse_resp_code strip_prefix chomp trim_start text_eq is_white
    is_ascii_white
fetched = refl

gone_settled : Batch.is_io_level (server_error (codes "gone")) ≡ false
unfolding Batch.is_io_level
gone_settled = refl

retr_many-Agree_example :
    Agree
      (Batch.retr_many (1 ∷ 2 ∷ []) (marked false two_replies))
      (Batch.retr_many (1 ∷ 2 ∷ []) (marked true two_replies))
retr_many-Agree_example =
    retr_many-Agree plain (1 ∷ 2 ∷ []) two_replies one_gone plain-live refl
      (omega arith, (omega arith, tt)) two_replies-Quiet fetched (tt, (gone_settled, tt))

abbrev two_statuses : Pop3Client
two_statuses = client_on authenticated (said "-ERR gone" ∷ said "+OK" ∷ [])

two_statuses-Quiet : Quiet plain two_statuses.transport
two_statuses-Quiet = record { on = refl; no_write_fault = refl; no_flush_fault = refl }

marked_deleted :
    (Batch.dele_many (1 ∷ 2 ∷ []) (marked false two_statuses)).0
    ≡ ok (err (server_error (codes "gone")) ∷ ok tt ∷ [])
unfolding Batch.dele_many Batch.validate_all Batch.sequential Client.dele Client.require_auth
    Client.validate_message_id Client.send_and_check send_command read_line is_end parse_status_line
    has_status parse_resp_code strip_prefix chomp trim_start text_eq is_white is_ascii_white
marked_deleted = refl

dele_many-Agree_example :
    Agree
      (Batch.dele_many (1 ∷ 2 ∷ []) (marked false two_statuses))
      (Batch.dele_many (1 ∷ 2 ∷ []) (marked true two_statuses))
dele_many-Agree_example =
    dele_many-Agree plain (1 ∷ 2 ∷ []) two_statuses (err (server_error (codes "gone")) ∷ ok tt ∷ [])
      plain-live refl (omega arith, (omega arith, tt)) two_statuses-Quiet marked_deleted
      (gone_settled, (tt, tt))
