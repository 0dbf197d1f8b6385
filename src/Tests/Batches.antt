-- ===== src/Tests/Batches.antt =====
-- Examples of batches under reconnection.
use rust_adv_pop.Prelude.{◌≡◌, refl, [], ◌∷◌, ◌++◌}
use rust_adv_pop.Text.{
  codes, lf, strip_prefix, chomp, trim_start, text_eq, contains, is_white, is_ascii_white,
}
use rust_adv_pop.Error.{server_error, ok, err}
use rust_adv_pop.Types.{Message, authenticated}
use rust_adv_pop.Transport.{send_command, read_line, read_multiline, is_end, connect_plain}
use rust_adv_pop.Response.{parse_status_line, has_status, parse_resp_code}
use rust_adv_pop.Client
use rust_adv_pop.Client.Batch
use rust_adv_pop.Builder
use rust_adv_pop.Reconnect.{
  Outcome, fresh, reconnected, ReconnectingClient, connect_and_auth, do_reconnect, retried_when,
  is_retryable, attempts, notices,
}
use rust_adv_pop.Reconnect.Commands.{any_retryable, retr_many, dele_many}
use rust_adv_pop.Reconnect.Retry.{plain_retry, plain_retry-RetryLaw}
use rust_adv_pop.Reconnect.Outcomes.{Told}
use rust_adv_pop.Reconnect.BatchOutcomes.{Settled, retr_many-Reported, dele_many-Reported}
use rust_adv_pop.Tests.{said, client_on, digest}
use rust_adv_pop.Tests.Recovery.{stale, moody}

abbrev serving : ReconnectingClient
serving = record stale { client = client_on authenticated (said "+OK" ∷ said "hi" ∷ said "." ∷ []) }

abbrev one_message : Outcome (Batch.Outcomes Message)
one_message = fresh (ok (record { body = codes "hi" ++ lf ∷ [] }) ∷ [])

served : (retr_many plain_retry digest moody (1 ∷ []) serving).0 ≡ ok one_message
unfolding retr_many retried_when any_retryable Batch.retr_many Batch.validate_all Batch.sequential
    Client.retr Client.require_auth Client.validate_message_id Client.send_and_check send_command
    read_line read_multiline is_end parse_status_line has_status strip_prefix chomp trim_start
    text_eq is_white is_ascii_white
served = refl

retr_many-Reported_example :
    Told plain_retry digest moody
      (Batch.retr_many (1 ∷ []))
      serving
      one_message
      (retr_many plain_retry digest moody (1 ∷ []) serving).1
    × Settled any_retryable one_message
retr_many-Reported_example =
    retr_many-Reported plain_retry digest moody serving (1 ∷ []) one_message plain_retry-RetryLaw
      served

abbrev one_deleted : Outcome (Batch.Outcomes (Unit {0}))
one_deleted = reconnected (err (server_error (codes "gone")) ∷ ok tt ∷ [])

deleted : (dele_many plain_retry digest moody (1 ∷ 2 ∷ []) stale).0 ≡ ok one_deleted
unfolding dele_many retried_when any_retryable Batch.dele_many Batch.validate_all Batch.sequential
    plain_retry do_reconnect attempts notices is_retryable connect_and_auth Builder.connect
    Builder.authenticate_by Client.connect Client.dele Client.validate_message_id Client.login
    Client.user_pass Client.require_connected Client.require_auth Client.send_and_check
    Client.check_no_crlf Client.set_state Client.probe Client.capa send_command read_line
    connect_plain parse_status_line has_status parse_resp_code strip_prefix chomp trim_start text_eq
    contains is_white is_ascii_white Client.promote Client.advertises_pipelining
deleted = refl

dele_many-Reported_example :
    Told plain_retry digest moody
      (Batch.dele_many (1 ∷ 2 ∷ []))
      stale
      one_deleted
      (dele_many plain_retry digest moody (1 ∷ 2 ∷ []) stale).1
    × Settled any_retryable one_deleted
dele_many-Reported_example =
    dele_many-Reported plain_retry digest moody stale (1 ∷ 2 ∷ []) one_deleted plain_retry-RetryLaw
      deleted
