-- ===== src/Tests/Checkouts.antt =====
-- Examples of connections of a pool whose server is late or gone.
use rust_adv_pop.Prelude.{◌≡◌, refl, true, false, List, [], ◌∷◌, arith}
use rust_adv_pop.Text.{codes}
use rust_adv_pop.Error.{timeout, ok, err}
use rust_adv_pop.Types.{authenticated}
use rust_adv_pop.Transport.{plain}
use rust_adv_pop.Client
use rust_adv_pop.Client.{Pop3Client}
use rust_adv_pop.Client.Call.{Call, session}
use rust_adv_pop.Client.Call.Closed.{session-IsClosed}
use rust_adv_pop.Pool.{has_broken, is_valid}
use rust_adv_pop.Pool.Late.{late, accepted, Waiting, late_answer_unnoticed}
use rust_adv_pop.Tests.{client_on, said, digest, digest-hex}

abbrev kept_waiting : Pop3Client
kept_waiting = client_on authenticated (late ∷ accepted (codes "2 30") 5 ∷ said "+OK" ∷ [])

kept_waiting-Waiting :
    Waiting plain (late ∷ accepted (codes "2 30") 5 ∷ said "+OK" ∷ []) kept_waiting
kept_waiting-Waiting = record {
  auth = refl;
  quiet = record { on = refl; no_write_fault = refl; no_flush_fault = refl };
  script = refl;
}

late_answer_unnoticed_example :
    ((Client.stat kept_waiting).0 ≡ err timeout)
    × (has_broken (Client.stat kept_waiting).1 ≡ false)
    × ((is_valid (Client.stat kept_waiting).1).0 ≡ ok tt)
    × ((is_valid (Client.stat kept_waiting).1).1.transport.net.reads ≡ said "+OK" ∷ [])
late_answer_unnoticed_example =
    late_answer_unnoticed plain (λ e. cc) (codes "2 30") 5 (said "+OK" ∷ []) kept_waiting
      (omega arith, (omega arith, (omega arith, (omega arith, tt)))) kept_waiting-Waiting refl

abbrev hung_up : Pop3Client
hung_up = record kept_waiting { transport = record kept_waiting.transport { is_closed = true } }

abbrev later_calls : List Call
later_calls = Call.noop ∷ Call.stls (codes "host") ∷ Call.dele 1 ∷ []

session-IsClosed_example : has_broken (session digest later_calls hung_up) ≡ true
unfolding has_broken
session-IsClosed_example = session-IsClosed digest later_calls hung_up digest-hex refl
