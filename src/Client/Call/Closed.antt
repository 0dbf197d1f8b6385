-- ===== src/Client/Call/Closed.antt =====
-- The mark of a closed connection over sessions on a client of src/client.rs.
use rust_adv_pop.Prelude.{◌≡◌, ◌∙◌, true, Bool, List, All}
use rust_adv_pop.Text.{Text}
use rust_adv_pop.Exec.Keeps.{Keeps}
use rust_adv_pop.Types.{SessionState}
use rust_adv_pop.Transport.{upgrade_in_place}
use rust_adv_pop.Transport.Kept.{upgrade-closed}
use rust_adv_pop.Transport.Closed.{IsClosed, IsClosed-discipline}
use rust_adv_pop.Client.{Pop3Client, set_state, set_pipelining}
use rust_adv_pop.Client.Exchanges.{IsHexDigit}
use rust_adv_pop.Client.Batch.Links.{OnLink, over-Keeps, link_habit}
use rust_adv_pop.Client.Call.{Call, session}
use rust_adv_pop.Client.Call.Steps.{session-Keeps}
use rust_adv_pop.Pool.{has_broken}

set_state-IsClosed : (s : SessionState) → Keeps (OnLink IsClosed) (set_state s)
unfolding set_state
set_state-IsClosed s = record { at = λ c h. h }

set_pipelining-IsClosed : (b : Bool) → Keeps (OnLink IsClosed) (set_pipelining b)
unfolding set_pipelining
set_pipelining-IsClosed b = record { at = λ c h. h }

-- No session takes the mark of a closed connection off: whatever is called and whatever the server
-- answers, a client that is marked as closed, for which the pool asks, stays marked, if the MD5
-- digest is printed in hexadecimal digits.
pub session-IsClosed :
    (md5 : Text → Text) (calls : List Call) (c : Pop3Client)
    → ((s : Text) → All IsHexDigit (md5 s))
    → has_broken c ≡ true
    → has_broken (session md5 calls c) ≡ true
unfolding has_broken
session-IsClosed md5 calls c hex h =
    session-Keeps
      (link_habit IsClosed-discipline
        (record { line = λ body no_cr no_lf. tt; whole_line = λ body no_cr no_lf. tt }))
      (λ hostname.
        over-Keeps (upgrade_in_place hostname)
          (record { at = λ t closed. upgrade-closed hostname t ∙ closed }))
      set_state-IsClosed set_pipelining-IsClosed md5 hex calls c h
