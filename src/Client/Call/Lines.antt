-- ===== src/Client/Call/Lines.antt =====
-- The texts that a session on a client of src/client.rs hands to the writer.
use rust_adv_pop.Prelude.{Bool, refl, sym, subst, List, inl, inr, All}
use rust_adv_pop.Text.{Text}
use rust_adv_pop.Exec.Keeps.{Keeps}
use rust_adv_pop.Types.{SessionState}
use rust_adv_pop.Transport.{Sent, upgrade_in_place}
use rust_adv_pop.Transport.Discipline.{IsLine, SentLines, SentLines-discipline}
use rust_adv_pop.Transport.Kept.{upgrade-sent}
use rust_adv_pop.Client.{Pop3Client, set_state, set_pipelining}
use rust_adv_pop.Client.Exchanges.{IsHexDigit}
use rust_adv_pop.Client.Batch.Links.{OnLink, Speaks, over-Keeps, link_habit}
use rust_adv_pop.Client.Call.{Call, session}
use rust_adv_pop.Client.Call.Steps.{session-Keeps}

speaks_lines : Speaks IsLine
speaks_lines = record {
  line =
      λ body no_cr no_lf. record { body = body; no_cr = no_cr; no_lf = no_lf; spelled = inl refl };
  whole_line =
      λ body no_cr no_lf. record { body = body; no_cr = no_cr; no_lf = no_lf; spelled = inr refl };
}

upgrade-SentLines : (hostname : Text) → Keeps SentLines (upgrade_in_place hostname)
upgrade-SentLines hostname = record {
  at = λ t h. subst (All (λ (s : Sent). IsLine s.text)) (sym (upgrade-sent hostname t)) h;
}

set_state-SentLines : (s : SessionState) → Keeps (OnLink SentLines) (set_state s)
unfolding set_state
set_state-SentLines s = record { at = λ c h. h }

set_pipelining-SentLines : (b : Bool) → Keeps (OnLink SentLines) (set_pipelining b)
unfolding set_pipelining
set_pipelining-SentLines b = record { at = λ c h. h }

-- No session of a client that has sent such texts only injects a command. Whatever calls are made, with whatever user names, passwords, ids and
-- host names, and whatever the server answers, each text that is handed to the writer holds no
-- carriage return and no newline but one "\r\n" at its end, if the MD5 digest is printed in
-- hexadecimal digits.
pub session-SentLines :
    (md5 : Text → Text) (calls : List Call) (c : Pop3Client)
    → ((s : Text) → All IsHexDigit (md5 s))
    → SentLines c.transport
    → SentLines (session md5 calls c).transport
session-SentLines md5 calls c hex h =
    session-Keeps (link_habit SentLines-discipline speaks_lines)
      (λ hostname. over-Keeps (upgrade_in_place hostname) (upgrade-SentLines hostname))
      set_state-SentLines set_pipelining-SentLines md5 hex calls c h
