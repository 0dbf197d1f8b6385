-- ===== src/Client/Call/Steps.antt =====
-- Invariants of the calls and of a session on a client of src/client.rs.
use rust_adv_pop.Prelude.{Bool, List, [], ◌∷◌, All, arith}
use rust_adv_pop.Text.{Text, codes}
use rust_adv_pop.Types.{SessionState}
use rust_adv_pop.Exec.Keeps.{Keeps, Keeps-bind}
use rust_adv_pop.Transport.{upgrade_in_place}
use rust_adv_pop.Client
use rust_adv_pop.Client.{
  Pop3Client, over, not_before_auth, not_encrypted, set_state, set_pipelining,
}
use rust_adv_pop.Client.Exchanges.{
  Habit, IsHexDigit, still-Keeps, not_before_auth-still, not_encrypted-still, login-Keeps,
  apop-Keeps, capa-Keeps,
}
use rust_adv_pop.Client.Exchanges.Mailbox.{
  stat-Keeps, list-Keeps, uidl-Keeps, retr-Keeps, dele-Keeps, rset-Keeps, noop-Keeps, top-Keeps,
  retr_many-Keeps, dele_many-Keeps, unseen_uids-Keeps, fetch_unseen-Keeps, prune_seen-Keeps,
}
use rust_adv_pop.Client.Call.{
  Call, login, apop, stls, list, uidl, retr, dele, retr_many, dele_many, top, unseen_uids,
  fetch_unseen, prune_seen, stat, rset, noop, capa, perform, session,
}

-- The call is not a login.
abbrev pub IsCommand : Call → Type 0
IsCommand (login u p) = ⊥
IsCommand (apop u p) = ⊥
IsCommand call = Unit

module _ {R : Pop3Client → Type 0} (habit : Habit R)
    (upgrades : (hostname : Text) → Keeps R (over (upgrade_in_place hostname))) where
  pub stls-Keeps : (hostname : Text) → Keeps R (Client.stls hostname)
  unfolding Client.stls
  stls-Keeps hostname = Keeps-bind _ _ (still-Keeps not_before_auth not_before_auth-still) (λ _.
      Keeps-bind _ _ (still-Keeps not_encrypted not_encrypted-still) (λ _.
        Keeps-bind _ _ (habit.command (codes "STLS") (omega arith, omega arith))
          (λ _. upgrades hostname)))

  pub command-Keeps :
      (md5 : Text → Text) (call : Call) (c : Pop3Client)
      → IsCommand call
      → R c
      → R (perform md5 call c)
  unfolding perform
  command-Keeps md5 (login u p) c i h = absurd i
  command-Keeps md5 (apop u p) c i h = absurd i
  command-Keeps md5 (stls hostname) c i h = (stls-Keeps hostname).at c h
  command-Keeps md5 (list id) c i h = (list-Keeps habit id).at c h
  command-Keeps md5 (uidl id) c i h = (uidl-Keeps habit id).at c h
  command-Keeps md5 (retr id) c i h = (retr-Keeps habit id).at c h
  command-Keeps md5 (dele id) c i h = (dele-Keeps habit id).at c h
  command-Keeps md5 (retr_many ids) c i h = (retr_many-Keeps habit ids).at c h
  command-Keeps md5 (dele_many ids) c i h = (dele_many-Keeps habit ids).at c h
  command-Keeps md5 (top id n) c i h = (top-Keeps habit id n).at c h
  command-Keeps md5 (unseen_uids seen) c i h = (unseen_uids-Keeps habit seen).at c h
  command-Keeps md5 (fetch_unseen seen) c i h = (fetch_unseen-Keeps habit seen).at c h
  command-Keeps md5 (prune_seen seen) c i h = (prune_seen-Keeps habit seen).at c h
  command-Keeps md5 stat c i h = (stat-Keeps habit).at c h
  command-Keeps md5 rset c i h = (rset-Keeps habit).at c h
  command-Keeps md5 noop c i h = (noop-Keeps habit).at c h
  command-Keeps md5 capa c i h = (capa-Keeps habit).at c h

  module _ (states : (s : SessionState) → Keeps R (set_state s))
      (marks : (b : Bool) → Keeps R (set_pipelining b)) (md5 : Text → Text)
      (hex : (s : Text) → All IsHexDigit (md5 s)) where
    perform-Keeps : (call : Call) (c : Pop3Client) → R c → R (perform md5 call c)
    unfolding perform
    perform-Keeps (login u p) c h = (login-Keeps habit states marks u p).at c h
    perform-Keeps (apop u p) c h = (apop-Keeps habit states marks md5 hex u p).at c h
    perform-Keeps (stls hostname) c h = command-Keeps md5 (stls hostname) c tt h
    perform-Keeps (list id) c h = command-Keeps md5 (list id) c tt h
    perform-Keeps (uidl id) c h = command-Keeps md5 (uidl id) c tt h
    perform-Keeps (retr id) c h = command-Keeps md5 (retr id) c tt h
    perform-Keeps (dele id) c h = command-Keeps md5 (dele id) c tt h
    perform-Keeps (retr_many ids) c h = command-Keeps md5 (retr_many ids) c tt h
    perform-Keeps (dele_many ids) c h = command-Keeps md5 (dele_many ids) c tt h
    perform-Keeps (top id n) c h = command-Keeps md5 (top id n) c tt h
    perform-Keeps (unseen_uids seen) c h = command-Keeps md5 (unseen_uids seen) c tt h
    perform-Keeps (fetch_unseen seen) c h = command-Keeps md5 (fetch_unseen seen) c tt h
    perform-Keeps (prune_seen seen) c h = command-Keeps md5 (prune_seen seen) c tt h
    perform-Keeps stat c h = command-Keeps md5 stat c tt h
    perform-Keeps rset c h = command-Keeps md5 rset c tt h
    perform-Keeps noop c h = command-Keeps md5 noop c tt h
    perform-Keeps capa c h = command-Keeps md5 capa c tt h

    pub session-Keeps : (calls : List Call) (c : Pop3Client) → R c → R (session md5 calls c)
    unfolding session
    session-Keeps [] c h = h
    session-Keeps (call ∷ rest) c h =
        session-Keeps rest (perform md5 call c) (perform-Keeps call c h)
