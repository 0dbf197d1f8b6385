-- ===== src/Client/Call/Guards.antt =====
-- The guards of the commands of src/client.rs: session state, ids and line breaks.
use rust_adv_pop.Prelude.{
  ℕ, ◌≡◌, ◌≢◌, true, ◌⊎◌, inl, inr, ◌||◌, Option, none, some, List, arith, Bool-cases,
}
use rust_adv_pop.Text.{Text, cr, lf, contains}
use rust_adv_pop.Error.{not_authenticated, invalid_input, ok, err}
use rust_adv_pop.Types.{connected, authenticated}
use rust_adv_pop.Exec.{Exec, lift, ◌>>◌}
use rust_adv_pop.Client.{
  Pop3Client, require_auth, require_connected, check_no_crlf, stat, list, uidl, retr, dele, rset,
  noop, top, login, apop, user_pass, apop_digest,
}
use rust_adv_pop.Client.Batch.{retr_many, dele_many}
use rust_adv_pop.Client.Sync.{unseen_uids, fetch_unseen, prune_seen}

-- The action fails as `NotAuthenticated`, and the client, its connection included, is as before.
abbrev pub Refused : {A : Type 0} → Exec Pop3Client A → Pop3Client → Type 0
Refused m c = m c ≡ (err not_authenticated, c)

require_auth-Refused : (c : Pop3Client) → c.state ≢ authenticated → Refused require_auth c
unfolding require_auth
require_auth-Refused c h = ground arith

module _ (c : Pop3Client) (h : c.state ≢ authenticated) where
  list-Refused : (id : Option ℕ) → Refused (list id) c
  unfolding list
  list-Refused none = rw (require_auth-Refused c h)
  list-Refused (some id) = rw (require_auth-Refused c h)

  uidl-Refused : (id : Option ℕ) → Refused (uidl id) c
  unfolding uidl
  uidl-Refused none = rw (require_auth-Refused c h)
  uidl-Refused (some id) = rw (require_auth-Refused c h)

-- Every mailbox command is refused unless the client is authenticated, and then nothing is written,
-- read or changed.
pub commands_require_auth :
    (c : Pop3Client) (id n : ℕ) (ids : List ℕ) (which : Option ℕ) (seen : List Text)
    → c.state ≢ authenticated
    → Refused stat c
      × Refused (list which) c
      × Refused (uidl which) c
      × Refused (retr id) c
      × Refused (dele id) c
      × Refused (retr_many ids) c
      × Refused (dele_many ids) c
      × Refused rset c
      × Refused noop c
      × Refused (top id n) c
      × Refused (unseen_uids seen) c
      × Refused (fetch_unseen seen) c
      × Refused (prune_seen seen) c
unfolding stat retr dele retr_many dele_many rset noop top unseen_uids fetch_unseen prune_seen
commands_require_auth c id n ids which seen h = (
  rw (require_auth-Refused c h),
  list-Refused c h which,
  uidl-Refused c h which,
  rw (require_auth-Refused c h),
  rw (require_auth-Refused c h),
  rw (require_auth-Refused c h),
  rw (require_auth-Refused c h),
  rw (require_auth-Refused c h),
  rw (require_auth-Refused c h),
  rw (require_auth-Refused c h),
  rw (uidl-Refused c h none),
  rw (uidl-Refused c h none),
  rw (uidl-Refused c h none),
)

require_connected-ok : (c : Pop3Client) → c.state ≡ connected → require_connected c ≡ (ok tt, c)
unfolding require_connected
require_connected-ok c e = simp e

-- The text holds a carriage return or a newline.
abbrev pub HasBreak : Text → Type 0
HasBreak s = (contains cr s || contains lf s) ≡ true

check-HasBreak : (s : Text) → HasBreak s → check_no_crlf s ≡ err invalid_input
unfolding check_no_crlf
check-HasBreak s h = rw h

check-cases :
    (s : Text)
    → (check_no_crlf s ≡ err invalid_input) ⊎ ((check_no_crlf s ≡ ok tt) × (HasBreak s → ⊥))
unfolding check_no_crlf
check-cases s = elim (Bool-cases (contains cr s || contains lf s)) [
  | inl e ↦ inl (rw e)
  | inr e ↦ inr (rw e, λ h. cc)
]

checks_refused :
    (username password : Text) (k : Exec Pop3Client (Unit {0})) (c : Pop3Client)
    → HasBreak username ⊎ HasBreak password
    → (lift (check_no_crlf username) >> (lift (check_no_crlf password) >> k)) c
      ≡ (err invalid_input, c)
checks_refused username password k c h = elim (check-cases username) [
  | inl bad ↦ rw bad
  | inr (good, clean) ↦ elim h [
    | inl broken ↦ absurd (clean broken)
    | inr broken ↦ rw (good, check-HasBreak password broken)
  ]
]

module _ (c : Pop3Client) (username password : Text) (open_state : c.state ≡ connected)
    (h : HasBreak username ⊎ HasBreak password) where
  user_pass-refused : user_pass username password c ≡ (err invalid_input, c)
  unfolding user_pass
  user_pass-refused =
      rw (require_connected-ok c open_state) (checks_refused username password _ c h)

  apop_digest-refused :
      (md5 : Text → Text) → apop_digest md5 username password c ≡ (err invalid_input, c)
  unfolding apop_digest
  apop_digest-refused md5 =
      rw (require_connected-ok c open_state) (checks_refused username password _ c h)

-- On a connected client, a user name or a password with a carriage return or a newline is refused by
-- both logins, before anything is written.
pub line_break_refused :
    (md5 : Text → Text) (c : Pop3Client) (username password : Text)
    → c.state ≡ connected
    → HasBreak username ⊎ HasBreak password
    → (login username password c ≡ (err invalid_input, c))
      × (apop md5 username password c ≡ (err invalid_input, c))
unfolding login apop
line_break_refused md5 c username password open_state h = (
  rw (user_pass-refused c username password open_state h),
  rw (apop_digest-refused c username password open_state h md5),
)
