-- ===== src/Pool/Manager.antt =====
-- The connections that the manager of src/pool.rs makes.
use rust_adv_pop.Prelude.{◌≡◌, refl, ap, sym, ◌∙◌, true, false, ◌||◌, Bool-cases, inl, inr, arith}
use rust_adv_pop.Text.{Text}
use rust_adv_pop.Error.{PopResult, ok, err, ◌>>=◌}
use rust_adv_pop.Types.{SessionState, connected, authenticated, disconnected}
use rust_adv_pop.Client
use rust_adv_pop.Client.{Pop3Client, is_authenticated}
use rust_adv_pop.Client.Call.States.{login-LogsIn}
use rust_adv_pop.Builder
use rust_adv_pop.Builder.{Network, no_auth}
use rust_adv_pop.Reconnect.Credentials.{IsLoggedIn, logged_in-IsLoggedIn}
use rust_adv_pop.Pool.{Pop3ConnectionManager, has_line_break, log_in_unless, manager_connect}

is_authenticated-eq : (s : SessionState) → is_authenticated s ≡ true → s ≡ authenticated
is_authenticated-eq connected h = cc
is_authenticated-eq authenticated h = refl
is_authenticated-eq disconnected h = cc

state_or : Pop3Client → PopResult Pop3Client → SessionState
state_or c (ok d) = d.state
state_or c (err e) = c.state

log_in_unless-IsLoggedIn :
    (username password : Text) (c : Pop3Client) → IsLoggedIn (log_in_unless username password c)
unfolding log_in_unless state_or
log_in_unless-IsLoggedIn username password c = elim (Bool-cases (is_authenticated c.state)) [
  | inl is_in ↦ rw is_in (λ d e.
      ap (λ (r : PopResult Pop3Client). state_or c r) (sym e) ∙ is_authenticated-eq c.state is_in)
  | inr is_out ↦
      rw is_out (
        logged_in-IsLoggedIn (Client.login username password c)
          (login-LogsIn username password c).0)
]

bind_manager :
    (username password : Text) (r : PopResult Pop3Client)
    → IsLoggedIn (do c ← r; log_in_unless username password c)
bind_manager username password (ok c) = log_in_unless-IsLoggedIn username password c
bind_manager username password (err e) = λ d q. cc

-- A connection that the manager makes is authenticated, whether the builder has logged in or the
-- manager, and none is made where the user name or the password has a line break.
pub manager_connect-authenticated :
    (md5 : Text → Text) (m : Pop3ConnectionManager) (network : Network) (c : Pop3Client)
    → manager_connect md5 m network ≡ ok c
    → (c.state ≡ authenticated)
      × (has_line_break m.username ≡ false)
      × (has_line_break m.password ≡ false)
unfolding manager_connect
manager_connect-authenticated md5 m network c h =
    elim (Bool-cases (has_line_break m.username || has_line_break m.password)) [
      | inl broken ↦ absurd (ground arith)
      | inr clean ↦ (
        bind_manager m.username m.password (Builder.connect md5 m.builder network).0 c
            (rw clean at h),
        ground arith,
        ground arith,
      )
    ]
