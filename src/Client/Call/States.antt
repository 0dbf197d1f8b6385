-- ===== src/Client/Call/States.antt =====
-- The session state of a client of src/client.rs, from call to call.
use rust_adv_pop.Prelude.{
  ◌≡◌, ◌≢◌, refl, ap, sym, subst, ◌⊎◌, inl, inr, Bool, List, [], ◌∷◌, arith, All,
}
use rust_adv_pop.Text.{Text}
use rust_adv_pop.Error.{Pop3Error, not_authenticated, PopResult, ok, err}
use rust_adv_pop.Types.{SessionState, connected, authenticated, disconnected, Capability}
use rust_adv_pop.Exec.{Exec, continue, ◌>>◌}
use rust_adv_pop.Exec.Keeps.{Keeps}
use rust_adv_pop.Transport.{Transport, upgrade_in_place, read_multiline}
use rust_adv_pop.Client
use rust_adv_pop.Client.{
  Pop3Client, over, send_and_check, require_connected, user_pass, apop_digest, set_state,
  set_pipelining, probe, or_default, default_list, capa, advertises_pipelining,
}
use rust_adv_pop.Client.Batch.{retr_many_pipelined, dele_many_pipelined, pipelined}
use rust_adv_pop.Client.Exchanges.{
  Habit, IsHexDigit, user_pass-Keeps, apop_digest-Keeps, probe-Keeps,
}
use rust_adv_pop.Client.Call.{Call, login, apop, perform, session}
use rust_adv_pop.Client.Call.Steps.{IsCommand, command-Keeps}

abbrev pub InState : SessionState → Pop3Client → Type 0
InState s c = c.state ≡ s

over-InState : {A : Type 0} (s : SessionState) (m : Exec Transport A) → Keeps (InState s) (over m)
unfolding over
over-InState s m = record { at = λ c h. h }

-- No exchange touches the session state.
pub state_habit : (s : SessionState) → Habit (InState s)
unfolding send_and_check retr_many_pipelined dele_many_pipelined pipelined
state_habit s = record {
  command = λ cmd clean. record { at = λ c h. h };
  body = over-InState s read_multiline;
  retr_pipe = λ ids. record { at = λ c h. h };
  dele_pipe = λ ids. record { at = λ c h. h };
}

set_pipelining-InState : (s : SessionState) (b : Bool) → Keeps (InState s) (set_pipelining b)
unfolding set_pipelining
set_pipelining-InState s b = record { at = λ c h. h }

-- A login that returns a value leaves the client authenticated, and one that fails leaves it in the
-- state in which it was.
abbrev pub LogsIn : Exec Pop3Client (Unit {0}) → Pop3Client → Type 0
LogsIn m c =
    ((m c).0 ≡ ok tt → (m c).1.state ≡ authenticated)
    × ((e : Pop3Error) → (m c).0 ≡ err e → (m c).1.state ≡ c.state)

probe_on :
    (r : PopResult (List Capability) × Pop3Client)
    → (continue (default_list r) (λ caps. set_pipelining (advertises_pipelining caps))).0 ≡ ok tt
unfolding set_pipelining
probe_on (ok caps, c) = refl
probe_on (err e, c) = refl

-- The probe for PIPELINING never fails.
probe-ok : (c : Pop3Client) → (probe c).0 ≡ ok tt
unfolding probe
probe-ok c = probe_on (capa c)

probe-state : (c : Pop3Client) → (probe c).1.state ≡ c.state
probe-state c = (probe-Keeps (state_habit c.state) (set_pipelining-InState c.state)).at c refl

-- What is behind the first exchange of a login, by the result of that.
Behind : SessionState → PopResult (Unit {0}) × Pop3Client → Type 0
Behind s r =
    (r.0 ≡ ok tt → r.1.state ≡ authenticated) × ((e : Pop3Error) → r.0 ≡ err e → r.1.state ≡ s)

Behind-first :
    (s : SessionState) (r : PopResult (Unit {0}) × Pop3Client)
    → r.1.state ≡ s
    → Behind s (continue r (λ _. set_state authenticated >> probe))
unfolding Behind set_state
Behind-first s (ok done, c) h =
    let c' = record c { state = authenticated } in ((λ _. probe-state c'), λ e q. cc (probe-ok c'))
Behind-first s (err f, c) h = ((λ q. cc), λ e q. h)

pub login-LogsIn :
    (username password : Text) (c : Pop3Client) → LogsIn (Client.login username password) c
unfolding Client.login Behind
login-LogsIn username password c =
    Behind-first c.state (user_pass username password c)
      ((user_pass-Keeps (state_habit c.state) username password).at c refl)

pub apop-LogsIn :
    (md5 : Text → Text) (username password : Text) (c : Pop3Client)
    → ((s : Text) → All IsHexDigit (md5 s))
    → LogsIn (Client.apop md5 username password) c
unfolding Client.apop Behind
apop-LogsIn md5 username password c hex =
    Behind-first c.state (apop_digest md5 username password c)
      ((apop_digest-Keeps (state_habit c.state) md5 hex username password).at c refl)

-- The client behind a login: authenticated, or in the state from before an error.
abbrev pub Entered : SessionState → PopResult (Unit {0}) × Pop3Client → Type 0
Entered s (ok done, c) = c.state ≡ authenticated
Entered s (err e, c) = c.state ≡ s

Behind-Entered :
    (s : SessionState) (r : PopResult (Unit {0}) × Pop3Client) → Behind s r → Entered s r
unfolding Behind
Behind-Entered s (ok done, c) h = h.0 refl
Behind-Entered s (err e, c) h = h.1 e refl

-- A login, by USER and PASS or by APOP, that succeeds leaves the client authenticated, and one that
-- fails, at whatever point, leaves it in the state in which it was, if the MD5 digest is printed in
-- hexadecimal digits.
pub logins-Entered :
    (md5 : Text → Text) (username password : Text) (c : Pop3Client)
    → ((s : Text) → All IsHexDigit (md5 s))
    → Entered c.state (Client.login username password c)
      × Entered c.state (Client.apop md5 username password c)
logins-Entered md5 username password c hex = (
  Behind-Entered c.state (Client.login username password c)
      (unfold Behind in login-LogsIn username password c),
  Behind-Entered c.state (Client.apop md5 username password c)
      (unfold Behind in apop-LogsIn md5 username password c hex),
)

-- The steps of the session state: to stay, or to be authenticated.
pub data Move : SessionState → SessionState → Type 0 where
  stay : (s : SessionState) → Move s s
  authenticate : Move connected authenticated

stay_at : {s t : SessionState} → t ≡ s → Move s t
stay_at {s} e = subst (λ (u : SessionState). Move s u) (sym e) (stay s)

authenticated_at : {s t : SessionState} → s ≡ connected → t ≡ authenticated → Move s t
authenticated_at {s} {t} e f =
    subst (λ (u : SessionState). Move u t) (sym e)
      (subst (λ (u : SessionState). Move connected u) (sym f) authenticate)

Move-trans : {s t u : SessionState} → Move s t → Move t u → Move s u
Move-trans (stay s) m = m
Move-trans authenticate (stay t) = authenticate

-- A login is refused outside `Connected`.
require_connected-refused :
    (c : Pop3Client) → c.state ≢ connected → require_connected c ≡ (err not_authenticated, c)
unfolding require_connected
require_connected-refused c h = ground arith

state-cases : (s : SessionState) → (s ≡ connected) ⊎ (s ≢ connected)
state-cases connected = inl refl
state-cases authenticated = inr (λ q. cc)
state-cases disconnected = inr (λ q. cc)

result-cases : (r : PopResult (Unit {0})) → (r ≡ ok tt) ⊎ ((e : Pop3Error) × (r ≡ err e))
result-cases (ok done) = inl refl
result-cases (err e) = inr (e, refl)

LogsIn-Move :
    (m : Exec Pop3Client (Unit {0})) (c : Pop3Client)
    → LogsIn m c
    → c.state ≡ connected
    → Move c.state (m c).1.state
LogsIn-Move m c (done, failed) e = elim (result-cases (m c).0) [
  | inl q ↦ authenticated_at e (done q)
  | inr (f, q) ↦ stay_at (failed f q)
]

pub login-refused :
    (username password : Text) (c : Pop3Client)
    → c.state ≢ connected
    → Client.login username password c ≡ (err not_authenticated, c)
unfolding Client.login user_pass
login-refused username password c h = rw (require_connected-refused c h)

apop-refused :
    (md5 : Text → Text) (username password : Text) (c : Pop3Client)
    → c.state ≢ connected
    → Client.apop md5 username password c ≡ (err not_authenticated, c)
unfolding Client.apop apop_digest
apop-refused md5 username password c h = rw (require_connected-refused c h)

refused-Move :
    (m : Exec Pop3Client (Unit {0})) (c : Pop3Client)
    → m c ≡ (err not_authenticated, c)
    → Move c.state (m c).1.state
refused-Move m c e = stay_at (ap (λ (r : PopResult (Unit {0}) × Pop3Client). r.1.state) e)

module _ (md5 : Text → Text) (hex : (s : Text) → All IsHexDigit (md5 s)) where
  command-Move :
      (call : Call) (c : Pop3Client) → IsCommand call → Move c.state (perform md5 call c).state
  command-Move call c i = stay_at (
      command-Keeps (state_habit c.state)
        (λ hostname. over-InState c.state (upgrade_in_place hostname)) md5 call c i refl)

  perform-Move : (call : Call) (c : Pop3Client) → Move c.state (perform md5 call c).state
  unfolding perform
  perform-Move (login u p) c = elim (state-cases c.state) [
    | inl e ↦ LogsIn-Move (Client.login u p) c (login-LogsIn u p c) e
    | inr h ↦ refused-Move (Client.login u p) c (login-refused u p c h)
  ]
  perform-Move (apop u p) c = elim (state-cases c.state) [
    | inl e ↦ LogsIn-Move (Client.apop md5 u p) c (apop-LogsIn md5 u p c hex) e
    | inr h ↦ refused-Move (Client.apop md5 u p) c (apop-refused md5 u p c h)
  ]
  perform-Move call c = command-Move call c tt

-- Whatever calls a session makes, it leaves the state as it was, or takes a connected client to the
-- authenticated state; an authenticated client stays authenticated, and none is ever disconnected
-- that was not, if the MD5 digest is printed in hexadecimal digits.
pub session-Move :
    (md5 : Text → Text) (calls : List Call) (c : Pop3Client)
    → ((s : Text) → All IsHexDigit (md5 s))
    → Move c.state (session md5 calls c).state
unfolding session
session-Move md5 [] c hex = stay c.state
session-Move md5 (call ∷ rest) c hex =
    Move-trans (perform-Move md5 hex call c) (session-Move md5 rest (perform md5 call c) hex)
