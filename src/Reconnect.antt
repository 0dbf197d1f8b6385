-- ===== src/Reconnect.antt =====
-- src/reconnect.rs: `ReconnectingClient`. The retry loop of the backon crate is the parameter `retry`.
pub mod Retry
pub mod Commands
pub mod Outcomes
pub mod BatchOutcomes
pub mod Credentials
pub mod Progress
use rust_adv_pop.Prelude.{
  ℕ, zero, suc, ◌+◌, ◌-◌, Bool, true, false, ◌||◌, Option, List, [], ◌∷◌, ◌++◌, if◌then◌else◌,
}
use rust_adv_pop.Text.{Text}
use rust_adv_pop.Error.{
  Pop3Error, io, sys_temp, timeout, connection_closed, Result, PopResult, ok, err, ◌>>=◌,
}
use rust_adv_pop.Types.{SessionState, Stat, ListEntry, UidlEntry, Message, Capability}
use rust_adv_pop.Transport.{Sent}
use rust_adv_pop.Exec.{Exec, continue}
use rust_adv_pop.Client
use rust_adv_pop.Client.{Pop3Client}
use rust_adv_pop.Client.Batch
use rust_adv_pop.Client.Sync
use rust_adv_pop.Builder
use rust_adv_pop.Builder.{Pop3ClientBuilder, Network}

pub data Outcome (A : Type 0) : Type 0 where
  fresh reconnected : A → Outcome A

unfoldable pub into_inner : {A : Type 0} → Outcome A → A
into_inner (fresh v) = v
into_inner (reconnected v) = v

unfoldable pub is_reconnected : {A : Type 0} → Outcome A → Bool
is_reconnected (fresh v) = false
is_reconnected (reconnected v) = true

unfoldable pub is_retryable : Pop3Error → Bool
is_retryable (io e) = true
is_retryable connection_closed = true
is_retryable timeout = true
is_retryable (sys_temp message) = true
is_retryable e = false

-- The configuration of backon's `ExponentialBuilder`.
pub record ExponentialBuilder : Type 0 where
  pub max_times : ℕ
  pub min_delay : ℕ
  pub max_delay : ℕ
  pub jitter : Bool

unfoldable pub build_exp_backoff : ℕ → ℕ → ℕ → Bool → ExponentialBuilder
build_exp_backoff max_retries initial_delay max_delay with_jitter = record {
  max_times = max_retries;
  min_delay = initial_delay;
  max_delay = max_delay;
  jitter = with_jitter;
}

-- backon's `retry(..).when(..)` over the attempts 0, 1, …: the result, and how many were made.
abbrev pub RetryLoop : Type 0
RetryLoop =
    ExponentialBuilder → (Pop3Error → Bool) → (ℕ → PopResult Pop3Client) → PopResult Pop3Client × ℕ

abbrev pub logged_in : PopResult (Unit {0}) × Pop3Client → PopResult Pop3Client
logged_in (ok done, c) = ok c
logged_in (err e, c) = err e

-- The client is dropped where the login fails.
unfoldable pub connect_and_auth :
    (Text → Text) → Pop3ClientBuilder → Text → Text → Network → PopResult Pop3Client
connect_and_auth md5 b username password network = do
  c ← (Builder.connect md5 b network).0
  logged_in (Client.login username password c)

pub record ReconnectingClientBuilder : Type 0 where
  pub builder : Pop3ClientBuilder
  pub max_retries : ℕ
  pub initial_delay : ℕ
  pub max_delay : ℕ
  pub jitter : Bool
  pub on_reconnect : Bool

-- Three retries, from 1 to 30 seconds, with jitter and without a callback.
unfoldable pub new : Pop3ClientBuilder → ReconnectingClientBuilder
new b = record {
  builder = b;
  max_retries = 3;
  initial_delay = 1;
  max_delay = 30;
  jitter = true;
  on_reconnect = false;
}

-- `dialled` counts the attempts that were made, and `notified` logs the calls of the callback:
-- the number of the attempt, from 1, and its error.
pub record ReconnectingClient : Type 0 where
  pub builder : Pop3ClientBuilder
  pub username : Text
  pub password : Text
  pub client : Pop3Client
  pub max_retries : ℕ
  pub initial_delay : ℕ
  pub max_delay : ℕ
  pub jitter : Bool
  pub on_reconnect : Bool
  pub dialled : ℕ
  pub notified : List (ℕ × Pop3Error)

abbrev pub error_at : ℕ → PopResult Pop3Client → List (ℕ × Pop3Error)
error_at n (ok c) = []
error_at n (err e) = (n, e) ∷ []

-- The notifications behind the attempts below `n`.
unfoldable pub notices : (ℕ → PopResult Pop3Client) → ℕ → List (ℕ × Pop3Error)
notices attempt zero = []
notices attempt (suc n) = notices attempt n ++ error_at (suc n) (attempt n)

module _ (retry : RetryLoop) (md5 : Text → Text) (networks : ℕ → Network) where
  -- The attempts of a reconnection, each on the network as it is then.
  unfoldable pub attempts : ReconnectingClient → ℕ → PopResult Pop3Client
  attempts s n = connect_and_auth md5 s.builder s.username s.password (networks (s.dialled + n))

  settle : ReconnectingClient → PopResult Pop3Client × ℕ → PopResult (Unit {0}) × ReconnectingClient
  unfolding notices
  settle s (ok c, n) = (
    ok tt,
    record s {
      client = c;
      dialled = s.dialled + n;
      notified = s.notified ++ (if s.on_reconnect then notices (attempts s) (n - 1) else []);
    },
  )
  settle s (err e, n) = (
    err e,
    record s {
      dialled = s.dialled + n;
      notified = s.notified ++ (if s.on_reconnect then notices (attempts s) (n - 1) else []);
    },
  )

  unfoldable pub do_reconnect : Exec ReconnectingClient (Unit {0})
  unfolding settle build_exp_backoff attempts
  do_reconnect s = settle s (
      retry (build_exp_backoff s.max_retries s.initial_delay s.max_delay s.jitter) is_retryable
        (attempts s))

  module _ {A : Type 0} (op : Exec Pop3Client A) where
    again_on :
        ReconnectingClient → PopResult A × Pop3Client → PopResult (Outcome A) × ReconnectingClient
    again_on s (ok v, c) = (ok (reconnected v), record s { client = c })
    again_on s (err e, c) = (err e, record s { client = c })

    unfoldable pub again :
        PopResult (Unit {0}) × ReconnectingClient → PopResult (Outcome A) × ReconnectingClient
    unfolding again_on
    again (ok done, s) = again_on s (op s.client)
    again (err e, s) = (err e, s)

    -- `renew v` says that a value calls for a new connection too.
    react :
        (A → Bool)
        → ReconnectingClient
        → PopResult A × Pop3Client
        → PopResult (Outcome A) × ReconnectingClient
    unfolding again
    react renew s (ok v, c) =
        let kept = record s { client = c } in
        if renew v then again (do_reconnect kept) else (ok (fresh v), kept)
    react renew s (err e, c) =
        let kept = record s { client = c } in
        if is_retryable e then again (do_reconnect kept) else (err e, kept)

    unfoldable pub retried_when : (A → Bool) → Exec ReconnectingClient (Outcome A)
    unfolding react
    retried_when renew s = react renew s (op s.client)

    unfoldable pub retried : Exec ReconnectingClient (Outcome A)
    unfolding retried_when
    retried = retried_when (λ v. false)
