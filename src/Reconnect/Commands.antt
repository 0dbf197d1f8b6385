-- ===== src/Reconnect/Commands.antt =====
-- src/reconnect.rs: the methods of `ReconnectingClient` and of its builder, each the client's method
-- under a retry.
use rust_adv_pop.Prelude.{ℕ, ◌-◌, Bool, true, false, ◌||◌, Option, List, [], ◌∷◌, if◌then◌else◌}
use rust_adv_pop.Text.{Text}
use rust_adv_pop.Error.{PopResult, ok, err}
use rust_adv_pop.Types.{SessionState, Stat, ListEntry, UidlEntry, Message, Capability}
use rust_adv_pop.Exec.{Exec}
use rust_adv_pop.Client
use rust_adv_pop.Client.{Pop3Client}
use rust_adv_pop.Client.Batch
use rust_adv_pop.Client.Sync
use rust_adv_pop.Builder.{Network}
use rust_adv_pop.Reconnect.{
  RetryLoop, Outcome, is_retryable, build_exp_backoff, connect_and_auth, ReconnectingClientBuilder,
  ReconnectingClient, notices, retried, retried_when,
}

unfoldable pub with_max_retries : ℕ → ReconnectingClientBuilder → ReconnectingClientBuilder
with_max_retries n b = record b { max_retries = n }

unfoldable pub with_initial_delay : ℕ → ReconnectingClientBuilder → ReconnectingClientBuilder
with_initial_delay d b = record b { initial_delay = d }

unfoldable pub with_max_delay : ℕ → ReconnectingClientBuilder → ReconnectingClientBuilder
with_max_delay d b = record b { max_delay = d }

unfoldable pub with_jitter : Bool → ReconnectingClientBuilder → ReconnectingClientBuilder
with_jitter enabled b = record b { jitter = enabled }

unfoldable pub with_on_reconnect : ReconnectingClientBuilder → ReconnectingClientBuilder
with_on_reconnect b = record b { on_reconnect = true }

-- Some result of a batch is an error that calls for a new connection.
unfoldable pub any_retryable : {A : Type 0} → Batch.Outcomes A → Bool
any_retryable [] = false
any_retryable (ok a ∷ rest) = any_retryable rest
any_retryable (err e ∷ rest) = is_retryable e || any_retryable rest

module _ (retry : RetryLoop) (md5 : Text → Text) (networks : ℕ → Network) where
  first_attempts : ReconnectingClientBuilder → Text → Text → ℕ → PopResult Pop3Client
  first_attempts b username password n =
      connect_and_auth md5 b.builder username password (networks n)

  established :
      ReconnectingClientBuilder
      → Text
      → Text
      → PopResult Pop3Client × ℕ
      → PopResult ReconnectingClient
  unfolding first_attempts
  established b username password (ok c, n) = ok (record {
    builder = b.builder;
    username = username;
    password = password;
    client = c;
    max_retries = b.max_retries;
    initial_delay = b.initial_delay;
    max_delay = b.max_delay;
    jitter = b.jitter;
    on_reconnect = b.on_reconnect;
    dialled = n;
    notified = if b.on_reconnect then notices (first_attempts b username password) (n - 1) else [];
  })
  established b username password (err e, n) = err e

  unfoldable pub connect : ReconnectingClientBuilder → Text → Text → PopResult ReconnectingClient
  unfolding established
  connect b username password = established b username password (
      retry (build_exp_backoff b.max_retries b.initial_delay b.max_delay b.jitter) is_retryable
        (first_attempts b username password))

  unfoldable pub stat : Exec ReconnectingClient (Outcome Stat)
  stat = retried retry md5 networks Client.stat

  unfoldable pub list : Option ℕ → Exec ReconnectingClient (Outcome (List ListEntry))
  list id = retried retry md5 networks (Client.list id)

  unfoldable pub uidl : Option ℕ → Exec ReconnectingClient (Outcome (List UidlEntry))
  uidl id = retried retry md5 networks (Client.uidl id)

  unfoldable pub retr : ℕ → Exec ReconnectingClient (Outcome Message)
  retr id = retried retry md5 networks (Client.retr id)

  unfoldable pub dele : ℕ → Exec ReconnectingClient (Outcome (Unit {0}))
  dele id = retried retry md5 networks (Client.dele id)

  unfoldable pub rset : Exec ReconnectingClient (Outcome (Unit {0}))
  rset = retried retry md5 networks Client.rset

  unfoldable pub noop : Exec ReconnectingClient (Outcome (Unit {0}))
  noop = retried retry md5 networks Client.noop

  unfoldable pub top : ℕ → ℕ → Exec ReconnectingClient (Outcome Message)
  top id line_count = retried retry md5 networks (Client.top id line_count)

  unfoldable pub capa : Exec ReconnectingClient (Outcome (List Capability))
  capa = retried retry md5 networks Client.capa

  unfoldable pub retr_many : List ℕ → Exec ReconnectingClient (Outcome (Batch.Outcomes Message))
  retr_many ids = retried_when retry md5 networks (Batch.retr_many ids) any_retryable

  unfoldable pub dele_many : List ℕ → Exec ReconnectingClient (Outcome (Batch.Outcomes (Unit {0})))
  dele_many ids = retried_when retry md5 networks (Batch.dele_many ids) any_retryable

  unfoldable pub unseen_uids : List Text → Exec ReconnectingClient (Outcome (List UidlEntry))
  unseen_uids seen = retried retry md5 networks (Sync.unseen_uids seen)

  unfoldable pub fetch_unseen :
      List Text → Exec ReconnectingClient (Outcome (List (UidlEntry × Message)))
  fetch_unseen seen = retried retry md5 networks (Sync.fetch_unseen seen)

  unfoldable pub prune_seen : List Text → Exec ReconnectingClient (Outcome (List Text × List Text))
  prune_seen seen = retried retry md5 networks (Sync.prune_seen seen)

unfoldable pub quit : ReconnectingClient → PopResult (Unit {0}) × Pop3Client
quit s = Client.quit s.client

unfoldable pub is_closed : ReconnectingClient → Bool
is_closed s = s.client.transport.is_closed

unfoldable pub state : ReconnectingClient → SessionState
state s = s.client.state

unfoldable pub greeting : ReconnectingClient → Text
greeting s = Client.greeting s.client

unfoldable pub is_encrypted : ReconnectingClient → Bool
is_encrypted s = Client.is_encrypted s.client

unfoldable pub supports_pipelining : ReconnectingClient → Bool
supports_pipelining s = Client.supports_pipelining s.client
