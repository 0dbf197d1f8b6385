-- ===== src/Reconnect/BatchOutcomes.antt =====
-- The outcomes of `retr_many` and `dele_many` of `ReconnectingClient` in src/reconnect.rs.
use rust_adv_pop.Prelude.{
  ℕ, ◌<◌, Bool, false, ◌≡◌, refl, ap, sym, ◌∙◌, arith, Bool-cases, inl, inr, List,
}
use rust_adv_pop.Text.{Text}
use rust_adv_pop.Error.{PopResult, ok, err}
use rust_adv_pop.Types.{Message}
use rust_adv_pop.Exec.{Exec}
use rust_adv_pop.Client.{Pop3Client}
use rust_adv_pop.Client.Batch
use rust_adv_pop.Builder.{Network}
use rust_adv_pop.Reconnect.{
  RetryLoop, Outcome, fresh, reconnected, is_retryable, ReconnectingClient, do_reconnect,
  retried_when, react, again,
}
use rust_adv_pop.Reconnect.Commands.{any_retryable, retr_many, dele_many}
use rust_adv_pop.Reconnect.Retry.{RetryLaw, do_reconnect-Renewed}
use rust_adv_pop.Reconnect.Outcomes.{Told, again-Reported, again-dials}

-- A value that was returned as it came does not call for a new connection.
abbrev pub Settled : {A : Type 0} → (A → Bool) → Outcome A → Type 0
Settled renew (fresh v) = renew v ≡ false
Settled renew (reconnected v) = Unit

module _ (retry : RetryLoop) (md5 : Text → Text) (networks : ℕ → Network) {A : Type 0}
    (op : Exec Pop3Client A) (renew : A → Bool) where
  abbrev ReportedWhen : ReconnectingClient → PopResult (Outcome A) × ReconnectingClient → Type 0
  ReportedWhen s r =
      (o : Outcome A) → r.0 ≡ ok o → Told retry md5 networks op s o r.1 × Settled renew o

  dialled-Settled :
      (s s' : ReconnectingClient) (o : Outcome A)
      → s.dialled < s'.dialled
      → Told retry md5 networks op s o s'
      → Settled renew o
  dialled-Settled s s' (fresh v) lt (run, same, quiet) = absurd (omega arith)
  dialled-Settled s s' (reconnected v) lt told = tt

  again-ReportedWhen :
      (s : ReconnectingClient) (c : Pop3Client)
      → RetryLaw retry
      → ReportedWhen s
          (again retry md5 networks op (do_reconnect retry md5 networks (record s { client = c })))
  again-ReportedWhen s c law o q =
      let kept : ReconnectingClient = record s { client = c } in
      let r = do_reconnect retry md5 networks kept in
      let renewed = do_reconnect-Renewed retry md5 networks kept law in
      let told = again-Reported retry md5 networks op s kept r refl renewed o q in
      (
        told,
        dialled-Settled s (again retry md5 networks op r).1 o
            (again-dials retry md5 networks op kept r renewed) told,
      )

  kept_value :
      (s : ReconnectingClient) (v : A) (c : Pop3Client)
      → op s.client ≡ (ok v, c)
      → renew v ≡ false
      → ReportedWhen s (ok (fresh v), record s { client = c })
  kept_value s v c e settled (fresh w) q =
      let same : v ≡ w = cc in
      ((e ∙ ap (λ (x : A). (ok x, c)) same, refl, refl), ap renew (sym same) ∙ settled)
  kept_value s v c e settled (reconnected w) q = cc

  react-ReportedWhen :
      (s : ReconnectingClient) (r : PopResult A × Pop3Client)
      → RetryLaw retry
      → op s.client ≡ r
      → ReportedWhen s (react retry md5 networks op renew s r)
  unfolding react
  react-ReportedWhen s (err f, c) law e = elim (Bool-cases (is_retryable f)) [
    | inl again_on_it ↦ rw again_on_it (again-ReportedWhen s c law)
    | inr final ↦ rw final (λ o q. cc)
  ]
  react-ReportedWhen s (ok v, c) law e = elim (Bool-cases (renew v)) [
    | inl again_on_it ↦ rw again_on_it (again-ReportedWhen s c law)
    | inr settled ↦ rw settled (kept_value s v c e settled)
  ]

  retried_when-ReportedWhen :
      (s : ReconnectingClient) (o : Outcome A)
      → RetryLaw retry
      → (retried_when retry md5 networks op renew s).0 ≡ ok o
      → Told retry md5 networks op s o (retried_when retry md5 networks op renew s).1
        × Settled renew o
  unfolding retried_when
  retried_when-ReportedWhen s o law q = react-ReportedWhen s (op s.client) law refl o q

module _ (retry : RetryLoop) (md5 : Text → Text) (networks : ℕ → Network) where
  -- If the retry loop keeps its law, a `Fresh` batch of RETR is that of one run on the old connection,
  -- without an attempt to connect and with no retryable error among its results; a `Reconnected` one is
  -- that of a run on an authenticated client behind at least one attempt.
  pub retr_many-Reported :
      (s : ReconnectingClient) (ids : List ℕ) (o : Outcome (Batch.Outcomes Message))
      → RetryLaw retry
      → (retr_many retry md5 networks ids s).0 ≡ ok o
      → Told retry md5 networks (Batch.retr_many ids) s o (retr_many retry md5 networks ids s).1
        × Settled any_retryable o
  unfolding retr_many
  retr_many-Reported s ids o law q =
      retried_when-ReportedWhen retry md5 networks (Batch.retr_many ids) any_retryable s o law q

  -- If the retry loop keeps its law, a `Fresh` batch of DELE is that of one run on
  -- the old connection, without an attempt to connect and with no retryable error among its results; a
  -- `Reconnected` one is that of a run on an authenticated client behind at least one attempt.
  pub dele_many-Reported :
      (s : ReconnectingClient) (ids : List ℕ) (o : Outcome (Batch.Outcomes (Unit {0})))
      → RetryLaw retry
      → (dele_many retry md5 networks ids s).0 ≡ ok o
      → Told retry md5 networks (Batch.dele_many ids) s o (dele_many retry md5 networks ids s).1
        × Settled any_retryable o
  unfolding dele_many
  dele_many-Reported s ids o law q =
      retried_when-ReportedWhen retry md5 networks (Batch.dele_many ids) any_retryable s o law q
