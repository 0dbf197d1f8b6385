-- ===== src/Reconnect/Outcomes.antt =====
-- The outcomes and errors of the methods of `ReconnectingClient` in src/reconnect.rs.
use rust_adv_pop.Prelude.{◌⊎◌, ℕ, ◌<◌, false, ◌≡◌, refl, ap, sym, ◌∙◌, arith, Bool-cases, inl, inr}
use rust_adv_pop.Text.{Text}
use rust_adv_pop.Error.{Pop3Error, PopResult, ok, err}
use rust_adv_pop.Types.{authenticated}
use rust_adv_pop.Exec.{Exec}
use rust_adv_pop.Client.{Pop3Client}
use rust_adv_pop.Builder.{Network}
use rust_adv_pop.Reconnect.{
  RetryLoop, Outcome, fresh, reconnected, is_retryable, ReconnectingClient, do_reconnect, retried,
  retried_when, react, again, again_on,
}
use rust_adv_pop.Reconnect.Retry.{RetryLaw, Renewed, do_reconnect-Renewed}

module _ (retry : RetryLoop) (md5 : Text → Text) (networks : ℕ → Network) {A : Type 0}
    (op : Exec Pop3Client A) where
  -- A value came from the first run on the old connection, on which no attempt was made; or from a
  -- second run, on an authenticated client that replaced the old one.
  abbrev pub Told : ReconnectingClient → Outcome A → ReconnectingClient → Type 0
  Told s (fresh v) s' =
      (op s.client ≡ (ok v, s'.client)) × (s'.dialled ≡ s.dialled) × (s'.notified ≡ s.notified)
  Told s (reconnected v) s' =
      (s.dialled < s'.dialled)
      × ((c : Pop3Client) × ((c.state ≡ authenticated) × (op c ≡ (ok v, s'.client))))

  abbrev pub Reported : ReconnectingClient → PopResult (Outcome A) × ReconnectingClient → Type 0
  Reported s r = (o : Outcome A) → r.0 ≡ ok o → Told s o r.1

  again_on-Reported :
      (s s' : ReconnectingClient) (r : PopResult A × Pop3Client)
      → op s'.client ≡ r
      → s'.client.state ≡ authenticated
      → s.dialled < s'.dialled
      → Reported s (again_on retry md5 networks op s' r)
  unfolding again_on
  again_on-Reported s s' (ok v, c) e auth lt (fresh w) q = cc
  again_on-Reported s s' (ok v, c) e auth lt (reconnected w) q =
      let same : v ≡ w = cc in (lt, (s'.client, (auth, e ∙ ap (λ (x : A). (ok x, c)) same)))
  again_on-Reported s s' (err f, c) e auth lt o q = cc

  pub again-Reported :
      (s kept : ReconnectingClient) (r : PopResult (Unit {0}) × ReconnectingClient)
      → kept.dialled ≡ s.dialled
      → Renewed retry md5 networks kept r
      → Reported s (again retry md5 networks op r)
  unfolding again
  again-Reported s kept (ok done, s') e (auth, more, most) =
      again_on-Reported s s' _ refl auth (omega arith)
  again-Reported s kept (err f, s') e h = λ o q. cc

  react_err-Reported :
      (s : ReconnectingClient) (f : Pop3Error) (c : Pop3Client)
      → RetryLaw retry
      → Reported s (react retry md5 networks op (λ v. false) s (err f, c))
  unfolding react
  react_err-Reported s f c law = elim (Bool-cases (is_retryable f)) [
    | inl again_on_it ↦ rw again_on_it (
        again-Reported s (record s { client = c })
          (do_reconnect retry md5 networks (record s { client = c })) refl
          (do_reconnect-Renewed retry md5 networks (record s { client = c }) law))
    | inr final ↦ rw final (λ o q. cc)
  ]

  react-Reported :
      (s : ReconnectingClient) (r : PopResult A × Pop3Client)
      → RetryLaw retry
      → op s.client ≡ r
      → Reported s (react retry md5 networks op (λ v. false) s r)
  unfolding react
  react-Reported s (ok v, c) law e (fresh w) q =
      let same : v ≡ w = cc in (e ∙ ap (λ (x : A). (ok x, c)) same, refl, refl)
  react-Reported s (ok v, c) law e (reconnected w) q = cc
  react-Reported s (err f, c) law e o q = react_err-Reported s f c law o q

  -- If the retry loop keeps its law, a `Fresh` value is that of one run on the old connection, and no
  -- attempt to connect was made; a `Reconnected` value is that of a run on an authenticated client
  -- behind at least one attempt.
  pub retried-Reported :
      (s : ReconnectingClient) (o : Outcome A)
      → RetryLaw retry
      → (retried retry md5 networks op s).0 ≡ ok o
      → Told s o (retried retry md5 networks op s).1
  unfolding retried retried_when
  retried-Reported s o law e = react-Reported s (op s.client) law refl o e

  again_on-dials :
      (s s' : ReconnectingClient) (r : PopResult A × Pop3Client)
      → s.dialled < s'.dialled
      → s.dialled < (again_on retry md5 networks op s' r).1.dialled
  unfolding again_on
  again_on-dials s s' (ok v, c) lt = lt
  again_on-dials s s' (err f, c) lt = lt

  pub again-dials :
      (kept : ReconnectingClient) (r : PopResult (Unit {0}) × ReconnectingClient)
      → Renewed retry md5 networks kept r
      → kept.dialled < (again retry md5 networks op r).1.dialled
  unfolding again
  again-dials kept (ok done, s') (auth, more, most) = again_on-dials kept s' (op s'.client) more
  again-dials kept (err f, s') (same, more, most) = more

  -- An error is that of one run on the old connection, not retryable and behind no attempt to connect,
  -- or it comes behind at least one attempt.
  abbrev pub Failed : ReconnectingClient → Pop3Error → ReconnectingClient → Type 0
  Failed s e s' =
      ((op s.client ≡ (err e, s'.client)) × (is_retryable e ≡ false) × (s'.dialled ≡ s.dialled))
      ⊎ (s.dialled < s'.dialled)

  abbrev FailsAs : ReconnectingClient → PopResult (Outcome A) × ReconnectingClient → Type 0
  FailsAs s r = (e : Pop3Error) → r.0 ≡ err e → Failed s e r.1

  react_err-FailsAs :
      (s : ReconnectingClient) (f : Pop3Error) (c : Pop3Client)
      → RetryLaw retry
      → op s.client ≡ (err f, c)
      → FailsAs s (react retry md5 networks op (λ v. false) s (err f, c))
  unfolding react
  react_err-FailsAs s f c law q = elim (Bool-cases (is_retryable f)) [
    | inl again_on_it ↦ rw again_on_it (λ e h. inr (
        again-dials (record s { client = c })
          (do_reconnect retry md5 networks (record s { client = c }))
          (do_reconnect-Renewed retry md5 networks (record s { client = c }) law)))
    | inr final ↦ rw final (λ e h.
        let same : f ≡ e = cc in
        inl (q ∙ ap (λ (x : Pop3Error). (err x, c)) same, ap is_retryable (sym same) ∙ final, refl))
  ]

  react-FailsAs :
      (s : ReconnectingClient) (r : PopResult A × Pop3Client)
      → RetryLaw retry
      → op s.client ≡ r
      → FailsAs s (react retry md5 networks op (λ v. false) s r)
  unfolding react
  react-FailsAs s (ok v, c) law q = λ e h. cc
  react-FailsAs s (err f, c) law q = react_err-FailsAs s f c law q

  -- If the retry loop keeps its law, an error of a method is either that of one run on the old
  -- connection, not retryable and behind no attempt to connect, or behind at least one attempt.
  pub retried-Failed :
      (s : ReconnectingClient) (e : Pop3Error)
      → RetryLaw retry
      → (retried retry md5 networks op s).0 ≡ err e
      → Failed s e (retried retry md5 networks op s).1
  unfolding retried retried_when
  retried-Failed s e law h = react-FailsAs s (op s.client) law refl e h
