-- ===== src/Reconnect/Progress.antt =====
-- When a reconnection of src/reconnect.rs comes through, and what the callback is told.
use rust_adv_pop.Prelude.{
  ℕ, zero, suc, ◌+◌, ◌≤◌, ◌≡◌, refl, ap, sym, subst, ◌∙◌, Bool, true, false, Bool-cases, inl, inr,
  [], ◌++◌, arith, if◌then◌else◌,
}
use rust_adv_pop.Text.{Text}
use rust_adv_pop.Error.{Pop3Error, PopResult, ok, err}
use rust_adv_pop.Client.{Pop3Client}
use rust_adv_pop.Builder.{Network}
use rust_adv_pop.Reconnect.{
  RetryLoop, ExponentialBuilder, is_retryable, ReconnectingClient, attempts, notices,
}
use rust_adv_pop.Reconnect.Retry.{retry_from, plain_retry, tried}

-- What backon documents further: it does not stop behind an error that the condition accepts while
-- it has attempts left.
pub record EagerLaw (retry : RetryLoop) : Type 0 where
  pub goes_on :
      (cfg : ExponentialBuilder) (when : Pop3Error → Bool) (attempt : ℕ → PopResult Pop3Client)
      (k : ℕ) (e : Pop3Error)
      → (retry cfg when attempt).1 ≡ suc k
      → attempt k ≡ err e
      → when e ≡ true
      → cfg.max_times ≤ k

tried-eager :
    (when : Pop3Error → Bool) (attempt : ℕ → PopResult Pop3Client) (left n k : ℕ) (e : Pop3Error)
    (next : PopResult Pop3Client × ℕ)
    → (next.1 ≡ suc k → suc n + left ≤ k)
    → attempt k ≡ err e
    → when e ≡ true
    → (r : PopResult Pop3Client) → attempt n ≡ r
    → (tried when next n r).1 ≡ suc k
    → suc n + left ≤ k
tried-eager when attempt left n k e next h failed on (ok c) q stop =
    let same : n ≡ k = omega arith in
    let clash : ok c ≡ err e = sym q ∙ ap attempt same ∙ failed in absurd (ground arith)
tried-eager when attempt left n k e next h failed on (err f) q stop = elim (Bool-cases (when f)) [
  | inl is_on ↦ h (rw is_on at stop)
  | inr is_off ↦ absurd (clash is_off (rw is_off at stop))
]
  where
    clash : when f ≡ false → suc n ≡ suc k → ⊥
    clash is_off stopped =
        let same : n ≡ k = omega arith in
        let error : err f ≡ err e = sym q ∙ ap attempt same ∙ failed in
        let alike : f ≡ e = cc in
        let off : when e ≡ false = subst (λ (x : Pop3Error). when x ≡ false) alike is_off in cc

retry_from-eager :
    (when : Pop3Error → Bool) (attempt : ℕ → PopResult Pop3Client) (left n k : ℕ) (e : Pop3Error)
    → (retry_from when attempt left n).1 ≡ suc k
    → attempt k ≡ err e
    → when e ≡ true
    → n + left ≤ k
unfolding retry_from
retry_from-eager when attempt zero n k e stop failed on = omega arith
retry_from-eager when attempt (suc left) n k e stop failed on =
    let h =
      tried-eager when attempt left n k e (retry_from when attempt left (suc n))
        (λ q. retry_from-eager when attempt left (suc n) k e q failed on) failed on (attempt n) refl
        stop in
    omega arith

pub plain_retry-EagerLaw : EagerLaw plain_retry
unfolding plain_retry
plain_retry-EagerLaw = record {
  goes_on = λ cfg when attempt k e stop failed on.
      let spent = retry_from-eager when attempt cfg.max_times 0 k e stop failed on in omega arith;
}

-- The attempt fails with an error behind which there is another.
abbrev pub IsRetried : PopResult Pop3Client → Type 0
IsRetried r = (e : Pop3Error) × ((r ≡ err e) × (is_retryable e ≡ true))

module _ (retry : RetryLoop) (md5 : Text → Text) (networks : ℕ → Network) where
  -- The reconnecting client behind a reconnection of which attempt `k` has come through.
  abbrev pub renewed_by : ℕ → Pop3Client → ReconnectingClient → ReconnectingClient
  renewed_by k c s = record s {
    client = c;
    dialled = s.dialled + suc k;
    notified =
        s.notified ++ (if s.on_reconnect then notices (attempts retry md5 networks s) k else []);
  }
