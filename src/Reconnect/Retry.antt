-- ===== src/Reconnect/Retry.antt =====
-- Reconnections of src/reconnect.rs, and what they rely on of backon's retry loop.
use rust_adv_pop.Prelude.{
  ℕ, zero, suc, ◌+◌, ◌≤◌, ◌<◌, Bool, true, ◌≡◌, refl, ap, sym, ◌∙◌, arith, if◌then◌else◌,
  Bool-cases, inl, inr, ◌⊎◌,
}
use rust_adv_pop.Text.{Text}
use rust_adv_pop.Error.{Pop3Error, PopResult, ok, err}
use rust_adv_pop.Types.{authenticated}
use rust_adv_pop.Client.{Pop3Client}
use rust_adv_pop.Builder.{Network}
use rust_adv_pop.Reconnect.{
  RetryLoop, ExponentialBuilder, build_exp_backoff, is_retryable, ReconnectingClient, attempts,
  do_reconnect, settle,
}
use rust_adv_pop.Reconnect.Credentials.{connect_and_auth-authenticated}

-- What backon documents: its result is that of the last attempt, it makes one attempt and at most
-- `max_times` more, and it goes on only behind an error that the condition accepts.
pub record RetryLaw (retry : RetryLoop) : Type 0 where
  pub last :
      (cfg : ExponentialBuilder) (when : Pop3Error → Bool) (attempt : ℕ → PopResult Pop3Client)
      → (k : ℕ) × (((retry cfg when attempt).1 ≡ suc k) × ((retry cfg when attempt).0 ≡ attempt k))
  pub bounded :
      (cfg : ExponentialBuilder) (when : Pop3Error → Bool) (attempt : ℕ → PopResult Pop3Client)
      → (retry cfg when attempt).1 ≤ suc cfg.max_times
  pub only_when :
      (cfg : ExponentialBuilder) (when : Pop3Error → Bool) (attempt : ℕ → PopResult Pop3Client)
      (k : ℕ)
      → suc k < (retry cfg when attempt).1
      → (e : Pop3Error) × ((attempt k ≡ err e) × (when e ≡ true))

-- A loop that keeps the law: without waiting, from attempt `n` on with `left` more.
abbrev pub tried :
    (Pop3Error → Bool)
    → (PopResult Pop3Client × ℕ)
    → (n : ℕ) → PopResult Pop3Client
    → PopResult Pop3Client × ℕ
tried when next n (ok c) = (ok c, suc n)
tried when next n (err e) = if when e then next else (err e, suc n)

unfoldable pub retry_from :
    (Pop3Error → Bool) → (ℕ → PopResult Pop3Client) → (left n : ℕ) → PopResult Pop3Client × ℕ
retry_from when attempt zero n = (attempt n, suc n)
retry_from when attempt (suc left) n =
    let next = retry_from when attempt left (suc n) in tried when next n (attempt n)

unfoldable pub plain_retry : RetryLoop
unfolding retry_from
plain_retry cfg when attempt = retry_from when attempt cfg.max_times 0

≤-cases : (n k : ℕ) → n ≤ k → (n ≡ k) ⊎ (suc n ≤ k)
≤-cases n k h = omega arith

-- The loop from `n` on: its result is that of its last attempt, it makes at most `left` behind the
-- first, and it goes on only behind an accepted error.
abbrev KeepsOn :
    (Pop3Error → Bool) → (ℕ → PopResult Pop3Client) → ℕ → ℕ → PopResult Pop3Client × ℕ → Type 0
KeepsOn when attempt left n r =
    ((k : ℕ) × ((r.1 ≡ suc k) × (r.0 ≡ attempt k)))
    × (r.1 ≤ suc (n + left))
    × ((k : ℕ) → n ≤ k → suc k < r.1 → (e : Pop3Error) × ((attempt k ≡ err e) × (when e ≡ true)))

tried-KeepsOn :
    (when : Pop3Error → Bool) (attempt : ℕ → PopResult Pop3Client) (left n : ℕ)
    → (next : PopResult Pop3Client × ℕ) → KeepsOn when attempt left (suc n) next
    → (r : PopResult Pop3Client) → attempt n ≡ r
    → KeepsOn when attempt (suc left) n (tried when next n r)
tried-KeepsOn when attempt left n next h (ok c) e =
    ((n, (refl, sym e)), omega arith, λ k le lt. absurd (omega arith))
tried-KeepsOn when attempt left n next (at_last, most, accepted) (err f) e =
    elim (Bool-cases (when f)) [
      | inl is_on ↦ rw is_on (
        at_last,
        omega arith,
        λ k le lt. elim (≤-cases n k le) [
          | inl q ↦ (f, (ap attempt (sym q) ∙ e, is_on))
          | inr more ↦ accepted k more lt
        ],
      )
      | inr is_off ↦ rw is_off ((n, (refl, sym e)), omega arith, λ k le lt. absurd (omega arith))
    ]

retry_from-KeepsOn :
    (when : Pop3Error → Bool) (attempt : ℕ → PopResult Pop3Client) (left n : ℕ)
    → KeepsOn when attempt left n (retry_from when attempt left n)
unfolding retry_from
retry_from-KeepsOn when attempt zero n =
    ((n, (refl, refl)), omega arith, λ k le lt. absurd (omega arith))
retry_from-KeepsOn when attempt (suc left) n =
    tried-KeepsOn when attempt left n _ (retry_from-KeepsOn when attempt left (suc n)) (attempt n)
      refl

pub plain_retry-RetryLaw : RetryLaw plain_retry
unfolding plain_retry
plain_retry-RetryLaw = record {
  last = λ cfg when attempt. (retry_from-KeepsOn when attempt cfg.max_times 0).0;
  bounded = λ cfg when attempt.
      let h = (retry_from-KeepsOn when attempt cfg.max_times 0).1 in omega arith;
  only_when = λ cfg when attempt k lt.
      (retry_from-KeepsOn when attempt cfg.max_times 0).2 k (omega arith) lt;
}

module _ (retry : RetryLoop) (md5 : Text → Text) (networks : ℕ → Network) where
  -- What a reconnection leaves: an authenticated client where it succeeds and the old client where it
  -- fails, behind one attempt and at most `max_retries` more.
  abbrev pub Renewed : ReconnectingClient → PopResult (Unit {0}) × ReconnectingClient → Type 0
  Renewed s (ok done, s') =
      (s'.client.state ≡ authenticated)
      × (s.dialled < s'.dialled)
      × (s'.dialled ≤ s.dialled + suc s.max_retries)
  Renewed s (err e, s') =
      (s'.client ≡ s.client)
      × (s.dialled < s'.dialled)
      × (s'.dialled ≤ s.dialled + suc s.max_retries)

  settle-Renewed :
      (s : ReconnectingClient) (r : PopResult Pop3Client × ℕ)
      → (k : ℕ) × ((r.1 ≡ suc k) × (r.0 ≡ attempts retry md5 networks s k))
      → r.1 ≤ suc s.max_retries
      → Renewed s (settle retry md5 networks s r)
  unfolding settle attempts
  settle-Renewed s (ok c, n) (k, (e, q)) le = (
    connect_and_auth-authenticated md5 s.builder s.username s.password (networks (s.dialled + k)) c
        (sym q),
    omega arith,
    omega arith,
  )
  settle-Renewed s (err f, n) (k, (e, q)) le = (refl, omega arith, omega arith)

  -- If the retry loop keeps its law, a reconnection that succeeds leaves an authenticated client, one
  -- that fails leaves the old client, and either makes between one and `max_retries + 1` attempts.
  pub do_reconnect-Renewed :
      (s : ReconnectingClient) → RetryLaw retry → Renewed s (do_reconnect retry md5 networks s)
  unfolding do_reconnect build_exp_backoff
  do_reconnect-Renewed s law =
      settle-Renewed s _ (law.last _ is_retryable (attempts retry md5 networks s)) (
        law.bounded (build_exp_backoff s.max_retries s.initial_delay s.max_delay s.jitter)
          is_retryable (attempts retry md5 networks s))
