-- ===== src/State/Retry/Attempts.antt =====
-- What a retried call of state/retry.go does: the first success ends the loop, a panic passes
-- through, and the loop gives up after as many failures as the threshold says.
use components_contrib.Base.{
  ℕ, zero, suc, ◌<◌, String, ◌≡◌, refl, ◌≢◌, ◌⊎◌, inl, inr, [], ◌∷◌, arith, eq_iff, Error,
  formatted, Result, ok, err, Result-cases,
}
use components_contrib.Base.Effect.{Eff}
use components_contrib.Base.Signed.{pos, Duration}
use components_contrib.Base.Text.Decimal.{itoa}
use components_contrib.State.Requests.{RetryPolicy, SetRequest, exponential, linear}
use components_contrib.State.Retry.{
  next_pause, attempts, with_retries, set_failed, set_with_retries,
}

-- The patterns that the code knows.
abbrev pub IsPattern : String → Type 0
IsPattern s = (s ≡ "") ⊎ (s ≡ linear) ⊎ (s ≡ exponential)

module _ {W : Type 0} (sleep : Duration → W → W) (method : Eff W (Unit {0})) where
  -- The world behind `k` failed attempts, each followed by its pause.
  unfoldable pub after_failures : String → ℕ → Duration → W → W
  after_failures pattern_name zero d w = w
  after_failures pattern_name (suc k) d w =
      after_failures pattern_name k (next_pause pattern_name d) (sleep d (method w).1)

  -- The first `k` attempts each end in an error.
  abbrev pub FailsFirst : String → ℕ → Duration → W → Type 0
  FailsFirst pattern_name zero d w = Unit
  FailsFirst pattern_name (suc k) d w =
      ((e : Error) × ((method w).0 ≡ err e))
      × FailsFirst pattern_name k (next_pause pattern_name d) (sleep d (method w).1)

  -- After `k` failures, with more rounds left, the loop does what the next attempt does, if that
  -- is no error.
  attempts_settled :
      (pattern_name : String) (exhausted : Error) (k n : ℕ) (d : Duration) (w : W)
      → k < n
      → FailsFirst pattern_name k d w
      → ((e : Error) → (method (after_failures pattern_name k d w)).0 ≢ err e)
      → attempts sleep method pattern_name exhausted n d w
        ≡ method (after_failures pattern_name k d w)
  unfolding attempts after_failures
  attempts_settled pattern_name exhausted k zero d w h fs settled = elim h [ ]
  attempts_settled pattern_name exhausted zero (suc n) d w h fs settled =
      elim (Result-cases (method w).0) [
        | inl (tt', e) ↦ ground arith
        | inr (inl (x, e)) ↦ absurd (settled x e)
        | inr (inr (p, e)) ↦ ground arith
      ]
  attempts_settled pattern_name exhausted (suc k) (suc n) d w h ((x, e), fs) settled =
      rw (e, attempts)
        (attempts_settled pattern_name exhausted k n (next_pause pattern_name d)
          (sleep d (method w).1) (omega arith) fs settled)

  -- If every attempt fails, the loop ends in the given error, behind the last pause.
  attempts_exhausted :
      (pattern_name : String) (exhausted : Error) (n : ℕ) (d : Duration) (w : W)
      → FailsFirst pattern_name n d w
      → attempts sleep method pattern_name exhausted n d w
        ≡ (err exhausted, after_failures pattern_name n d w)
  unfolding attempts after_failures
  attempts_exhausted pattern_name exhausted zero d w fs = refl
  attempts_exhausted pattern_name exhausted (suc n) d w ((x, e), fs) =
      rw (e, attempts)
        (attempts_exhausted pattern_name exhausted n (next_pause pattern_name d)
          (sleep d (method w).1) fs)

  -- How a run of the loop can end: at an attempt that is no error, or given up.
  abbrev pub Settles : String → ℕ → Duration → W → Result (Unit {0}) × W → Type 0
  Settles pattern_name n d w r =
      (k : ℕ) × (k < n)
      × FailsFirst pattern_name k d w
      × ((e : Error) → r.0 ≢ err e)
      × (r ≡ method (after_failures pattern_name k d w))

  abbrev pub GivesUp : String → Error → ℕ → Duration → W → Result (Unit {0}) × W → Type 0
  GivesUp pattern_name exhausted n d w r =
      FailsFirst pattern_name n d w × (r ≡ (err exhausted, after_failures pattern_name n d w))

  attempts_cases :
      (pattern_name : String) (exhausted : Error) (n : ℕ) (d : Duration) (w : W)
      → Settles pattern_name n d w (attempts sleep method pattern_name exhausted n d w)
        ⊎ GivesUp pattern_name exhausted n d w (attempts sleep method pattern_name exhausted n d w)
  unfolding attempts after_failures
  attempts_cases pattern_name exhausted zero d w = inr (tt, refl)
  attempts_cases pattern_name exhausted (suc n) d w = elim (Result-cases (method w).0) [
    | inl (u, e) ↦ inl (0, omega arith, tt, rw (e, attempts) (λ x q. cc), ground arith)
    | inr (inr (p, e)) ↦ inl (0, omega arith, tt, rw (e, attempts) (λ x q. cc), ground arith)
    | inr (inl (x, e)) ↦
        rw (e, attempts)
          (elim (attempts_cases pattern_name exhausted n (next_pause pattern_name d)
            (sleep d (method w).1)) [
              | inl (k, lt, fs, settled, q) ↦ inl (suc k, omega arith, ((x, e), fs), settled, q)
              | inr (fs, q) ↦ inr (((x, refl), fs), q)
            ])
  ]

  pub with_retries-attempts :
      (failed : String → Error) (policy : RetryPolicy) (n : ℕ) (w : W)
      → IsPattern policy.pattern_name
      → policy.threshold ≡ pos n
      → 0 < n
      → with_retries sleep method failed policy w
        ≡ attempts sleep method policy.pattern_name (failed (itoa (pos n))) n policy.interval w
  unfolding with_retries
  with_retries-attempts failed policy n w p t h = ground (
    arith,
    eq_iff policy.pattern_name "",
    eq_iff policy.pattern_name linear,
    eq_iff policy.pattern_name exponential,
  )

module _ {W V : Type 0} (sleep : Duration → W → W) (method : SetRequest V → Eff W (Unit {0})) where
  -- With a known pattern and a positive threshold n, a set with retries either ends with the first
  -- attempt that is no error, which is among the first n and behind as many failures and pauses as
  -- there were attempts before it, and gives what that attempt gives; or the first n attempts all
  -- fail, and it gives the error of the threshold behind n pauses.
  pub set_with_retries_cases :
      (req : SetRequest V) (n : ℕ) (w : W)
      → IsPattern req.options.retry_policy.pattern_name
      → req.options.retry_policy.threshold ≡ pos n
      → 0 < n
      → Settles sleep
          (method req)
          req.options.retry_policy.pattern_name
          n
          req.options.retry_policy.interval
          w
          (set_with_retries sleep method req w)
        ⊎ GivesUp sleep
            (method req)
            req.options.retry_policy.pattern_name
            (formatted "failed to set value after %d retries" (itoa (pos n) ∷ []))
            n
            req.options.retry_policy.interval
            w
            (set_with_retries sleep method req w)
  unfolding set_with_retries
  set_with_retries_cases req n w p t h =
      rw (with_retries-attempts sleep (method req) set_failed req.options.retry_policy n w p t h) (
        attempts_cases sleep (method req) req.options.retry_policy.pattern_name
          (set_failed (itoa (pos n))) n req.options.retry_policy.interval w)

  -- With a known pattern and a positive threshold n: if the first k attempts fail, k < n, and the
  -- next one succeeds, then a set with retries succeeds in the world which that attempt leaves.
  set_with_retries_first_success :
      (req : SetRequest V) (k n : ℕ) (w : W)
      → IsPattern req.options.retry_policy.pattern_name
      → req.options.retry_policy.threshold ≡ pos n
      → k < n
      → FailsFirst sleep
          (method req)
          req.options.retry_policy.pattern_name
          k
          req.options.retry_policy.interval
          w
      → (method req (
          after_failures sleep
            (method req)
            req.options.retry_policy.pattern_name
            k
            req.options.retry_policy.interval
            w)).0
        ≡ ok tt
      → set_with_retries sleep method req w ≡ (
        ok tt,
        (method req (
            after_failures sleep
              (method req)
              req.options.retry_policy.pattern_name
              k
              req.options.retry_policy.interval
              w)).1,
      )
  unfolding set_with_retries
  set_with_retries_first_success req k n w p t h fs done =
      rw
        (
          with_retries-attempts sleep (method req) set_failed req.options.retry_policy n w p t
              (omega arith),
          attempts_settled sleep (method req) req.options.retry_policy.pattern_name
              (set_failed (itoa (pos n))) k n req.options.retry_policy.interval w h fs (λ e q. cc),
        )
        (ground arith)
