-- ===== src/State/Retry/Constant.antt =====
-- Retried calls of state/retry.go whose attempts all do the same: the first one succeeds, or all fail
-- and keep what matters.
use components_contrib.Base.{
  ℕ, zero, suc, String, ◌≡◌, refl, sym, ap, ◌∙◌, true, arith, eq_iff, ltb, if◌then◌else◌, Error,
  Result, ok, err,
}
use components_contrib.Base.Effect.{Eff}
use components_contrib.Base.Signed.{ℤ, pos, negsuc, is_positive, rounds, Duration}
use components_contrib.State.Requests.{RetryPolicy, exponential, linear}
use components_contrib.State.Retry.{next_pause, attempts, with_retries}
use components_contrib.Base.Effect.{Eff}
use components_contrib.Base.Signed.{ℤ, pos, negsuc, is_positive, rounds, Duration}
use components_contrib.State.Requests.{RetryPolicy, exponential, linear}
use components_contrib.State.Retry.{next_pause, attempts, with_retries}
use components_contrib.State.Retry.Attempts.{IsPattern}
use mathlib.Core.Path.{subst}
use components_contrib.Base.Text.Decimal.{itoa}

-- What ends in an error, in a world with `P`.
abbrev pub Fails : {W : Type 0} → (W → Type 0) → Result (Unit {0}) × W → Type 0
Fails P r = ((e : Error) × (r.0 ≡ err e)) × P r.1

positive : (n : ℕ) → ltb 0 (suc n) ≡ true
positive n = ground arith

module _ {W : Type 0} (sleep : Duration → W → W) (method : Eff W (Unit {0})) where
  attempts-done :
      (pattern_name : String) (exhausted : Error) (n : ℕ) (d : Duration) (w : W)
      → (method w).0 ≡ ok tt
      → attempts sleep method pattern_name exhausted (suc n) d w ≡ (ok tt, (method w).1)
  unfolding attempts
  attempts-done pattern_name exhausted n d w h = rw (attempts, h) refl

  with_retries-pattern :
      (failed : String → Error) (policy : RetryPolicy) (w : W)
      → IsPattern policy.pattern_name
      → with_retries sleep method failed policy w ≡ (
          if is_positive policy.threshold
          then attempts sleep method policy.pattern_name
              (failed (itoa policy.threshold))
              (rounds policy.threshold)
              policy.interval
              w
          else method w)
  unfolding with_retries
  with_retries-pattern failed policy w p = ground (
    arith,
    eq_iff policy.pattern_name "",
    eq_iff policy.pattern_name linear,
    eq_iff policy.pattern_name exponential,
    p,
  )

  -- A call whose first attempt succeeds is that attempt.
  pub with_retries-done :
      (failed : String → Error) (policy : RetryPolicy) (w : W)
      → IsPattern policy.pattern_name
      → (method w).0 ≡ ok tt
      → with_retries sleep method failed policy w ≡ method w
  with_retries-done failed policy w p h =
      with_retries-pattern failed policy w p ∙ by_threshold policy.threshold
    where
      paired : (ok tt, (method w).1) ≡ method w
      paired = ap (λ r. (r, (method w).1)) (sym h)

      by_threshold :
          (t : ℤ)
          → (if is_positive t
              then attempts sleep method policy.pattern_name
                  (failed (itoa policy.threshold))
                  (rounds t)
                  policy.interval
                  w
              else method w)
            ≡ method w
      by_threshold (pos zero) = refl
      by_threshold (pos (suc n)) = rw (positive n) (
          attempts-done policy.pattern_name (failed (itoa policy.threshold)) n policy.interval w h
          ∙ paired)
      by_threshold (negsuc n) = refl

  module _ (P : W → Type 0) (fails : (w : W) → P w → Fails P (method w))
      (sleeps : (d : Duration) (w : W) → P w → P (sleep d w)) where
    attempts-Fails :
        (pattern_name : String) (exhausted : Error) (n : ℕ) (d : Duration) (w : W)
        → P w
        → Fails P (attempts sleep method pattern_name exhausted n d w)
    unfolding attempts
    attempts-Fails pattern_name exhausted zero d w p = ((exhausted, refl), p)
    attempts-Fails pattern_name exhausted (suc n) d w p =
        let ((e, q), k) = fails w p in
        rw (q, attempts)
          (attempts-Fails pattern_name exhausted n (next_pause pattern_name d)
            (sleep d (method w).1) (sleeps d (method w).1 k))

    -- A call whose attempts all fail ends in an error.
    pub with_retries-Fails :
        (failed : String → Error) (policy : RetryPolicy) (w : W)
        → IsPattern policy.pattern_name
        → P w
        → Fails P (with_retries sleep method failed policy w)
    with_retries-Fails failed policy w p h =
        subst (Fails P) (sym (with_retries-pattern failed policy w p))
          (by_threshold policy.threshold)
      where
        by_threshold :
            (t : ℤ)
            → Fails P (
                if is_positive t
                then attempts sleep method policy.pattern_name
                    (failed (itoa policy.threshold))
                    (rounds t)
                    policy.interval
                    w
                else method w)
        by_threshold (pos zero) = fails w h
        by_threshold (pos (suc n)) = rw (positive n) (
            attempts-Fails policy.pattern_name (failed (itoa policy.threshold)) (suc n)
              policy.interval w h)
        by_threshold (negsuc n) = fails w h
