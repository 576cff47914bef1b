-- ===== src/State/Retry.antt =====
-- SetWithRetries and DeleteWithRetries of state/retry.go, over any world in which one can sleep.
pub mod Attempts
pub mod Constant
pub mod Schedule
mod Tests
use components_contrib.Base.{
  ℕ, zero, suc, ◌%◌, String, ◌||◌, [], ◌∷◌, ◌==◌, if◌then◌else◌, Error, formatted, ok, err, panic,
}
use components_contrib.Base.Effect.{Eff}
use components_contrib.Base.Signed.{is_positive, rounds, Duration, double}
use components_contrib.Base.Text.Decimal.{itoa}
use components_contrib.State.Requests.{RetryPolicy, DeleteRequest, SetRequest, exponential, linear}

-- `if req.Options.RetryPolicy.Pattern == Exponential { duration *= 2 }`
unfoldable pub next_pause : String → Duration → Duration
next_pause pattern_name d = if pattern_name == exponential then double d else d

module _ {W : Type 0} (sleep : Duration → W → W) (method : Eff W (Unit {0})) where
  -- The loop, with the rounds left and the pause behind the next failure.
  unfoldable pub attempts : String → Error → ℕ → Duration → Eff W (Unit {0})
  attempts pattern_name exhausted zero d w = (err exhausted, w)
  attempts pattern_name exhausted (suc n) d w = elim (method w).0 [
    | ok _ ↦ (ok tt, (method w).1)
    | err e ↦ attempts pattern_name exhausted n (next_pause pattern_name d) (sleep d (method w).1)
    | panic p ↦ (panic p, (method w).1)
  ]

  unfoldable pub with_retries : (String → Error) → RetryPolicy → Eff W (Unit {0})
  unfolding attempts
  with_retries failed policy w =
      if policy.pattern_name == ""
        || policy.pattern_name == linear
        || policy.pattern_name == exponential
      then (if is_positive policy.threshold
          then attempts policy.pattern_name (failed (itoa policy.threshold))
              (rounds policy.threshold) policy.interval w
          else method w)
      else (err (formatted "unrecognized retry patter '%s'" (policy.pattern_name ∷ [])), w)

abbrev pub set_failed : String → Error
set_failed n = formatted "failed to set value after %d retries" (n ∷ [])

module _ {W : Type 0} (sleep : Duration → W → W) where
  unfoldable pub set_with_retries :
      {V : Type 0} → (SetRequest V → Eff W (Unit {0})) → SetRequest V → Eff W (Unit {0})
  unfolding with_retries
  set_with_retries method req = with_retries sleep (method req) set_failed req.options.retry_policy

  -- The message of the deletion is that of the set.
  unfoldable pub delete_with_retries :
      (DeleteRequest → Eff W (Unit {0})) → DeleteRequest → Eff W (Unit {0})
  unfolding with_retries
  delete_with_retries method req =
      with_retries sleep (method req) set_failed req.options.retry_policy
