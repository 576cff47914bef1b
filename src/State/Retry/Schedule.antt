-- ===== src/State/Retry/Schedule.antt =====
-- When a retried call of state/retry.go is made: the pauses between the attempts of a call that
-- keeps failing.
use components_contrib.Base.{
  ℕ, zero, suc, ◌+◌, ◌*◌, ◌%◌, ◌^◌, ◌<◌, String, ◌≡◌, refl, ap, ◌∙◌, ◌≢◌, ◌⊎◌, inl, inr, List, [],
  ◌∷◌, ◌++◌, arith, eq_iff, Error, formatted, err,
}
use components_contrib.Base.Effect.{Eff}
use components_contrib.Base.Signed.{pos, Duration, double}
use components_contrib.Base.Text.Decimal.{itoa}
use components_contrib.State.Requests.{DeleteRequest, exponential, linear}
use components_contrib.State.Retry.{next_pause, attempts, set_failed, delete_with_retries}
use native.Mathlib.Nat.{pow-suc}
use mathlib.Core.List.{append_assoc, append-nil}
use components_contrib.State.Retry.Attempts.{with_retries-attempts, IsPattern}

-- What an observer of a retried call sees.
pub data Event : Type 0 where
  called : Event
  slept : Duration → Event

abbrev pub log_sleep : Duration → List Event → List Event
log_sleep d w = w ++ slept d ∷ []

abbrev pub failing : Error → Eff (List Event) (Unit {0})
failing e w = (err e, w ++ called ∷ [])

-- `n` calls from the `i`-th on, each followed by its pause.
pub expected : (ℕ → Duration) → ℕ → ℕ → List Event
expected pause zero i = []
expected pause (suc n) i = called ∷ slept (pause i) ∷ expected pause n (suc i)

abbrev pub pause_exponential : Duration → ℕ → Duration
pause_exponential interval i = (interval * 2 ^ i) % 2 ^ 64

double-pause :
    (interval i : ℕ) → double (pause_exponential interval i) ≡ pause_exponential interval (suc i)
double-pause interval i =
    let e : interval * 2 ^ suc i ≡ interval * 2 ^ i + interval * 2 ^ i =
      ap (◌*◌ interval) (pow-suc 2 i) ∙ (omega arith) in
    rw e (omega arith)

pause_step : String → Duration → ℕ → Duration
pause_step pattern_name interval zero = interval
pause_step pattern_name interval (suc i) =
    next_pause pattern_name (pause_step pattern_name interval i)

-- The log of a loop that starts at the pause of round `i`.
attempts-log :
    (pattern_name : String) (exhausted e : Error) (interval n i : ℕ) (w : List Event)
    → attempts log_sleep (failing e) pattern_name exhausted n (pause_step pattern_name interval i) w
      ≡ (err exhausted, w ++ expected (pause_step pattern_name interval) n i)
unfolding attempts expected pause_step
attempts-log pattern_name exhausted e interval zero i w = rw append-nil
attempts-log pattern_name exhausted e interval (suc n) i w =
    attempts-log pattern_name exhausted e interval n (suc i) _ ∙ simp append_assoc

pause_step-exponential :
    (interval : ℕ)
    → interval < 2 ^ 64
    → (i : ℕ) → pause_step exponential interval i ≡ pause_exponential interval i
unfolding pause_step next_pause
pause_step-exponential interval h zero = omega arith
pause_step-exponential interval h (suc i) =
    ap double (pause_step-exponential interval h i) ∙ double-pause interval i

pause_step-constant :
    (pattern_name : String) (interval : ℕ)
    → pattern_name ≢ exponential
    → (i : ℕ) → pause_step pattern_name interval i ≡ interval
unfolding pause_step next_pause
pause_step-constant pattern_name interval h zero = refl
pause_step-constant pattern_name interval h (suc i) =
    ground (arith, eq_iff pattern_name exponential, pause_step-constant pattern_name interval h i)

expected-congr :
    (f g : ℕ → Duration) → ((i : ℕ) → f i ≡ g i) → (n i : ℕ) → expected f n i ≡ expected g n i
unfolding expected
expected-congr f g h zero i = refl
expected-congr f g h (suc n) i = cc (h i, expected-congr f g h n (suc i))

-- The log of a deletion that keeps failing under a known pattern and the threshold n > 0.
delete_with_retries-log :
    (e : Error) (req : DeleteRequest) (n : ℕ) (w : List Event)
    → IsPattern req.options.retry_policy.pattern_name
    → req.options.retry_policy.threshold ≡ pos n
    → 0 < n
    → delete_with_retries log_sleep (λ _. failing e) req w ≡ (
      err (set_failed (itoa (pos n))),
      w
          ++ expected
              (pause_step req.options.retry_policy.pattern_name req.options.retry_policy.interval)
              n
              0,
    )
unfolding delete_with_retries pause_step
delete_with_retries-log e req n w p t h =
    with_retries-attempts log_sleep (failing e) set_failed req.options.retry_policy n w p t h
    ∙ attempts-log req.options.retry_policy.pattern_name (set_failed (itoa (pos n))) e
        req.options.retry_policy.interval n 0 w

-- A deletion that always fails, under the exponential pattern with the threshold n > 0 and an
-- interval of 64 bits: it is called n times, the pause behind call i (from 0) is interval * 2 ^ i
-- reduced to 64 bits, the last call is followed by a pause too, and the error names n.
pub delete_with_retries_exponential :
    (e : Error) (req : DeleteRequest) (n : ℕ) (w : List Event)
    → req.options.retry_policy.pattern_name ≡ "exponential"
    → req.options.retry_policy.threshold ≡ pos n
    → 0 < n
    → req.options.retry_policy.interval < 2 ^ 64
    → delete_with_retries log_sleep (λ _. failing e) req w ≡ (
      err (formatted "failed to set value after %d retries" (itoa (pos n) ∷ [])),
      w ++ expected (λ i. (req.options.retry_policy.interval * 2 ^ i) % 2 ^ 64) n 0,
    )
delete_with_retries_exponential e req n w p t h b =
    delete_with_retries-log e req n w (inr (inr p)) t h
    ∙ ap (λ l. (err (set_failed (itoa (pos n))), w ++ l))
        (ap (λ s. expected (pause_step s req.options.retry_policy.interval) n 0) p
          ∙ expected-congr _ _ (pause_step-exponential req.options.retry_policy.interval b) n 0)

-- A deletion that always fails, under the linear pattern or the empty one with the threshold n > 0:
-- it is called n times, each call is followed by a pause of the interval, and the error names n.
delete_with_retries_linear :
    (e : Error) (req : DeleteRequest) (n : ℕ) (w : List Event)
    → (req.options.retry_policy.pattern_name ≡ "")
      ⊎ (req.options.retry_policy.pattern_name ≡ "linear")
    → req.options.retry_policy.threshold ≡ pos n
    → 0 < n
    → delete_with_retries log_sleep (λ _. failing e) req w ≡ (
      err (formatted "failed to set value after %d retries" (itoa (pos n) ∷ [])),
      w ++ expected (λ i. req.options.retry_policy.interval) n 0,
    )
delete_with_retries_linear e req n w p t h =
    delete_with_retries-log e req n w (known p) t h
    ∙ ap (λ l. (err (set_failed (itoa (pos n))), w ++ l))
        (expected-congr _ _
          (pause_step-constant req.options.retry_policy.pattern_name
            req.options.retry_policy.interval (plain p))
          n 0)
  where
    known :
        (req.options.retry_policy.pattern_name ≡ "")
          ⊎ (req.options.retry_policy.pattern_name ≡ linear)
        → IsPattern req.options.retry_policy.pattern_name
    known (inl q) = inl q
    known (inr q) = inr (inl q)

    plain :
        (req.options.retry_policy.pattern_name ≡ "")
          ⊎ (req.options.retry_policy.pattern_name ≡ linear)
        → req.options.retry_policy.pattern_name ≢ exponential
    plain q = ground (
      arith,
      eq_iff req.options.retry_policy.pattern_name exponential,
      eq_iff "" exponential,
      eq_iff linear exponential,
      q,
    )
