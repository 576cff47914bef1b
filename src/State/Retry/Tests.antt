-- ===== src/State/Retry/Tests.antt =====
-- The theorems about retried calls at concrete inputs.
use components_contrib.Base.{
  ℕ, ◌+◌, ◌*◌, ◌%◌, ◌^◌, String, ◌≡◌, refl, ◌⊎◌, inl, [], ◌∷◌, arith, ltb, if◌then◌else◌, formatted,
  external, ok, err,
}
use components_contrib.Base.Effect.{Eff}
use components_contrib.Base.Signed.{pos, Duration}
use components_contrib.Base.Text.Decimal.{itoa}
use components_contrib.State.Requests.{RetryPolicy, DeleteRequest, bytes, SetRequest}
use components_contrib.State.Retry.{next_pause, set_with_retries, delete_with_retries}
use components_contrib.State.Retry.Attempts.{set_with_retries_cases, Settles, GivesUp}
use components_contrib.State.Retry.Schedule.{
  called, slept, log_sleep, failing, expected, delete_with_retries_exponential,
}

abbrev set_policy : RetryPolicy → SetRequest ℕ
set_policy p = record {
  key = "k";
  value = bytes "v";
  etag = "";
  metadata = [];
  options = record { concurrency = ""; consistency = ""; retry_policy = p };
}

abbrev delete_policy : RetryPolicy → DeleteRequest
delete_policy p = record {
  key = "k";
  etag = "";
  options = record { concurrency = ""; consistency = ""; retry_policy = p };
}

abbrev thrice : String → RetryPolicy
thrice name = record { interval = 5; threshold = pos 3; pattern_name = name }

-- A service whose world counts the calls, and that fails the first two.
abbrev flaky : SetRequest ℕ → Eff ℕ (Unit {0})
flaky req n = if ltb n 2 then (err (external "busy"), n + 1) else (ok tt, n + 1)

abbrev no_sleep : Duration → ℕ → ℕ
no_sleep d n = n

set_with_retries_cases_example :
    Settles no_sleep
      (flaky (set_policy (thrice "")))
      ""
      3
      5
      0
      (set_with_retries no_sleep flaky (set_policy (thrice "")) 0)
    ⊎ GivesUp no_sleep
        (flaky (set_policy (thrice "")))
        ""
        (formatted "failed to set value after %d retries" (itoa (pos 3) ∷ []))
        3
        5
        0
        (set_with_retries no_sleep flaky (set_policy (thrice "")) 0)
set_with_retries_cases_example =
    set_with_retries_cases no_sleep flaky (set_policy (thrice "")) 3 0 (inl refl) refl (omega arith)

delete_with_retries_exponential_example :
    delete_with_retries log_sleep
      (λ _. failing (external "down"))
      (delete_policy (thrice "exponential"))
      []
    ≡ (
      err (formatted "failed to set value after %d retries" (itoa (pos 3) ∷ [])),
      expected (λ i. (5 * 2 ^ i) % 2 ^ 64) 3 0,
    )
delete_with_retries_exponential_example =
    delete_with_retries_exponential (external "down") (delete_policy (thrice "exponential")) 3 []
      refl refl (omega arith) (omega arith)

log_of_three :
    (delete_with_retries log_sleep
      (λ _. failing (external "down"))
      (delete_policy (thrice "exponential"))
      []).1
    ≡ called ∷ slept 5 ∷ called ∷ slept 10 ∷ called ∷ slept 20 ∷ []
unfolding delete_with_retries next_pause
log_of_three = refl
