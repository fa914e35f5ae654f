-- ===== src/Tests/Settlement.antt =====
-- An operation that fails twice and then returns.
use agent_financial_action_l.Base.{
  ℕ, ◌≡◌, refl, some, none, String, if◌then◌else◌, eqb, ◌<◌, arith, true,
}
use agent_financial_action_l.Settlement.Http.{
  Attempt, returned, raised, Failure, RetryOptions, execute_with_retry, retryable_codes, retry_loop,
  has,
}
use agent_financial_action_l.Settlement.Http.Retry.{Stops, retry-Stops, retry-reaches, is_retried}

abbrev flaky : ℕ → Attempt String
flaky n =
    if eqb n 1
    then raised (Failure.request_failed (some 503) "unavailable" "later")
    else if eqb n 2
    then raised (Failure.other "socket hang up")
    else returned "paid"

abbrev thrice : RetryOptions
thrice = record { max_attempts = some 3; retryable_status_codes = none }

third_returns : execute_with_retry flaky thrice ≡ (returned "paid", 3)
unfolding execute_with_retry retry_loop has
third_returns = refl

retry-Stops_example : Stops flaky (retryable_codes thrice) 0 3 (execute_with_retry flaky thrice)
retry-Stops_example = retry-Stops flaky thrice

flaky-retried : (k : ℕ) → 0 < k → k < 3 → is_retried (retryable_codes thrice) (flaky k) ≡ true
unfolding has
flaky-retried k above below = ground arith

retry-reaches_example :
    ((execute_with_retry flaky thrice).0 ≡ returned "paid")
    × ((execute_with_retry flaky thrice).1 ≡ 3)
retry-reaches_example =
    retry-reaches flaky thrice 3 "paid" (omega arith) (omega arith) refl flaky-retried
