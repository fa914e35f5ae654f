-- ===== src/Settlement/Http/Retry.antt =====
-- What `executeWithRetry` returns and how often it calls.
use agent_financial_action_l.Base.{
  ℕ, zero, suc, ◌+◌, ◌≤◌, ◌<◌, ◌≡◌, refl, true, false, List, arith, Bool-cases, inl, inr, Bool, ◌⊎◌,
  ◌∙◌, ap,
}
use agent_financial_action_l.Settlement.Http.{
  Attempt, returned, raised, is_retryable, retry_loop, execute_with_retry, RetryOptions,
  retryable_codes, further_attempts,
}

-- The attempt ended in an error that is worth another try.
abbrev pub is_retried : {A : Type 0} → List ℕ → Attempt A → Bool
is_retried codes (returned a) = false
is_retried codes (raised why) = is_retryable codes why

-- `last` is the attempt at which the calls after `attempt`, at most `limit`, end.
pub record Stops {A : Type 0} (operation : ℕ → Attempt A) (codes : List ℕ) (attempt limit : ℕ)
    (result : Attempt A × ℕ) : Type 0 where
  pub last : result.0 ≡ operation result.1
  pub within : (attempt < result.1) × (result.1 ≤ limit)
  pub retried : (k : ℕ) → attempt < k → k < result.1 → is_retried codes (operation k) ≡ true
  pub stopped : (is_retried codes (operation result.1) ≡ false) ⊎ (result.1 ≡ limit)

module _ {A : Type 0} (operation : ℕ → Attempt A) (codes : List ℕ) where
  ended_at_once :
      (attempt limit : ℕ)
      → attempt < limit
      → (is_retried codes (operation (suc attempt)) ≡ false) ⊎ (suc attempt ≡ limit)
      → Stops operation codes attempt limit (operation (suc attempt), suc attempt)
  ended_at_once attempt limit h stop = record {
    last = refl;
    within = (omega arith, omega arith);
    retried = λ k above below. absurd (omega arith);
    stopped = stop;
  }

  earlier :
      (attempt last : ℕ)
      → is_retried codes (operation (suc attempt)) ≡ true
      → ((k : ℕ) → suc attempt < k → k < last → is_retried codes (operation k) ≡ true)
      → (k : ℕ) → attempt < k
      → k < last
      → is_retried codes (operation k) ≡ true
  earlier attempt last here later k above below = ground (arith, later k)

  loop_retries :
      (left attempt : ℕ)
      → is_retried codes (operation (suc attempt)) ≡ true
      → retry_loop operation codes (suc left) attempt
        ≡ retry_loop operation codes left (suc attempt)
  unfolding retry_loop
  loop_retries left attempt retried = ground arith

  loop_ends :
      (left attempt : ℕ)
      → is_retried codes (operation (suc attempt)) ≡ false
      → retry_loop operation codes (suc left) attempt ≡ (operation (suc attempt), suc attempt)
  unfolding retry_loop
  loop_ends left attempt ended = ground arith

  loop-Stops :
      (left attempt limit : ℕ)
      → limit ≡ attempt + suc left
      → Stops operation codes attempt limit (retry_loop operation codes left attempt)
  unfolding retry_loop
  loop-Stops zero attempt limit bound =
      ended_at_once attempt limit (omega arith) (inr (omega arith))
  loop-Stops (suc left) attempt limit bound =
      elim (Bool-cases (is_retried codes (operation (suc attempt)))) [
        | inr ended ↦
            rw (loop_ends left attempt ended)
              (ended_at_once attempt limit (omega arith) (inl ended))
        | inl retried ↦
            let rest = loop-Stops left (suc attempt) limit (omega arith) in
            rw (loop_retries left attempt retried) (record {
              last = rest.last;
              within = (omega (arith, rest.within.0), rest.within.1);
              retried =
                  earlier attempt (retry_loop operation codes left (suc attempt)).1 retried
                    rest.retried;
              stopped = rest.stopped;
            })
      ]

-- The operation runs at least once and at most `max(1, maxAttempts)` times. Its last run is what
-- the call returns or throws; every run before ended in an error that may be tried again, and
-- the last one did not, unless no attempt was left.
pub retry-Stops :
    {A : Type 0} (operation : ℕ → Attempt A) (retry : RetryOptions)
    → Stops operation
        (retryable_codes retry)
        0
        (suc (further_attempts retry))
        (execute_with_retry operation retry)
unfolding execute_with_retry
retry-Stops operation retry =
    loop-Stops operation (retryable_codes retry) (further_attempts retry) 0
      (suc (further_attempts retry)) (omega arith)

module _ {A : Type 0} (operation : ℕ → Attempt A) (codes : List ℕ) (limit n : ℕ) (a : A)
    (result : Attempt A × ℕ) (stops : Stops operation codes 0 limit result) (first : 0 < n)
    (bounded : n ≤ limit) (succeeds : operation n ≡ returned a)
    (before : (k : ℕ) → 0 < k → k < n → is_retried codes (operation k) ≡ true) where
  not_early : ¬ (result.1 < n)
  not_early early = elim stops.stopped [
    | inl ended ↦ ground (arith, ended, before result.1 stops.within.0 early)
    | inr full ↦ omega (arith, full, early, bounded)
  ]

  not_late : ¬ (n < result.1)
  not_late late = ground (arith, succeeds, stops.retried n first late)

  same_attempt : result.1 ≡ n
  same_attempt = omega (arith, not_early, not_late)

-- An operation that returns at an attempt within the bound, every attempt before having ended in an
-- error that may be tried again, is called until then, and its value is returned.
pub retry-reaches :
    {A : Type 0} (operation : ℕ → Attempt A) (retry : RetryOptions) (n : ℕ) (a : A)
    → 0 < n
    → n ≤ suc (further_attempts retry)
    → operation n ≡ returned a
    → ((k : ℕ) → 0 < k → k < n → is_retried (retryable_codes retry) (operation k) ≡ true)
    → ((execute_with_retry operation retry).0 ≡ returned a)
      × ((execute_with_retry operation retry).1 ≡ n)
retry-reaches operation retry n a first bounded succeeds before =
    let stops = retry-Stops operation retry in
    let same =
      same_attempt operation (retryable_codes retry) (suc (further_attempts retry)) n a
        (execute_with_retry operation retry) stops first bounded succeeds before in
    (stops.last ∙ ap operation same ∙ succeeds, same)
