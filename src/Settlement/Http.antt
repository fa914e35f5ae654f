-- ===== src/Settlement/Http.antt =====
-- backend/afal/settlement/http-adapters.ts: `executeWithRetry` and what the HTTP adapters do with a
-- reply. `fetch`, the clock and the hash are arguments; `sleep` changes no state.
pub mod Retry
use agent_financial_action_l.Base.{
  ℕ, zero, suc, String, Bool, true, false, Option, some, none, List, [], ◌∷◌, ◌or_else◌, ◌||◌, eqb,
  not, if◌then◌else◌,
}
use agent_financial_action_l.Base.Ids.{number_text}
use agent_financial_action_l.Base.Map.{Map, insert}
use Prim.Native.String.{◌++◌}
use agent_financial_action_l.Types.{IdRef, Timestamp}

pub record AuthOptions : Type 0 where
  pub token : String
  pub service_id : String
  pub signing_key : String
  pub header_name : Option String
  pub service_id_header_name : Option String
  pub request_timestamp_header_name : Option String
  pub signature_header_name : Option String

unfoldable pub build_service_auth_headers :
    (sha256 : String → String) → Timestamp → IdRef → Option AuthOptions → Map String
build_service_auth_headers sha256 timestamp request_ref none = []
build_service_auth_headers sha256 timestamp request_ref (some auth) =
    insert (auth.signature_header_name or_else "x-afal-request-signature")
      (sha256
        (auth.service_id ++ ":" ++ request_ref ++ ":" ++ timestamp ++ ":" ++ auth.signing_key))
      (insert (auth.request_timestamp_header_name or_else "x-afal-request-timestamp") timestamp (
        insert (auth.service_id_header_name or_else "x-afal-service-id") auth.service_id
          (insert (auth.header_name or_else "x-afal-service-token") auth.token [])))

-- What an operation throws: an `ExternalAdapterRequestError` with its status, or any other error,
-- such as one of `fetch`.
pub data Failure : Type 0 where
  request_failed : (status_code : Option ℕ) → (code message : String) → Failure
  other : String → Failure

pub data Attempt (A : Type 0) : Type 0 where
  returned : A → Attempt A
  raised : Failure → Attempt A

-- ServiceSuccess<T> | ServiceFailure
pub data ServiceResponse (A : Type 0) : Type 0 where
  success : A → ServiceResponse A
  failure : (status_code : ℕ) → (code message : String) → ServiceResponse A

unfoldable request_failed_text : (status_code : ℕ) → (code message : String) → String
request_failed_text status_code code message =
    "external adapter request failed [" ++ number_text status_code ++ " " ++ code ++ "] " ++ message

unfoldable pub parse_service_response : {A : Type 0} → ServiceResponse A → Attempt A
unfolding request_failed_text
parse_service_response (ServiceResponse.success data_of) = returned data_of
parse_service_response (ServiceResponse.failure status_code code message) =
    raised (request_failed (some status_code) code (request_failed_text status_code code message))

pub record RetryOptions : Type 0 where
  pub max_attempts : Option ℕ
  pub retryable_status_codes : Option (List ℕ)

-- set.has(code)
unfoldable pub has : List ℕ → ℕ → Bool
has [] code = false
has (c ∷ codes) code = eqb c code || has codes code

abbrev pub is_retryable : List ℕ → Failure → Bool
is_retryable codes (request_failed none code message) = false
is_retryable codes (request_failed (some status_code) code message) = has codes status_code
is_retryable codes (other message) = true

-- while (attempt < maxAttempts), with the number of attempts that are left behind this one. The
-- result comes with the number of attempts that were made.
unfoldable pub retry_loop : {A : Type 0} → (ℕ → Attempt A) → List ℕ → ℕ → ℕ → Attempt A × ℕ
retry_loop operation codes zero attempt = (operation (suc attempt), suc attempt)
retry_loop operation codes (suc left) attempt =
    let rest = retry_loop operation codes left (suc attempt) in
    elim (operation (suc attempt)) [
      | returned a ↦ (returned a, suc attempt)
      | raised why ↦ if is_retryable codes why then rest else (raised why, suc attempt)
    ]

-- Math.max(1, retry?.maxAttempts ?? 1), less the first attempt.
abbrev pub further_attempts : RetryOptions → ℕ
further_attempts retry = elim (retry.max_attempts or_else 1) [ zero ↦ 0 | suc n ↦ n ]

abbrev pub retryable_codes : RetryOptions → List ℕ
retryable_codes retry = retry.retryable_status_codes or_else (502 ∷ 503 ∷ 504 ∷ [])

-- `operation` by the number of the attempt.
unfoldable pub execute_with_retry : {A : Type 0} → (ℕ → Attempt A) → RetryOptions → Attempt A × ℕ
unfolding retry_loop
execute_with_retry operation retry =
    retry_loop operation (retryable_codes retry) (further_attempts retry) 0
