-- ===== src/Failures.antt =====
-- backend/afal/api/failures.ts: `mapAfalFailure`, the answer to an error that a command threw.
use agent_financial_action_l.Base.{
  ℕ, String, Bool, true, false, Option, none, some, List, [], ◌∷◌, ◌&&◌, ◌||◌, eqb, if◌then◌else◌,
  codes,
}
use agent_financial_action_l.Types.{IdRef}
use agent_financial_action_l.Settlement.Http.{Failure, other, request_failed, has}

-- text.startsWith(part) and text.includes(part), on character codes.
unfoldable pub starts_with : (part text : List ℕ) → Bool
starts_with [] text = true
starts_with (c ∷ part) [] = false
starts_with (c ∷ part) (d ∷ text) = eqb c d && starts_with part text

unfoldable pub includes_codes : (part text : List ℕ) → Bool
unfolding starts_with
includes_codes part [] = starts_with part []
includes_codes part (c ∷ text) = starts_with part (c ∷ text) || includes_codes part text

abbrev includes : (message part : String) → Bool
includes message part = includes_codes (codes part) (codes message)

unfoldable pub includes_any : (message : String) → List String → Bool
includes_any message [] = false
includes_any message (part ∷ parts) = includes message part || includes_any message parts

pub data AfalApiErrorCode : Type 0 where
  bad_request : AfalApiErrorCode
  not_found : AfalApiErrorCode
  operator_auth_required : AfalApiErrorCode
  client_auth_required : AfalApiErrorCode
  subject_scope_violation : AfalApiErrorCode
  request_replay_detected : AfalApiErrorCode
  credential_verification_failed : AfalApiErrorCode
  authorization_rejected : AfalApiErrorCode
  authorization_expired : AfalApiErrorCode
  authorization_cancelled : AfalApiErrorCode
  provider_failure : AfalApiErrorCode
  external_adapter_unavailable : AfalApiErrorCode
  external_adapter_rejected : AfalApiErrorCode
  internal_error : AfalApiErrorCode

pub record AfalApiFailure : Type 0 where
  pub capability : String
  pub request_ref : IdRef
  pub status_code : ℕ
  pub code : AfalApiErrorCode
  pub message : String

-- The message of an error that is an `Error`.
abbrev to_error_message : Failure → String
to_error_message (request_failed status_code code message) = message
to_error_message (other message) = message

abbrev unknown_texts : List String
unknown_texts =
    "Unknown DID" ∷ "Unknown accountRef" ∷ "Unknown resource budget" ∷ "Unknown resource quota"
    ∷ "Unknown monetary budget" ∷ "Unknown actionRef" ∷ "Unknown approvalSessionRef"
    ∷ "Unknown settlement notification" ∷ "Unknown admin audit" ∷ []

-- The tests of an `ExternalAdapterRequestError`, on the status that it has.
unfoldable pub adapter_code : Option ℕ → ℕ × AfalApiErrorCode
adapter_code none = (500, AfalApiErrorCode.internal_error)
adapter_code (some status) =
    if has (409 ∷ 422 ∷ []) status
    then (409, AfalApiErrorCode.external_adapter_rejected)
    else (if has (502 ∷ 503 ∷ 504 ∷ []) status
        then (503, AfalApiErrorCode.external_adapter_unavailable)
        else (500, AfalApiErrorCode.internal_error))

abbrev error_code : Failure → ℕ × AfalApiErrorCode
error_code (request_failed status_code code message) = adapter_code status_code
error_code (other message) = (500, AfalApiErrorCode.internal_error)

-- The status and the code, by the first test that holds.
unfoldable pub classify : Failure → (message : String) → ℕ × AfalApiErrorCode
classify error message =
    if includes_any message unknown_texts
    then (404, AfalApiErrorCode.not_found)
    else (if includes message "verified" && includes message "credential"
        then (403, AfalApiErrorCode.credential_verification_failed)
        else (if includes message "authorization result was \"expired\""
            then (409, AfalApiErrorCode.authorization_expired)
            else (if includes message "authorization result was \"rejected\""
                then (403, AfalApiErrorCode.authorization_rejected)
                else (if includes message "authorization result was \"cancelled\""
                    then (409, AfalApiErrorCode.authorization_cancelled)
                    else (if includes message "Provider usage confirmation failed"
                        then (502, AfalApiErrorCode.provider_failure)
                        else error_code error)))))

unfoldable pub map_afal_failure :
    (capability : String) → (request_ref : IdRef) → Failure → AfalApiFailure
map_afal_failure capability request_ref error = record {
  capability = capability;
  request_ref = request_ref;
  status_code = (classify error (to_error_message error)).0;
  code = (classify error (to_error_message error)).1;
  message = to_error_message error;
}
