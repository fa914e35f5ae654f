-- ===== src/Tests/Failures.antt =====
-- Answers to errors: one of a missing budget, and one of a service that cannot be reached.
use agent_financial_action_l.Base.{ℕ, ◌≡◌, refl, some}
use agent_financial_action_l.Settlement.Http.{Failure, other, request_failed, has}
use agent_financial_action_l.Failures.{
  map_afal_failure, classify, includes_any, includes_codes, starts_with, adapter_code,
}

abbrev status_of : Failure → ℕ
status_of error = (map_afal_failure "executePayment" "req-1" error).status_code

missing_budget : status_of (other "Unknown monetary budget \"b\"") ≡ 404
unfolding map_afal_failure classify includes_any includes_codes starts_with
missing_budget = refl

unavailable : status_of (request_failed (some 502) "bad" "try later") ≡ 503
unfolding map_afal_failure classify includes_any includes_codes starts_with adapter_code has
unavailable = refl

-- The text of a remote service is tested before the class of its error.
remote_text_first : status_of (request_failed (some 502) "bad" "Unknown DID d") ≡ 404
unfolding map_afal_failure classify includes_any includes_codes starts_with adapter_code has
remote_text_first = refl
