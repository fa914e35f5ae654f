-- ===== src/Amn.antt =====
-- backend/amn/store.ts (`InMemoryAmnStore`) and backend/amn/service.ts (`InMemoryAmnService`).
-- The templates are the service's read-only options.
pub mod Resume
pub mod Apply
pub mod Request
use agent_financial_action_l.Base.{
  String, Option, none, some, ◌or_else◌, ◌or_some◌, Bool, if◌then◌else◌, true, false,
}
use agent_financial_action_l.Base.Map.{Map, lookup, insert}
use agent_financial_action_l.Base.Action.{
  Action, pure, gets, modify, assert_found, ◌>>=◌, ◌>>◌, unknown_mandate, unknown_decision,
  unknown_challenge, unknown_approval_context, unknown_approval_result, unknown_approval_session,
  unknown_action_for_evaluation, unknown_action_for_challenge, unknown_action_for_context,
  unknown_action_for_finalization, no_approval_result,
}
use agent_financial_action_l.Types.{Did, IdRef, AuthorizationResult, ChallengeState}
use agent_financial_action_l.Types.Amn.{
  Fields, Mandate, AuthorizationDecision, ChallengeRecord, ApprovalContext, ApprovalOutcome,
  ApprovalResult, ApprovalSessionStatus, ApprovalSession,
}
use Prim.Native.String.{◌++◌}

pub record AmnStore : Type 0 where
  pub mandates : Map Mandate
  pub decisions : Map AuthorizationDecision
  pub challenges : Map ChallengeRecord
  pub approval_contexts : Map ApprovalContext
  pub approval_results : Map ApprovalResult
  pub approval_sessions : Map ApprovalSession

pub record Templates : Type 0 where
  pub initial_decisions : Map AuthorizationDecision
  pub final_decisions : Map AuthorizationDecision
  pub challenges : Map ChallengeRecord
  pub approval_contexts : Map ApprovalContext
  pub approval_results : Map ApprovalResult

abbrev pub put_decision : AuthorizationDecision → Action AmnStore (Unit {0})
put_decision d = modify (λ s. record s { decisions = insert d.decision_id d s.decisions })

abbrev pub put_challenge : ChallengeRecord → Action AmnStore (Unit {0})
put_challenge c = modify (λ s. record s { challenges = insert c.challenge_id c s.challenges })

abbrev pub put_approval_context : ApprovalContext → Action AmnStore (Unit {0})
put_approval_context c =
    modify
      (λ s. record s { approval_contexts = insert c.approval_context_id c s.approval_contexts })

abbrev pub put_approval_result : ApprovalResult → Action AmnStore (Unit {0})
put_approval_result r =
    modify (λ s. record s { approval_results = insert r.approval_result_id r s.approval_results })

abbrev pub put_approval_session : ApprovalSession → Action AmnStore (Unit {0})
put_approval_session a =
    modify
      (λ s. record s { approval_sessions = insert a.approval_session_id a s.approval_sessions })

-- The reads: each throws at an unknown reference.
abbrev pub get_mandate : IdRef → Action AmnStore Mandate
get_mandate ref = do assert_found (← gets (λ s. lookup ref s.mandates)) (unknown_mandate ref)

abbrev pub get_decision : IdRef → Action AmnStore AuthorizationDecision
get_decision ref = do assert_found (← gets (λ s. lookup ref s.decisions)) (unknown_decision ref)

abbrev pub get_challenge : IdRef → Action AmnStore ChallengeRecord
get_challenge ref = do assert_found (← gets (λ s. lookup ref s.challenges)) (unknown_challenge ref)

abbrev pub get_approval_context : IdRef → Action AmnStore ApprovalContext
get_approval_context ref = do
  assert_found (← gets (λ s. lookup ref s.approval_contexts)) (unknown_approval_context ref)

abbrev pub get_approval_result : IdRef → Action AmnStore ApprovalResult
get_approval_result ref = do
  assert_found (← gets (λ s. lookup ref s.approval_results)) (unknown_approval_result ref)

abbrev pub get_approval_session : IdRef → Action AmnStore ApprovalSession
get_approval_session ref = do
  assert_found (← gets (λ s. lookup ref s.approval_sessions)) (unknown_approval_session ref)

-- The fields of the action that `overlayDecision` lays over a template.
pub record Overlay : Type 0 where
  pub action_ref : IdRef
  pub action_type : String
  pub subject_did : Did
  pub mandate_ref : IdRef
  pub policy_ref : Option IdRef
  pub account_ref : Option IdRef

abbrev pub overlay_decision : AuthorizationDecision → Overlay → AuthorizationDecision
overlay_decision template args = record template {
  action_ref = args.action_ref;
  action_type = args.action_type;
  subject_did = args.subject_did;
  mandate_ref = args.mandate_ref;
  policy_ref = args.policy_ref;
  account_ref = args.account_ref;
}

pub create_approval_session_id : IdRef → IdRef
create_approval_session_id challenge_ref = "aps-" ++ challenge_ref

abbrev pub map_approval_result_to_session_status : ApprovalOutcome → ApprovalSessionStatus
map_approval_result_to_session_status ApprovalOutcome.approved = ApprovalSessionStatus.approved
map_approval_result_to_session_status ApprovalOutcome.rejected = ApprovalSessionStatus.rejected
map_approval_result_to_session_status ApprovalOutcome.expired = ApprovalSessionStatus.expired
map_approval_result_to_session_status ApprovalOutcome.cancelled = ApprovalSessionStatus.cancelled

-- An answer as the state of its challenge: the source assigns the text itself.
abbrev pub challenge_state_of : ApprovalOutcome → ChallengeState
challenge_state_of ApprovalOutcome.approved = ChallengeState.approved
challenge_state_of ApprovalOutcome.rejected = ChallengeState.rejected
challenge_state_of ApprovalOutcome.expired = ChallengeState.expired
challenge_state_of ApprovalOutcome.cancelled = ChallengeState.cancelled

unfoldable pub evaluate_authorization : Templates → Overlay → Action AmnStore AuthorizationDecision
evaluate_authorization templates args = do
  get_mandate args.mandate_ref
  template ←
      assert_found (lookup args.action_ref templates.initial_decisions)
        (unknown_action_for_evaluation args.action_ref)
  let decision = overlay_decision template args
  put_decision decision
  pure decision

unfoldable pub create_challenge_record :
    Templates → AuthorizationDecision → Action AmnStore ChallengeRecord
create_challenge_record templates decision = do
  template ←
      assert_found (lookup decision.action_ref templates.challenges)
        (unknown_action_for_challenge decision.action_ref)
  let challenge = record template {
    action_ref = decision.action_ref;
    action_type = decision.action_type;
    subject_did = decision.subject_did;
    mandate_ref = some decision.mandate_ref;
    policy_ref = decision.policy_ref;
    reason_code = decision.reason_code or_else template.reason_code;
  }
  put_challenge challenge
  pure challenge

-- What a caller may show instead of the template's texts.
pub record ContextOverrides : Type 0 where
  pub headline : Option String
  pub summary : Option String
  pub human_visible_fields : Option Fields

unfoldable pub build_approval_context :
    Templates → ChallengeRecord → ContextOverrides → Action AmnStore ApprovalContext
build_approval_context templates challenge overrides = do
  template ←
      assert_found (lookup challenge.action_ref templates.approval_contexts)
        (unknown_action_for_context challenge.action_ref)
  let context = record template {
    headline = overrides.headline or_else template.headline;
    summary = overrides.summary or_else template.summary;
    human_visible_fields = overrides.human_visible_fields or_else template.human_visible_fields;
    challenge_ref = challenge.challenge_id;
    action_ref = challenge.action_ref;
  }
  put_approval_context context
  pure context

-- A result laid over its template: only its optional fields can be left to the template.
abbrev pub overlay_result : Option ApprovalResult → ApprovalResult → ApprovalResult
overlay_result none result = result
overlay_result (some template) result = record result {
  comment = result.comment or_some template.comment;
  approval_receipt_ref = result.approval_receipt_ref or_some template.approval_receipt_ref;
}

unfoldable pub record_approval_result : Templates → ApprovalResult → Action AmnStore ApprovalResult
record_approval_result templates result = do
  let approval_result = overlay_result (lookup result.action_ref templates.approval_results) result
  put_approval_result approval_result
  pure approval_result

unfoldable pub create_approval_request :
    Templates
    → AuthorizationDecision
    → ContextOverrides
    → Action AmnStore (ChallengeRecord × ApprovalContext × ApprovalSession)
unfolding create_challenge_record build_approval_context
create_approval_request templates prior_decision overrides = do
  created_challenge ← create_challenge_record templates prior_decision
  approval_context ← build_approval_context templates created_challenge overrides
  let challenge = record created_challenge {
    state = ChallengeState.pending_approval;
    approval_context_ref = some approval_context.approval_context_id;
    updated_at = approval_context.created_at;
  }
  put_challenge challenge
  let approval_session : ApprovalSession = record {
    approval_session_id = create_approval_session_id challenge.challenge_id;
    action_ref = prior_decision.action_ref;
    action_type = prior_decision.action_type;
    subject_did = prior_decision.subject_did;
    mandate_ref = some prior_decision.mandate_ref;
    policy_ref = prior_decision.policy_ref;
    prior_decision_ref = prior_decision.decision_id;
    challenge_ref = challenge.challenge_id;
    approval_context_ref = approval_context.approval_context_id;
    approval_result_ref = none;
    final_decision_ref = none;
    trusted_surface_ref = challenge.trusted_surface_ref;
    status = ApprovalSessionStatus.pending;
    created_at = challenge.created_at;
    updated_at = approval_context.created_at;
    expires_at = challenge.expires_at;
  }
  put_approval_session approval_session
  pure (challenge, approval_context, approval_session)

-- The session after a result: its status and reference follow the result, whatever they were.
abbrev pub decided_session : ApprovalSession → ApprovalResult → ApprovalSession
decided_session session result = record session {
  approval_result_ref = some result.approval_result_id;
  status = map_approval_result_to_session_status result.result;
  updated_at = result.decided_at;
}

unfoldable pub apply_approval_result :
    Templates
    → IdRef
    → ApprovalResult
    → Action AmnStore (ApprovalResult × ApprovalSession × ChallengeRecord)
unfolding record_approval_result
apply_approval_result templates approval_session_ref result = do
  approval_session ← get_approval_session approval_session_ref
  existing_challenge ← get_challenge approval_session.challenge_ref
  approval_result ← record_approval_result templates (record result {
    challenge_ref = approval_session.challenge_ref;
    action_ref = approval_session.action_ref;
  })
  let challenge = record existing_challenge {
    state = challenge_state_of approval_result.result;
    updated_at = approval_result.decided_at;
  }
  let next_session = decided_session approval_session approval_result
  put_challenge challenge
  put_approval_session next_session
  pure (approval_result, next_session, challenge)

abbrev pub is_approved : ApprovalOutcome → Bool
is_approved ApprovalOutcome.approved = true
is_approved _ = false

-- `approvalResult.result === "expired" ? "expired" : "rejected"`
abbrev pub refusal : ApprovalOutcome → AuthorizationResult
refusal ApprovalOutcome.expired = AuthorizationResult.expired
refusal _ = AuthorizationResult.rejected

-- `approval-${approvalResult.result}`
abbrev pub refusal_reason : ApprovalOutcome → String
refusal_reason ApprovalOutcome.approved = "approval-approved"
refusal_reason ApprovalOutcome.rejected = "approval-rejected"
refusal_reason ApprovalOutcome.expired = "approval-expired"
refusal_reason ApprovalOutcome.cancelled = "approval-cancelled"

-- The prior decision, refused by a result.
abbrev pub refused_decision : AuthorizationDecision → ApprovalResult → AuthorizationDecision
refused_decision prior_decision approval_result = record prior_decision {
  result = refusal approval_result.result;
  challenge_state = challenge_state_of approval_result.result;
  reason_code = some (refusal_reason approval_result.result);
  evaluated_at = approval_result.decided_at;
}

-- What the final decision's template is overlaid with.
abbrev pub overlay_of : AuthorizationDecision → Overlay
overlay_of d = record {
  action_ref = d.action_ref;
  action_type = d.action_type;
  subject_did = d.subject_did;
  mandate_ref = d.mandate_ref;
  policy_ref = d.policy_ref;
  account_ref = d.account_ref;
}

abbrev approve_from_template :
    Templates → AuthorizationDecision → Action AmnStore AuthorizationDecision
approve_from_template templates prior_decision = do
  template ←
      assert_found (lookup prior_decision.action_ref templates.final_decisions)
        (unknown_action_for_finalization prior_decision.action_ref)
  pure (overlay_decision template (overlay_of prior_decision))

unfoldable pub finalize_authorization :
    Templates → AuthorizationDecision → ApprovalResult → Action AmnStore AuthorizationDecision
finalize_authorization templates prior_decision approval_result = do
  decision ←
      if is_approved approval_result.result
      then approve_from_template templates prior_decision
      else pure (refused_decision prior_decision approval_result)
  put_decision decision
  pure decision

-- `approvalSession.approvalResultRef ? await getApprovalResult(…) : undefined`
abbrev persisted_result : Option IdRef → Map ApprovalResult → Option ApprovalResult
persisted_result none results = none
persisted_result (some ref) results = lookup ref results

pub record Resumed : Type 0 where
  pub final_decision : AuthorizationDecision
  pub approval_result : ApprovalResult
  pub approval_session : ApprovalSession
  pub challenge : ChallengeRecord

-- The session once its final decision is known.
abbrev pub finalized_session :
    ApprovalSession → AuthorizationDecision → ApprovalResult → ApprovalSession
finalized_session session decision result = record session {
  final_decision_ref = some decision.decision_id;
  status = ApprovalSessionStatus.finalized;
  updated_at = result.decided_at;
}

-- The part of `resumeAuthorizationSession` behind its reads: a session that has a final decision
-- returns it, any other is finalized.
unfoldable pub conclude_session :
    Templates
    → ApprovalSession
    → ChallengeRecord
    → ApprovalResult
    → Option IdRef
    → Action AmnStore Resumed
conclude_session templates session challenge result (some decision_ref) = do
  decision ← get_decision decision_ref
  pure (record {
    final_decision = decision;
    approval_result = result;
    approval_session = session;
    challenge = challenge;
  })
conclude_session templates session challenge result none = do
  prior_decision ← get_decision session.prior_decision_ref
  decision ← finalize_authorization templates prior_decision result
  let next_session = finalized_session session decision result
  put_approval_session next_session
  pure (record {
    final_decision = decision;
    approval_result = result;
    approval_session = next_session;
    challenge = challenge;
  })

unfoldable pub resume_authorization_session : Templates → IdRef → Action AmnStore Resumed
unfolding conclude_session
resume_authorization_session templates approval_session_ref = do
  session ← get_approval_session approval_session_ref
  challenge ← get_challenge session.challenge_ref
  result ←
      assert_found (← gets (λ s. persisted_result session.approval_result_ref s.approval_results))
        (no_approval_result approval_session_ref)
  conclude_session templates session challenge result session.final_decision_ref
