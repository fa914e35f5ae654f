-- ===== src/Runtime/Request.antt =====
-- backend/afal/service/runtime.ts: requestPaymentApproval and requestResourceApproval.
use agent_financial_action_l.Base.{String, Bool, true, false, not, Option, none, some, ◌or_else◌}
use agent_financial_action_l.Base.Action.{
  Action, pure, throw_if, ◌>>=◌, ◌>>◌, unsupported_payment_intent, unsupported_resource_intent,
  approval_not_required,
}
use agent_financial_action_l.Types.{IdRef, AuthorizationResult, ChallengeState, CommonActionStatus}
use agent_financial_action_l.Types.Ats.{
  MonetaryBudget, MonetaryReservation, ResourceBudget, ResourceQuota, ResourceReservation,
}
use agent_financial_action_l.Types.Amn.{
  AuthorizationDecision, ChallengeRecord, ApprovalContext, ApprovalSession,
}
use agent_financial_action_l.Types.Afal.{
  PaymentIntent, ResourceIntent, CapabilityResponse, PendingApprovalExecution,
  PendingApprovalExecutionStatus, ActionType,
}
use agent_financial_action_l.Ats.{
  get_monetary_budget_state, get_resource_budget_state, get_resource_quota_state,
}
use agent_financial_action_l.Ats.Monetary.{reserve_monetary_budget}
use agent_financial_action_l.Ats.Resource.{reserve_resource_capacity}
use agent_financial_action_l.Amn.{
  Overlay, ContextOverrides, evaluate_authorization, create_approval_request,
}
use agent_financial_action_l.State.{
  Mark, create_payment_intent, create_resource_intent, create_pending_execution,
  mark_payment_challenge, mark_resource_challenge,
}
use agent_financial_action_l.Outputs.{ResponseArgs, create_capability_response}
use agent_financial_action_l.Runtime.{
  AfalState, Environment, result_text, check_agent, get_fixtures, on_ats, on_amn, on_intents,
  on_outputs, reservation_id_of, build_payment_approval_context_override,
}

-- The arguments of `evaluateAuthorization`, for a payment and for a resource.
abbrev pub payment_overlay : PaymentIntent → Overlay
payment_overlay intent = record {
  action_ref = intent.intent_id;
  action_type = "payment";
  subject_did = intent.payer.agent_did;
  mandate_ref = intent.mandate_ref;
  policy_ref = intent.policy_ref;
  account_ref = some intent.payer.account_id;
}

abbrev pub resource_overlay : ResourceIntent → Overlay
resource_overlay intent = record {
  action_ref = intent.intent_id;
  action_type = "resource";
  subject_did = intent.requester.agent_did;
  mandate_ref = intent.mandate_ref;
  policy_ref = intent.policy_ref;
  account_ref = some intent.requester.account_id;
}

abbrev pub no_overrides : ContextOverrides
no_overrides = record { headline = none; summary = none; human_visible_fields = none }

abbrev pub is_challenge_required : AuthorizationResult → Bool
is_challenge_required AuthorizationResult.challenge_required = true
is_challenge_required _ = false

-- What the two requests write once a decision asks for a challenge.
abbrev pub pending_mark : IdRef → AuthorizationDecision → ChallengeRecord → Mark
pending_mark intent_id decision challenge = record {
  intent_id = intent_id;
  decision_ref = some decision.decision_id;
  challenge_ref = some challenge.challenge_id;
  challenge_state = ChallengeState.pending_approval;
  status = CommonActionStatus.pending_approval;
}

abbrev pub pending_response :
    (capability message : String)
    → (request_ref action_ref : IdRef) → AuthorizationDecision
    → ChallengeRecord
    → ResponseArgs
pending_response capability message request_ref action_ref decision challenge = record {
  capability = capability;
  request_ref = request_ref;
  action_ref = action_ref;
  result = AuthorizationResult.pending_approval;
  decision_ref = some decision.decision_id;
  challenge_ref = some challenge.challenge_id;
  settlement_ref = none;
  receipt_ref = none;
  message = some message;
}

abbrev pub pending_payment :
    ApprovalSession → PaymentIntent → (request_ref budget_ref : IdRef) → PendingApprovalExecution
pending_payment session intent request_ref budget_ref = record {
  approval_session_ref = session.approval_session_id;
  action_ref = intent.intent_id;
  action_type = ActionType.payment;
  request_ref = request_ref;
  reservation_ref = some (reservation_id_of intent.intent_id);
  monetary_budget_ref = some budget_ref;
  resource_budget_ref = none;
  resource_quota_ref = none;
  status = PendingApprovalExecutionStatus.pending;
  created_at = session.created_at;
  updated_at = session.updated_at;
  final_decision_ref = none;
  settlement_ref = none;
  receipt_ref = none;
  usage_receipt_ref = none;
}

abbrev pub pending_resource :
    ApprovalSession
    → ResourceIntent
    → (request_ref budget_ref quota_ref : IdRef) → PendingApprovalExecution
pending_resource session intent request_ref budget_ref quota_ref = record {
  approval_session_ref = session.approval_session_id;
  action_ref = intent.intent_id;
  action_type = ActionType.resource;
  request_ref = request_ref;
  reservation_ref = some (reservation_id_of intent.intent_id);
  monetary_budget_ref = none;
  resource_budget_ref = some budget_ref;
  resource_quota_ref = some quota_ref;
  status = PendingApprovalExecutionStatus.pending;
  created_at = session.created_at;
  updated_at = session.updated_at;
  final_decision_ref = none;
  settlement_ref = none;
  receipt_ref = none;
  usage_receipt_ref = none;
}

-- The reservation that a payment makes after reading its budget, and that of a resource.
unfoldable pub reserve_payment :
    Environment → IdRef → PaymentIntent → Action AfalState (MonetaryReservation × MonetaryBudget)
reserve_payment env budget_ref intent = do
  on_ats (get_monetary_budget_state budget_ref)
  on_ats (
      reserve_monetary_budget env.now (reservation_id_of intent.intent_id) budget_ref
        intent.payer.account_id intent.intent_id intent.amount (some intent.created_at))

unfoldable pub reserve_resource :
    Environment
    → (budget_ref quota_ref : IdRef) → ResourceIntent
    → Action AfalState (ResourceReservation × ResourceBudget × ResourceQuota)
reserve_resource env budget_ref quota_ref intent = do
  on_ats (get_resource_budget_state budget_ref)
  on_ats (get_resource_quota_state quota_ref)
  on_ats (
      reserve_resource_capacity env.now (reservation_id_of intent.intent_id) budget_ref quota_ref
        intent.requester.account_id intent.intent_id intent.resource.quantity
        (some intent.created_at))

pub record PaymentApprovalRequestOutput : Type 0 where
  pub intent : PaymentIntent
  pub initial_decision : AuthorizationDecision
  pub challenge : ChallengeRecord
  pub approval_context : ApprovalContext
  pub approval_session : ApprovalSession
  pub capability_response : CapabilityResponse
  pub updated_budget : MonetaryBudget

pub record ResourceApprovalRequestOutput : Type 0 where
  pub intent : ResourceIntent
  pub initial_decision : AuthorizationDecision
  pub challenge : ChallengeRecord
  pub approval_context : ApprovalContext
  pub approval_session : ApprovalSession
  pub capability_response : CapabilityResponse
  pub updated_budget : ResourceBudget
  pub updated_quota : ResourceQuota

-- `reservedBudget !== currentBudget` holds: they are different objects once a reservation is made.
unfoldable pub request_payment_approval :
    Environment
    → IdRef
    → PaymentIntent
    → Option IdRef
    → Action AfalState PaymentApprovalRequestOutput
request_payment_approval env request_ref input monetary_budget_ref = do
  get_fixtures env.payment_fixtures input.intent_id unsupported_payment_intent
  created ← on_intents (create_payment_intent env.intent_templates input)
  check_agent env env.payment_fixtures created.payer.agent_did created.payer.account_id
  let budget_ref = monetary_budget_ref or_else env.payment_fixtures.budget_id
  reserved ← reserve_payment env budget_ref created
  decision ← on_amn (evaluate_authorization env.amn_templates (payment_overlay created))
  throw_if (not (is_challenge_required decision.result))
      (approval_not_required (result_text decision.result))
  request ← on_amn (
      create_approval_request env.amn_templates decision
        (build_payment_approval_context_override created))
  on_intents (create_pending_execution (pending_payment request.2 created request_ref budget_ref))
  intent ← on_intents (mark_payment_challenge (pending_mark created.intent_id decision request.0))
  response ← on_outputs (
      create_capability_response env.output_templates env.now (
        pending_response "requestPaymentApproval"
          "Payment request is pending trusted-surface approval" request_ref intent.intent_id
          decision request.0))
  pure (record {
    intent = intent;
    initial_decision = decision;
    challenge = request.0;
    approval_context = request.1;
    approval_session = request.2;
    capability_response = response;
    updated_budget = reserved.1;
  })

unfoldable pub request_resource_approval :
    Environment
    → IdRef
    → ResourceIntent
    → (budget_ref quota_ref : IdRef) → Action AfalState ResourceApprovalRequestOutput
request_resource_approval env request_ref input budget_ref quota_ref = do
  get_fixtures env.resource_fixtures input.intent_id unsupported_resource_intent
  created ← on_intents (create_resource_intent env.intent_templates input)
  check_agent env env.resource_fixtures created.requester.agent_did created.requester.account_id
  reserved ← reserve_resource env budget_ref quota_ref created
  decision ← on_amn (evaluate_authorization env.amn_templates (resource_overlay created))
  throw_if (not (is_challenge_required decision.result))
      (approval_not_required (result_text decision.result))
  request ← on_amn (create_approval_request env.amn_templates decision no_overrides)
  on_intents (
      create_pending_execution
        (pending_resource request.2 created request_ref budget_ref quota_ref))
  intent ← on_intents (mark_resource_challenge (pending_mark created.intent_id decision request.0))
  response ← on_outputs (
      create_capability_response env.output_templates env.now (
        pending_response "requestResourceApproval"
          "Resource request is pending trusted-surface approval" request_ref intent.intent_id
          decision request.0))
  pure (record {
    intent = intent;
    initial_decision = decision;
    challenge = request.0;
    approval_context = request.1;
    approval_session = request.2;
    capability_response = response;
    updated_budget = reserved.1;
    updated_quota = reserved.2;
  })
