-- ===== src/Runtime/Provide.antt =====
-- backend/afal/service/runtime.ts: `resumeApprovedAction` for a resource
-- (`resumeApprovedResourceAction`).
use agent_financial_action_l.Base.{String, Option, none, some, ◌or_else◌, if◌then◌else◌}
use agent_financial_action_l.Base.Action.{
  Action, pure, throw, ◌>>=◌, ◌>>◌, unsupported_resource_intent, resource_not_approved,
}
use agent_financial_action_l.Types.{IdRef, Timestamp}
use agent_financial_action_l.Types.Ats.{ResourceBudget, ResourceQuota}
use agent_financial_action_l.Types.Amn.{
  AuthorizationDecision, ChallengeRecord, ApprovalContext, ApprovalResult,
}
use agent_financial_action_l.Types.Afal.{
  ResourceIntent, SettlementRecord, ActionReceipt, ReceiptType, ProviderUsageConfirmation,
  CapabilityResponse, PendingApprovalExecutionStatus, PendingApprovalExecution,
}
use agent_financial_action_l.Ats.{get_resource_budget_state, get_resource_quota_state}
use agent_financial_action_l.Ats.Resource.{
  settle_resource_reservation, release_resource_reservation,
}
use agent_financial_action_l.State.{
  get_resource_intent, mark_resource_challenge, mark_resource_settlement, mark_pending_execution,
}
use agent_financial_action_l.Settlement.{confirm_resource_usage, settle_resource_usage}
use agent_financial_action_l.Outputs.{
  create_capability_response, create_action_receipt, create_approval_receipt,
}
use agent_financial_action_l.Notifications.Entries.{ResourceNotification}
use Prim.Native.String.{◌++◌}
use agent_financial_action_l.Runtime.{
  AfalState, Environment, get_fixtures, on_ats, on_intents, on_outputs, on_settlement, on_outbox,
  catching, result_text,
}
use agent_financial_action_l.Runtime.Resume.{
  Resumption, ended_mark, refused_mark, settled_mark, resumed_mark, resumed_response, settled_time,
  is_result_approved,
}

pub record ResourceFlowOutput : Type 0 where
  pub intent : ResourceIntent
  pub initial_decision : AuthorizationDecision
  pub challenge : Option ChallengeRecord
  pub approval_context : Option ApprovalContext
  pub approval_result : Option ApprovalResult
  pub final_decision : AuthorizationDecision
  pub usage_confirmation : ProviderUsageConfirmation
  pub settlement : SettlementRecord
  pub approval_receipt : Option ActionReceipt
  pub resource_receipt : ActionReceipt
  pub capability_response : CapabilityResponse
  pub updated_budget : ResourceBudget
  pub updated_quota : ResourceQuota

abbrev pub release_capacity :
    Environment → Option IdRef → Option Timestamp → String → Action AfalState (Unit {0})
release_capacity env none released_at reason = pure tt
release_capacity env (some ref) released_at reason = do
  on_ats (release_resource_reservation env.now ref released_at (some reason))
  pure tt

unfoldable pub refuse_resource :
    Environment → Resumption → ResourceIntent → Action AfalState ResourceFlowOutput
refuse_resource env args intent = do
  release_capacity env args.pending.reservation_ref (some args.resumed.approval_result.decided_at)
      (result_text args.resumed.final_decision.result)
  on_intents (mark_resource_challenge (refused_mark intent.intent_id args.resumed))
  on_intents (
      mark_pending_execution (
        ended_mark args.resumed PendingApprovalExecutionStatus.released
          args.resumed.approval_result.decided_at))
  throw (resource_not_approved (result_text args.resumed.final_decision.result))

-- The two calls of the provider.
abbrev pub confirm_and_settle :
    Environment
    → AuthorizationDecision
    → ResourceIntent
    → Action AfalState (ProviderUsageConfirmation × SettlementRecord)
confirm_and_settle env decision intent = do
  usage ← on_settlement (confirm_resource_usage env.adapters intent)
  settlement ← on_settlement (settle_resource_usage env.adapters intent decision usage)
  pure (usage, settlement)

unfoldable pub provide_or_release :
    Environment
    → Resumption
    → ResourceIntent
    → Action AfalState (ProviderUsageConfirmation × SettlementRecord)
provide_or_release env args intent =
    catching (confirm_and_settle env args.resumed.final_decision intent) (λ error. do
      release_capacity env args.pending.reservation_ref none "settlement-failed"
      on_intents (
          mark_pending_execution
            (ended_mark args.resumed PendingApprovalExecutionStatus.failed env.now))
      throw error)

-- The settled reservation's budget and quota, or the stored ones where there is no reservation.
unfoldable pub settle_capacity :
    Environment
    → PendingApprovalExecution
    → SettlementRecord
    → Option IdRef
    → Action AfalState (ResourceBudget × ResourceQuota)
settle_capacity env pending settlement (some ref) = do
  settled ← on_ats (settle_resource_reservation env.now ref (settled_time settlement))
  pure (settled.1, settled.2)
settle_capacity env pending settlement none = do
  budget ← on_ats (
      get_resource_budget_state
        (pending.resource_budget_ref or_else env.resource_fixtures.budget_id))
  quota ←
      on_ats (
        get_resource_quota_state
          (pending.resource_quota_ref or_else env.resource_fixtures.quota_id))
  pure (budget, quota)

unfoldable pub dispatch_resource_settlement_notification :
    Environment → ResourceNotification → Action AfalState (Unit {0})
dispatch_resource_settlement_notification env notification =
    catching (on_outbox (env.notifications.notify_resource_settlement notification))
      (λ error. pure tt)

abbrev pub resource_notification :
    Resumption
    → ResourceIntent
    → ProviderUsageConfirmation
    → SettlementRecord
    → ActionReceipt
    → ResourceNotification
resource_notification args intent usage settlement receipt = record {
  notification_id = "notif-" ++ intent.intent_id;
  request_ref = args.pending.request_ref;
  action_ref = intent.intent_id;
  approval_session_ref = args.resumed.approval_session.approval_session_id;
  provider_id = intent.provider.provider_id;
  provider_did = intent.provider.provider_did;
  intent_status = intent.status;
  usage_receipt_ref = usage.usage_receipt_ref;
  settlement_ref = settlement.settlement_id;
  receipt_ref = receipt.receipt_id;
  asset = settlement.asset;
  amount = settlement.amount;
  resource_class = intent.resource.resource_class;
  resource_unit = intent.resource.resource_unit;
  quantity = intent.resource.quantity;
  settled_at = settled_time settlement or_else receipt.issued_at;
}

unfoldable pub record_resource :
    Environment
    → Resumption
    → ResourceIntent
    → ActionReceipt
    → ProviderUsageConfirmation
    → SettlementRecord
    → Action AfalState ResourceFlowOutput
record_resource env args intent approval_receipt usage settlement = do
  resource_receipt ← on_outputs (
      create_action_receipt env.output_templates env.now (record {
        receipt_type = ReceiptType.resource;
        action_ref = intent.intent_id;
        decision_ref = some args.resumed.final_decision.decision_id;
        settlement_ref = some settlement.settlement_id;
        evidence = env.resource_fixtures.receipt_evidence;
        issued_at = some env.resource_fixtures.receipt_issued_at;
      }))
  settled_intent ← on_intents (
      mark_resource_settlement (settled_mark intent.intent_id args.resumed) usage.usage_receipt_ref
        settlement.settlement_id)
  response ← on_outputs (
      create_capability_response env.output_templates env.now (
        resumed_response args settled_intent.intent_id settlement resource_receipt.receipt_id
          env.resource_fixtures.response_message))
  updated ← settle_capacity env args.pending settlement args.pending.reservation_ref
  on_intents (
      mark_pending_execution
        (record (resumed_mark args.resumed settlement resource_receipt.receipt_id) {
          usage_receipt_ref = some usage.usage_receipt_ref;
        }))
  dispatch_resource_settlement_notification env
      (resource_notification args settled_intent usage settlement resource_receipt)
  pure (record {
    intent = settled_intent;
    initial_decision = args.initial_decision;
    challenge = some args.resumed.challenge;
    approval_context = some args.approval_context;
    approval_result = some args.resumed.approval_result;
    final_decision = args.resumed.final_decision;
    usage_confirmation = usage;
    settlement = settlement;
    approval_receipt = some approval_receipt;
    resource_receipt = resource_receipt;
    capability_response = response;
    updated_budget = updated.0;
    updated_quota = updated.1;
  })

unfoldable pub provide :
    Environment → Resumption → ResourceIntent → Action AfalState ResourceFlowOutput
provide env args intent = do
  approval_receipt ← on_outputs (
      create_approval_receipt env.output_templates intent.intent_id
        (some args.resumed.final_decision.decision_id) args.resumed.approval_result)
  provided ← provide_or_release env args intent
  record_resource env args intent approval_receipt provided.0 provided.1

unfoldable pub resume_approved_resource_action :
    Environment → Resumption → Action AfalState ResourceFlowOutput
resume_approved_resource_action env args = do
  get_fixtures env.resource_fixtures args.pending.action_ref unsupported_resource_intent
  intent ← on_intents (get_resource_intent args.pending.action_ref)
  if is_result_approved args.resumed.final_decision.result
      then provide env args intent
      else refuse_resource env args intent
