-- ===== src/Orchestrator/Resource.antt =====
-- backend/afal/mock/orchestrator.ts: `MockResourceFlowOrchestrator`.
use agent_financial_action_l.Base.{none, some, if◌then◌else◌}
use agent_financial_action_l.Base.Action.{
  Action, pure, throw, ◌>>=◌, ◌>>◌, unsupported_resource_intent, resource_not_approved,
}
use agent_financial_action_l.Types.{IdRef}
use agent_financial_action_l.Types.Amn.{AuthorizationDecision}
use agent_financial_action_l.Types.Afal.{ResourceIntent, ReceiptType}
use agent_financial_action_l.Ats.Resource.{
  settle_resource_reservation, release_resource_reservation,
}
use agent_financial_action_l.Amn.{evaluate_authorization}
use agent_financial_action_l.State.{
  create_resource_intent, mark_resource_challenge, mark_resource_settlement,
}
use agent_financial_action_l.Outputs.{create_capability_response, create_action_receipt}
use agent_financial_action_l.Runtime.{
  AfalState, Environment, check_agent, get_fixtures, on_ats, on_amn, on_intents, on_outputs,
  catching, result_text,
}
use agent_financial_action_l.Runtime.Request.{resource_overlay, pending_mark, reserve_resource}
use agent_financial_action_l.Runtime.Resume.{is_result_approved, settled_time}
use agent_financial_action_l.Runtime.Provide.{ResourceFlowOutput, confirm_and_settle}
use agent_financial_action_l.Orchestrator.{
  TrustedSurface, Stage, authorize, decided_time, final_mark, final_response,
}

unfoldable pub refuse_resource_flow :
    Environment → IdRef → Stage ResourceIntent → Action AfalState ResourceFlowOutput
refuse_resource_flow env reservation_ref stage = do
  on_ats (
      release_resource_reservation env.now reservation_ref (decided_time stage.approval_result)
        (some (result_text stage.final_decision.result)))
  throw (resource_not_approved (result_text stage.final_decision.result))

unfoldable pub provide_flow :
    Environment
    → (request_ref reservation_ref : IdRef) → AuthorizationDecision
    → Stage ResourceIntent
    → Action AfalState ResourceFlowOutput
provide_flow env request_ref reservation_ref initial_decision stage = do
  provided ← catching (confirm_and_settle env stage.final_decision stage.intent) (λ error. do
    on_ats (release_resource_reservation env.now reservation_ref none (some "settlement-failed"))
    throw error)
  receipt ← on_outputs (
      create_action_receipt env.output_templates env.now (record {
        receipt_type = ReceiptType.resource;
        action_ref = stage.intent.intent_id;
        decision_ref = some stage.final_decision.decision_id;
        settlement_ref = some provided.1.settlement_id;
        evidence = env.resource_fixtures.receipt_evidence;
        issued_at = some env.resource_fixtures.receipt_issued_at;
      }))
  intent ← on_intents (
      mark_resource_settlement (final_mark stage.intent.intent_id stage)
        provided.0.usage_receipt_ref provided.1.settlement_id)
  response ← on_outputs (
      create_capability_response env.output_templates env.now (
        final_response "settleResourceUsage" request_ref intent.intent_id env.resource_fixtures
          stage provided.1 receipt))
  settled ← on_ats (settle_resource_reservation env.now reservation_ref (settled_time provided.1))
  pure (record {
    intent = intent;
    initial_decision = initial_decision;
    challenge = stage.challenge;
    approval_context = stage.approval_context;
    approval_result = stage.approval_result;
    final_decision = stage.final_decision;
    usage_confirmation = provided.0;
    settlement = provided.1;
    approval_receipt = stage.approval_receipt;
    resource_receipt = receipt;
    capability_response = response;
    updated_budget = settled.1;
    updated_quota = settled.2;
  })

unfoldable pub execute_resource_settlement_flow :
    Environment
    → TrustedSurface
    → IdRef
    → ResourceIntent
    → (budget_ref quota_ref : IdRef) → Action AfalState ResourceFlowOutput
execute_resource_settlement_flow env surface request_ref input budget_ref quota_ref = do
  get_fixtures env.resource_fixtures input.intent_id unsupported_resource_intent
  created ← on_intents (create_resource_intent env.intent_templates input)
  check_agent env env.resource_fixtures created.requester.agent_did created.requester.account_id
  reserved ← reserve_resource env budget_ref quota_ref created
  decision ← on_amn (evaluate_authorization env.amn_templates (resource_overlay created))
  stage ← authorize env surface created.intent_id created decision (λ challenge.
      on_intents (mark_resource_challenge (pending_mark created.intent_id decision challenge)))
  if is_result_approved stage.final_decision.result
      then provide_flow env request_ref reserved.0.reservation_id decision stage
      else refuse_resource_flow env reserved.0.reservation_id stage
