-- ===== src/Orchestrator.antt =====
-- backend/afal/mock/orchestrator.ts: `MockPaymentFlowOrchestrator`, which runs a payment from its
-- intent to its settlement in one call. The ports have every operation that `can…` asks for.
pub mod Resource
pub mod Paying
use agent_financial_action_l.Base.{String, Option, none, some, ◌or_else◌, if◌then◌else◌, ◌==◌}
use agent_financial_action_l.Base.Action.{
  Action, Result, ok, err, pure, throw, ◌>>=◌, ◌>>◌, unsupported_payment_intent,
  payment_not_approved, unknown_action,
}
use agent_financial_action_l.Types.{IdRef, Timestamp, CommonActionStatus}
use agent_financial_action_l.Types.Amn.{
  AuthorizationDecision, ChallengeRecord, ApprovalContext, ApprovalResult,
}
use agent_financial_action_l.Types.Afal.{
  PaymentIntent, SettlementRecord, ActionReceipt, ReceiptType,
}
use agent_financial_action_l.Ats.Monetary.{
  settle_monetary_reservation, release_monetary_reservation,
}
use agent_financial_action_l.Amn.{
  evaluate_authorization, create_approval_request, apply_approval_result,
  resume_authorization_session,
}
use agent_financial_action_l.State.{
  Mark, create_payment_intent, mark_payment_challenge, mark_payment_settlement,
}
use agent_financial_action_l.Settlement.{execute_payment}
use agent_financial_action_l.Outputs.{
  ReceiptArgs, ResponseArgs, create_capability_response, create_action_receipt,
  create_approval_receipt,
}
use agent_financial_action_l.Runtime.{
  AfalState, Environment, check_agent, get_fixtures, on_ats, on_amn, on_intents, on_outputs,
  on_settlement, catching, reservation_id_of, result_text, Fixtures,
}
use agent_financial_action_l.Runtime.Request.{
  payment_overlay, no_overrides, is_challenge_required, pending_mark, reserve_payment,
}
use agent_financial_action_l.Runtime.Resume.{PaymentFlowOutput, is_result_approved, settled_time}

-- TrustedSurfacePort: what the trusted surface answers to a context.
abbrev pub TrustedSurface : Type 0
TrustedSurface = ApprovalContext → Result ApprovalResult

-- MockTrustedSurfacePort, with the answers of the two fixtures.
unfoldable pub mock_request_approval :
    (payment_ref : IdRef)
    → ApprovalResult
    → (resource_ref : IdRef) → ApprovalResult
    → TrustedSurface
mock_request_approval payment_ref for_payment resource_ref for_resource context =
    if context.action_ref == payment_ref
    then ok (record for_payment {
      challenge_ref = context.challenge_ref;
      action_ref = context.action_ref;
    })
    else if context.action_ref == resource_ref
    then ok (record for_resource {
      challenge_ref = context.challenge_ref;
      action_ref = context.action_ref;
    })
    else err (unknown_action context.action_ref)

abbrev pub answered_by : TrustedSurface → ApprovalContext → Action AfalState ApprovalResult
answered_by surface context s = (surface context, s)

-- The variables of a flow once it is authorized or not.
pub record Stage (I : Type 0) : Type 0 where
  pub intent : I
  pub challenge : Option ChallengeRecord
  pub approval_context : Option ApprovalContext
  pub approval_result : Option ApprovalResult
  pub approval_receipt : Option ActionReceipt
  pub final_decision : AuthorizationDecision

-- The body of `if (initialDecision.result === "challenge-required")`; `mark` marks the intent.
unfoldable pub seek_approval :
    {I : Type 0}
    → Environment
    → TrustedSurface
    → IdRef
    → AuthorizationDecision
    → (ChallengeRecord → Action AfalState I)
    → Action AfalState (Stage I)
seek_approval env surface intent_id decision mark = do
  request ← on_amn (create_approval_request env.amn_templates decision no_overrides)
  intent ← mark request.0
  answer ← answered_by surface request.1
  applied ← on_amn (apply_approval_result env.amn_templates request.2.approval_session_id answer)
  resumed ← on_amn (resume_authorization_session env.amn_templates request.2.approval_session_id)
  receipt ← on_outputs (
      create_approval_receipt env.output_templates intent_id
        (some resumed.final_decision.decision_id) applied.0)
  pure (record {
    intent = intent;
    challenge = some applied.2;
    approval_context = some request.1;
    approval_result = some applied.0;
    approval_receipt = some receipt;
    final_decision = resumed.final_decision;
  })

unfoldable pub authorize :
    {I : Type 0}
    → Environment
    → TrustedSurface
    → IdRef
    → I
    → AuthorizationDecision
    → (ChallengeRecord → Action AfalState I)
    → Action AfalState (Stage I)
authorize env surface intent_id intent decision mark =
    if is_challenge_required decision.result
    then seek_approval env surface intent_id decision mark
    else pure (record {
      intent = intent;
      challenge = none;
      approval_context = none;
      approval_result = none;
      approval_receipt = none;
      final_decision = decision;
    })

abbrev pub decided_time : Option ApprovalResult → Option Timestamp
decided_time none = none
decided_time (some result) = some result.decided_at

abbrev pub challenge_id_of : Option ChallengeRecord → Option IdRef
challenge_id_of none = none
challenge_id_of (some challenge) = some challenge.challenge_id

abbrev pub final_mark : {I : Type 0} → IdRef → Stage I → Mark
final_mark intent_id stage = record {
  intent_id = intent_id;
  decision_ref = some stage.final_decision.decision_id;
  challenge_ref = challenge_id_of stage.challenge;
  challenge_state = stage.final_decision.challenge_state;
  status = CommonActionStatus.settled;
}

abbrev pub final_response :
    {I : Type 0}
    → (capability : String) → (request_ref action_ref : IdRef) → Fixtures
    → Stage I
    → SettlementRecord
    → ActionReceipt
    → ResponseArgs
final_response capability request_ref action_ref fixtures stage settlement receipt = record {
  capability = capability;
  request_ref = request_ref;
  action_ref = action_ref;
  result = stage.final_decision.result;
  decision_ref = some stage.final_decision.decision_id;
  challenge_ref = challenge_id_of stage.challenge;
  settlement_ref = some settlement.settlement_id;
  receipt_ref = some receipt.receipt_id;
  message = fixtures.response_message;
}

unfoldable pub refuse_flow :
    Environment → IdRef → Stage PaymentIntent → Action AfalState PaymentFlowOutput
refuse_flow env reservation_ref stage = do
  on_ats (
      release_monetary_reservation env.now reservation_ref (decided_time stage.approval_result)
        (some (result_text stage.final_decision.result)))
  throw (payment_not_approved (result_text stage.final_decision.result))

-- The payment of an approved stage and what is recorded after it.
unfoldable pub pay_flow :
    Environment
    → (request_ref reservation_ref : IdRef) → AuthorizationDecision
    → Stage PaymentIntent
    → Action AfalState PaymentFlowOutput
pay_flow env request_ref reservation_ref initial_decision stage = do
  settlement ←
      catching (on_settlement (execute_payment env.adapters stage.intent stage.final_decision))
        (λ error. do
          on_ats
              (release_monetary_reservation env.now reservation_ref none (some "settlement-failed"))
          throw error)
  receipt ← on_outputs (
      create_action_receipt env.output_templates env.now (record {
        receipt_type = ReceiptType.payment;
        action_ref = stage.intent.intent_id;
        decision_ref = some stage.final_decision.decision_id;
        settlement_ref = some settlement.settlement_id;
        evidence = env.payment_fixtures.receipt_evidence;
        issued_at = some env.payment_fixtures.receipt_issued_at;
      }))
  intent ← on_intents (
      mark_payment_settlement (final_mark stage.intent.intent_id stage) settlement.settlement_id
        receipt.receipt_id)
  response ← on_outputs (
      create_capability_response env.output_templates env.now (
        final_response "executePayment" request_ref intent.intent_id env.payment_fixtures stage
          settlement receipt))
  settled ← on_ats (settle_monetary_reservation env.now reservation_ref (settled_time settlement))
  pure (record {
    intent = intent;
    initial_decision = initial_decision;
    challenge = stage.challenge;
    approval_context = stage.approval_context;
    approval_result = stage.approval_result;
    final_decision = stage.final_decision;
    settlement = settlement;
    approval_receipt = stage.approval_receipt;
    payment_receipt = receipt;
    capability_response = response;
    updated_budget = settled.1;
  })

unfoldable pub execute_payment_flow :
    Environment
    → TrustedSurface
    → IdRef
    → PaymentIntent
    → Option IdRef
    → Action AfalState PaymentFlowOutput
execute_payment_flow env surface request_ref input monetary_budget_ref = do
  get_fixtures env.payment_fixtures input.intent_id unsupported_payment_intent
  let budget_ref = monetary_budget_ref or_else env.payment_fixtures.budget_id
  created ← on_intents (create_payment_intent env.intent_templates input)
  check_agent env env.payment_fixtures created.payer.agent_did created.payer.account_id
  reserved ← reserve_payment env budget_ref created
  decision ← on_amn (evaluate_authorization env.amn_templates (payment_overlay created))
  stage ← authorize env surface created.intent_id created decision (λ challenge.
      on_intents (mark_payment_challenge (pending_mark created.intent_id decision challenge)))
  if is_result_approved stage.final_decision.result
      then pay_flow env request_ref reserved.0.reservation_id decision stage
      else refuse_flow env reserved.0.reservation_id stage
