-- ===== src/Runtime/Resume.antt =====
-- backend/afal/service/runtime.ts: `resumeApprovedAction` for a payment
-- (`resumeApprovedPaymentAction`), a branch to a definition.
use agent_financial_action_l.Base.{
  String, Bool, true, false, Option, none, some, ◌or_else◌, ◌or_some◌, List, [], ◌∷◌, ◌==◌,
  if◌then◌else◌,
}
use agent_financial_action_l.Base.Map.{values}
use agent_financial_action_l.Base.Action.{
  Action, pure, throw, gets, assert_found, ◌>>=◌, ◌>>◌, receipt_not_found, payment_not_approved,
}
use agent_financial_action_l.Types.{IdRef, Timestamp, AuthorizationResult, CommonActionStatus}
use agent_financial_action_l.Types.Ats.{MonetaryBudget}
use agent_financial_action_l.Types.Amn.{
  AuthorizationDecision, ChallengeRecord, ApprovalContext, ApprovalResult,
}
use agent_financial_action_l.Types.Afal.{
  PaymentIntent, CapabilityResponse, PendingApprovalExecution, PendingApprovalExecutionStatus,
  SettlementRecord, ActionReceipt, ReceiptType,
}
use agent_financial_action_l.Ats.{get_monetary_budget_state}
use agent_financial_action_l.Ats.Monetary.{release_monetary_reservation}
use agent_financial_action_l.Amn.{Resumed}
use agent_financial_action_l.State.{
  Mark, PendingMark, mark_payment_challenge, mark_pending_execution,
}
use agent_financial_action_l.Settlement.{get_settlement}
use agent_financial_action_l.Outputs.{ResponseArgs, create_capability_response}
use agent_financial_action_l.Runtime.{
  AfalState, Environment, on_ats, on_intents, on_outputs, on_settlement, result_text, select_latest,
}

pub record PaymentFlowOutput : Type 0 where
  pub intent : PaymentIntent
  pub initial_decision : AuthorizationDecision
  pub challenge : Option ChallengeRecord
  pub approval_context : Option ApprovalContext
  pub approval_result : Option ApprovalResult
  pub final_decision : AuthorizationDecision
  pub settlement : SettlementRecord
  pub approval_receipt : Option ActionReceipt
  pub payment_receipt : ActionReceipt
  pub capability_response : CapabilityResponse
  pub updated_budget : MonetaryBudget

-- The arguments of `resumeApprovedPaymentAction` and `resumeApprovedResourceAction`.
pub record Resumption : Type 0 where
  pub pending : PendingApprovalExecution
  pub initial_decision : AuthorizationDecision
  pub approval_context : ApprovalContext
  pub resumed : Resumed

abbrev pub is_result_approved : AuthorizationResult → Bool
is_result_approved AuthorizationResult.approved = true
is_result_approved _ = false

-- `finalDecision.result === "expired" ? "expired" : "rejected"`
abbrev pub refused_status : AuthorizationResult → CommonActionStatus
refused_status AuthorizationResult.expired = CommonActionStatus.expired
refused_status _ = CommonActionStatus.rejected

abbrev pub is_settled : CommonActionStatus → Bool
is_settled CommonActionStatus.settled = true
is_settled _ = false

-- `intent.status === "settled" && intent.settlementRef && intent.receiptRef`
unfoldable pub settled_refs : PaymentIntent → Option (IdRef × IdRef)
settled_refs intent =
    if is_settled intent.status
    then elim (intent.settlement_ref) [
      | none ↦ none
      | some s ↦ elim (intent.receipt_ref) [ none ↦ none | some r ↦ some (s, r) ]
    ]
    else none

-- list.find(test)
unfoldable pub find {ℓ} : {A : Type ℓ} → (A → Bool) → List A → Option A
find test [] = none
find test (a ∷ more) = let rest = find test more in if test a then some a else rest

abbrev pub is_payment : ReceiptType → Bool
is_payment ReceiptType.payment = true
is_payment _ = false

abbrev pub is_resource : ReceiptType → Bool
is_resource ReceiptType.resource = true
is_resource _ = false

abbrev pub is_approval : ReceiptType → Bool
is_approval ReceiptType.approval = true
is_approval _ = false

-- (await listReceipts()).filter((receipt) => receipt.actionRef === actionRef)
unfoldable pub receipts_of : IdRef → List ActionReceipt → List ActionReceipt
receipts_of action_ref [] = []
receipts_of action_ref (r ∷ rs) =
    let rest = receipts_of action_ref rs in if r.action_ref == action_ref then r ∷ rest else rest

abbrev is_at : IdRef → Option IdRef → Bool
is_at action_ref none = false
is_at action_ref (some ref) = ref == action_ref

unfoldable pub responses_of : IdRef → List CapabilityResponse → List CapabilityResponse
responses_of action_ref [] = []
responses_of action_ref (r ∷ rs) =
    let rest = responses_of action_ref rs in
    if is_at action_ref r.action_ref then r ∷ rest else rest

abbrev pub find_receipt : IdRef → (ActionReceipt → Bool) → Action AfalState (Option ActionReceipt)
find_receipt action_ref test =
    gets (λ (s : AfalState). find test (receipts_of action_ref (values s.outputs.receipts)))

abbrev pub latest_response : Environment → IdRef → Action AfalState (Option CapabilityResponse)
latest_response env action_ref = gets (λ (s : AfalState).
    select_latest env.is_after (responses_of action_ref (values s.outputs.capability_responses)))

-- `pendingExecution.monetaryBudgetRef ?? fixtures.monetaryBudgetInitial.budgetId`
abbrev pub budget_of : Environment → PendingApprovalExecution → IdRef
budget_of env pending = pending.monetary_budget_ref or_else env.payment_fixtures.budget_id

abbrev pub settled_time : SettlementRecord → Option Timestamp
settled_time settlement = settlement.settled_at or_some settlement.executed_at

-- The arguments of `markPendingExecution` after a settlement, and after a refusal or a failure.
abbrev pub resumed_mark : Resumed → SettlementRecord → (receipt_ref : IdRef) → PendingMark
resumed_mark resumed settlement receipt_ref = record {
  approval_session_ref = resumed.approval_session.approval_session_id;
  status = PendingApprovalExecutionStatus.resumed;
  updated_at = settled_time settlement;
  final_decision_ref = some resumed.final_decision.decision_id;
  settlement_ref = some settlement.settlement_id;
  receipt_ref = some receipt_ref;
  usage_receipt_ref = none;
}

abbrev pub ended_mark : Resumed → PendingApprovalExecutionStatus → Timestamp → PendingMark
ended_mark resumed status updated_at = record {
  approval_session_ref = resumed.approval_session.approval_session_id;
  status = status;
  updated_at = some updated_at;
  final_decision_ref = some resumed.final_decision.decision_id;
  settlement_ref = none;
  receipt_ref = none;
  usage_receipt_ref = none;
}

abbrev pub refused_mark : IdRef → Resumed → Mark
refused_mark intent_id resumed = record {
  intent_id = intent_id;
  decision_ref = some resumed.final_decision.decision_id;
  challenge_ref = some resumed.challenge.challenge_id;
  challenge_state = resumed.final_decision.challenge_state;
  status = refused_status resumed.final_decision.result;
}

abbrev pub settled_mark : IdRef → Resumed → Mark
settled_mark intent_id resumed = record {
  intent_id = intent_id;
  decision_ref = some resumed.final_decision.decision_id;
  challenge_ref = some resumed.challenge.challenge_id;
  challenge_state = resumed.final_decision.challenge_state;
  status = CommonActionStatus.settled;
}

abbrev pub resumed_response :
    Resumption → IdRef → SettlementRecord → (receipt_ref : IdRef) → Option String → ResponseArgs
resumed_response args action_ref settlement receipt_ref message = record {
  capability = "resumeApprovedAction";
  request_ref = args.pending.request_ref;
  action_ref = action_ref;
  result = args.resumed.final_decision.result;
  decision_ref = some args.resumed.final_decision.decision_id;
  challenge_ref = some args.resumed.challenge.challenge_id;
  settlement_ref = some settlement.settlement_id;
  receipt_ref = some receipt_ref;
  message = message;
}

-- The reservation of a pending execution is released, where it has one.
abbrev pub release_payment :
    Environment → Option IdRef → Option Timestamp → String → Action AfalState (Unit {0})
release_payment env none released_at reason = pure tt
release_payment env (some ref) released_at reason = do
  on_ats (release_monetary_reservation env.now ref released_at (some reason))
  pure tt

abbrev pub payment_output :
    Resumption
    → PaymentIntent
    → SettlementRecord
    → Option ActionReceipt
    → ActionReceipt
    → CapabilityResponse
    → MonetaryBudget
    → PaymentFlowOutput
payment_output args intent settlement approval_receipt payment_receipt response budget = record {
  intent = intent;
  initial_decision = args.initial_decision;
  challenge = some args.resumed.challenge;
  approval_context = some args.approval_context;
  approval_result = some args.resumed.approval_result;
  final_decision = args.resumed.final_decision;
  settlement = settlement;
  approval_receipt = approval_receipt;
  payment_receipt = payment_receipt;
  capability_response = response;
  updated_budget = budget;
}

abbrev pub existing_or :
    Option CapabilityResponse
    → Action AfalState CapabilityResponse
    → Action AfalState CapabilityResponse
existing_or none create = create
existing_or (some response) create = pure response

-- The branch of an intent that was settled before: what is there is returned.
unfoldable pub return_settled :
    Environment
    → Resumption
    → PaymentIntent
    → (settlement_ref receipt_ref : IdRef) → Action AfalState PaymentFlowOutput
return_settled env args intent settlement_ref receipt_ref = do
  settlement ← on_settlement (get_settlement settlement_ref)
  found ← find_receipt intent.intent_id (λ receipt. receipt.receipt_id == receipt_ref)
  payment_receipt ← assert_found found (receipt_not_found receipt_ref intent.intent_id)
  approval_receipt ← find_receipt intent.intent_id (λ receipt. is_approval receipt.receipt_type)
  existing ← latest_response env intent.intent_id
  response ← existing_or existing (
      on_outputs (
        create_capability_response env.output_templates env.now (
          resumed_response args intent.intent_id settlement payment_receipt.receipt_id
            (some "Payment intent was already settled; returning existing receipt evidence"))))
  updated_budget ← on_ats (get_monetary_budget_state (budget_of env args.pending))
  on_intents
      (mark_pending_execution (resumed_mark args.resumed settlement payment_receipt.receipt_id))
  pure (
      payment_output args intent settlement approval_receipt payment_receipt response
        updated_budget)

-- The branch of a decision that is not an approval.
unfoldable pub refuse_payment :
    Environment → Resumption → PaymentIntent → Action AfalState PaymentFlowOutput
refuse_payment env args intent = do
  release_payment env args.pending.reservation_ref (some args.resumed.approval_result.decided_at)
      (result_text args.resumed.final_decision.result)
  on_intents (mark_payment_challenge (refused_mark intent.intent_id args.resumed))
  on_intents (
      mark_pending_execution (
        ended_mark args.resumed PendingApprovalExecutionStatus.released
          args.resumed.approval_result.decided_at))
  throw (payment_not_approved (result_text args.resumed.final_decision.result))
