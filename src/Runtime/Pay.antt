-- ===== src/Runtime/Pay.antt =====
-- backend/afal/service/runtime.ts: the branch of `resumeApprovedPaymentAction` that pays, and the
-- method itself.
use agent_financial_action_l.Base.{String, Option, none, some, ◌or_else◌, [], ◌∷◌, if◌then◌else◌}
use agent_financial_action_l.Base.Action.{
  Action, pure, throw, ◌>>=◌, ◌>>◌, unsupported_payment_intent,
}
use agent_financial_action_l.Base.Ids.{text_of}
use agent_financial_action_l.Base.Map.{insert}
use agent_financial_action_l.Types.{IdRef, Did}
use agent_financial_action_l.Types.Ats.{MonetaryBudget}
use agent_financial_action_l.Types.Amn.{Fields}
use agent_financial_action_l.Types.Afal.{
  PaymentIntent, SettlementRecord, ActionReceipt, ReceiptType, Destination,
  PendingApprovalExecutionStatus, PendingApprovalExecution,
}
use agent_financial_action_l.Ats.{get_monetary_budget_state}
use agent_financial_action_l.Ats.Monetary.{settle_monetary_reservation}
use agent_financial_action_l.State.{
  get_payment_intent, mark_payment_settlement, mark_pending_execution,
}
use agent_financial_action_l.Settlement.{execute_payment}
use agent_financial_action_l.Outputs.{
  create_capability_response, create_action_receipt, create_approval_receipt,
}
use agent_financial_action_l.Clients.Store.{truthy}
use agent_financial_action_l.Notifications.Entries.{PaymentNotification}
use Prim.Native.String.{◌++◌}
use agent_financial_action_l.Runtime.{
  AfalState, Environment, get_fixtures, on_ats, on_intents, on_outputs, on_settlement, on_outbox,
  catching, is_inactive_reservation_error,
}
use agent_financial_action_l.Runtime.Resume.{
  PaymentFlowOutput, Resumption, release_payment, ended_mark, settled_mark, resumed_mark,
  resumed_response, settled_time, budget_of, payment_output, return_settled, refuse_payment,
  settled_refs, is_result_approved,
}

-- The payment itself: when it fails, the reservation is released and the execution marked failed.
unfoldable pub execute_or_release :
    Environment → Resumption → PaymentIntent → Action AfalState SettlementRecord
execute_or_release env args intent =
    catching (on_settlement (execute_payment env.adapters intent args.resumed.final_decision))
      (λ error. do
        release_payment env args.pending.reservation_ref none "settlement-failed"
        on_intents (
            mark_pending_execution
              (ended_mark args.resumed PendingApprovalExecutionStatus.failed env.now))
        throw error)

abbrev payee_of : Destination → PaymentIntent → Did
payee_of (Destination.counterparty c) intent = c.payee_did
payee_of (Destination.provider p) intent = intent.payee.payee_did

abbrev with_hash : Option String → Fields → Fields
with_hash none fields = fields
with_hash (some hash) fields = insert "txHash" hash fields

unfoldable pub payment_evidence : SettlementRecord → PaymentIntent → Fields
unfolding text_of
payment_evidence settlement intent = with_hash (truthy settlement.tx_hash) (
    ("payerAccountRef", settlement.source_account_ref)
    ∷ ("payeeDid", payee_of settlement.destination intent)
    ∷ ("asset", settlement.asset)
    ∷ ("amount", text_of settlement.amount)
    ∷ ("chain", settlement.chain or_else intent.chain)
    ∷ [])

-- The reservation is settled, or the budget read where there is none.
abbrev pub settle_reserved :
    Environment
    → PendingApprovalExecution
    → SettlementRecord
    → Option IdRef
    → Action AfalState MonetaryBudget
settle_reserved env pending settlement none =
    on_ats (get_monetary_budget_state (budget_of env pending))
settle_reserved env pending settlement (some ref) = do
  settled ← on_ats (settle_monetary_reservation env.now ref (settled_time settlement))
  pure settled.1

-- An inactive reservation is passed over.
unfoldable pub settle_budget :
    Environment → PendingApprovalExecution → SettlementRecord → Action AfalState MonetaryBudget
settle_budget env pending settlement =
    catching (settle_reserved env pending settlement pending.reservation_ref) (λ error.
      if is_inactive_reservation_error error
      then on_ats (get_monetary_budget_state (budget_of env pending))
      else throw error)

-- dispatchPaymentSettlementNotification: an error of the port is dropped.
unfoldable pub dispatch_payment_settlement_notification :
    Environment → PaymentNotification → Action AfalState (Unit {0})
dispatch_payment_settlement_notification env notification =
    catching (on_outbox (env.notifications.notify_payment_settlement notification))
      (λ error. pure tt)

abbrev pub payment_notification :
    Resumption → PaymentIntent → SettlementRecord → ActionReceipt → PaymentNotification
payment_notification args intent settlement receipt = record {
  notification_id = "notif-" ++ intent.intent_id;
  request_ref = args.pending.request_ref;
  action_ref = intent.intent_id;
  approval_session_ref = args.resumed.approval_session.approval_session_id;
  payee_did = intent.payee.payee_did;
  intent_status = intent.status;
  settlement_ref = settlement.settlement_id;
  receipt_ref = receipt.receipt_id;
  asset = settlement.asset;
  amount = settlement.amount;
  chain = settlement.chain or_else intent.chain;
  settled_at = settled_time settlement or_else receipt.issued_at;
}

-- What is recorded after the payment: the receipt, the intent, the response, the budget.
unfoldable pub record_payment :
    Environment
    → Resumption
    → PaymentIntent
    → ActionReceipt
    → SettlementRecord
    → Action AfalState PaymentFlowOutput
record_payment env args intent approval_receipt settlement = do
  payment_receipt ← on_outputs (
      create_action_receipt env.output_templates env.now (record {
        receipt_type = ReceiptType.payment;
        action_ref = intent.intent_id;
        decision_ref = some args.resumed.final_decision.decision_id;
        settlement_ref = some settlement.settlement_id;
        evidence = payment_evidence settlement intent;
        issued_at = some env.payment_fixtures.receipt_issued_at;
      }))
  settled_intent ← on_intents (
      mark_payment_settlement (settled_mark intent.intent_id args.resumed) settlement.settlement_id
        payment_receipt.receipt_id)
  response ← on_outputs (
      create_capability_response env.output_templates env.now (
        resumed_response args settled_intent.intent_id settlement payment_receipt.receipt_id
          env.payment_fixtures.response_message))
  updated_budget ← settle_budget env args.pending settlement
  on_intents
      (mark_pending_execution (resumed_mark args.resumed settlement payment_receipt.receipt_id))
  dispatch_payment_settlement_notification env
      (payment_notification args settled_intent settlement payment_receipt)
  pure (
      payment_output args settled_intent settlement (some approval_receipt) payment_receipt response
        updated_budget)

unfoldable pub pay : Environment → Resumption → PaymentIntent → Action AfalState PaymentFlowOutput
pay env args intent = do
  approval_receipt ← on_outputs (
      create_approval_receipt env.output_templates intent.intent_id
        (some args.resumed.final_decision.decision_id) args.resumed.approval_result)
  settlement ← execute_or_release env args intent
  record_payment env args intent approval_receipt settlement

-- The three branches, in the order in which the source tests them.
unfoldable pub continue_payment :
    Environment
    → Resumption
    → PaymentIntent
    → Option (IdRef × IdRef)
    → Action AfalState PaymentFlowOutput
continue_payment env args intent (some (settlement_ref, receipt_ref)) =
    return_settled env args intent settlement_ref receipt_ref
continue_payment env args intent none =
    if is_result_approved args.resumed.final_decision.result
    then pay env args intent
    else refuse_payment env args intent

unfoldable pub resume_approved_payment_action :
    Environment → Resumption → Action AfalState PaymentFlowOutput
resume_approved_payment_action env args = do
  get_fixtures env.payment_fixtures args.pending.action_ref unsupported_payment_intent
  intent ← on_intents (get_payment_intent args.pending.action_ref)
  continue_payment env args intent (settled_refs intent)
