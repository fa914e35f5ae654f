-- ===== src/Runtime/Quiet.antt =====
-- The parts of the runtime that call no adapter: they keep every property of the calls made.
use agent_financial_action_l.Base.Action.{assert_found}
use agent_financial_action_l.Base.Map.{lookup}
use agent_financial_action_l.Types.Amn.{ApprovalResult}
use agent_financial_action_l.Amn.{Resumed}
use agent_financial_action_l.Runtime.Approval.{
  close_refused, refuse_pending, apply_result, prepare_resumption,
}
use agent_financial_action_l.Runtime.Resume.{
  release_payment, existing_or, return_settled, refuse_payment, Resumption,
}
use agent_financial_action_l.Types.Afal.{
  ResourceIntent, PendingApprovalExecution, SettlementRecord, ActionReceipt, ActionType,
  ProviderUsageConfirmation,
}
use agent_financial_action_l.Runtime.Provide.{
  settle_capacity, release_capacity, dispatch_resource_settlement_notification, refuse_resource,
  record_resource,
}
use agent_financial_action_l.Runtime.Pay.{
  settle_budget, settle_reserved, dispatch_payment_settlement_notification, record_payment,
}
use agent_financial_action_l.Runtime.Request.{
  reserve_payment, reserve_resource, request_payment_approval, request_resource_approval,
}
use agent_financial_action_l.Runtime.{
  Environment, check_agent, Fixtures, IdRef, CapabilityResponse, Did, Error, PaymentIntent,
  Timestamp, Action, get_fixtures, AfalState, PaymentNotification, ResourceNotification,
  is_inactive_reservation_error, on_settlement,
}
use agent_financial_action_l.Settlement.{Call, get_settlement}
use agent_financial_action_l.Base.{List, Option, none, some, String, Option-cases, inl, inr}
use agent_financial_action_l.Runtime.Calls.{
  Keeps, quiet, catching-Keeps, if-Keeps, on_ats-Keeps, throw-Keeps,
}

module _ {P : List Call → Type 0} (env : Environment) where
  pub check_agent-Keeps :
      (fixtures : Fixtures) (did : Did) (id : IdRef) → Keeps P (check_agent env fixtures did id)
  unfolding check_agent
  check_agent-Keeps fixtures did id = search quiet depth 30

  pub get_fixtures-Keeps :
      (fixtures : Fixtures) (id : IdRef) (unsupported : IdRef → Error)
      → Keeps P (get_fixtures fixtures id unsupported)
  get_fixtures-Keeps fixtures id unsupported = search quiet depth 30

  pub reserve_payment-Keeps :
      (ref : IdRef) (intent : PaymentIntent) → Keeps P (reserve_payment env ref intent)
  unfolding reserve_payment
  reserve_payment-Keeps ref intent = search quiet depth 30

  pub reserve_resource-Keeps :
      (budget_ref quota_ref : IdRef) (intent : ResourceIntent)
      → Keeps P (reserve_resource env budget_ref quota_ref intent)
  unfolding reserve_resource
  reserve_resource-Keeps budget_ref quota_ref intent = search quiet depth 30

  pub release_payment-Keeps :
      (o : Option IdRef) (at : Option Timestamp) (reason : String)
      → Keeps P (release_payment env o at reason)
  release_payment-Keeps none at reason = search quiet depth 30
  release_payment-Keeps (some ref) at reason = search quiet depth 30

  pub release_capacity-Keeps :
      (o : Option IdRef) (at : Option Timestamp) (reason : String)
      → Keeps P (release_capacity env o at reason)
  release_capacity-Keeps none at reason = search quiet depth 30
  release_capacity-Keeps (some ref) at reason = search quiet depth 30

  pub existing_or-Keeps :
      (o : Option CapabilityResponse) (create : Action AfalState CapabilityResponse)
      → Keeps P create
      → Keeps P (existing_or o create)
  existing_or-Keeps none create h = h
  existing_or-Keeps (some response) create h = search quiet depth 30

  pub settle_reserved-Keeps :
      (pending : PendingApprovalExecution) (settlement : SettlementRecord) (o : Option IdRef)
      → Keeps P (settle_reserved env pending settlement o)
  settle_reserved-Keeps pending settlement none = search quiet depth 30
  settle_reserved-Keeps pending settlement (some ref) = search quiet depth 30

  pub settle_budget-Keeps :
      (pending : PendingApprovalExecution) (settlement : SettlementRecord)
      → Keeps P (settle_budget env pending settlement)
  unfolding settle_budget
  settle_budget-Keeps pending settlement =
      catching-Keeps (settle_reserved-Keeps pending settlement pending.reservation_ref)
        (λ e. if-Keeps (is_inactive_reservation_error e) (λ _. on_ats-Keeps _) (λ _. throw-Keeps e))

  pub settle_capacity-Keeps :
      (pending : PendingApprovalExecution) (settlement : SettlementRecord) (o : Option IdRef)
      → Keeps P (settle_capacity env pending settlement o)
  unfolding settle_capacity
  settle_capacity-Keeps pending settlement none = search quiet depth 30
  settle_capacity-Keeps pending settlement (some ref) = search quiet depth 30

  pub dispatch_payment-Keeps :
      (n : PaymentNotification) → Keeps P (dispatch_payment_settlement_notification env n)
  unfolding dispatch_payment_settlement_notification
  dispatch_payment-Keeps n = search quiet depth 30

  pub dispatch_resource-Keeps :
      (n : ResourceNotification) → Keeps P (dispatch_resource_settlement_notification env n)
  unfolding dispatch_resource_settlement_notification
  dispatch_resource-Keeps n = search quiet depth 30

  pub get_settlement-Keeps : (ref : IdRef) → Keeps P (on_settlement (get_settlement ref))
  get_settlement-Keeps ref = record {
    keep = λ s h. elim (Option-cases (lookup ref s.settlement.settlements)) [
      | inl missing ↦ rw (missing, assert_found) h
      | inr (r, found) ↦ rw (found, assert_found) h
    ];
  }

  pub ruleset quiet_parts = (
    quiet, get_settlement-Keeps, check_agent-Keeps, get_fixtures-Keeps, reserve_payment-Keeps,
    reserve_resource-Keeps, release_payment-Keeps, release_capacity-Keeps, existing_or-Keeps,
    settle_budget-Keeps, settle_capacity-Keeps, dispatch_payment-Keeps, dispatch_resource-Keeps,
  )

  pub request_payment_approval-Keeps :
      (request_ref : IdRef) (input : PaymentIntent) (ref : Option IdRef)
      → Keeps P (request_payment_approval env request_ref input ref)
  unfolding request_payment_approval
  request_payment_approval-Keeps request_ref input ref = search quiet_parts depth 60 fits 3000

  pub request_resource_approval-Keeps :
      (request_ref : IdRef) (input : ResourceIntent) (budget_ref quota_ref : IdRef)
      → Keeps P (request_resource_approval env request_ref input budget_ref quota_ref)
  unfolding request_resource_approval
  request_resource_approval-Keeps request_ref input budget_ref quota_ref =
      search quiet_parts depth 60 fits 3000

  pub return_settled-Keeps :
      (args : Resumption) (intent : PaymentIntent) (settlement_ref receipt_ref : IdRef)
      → Keeps P (return_settled env args intent settlement_ref receipt_ref)
  unfolding return_settled
  return_settled-Keeps args intent settlement_ref receipt_ref =
      search quiet_parts depth 60 fits 3000

  pub refuse_payment-Keeps :
      (args : Resumption) (intent : PaymentIntent) → Keeps P (refuse_payment env args intent)
  unfolding refuse_payment
  refuse_payment-Keeps args intent = search quiet_parts depth 60 fits 3000

  pub refuse_resource-Keeps :
      (args : Resumption) (intent : ResourceIntent) → Keeps P (refuse_resource env args intent)
  unfolding refuse_resource
  refuse_resource-Keeps args intent = search quiet_parts depth 60 fits 3000

  pub record_payment-Keeps :
      (args : Resumption) (intent : PaymentIntent) (receipt : ActionReceipt)
      (settlement : SettlementRecord)
      → Keeps P (record_payment env args intent receipt settlement)
  unfolding record_payment
  record_payment-Keeps args intent receipt settlement = search quiet_parts depth 60 fits 3000

  pub record_resource-Keeps :
      (args : Resumption) (intent : ResourceIntent) (receipt : ActionReceipt)
      (usage : ProviderUsageConfirmation) (settlement : SettlementRecord)
      → Keeps P (record_resource env args intent receipt usage settlement)
  unfolding record_resource
  record_resource-Keeps args intent receipt usage settlement = search quiet_parts depth 60 fits 3000

  pub close_refused-Keeps :
      (pending : PendingApprovalExecution) (resumed : Resumed) (kind : ActionType)
      → Keeps P (close_refused env pending resumed kind)
  unfolding close_refused
  close_refused-Keeps pending resumed ActionType.payment = search quiet_parts depth 60 fits 3000
  close_refused-Keeps pending resumed ActionType.resource = search quiet_parts depth 60 fits 3000

  pub refuse_pending-Keeps : (ref : IdRef) → Keeps P (refuse_pending env ref)
  unfolding refuse_pending
  refuse_pending-Keeps ref = search (quiet_parts, close_refused-Keeps) depth 60 fits 3000

  pub apply_result-Keeps :
      (ref : IdRef) (result : ApprovalResult) → Keeps P (apply_result env ref result)
  unfolding apply_result
  apply_result-Keeps ref result =
      search (quiet_parts, refuse_pending-Keeps, if-Keeps) depth 60 fits 3000

  pub prepare_resumption-Keeps : (ref : IdRef) → Keeps P (prepare_resumption env ref)
  unfolding prepare_resumption
  prepare_resumption-Keeps ref = search quiet_parts depth 60 fits 3000
