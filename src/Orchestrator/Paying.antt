-- ===== src/Orchestrator/Paying.antt =====
-- The flows of the orchestrators and the adapters: as `Runtime.Paying`.
use agent_financial_action_l.Runtime.Paying.{execute_payment-Keeps, confirm_and_settle-Keeps}
use agent_financial_action_l.Orchestrator.Resource.{
  provide_flow, refuse_resource_flow, execute_resource_settlement_flow,
}
use agent_financial_action_l.Types.Afal.{ResourceIntent, ProviderUsageConfirmation}
use agent_financial_action_l.Orchestrator.{
  seek_approval, authorize, TrustedSurface, Environment, ApprovalContext, IdRef, PaymentIntent,
  answered_by, AuthorizationDecision, ChallengeRecord, is_result_approved, Action, AfalState,
  is_challenge_required, pay_flow, refuse_flow, execute_payment_flow, Stage,
}
use agent_financial_action_l.Settlement.{
  Call, execute_payment_call, confirm_usage_call, settle_usage_call,
}
use agent_financial_action_l.Base.{List, ◌∷◌, ◌≡◌, true, Option, if◌then◌else◌}
use agent_financial_action_l.Runtime.Calls.{Keeps, quiet, if-Keeps, pure-Keeps}
use agent_financial_action_l.Runtime.Quiet.{quiet_parts}

answered_by-Keeps :
    {P : List Call → Type 0} (surface : TrustedSurface) (context : ApprovalContext)
    → Keeps P (answered_by surface context)
answered_by-Keeps surface context = record { keep = λ s h. h }

seek_approval-Keeps :
    {P : List Call → Type 0} {I : Type 0} (env : Environment) (surface : TrustedSurface)
    (intent_id : IdRef) (decision : AuthorizationDecision)
    (mark : ChallengeRecord → Action AfalState I)
    → ((challenge : ChallengeRecord) → Keeps P (mark challenge))
    → Keeps P (seek_approval env surface intent_id decision mark)
unfolding seek_approval
seek_approval-Keeps env surface intent_id decision mark h =
    search (quiet, answered_by-Keeps) depth 40

authorize-Keeps :
    {P : List Call → Type 0} {I : Type 0} (env : Environment) (surface : TrustedSurface)
    (intent_id : IdRef) (intent : I) (decision : AuthorizationDecision)
    (mark : ChallengeRecord → Action AfalState I)
    → ((challenge : ChallengeRecord) → Keeps P (mark challenge))
    → Keeps P (authorize env surface intent_id intent decision mark)
unfolding authorize
authorize-Keeps env surface intent_id intent decision mark h =
    if-Keeps (is_challenge_required decision.result)
      (λ _. seek_approval-Keeps env surface intent_id decision mark h) (λ _. pure-Keeps _)

module _ {P : List Call → Type 0} (env : Environment)
    (pays : (intent : PaymentIntent) (decision : AuthorizationDecision) (calls : List Call)
      → is_result_approved decision.result ≡ true
      → P calls
      → P (execute_payment_call intent decision ∷ calls))
    (confirms : (intent : ResourceIntent) (calls : List Call)
      → P calls
      → P (confirm_usage_call intent ∷ calls))
    (settles : (intent : ResourceIntent) (decision : AuthorizationDecision)
        (usage : ProviderUsageConfirmation) (calls : List Call)
      → is_result_approved decision.result ≡ true
      → P calls
      → P (settle_usage_call intent decision usage ∷ calls)) where
  pay_flow-Keeps :
      (request_ref reservation_ref : IdRef) (decision : AuthorizationDecision)
      (stage : Stage PaymentIntent)
      → is_result_approved stage.final_decision.result ≡ true
      → Keeps P (pay_flow env request_ref reservation_ref decision stage)
  unfolding pay_flow
  pay_flow-Keeps request_ref reservation_ref decision stage approved =
      let paid = execute_payment-Keeps env pays confirms settles in search (quiet, paid) depth 40

  provide_flow-Keeps :
      (request_ref reservation_ref : IdRef) (decision : AuthorizationDecision)
      (stage : Stage ResourceIntent)
      → is_result_approved stage.final_decision.result ≡ true
      → Keeps P (provide_flow env request_ref reservation_ref decision stage)
  unfolding provide_flow
  provide_flow-Keeps request_ref reservation_ref decision stage approved =
      let provided = confirm_and_settle-Keeps env pays confirms settles in
      search (quiet, provided) depth 40

  choose_payment-Keeps :
      (request_ref reservation_ref : IdRef) (decision : AuthorizationDecision)
      (stage : Stage PaymentIntent)
      → Keeps P (
          if is_result_approved stage.final_decision.result
          then pay_flow env request_ref reservation_ref decision stage
          else refuse_flow env reservation_ref stage)
  unfolding refuse_flow
  choose_payment-Keeps request_ref reservation_ref decision stage =
      if-Keeps (is_result_approved stage.final_decision.result)
        (pay_flow-Keeps request_ref reservation_ref decision stage) (λ _. search quiet depth 30)

  choose_resource-Keeps :
      (request_ref reservation_ref : IdRef) (decision : AuthorizationDecision)
      (stage : Stage ResourceIntent)
      → Keeps P (
          if is_result_approved stage.final_decision.result
          then provide_flow env request_ref reservation_ref decision stage
          else refuse_resource_flow env reservation_ref stage)
  unfolding refuse_resource_flow
  choose_resource-Keeps request_ref reservation_ref decision stage =
      if-Keeps (is_result_approved stage.final_decision.result)
        (provide_flow-Keeps request_ref reservation_ref decision stage) (λ _. search quiet depth 30)

  pub execute_payment_flow-Keeps :
      (surface : TrustedSurface) (request_ref : IdRef) (input : PaymentIntent) (ref : Option IdRef)
      → Keeps P (execute_payment_flow env surface request_ref input ref)
  unfolding execute_payment_flow
  execute_payment_flow-Keeps surface request_ref input ref =
      search (quiet_parts, authorize-Keeps, choose_payment-Keeps) depth 60 fits 3000

  pub execute_resource_flow-Keeps :
      (surface : TrustedSurface) (request_ref : IdRef) (input : ResourceIntent)
      (budget_ref quota_ref : IdRef)
      → Keeps P
          (execute_resource_settlement_flow env surface request_ref input budget_ref quota_ref)
  unfolding execute_resource_settlement_flow
  execute_resource_flow-Keeps surface request_ref input budget_ref quota_ref =
      search (quiet_parts, authorize-Keeps, choose_resource-Keeps) depth 60 fits 3000
