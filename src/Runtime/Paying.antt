-- ===== src/Runtime/Paying.antt =====
-- The commands that call an adapter. `P` is a property of the calls made that holds on after a call
-- with an approved decision.
use agent_financial_action_l.Base.Action.{Result-cases}
use agent_financial_action_l.Runtime.Approval.{resume_approved_action, resume_action}
use agent_financial_action_l.Runtime.Pay.{
  pay, continue_payment, resume_approved_payment_action, execute_or_release,
}
use agent_financial_action_l.Runtime.Provide.{
  confirm_and_settle, provide, resume_approved_resource_action, provide_or_release, refuse_resource,
}
use agent_financial_action_l.Types.Afal.{ResourceIntent, ProviderUsageConfirmation, ActionType}
use agent_financial_action_l.Runtime.Resume.{is_result_approved, Resumption}
use agent_financial_action_l.Types.Amn.{AuthorizationDecision}
use agent_financial_action_l.Runtime.{Environment, PaymentIntent, on_settlement, IdRef}
use agent_financial_action_l.Settlement.{
  Call, execute_payment_call, confirm_usage_call, settle_usage_call, execute_payment,
  confirm_resource_usage, settle_resource_usage,
}
use agent_financial_action_l.Base.{
  List, ◌∷◌, ◌≡◌, true, Option, none, some, inl, inr, if◌then◌else◌,
}
use agent_financial_action_l.Runtime.Calls.{Keeps, quiet, if-Keeps}
use agent_financial_action_l.Runtime.Quiet.{
  quiet_parts, record_payment-Keeps, record_resource-Keeps, prepare_resumption-Keeps,
  refuse_payment-Keeps, refuse_resource-Keeps, return_settled-Keeps,
}

module _ {P : List Call → Type 0} (env : Environment)
    (pays : (intent : PaymentIntent) (decision : AuthorizationDecision) (calls : List Call)
      → is_result_approved decision.result ≡ true
      → P calls
      → P (execute_payment_call intent decision ∷ calls))
    (confirms : (intent : ResourceIntent) (calls : List Call)
      → P calls
      → P (confirm_usage_call intent ∷ calls))
    (settles : (intent : ResourceIntent) (decision : AuthorizationDecision)
        (usage : ProviderUsageConfirmation) (calls : List Call)
      → is_result_approved decision.result ≡ true
      → P calls
      → P (settle_usage_call intent decision usage ∷ calls)) where
  pub execute_payment-Keeps :
      (intent : PaymentIntent) (decision : AuthorizationDecision)
      → is_result_approved decision.result ≡ true
      → Keeps P (on_settlement (execute_payment env.adapters intent decision))
  unfolding execute_payment
  execute_payment-Keeps intent decision approved = record {
    keep = λ s h.
        elim (Result-cases (env.adapters.execute_payment s.settlement.calls intent decision)) [
          | inl (r, answered) ↦ rw answered (pays intent decision s.settlement.calls approved h)
          | inr (e, failed) ↦ rw failed (pays intent decision s.settlement.calls approved h)
        ];
  }

  confirm_usage-Keeps :
      (intent : ResourceIntent)
      → Keeps P (on_settlement (confirm_resource_usage env.adapters intent))
  unfolding confirm_resource_usage
  confirm_usage-Keeps intent = record {
    keep = λ s h.
        elim (Result-cases (env.adapters.confirm_resource_usage s.settlement.calls intent)) [
          | inl (r, answered) ↦ rw answered (confirms intent s.settlement.calls h)
          | inr (e, failed) ↦ rw failed (confirms intent s.settlement.calls h)
        ];
  }

  settle_usage-Keeps :
      (intent : ResourceIntent) (decision : AuthorizationDecision)
      (usage : ProviderUsageConfirmation)
      → is_result_approved decision.result ≡ true
      → Keeps P (on_settlement (settle_resource_usage env.adapters intent decision usage))
  unfolding settle_resource_usage
  settle_usage-Keeps intent decision usage approved = record {
    keep = λ s h.
        elim (Result-cases
          (env.adapters.settle_resource_usage s.settlement.calls intent decision usage)) [
            | inl (r, answered) ↦
                rw answered (settles intent decision usage s.settlement.calls approved h)
            | inr (e, failed) ↦
                rw failed (settles intent decision usage s.settlement.calls approved h)
          ];
  }

  pub confirm_and_settle-Keeps :
      (decision : AuthorizationDecision) (intent : ResourceIntent)
      → is_result_approved decision.result ≡ true
      → Keeps P (confirm_and_settle env decision intent)
  confirm_and_settle-Keeps decision intent approved =
      search (quiet, confirm_usage-Keeps, settle_usage-Keeps) depth 30

  pay-Keeps :
      (args : Resumption) (intent : PaymentIntent)
      → is_result_approved args.resumed.final_decision.result ≡ true
      → Keeps P (pay env args intent)
  unfolding pay execute_or_release
  pay-Keeps args intent approved =
      search (quiet_parts, execute_payment-Keeps, record_payment-Keeps) depth 40

  provide-Keeps :
      (args : Resumption) (intent : ResourceIntent)
      → is_result_approved args.resumed.final_decision.result ≡ true
      → Keeps P (provide env args intent)
  unfolding provide provide_or_release
  provide-Keeps args intent approved =
      search (quiet_parts, confirm_and_settle-Keeps, record_resource-Keeps) depth 40

  continue_payment-Keeps :
      (args : Resumption) (intent : PaymentIntent) (o : Option (IdRef × IdRef))
      → Keeps P (continue_payment env args intent o)
  unfolding continue_payment
  continue_payment-Keeps args intent none =
      if-Keeps (is_result_approved args.resumed.final_decision.result) (pay-Keeps args intent)
        (λ _. refuse_payment-Keeps env args intent)
  continue_payment-Keeps args intent (some (settlement_ref, receipt_ref)) =
      return_settled-Keeps env args intent settlement_ref receipt_ref

  resume_payment-Keeps : (args : Resumption) → Keeps P (resume_approved_payment_action env args)
  unfolding resume_approved_payment_action
  resume_payment-Keeps args = search (quiet_parts, continue_payment-Keeps) depth 40

  choose_resource-Keeps :
      (args : Resumption) (intent : ResourceIntent)
      → Keeps P (
          if is_result_approved args.resumed.final_decision.result
          then provide env args intent
          else refuse_resource env args intent)
  choose_resource-Keeps args intent =
      if-Keeps (is_result_approved args.resumed.final_decision.result) (provide-Keeps args intent)
        (λ _. refuse_resource-Keeps env args intent)

  resume_resource-Keeps : (args : Resumption) → Keeps P (resume_approved_resource_action env args)
  unfolding resume_approved_resource_action
  resume_resource-Keeps args = search (quiet_parts, choose_resource-Keeps) depth 40

  pub resume_action-Keeps :
      (args : Resumption) (kind : ActionType) → Keeps P (resume_action env args kind)
  resume_action-Keeps args ActionType.payment = search (quiet, resume_payment-Keeps) depth 30
  resume_action-Keeps args ActionType.resource = search (quiet, resume_resource-Keeps) depth 30

  pub resume_approved_action-Keeps : (ref : IdRef) → Keeps P (resume_approved_action env ref)
  unfolding resume_approved_action
  resume_approved_action-Keeps ref =
      search (quiet, prepare_resumption-Keeps, resume_action-Keeps) depth 30
