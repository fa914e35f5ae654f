-- ===== src/Runtime/Settled.antt =====
-- A payment that was settled is not paid again.
use agent_financial_action_l.Runtime.Quiet.{prepare_resumption-Keeps, return_settled-Keeps}
use agent_financial_action_l.Runtime.Pay.{resume_approved_payment_action, continue_payment}
use agent_financial_action_l.Settlement.{Call}
use agent_financial_action_l.Base.Action.{ok, assert_found, Result-cases}
use agent_financial_action_l.Runtime.Resume.{Resumption, settled_refs}
use agent_financial_action_l.Base.Map.{lookup}
use agent_financial_action_l.Types.Afal.{PendingApprovalExecution, ActionType}
use agent_financial_action_l.Runtime.{Environment, IdRef, AfalState, PaymentIntent}
use agent_financial_action_l.Runtime.Approval.{
  prepare_resumption, resume_approved_action, resume_action,
}
use agent_financial_action_l.Base.{◌≡◌, some, arith, List, Bool-cases, inr, ◌==◌, inl, refl}

-- What `resumeApprovedAction` has read: the pending execution, and nothing written to the intents.
prepared :
    (env : Environment) (ref : IdRef) (s : AfalState) (pending : PendingApprovalExecution)
    → lookup ref s.intents.pending_executions ≡ some pending
    → ((prepare_resumption env ref s).1.intents ≡ s.intents)
      × ((args : Resumption) → (prepare_resumption env ref s).0 ≡ ok args → args.pending ≡ pending)
unfolding prepare_resumption
prepared env ref s pending found = rw (found, assert_found) (ground arith)

module _ (P : List Call → Type 0) (env : Environment) (intent : PaymentIntent)
    (settlement_ref receipt_ref : IdRef)
    (settled : settled_refs intent ≡ some (settlement_ref, receipt_ref)) where
  resumed_settled :
      (args : Resumption) (t : AfalState)
      → lookup args.pending.action_ref t.intents.payment_intents ≡ some intent
      → P t.settlement.calls
      → P (resume_approved_payment_action env args t).1.settlement.calls
  unfolding resume_approved_payment_action continue_payment
  resumed_settled args t found h =
      elim (Bool-cases (args.pending.action_ref == env.payment_fixtures.intent_id)) [
        | inr other ↦ rw other h
        | inl known ↦
            rw (known, found, assert_found, settled)
              ((return_settled-Keeps {P = P} env args intent settlement_ref receipt_ref).keep t h)
      ]

  resumed_action :
      (args : Resumption) (kind : ActionType) (t : AfalState)
      → kind ≡ ActionType.payment
      → lookup args.pending.action_ref t.intents.payment_intents ≡ some intent
      → P t.settlement.calls
      → P (resume_action env args kind t).1.settlement.calls
  resumed_action args ActionType.resource t is_payment found h = absurd (ground (arith, is_payment))
  resumed_action args ActionType.payment t is_payment found h =
      let done = resumed_settled args t found h in
      elim (Result-cases (resume_approved_payment_action env args t).0) [
        | inl (output, returned) ↦ rw returned done
        | inr (e, thrown) ↦ rw thrown done
      ]

-- Resuming the action of a payment that is settled, its settlement and receipt recorded, calls
-- neither the payment rail nor the provider again.
pub settled_calls_nothing :
    (env : Environment) (ref : IdRef) (s : AfalState) (pending : PendingApprovalExecution)
    (intent : PaymentIntent) (settlement_ref receipt_ref : IdRef)
    → lookup ref s.intents.pending_executions ≡ some pending
    → pending.action_type ≡ ActionType.payment
    → lookup pending.action_ref s.intents.payment_intents ≡ some intent
    → settled_refs intent ≡ some (settlement_ref, receipt_ref)
    → (resume_approved_action env ref s).1.settlement.calls ≡ s.settlement.calls
unfolding resume_approved_action
settled_calls_nothing env ref s pending intent settlement_ref receipt_ref found is_payment known
      settled =
    let before = prepared env ref s pending found in
    let unchanged =
      (prepare_resumption-Keeps {P = λ c. c ≡ s.settlement.calls} env ref).keep s refl in
    elim (Result-cases (prepare_resumption env ref s).0) [
      | inr (e, thrown) ↦ rw thrown unchanged
      | inl (args, returned) ↦
          let same = before.1 args returned in
          rw returned (
            resumed_action (λ c. c ≡ s.settlement.calls) env intent settlement_ref receipt_ref
              settled args args.pending.action_type (prepare_resumption env ref s).1
              (rw same is_payment) (rw (same, before.0) known) unchanged)
    ]
