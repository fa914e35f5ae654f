-- ===== src/Runtime/BestEffort.antt =====
-- The notification port has no say in whether an action succeeds.
use agent_financial_action_l.Base.Map.{lookup}
use agent_financial_action_l.Base.Action.{Result-cases, assert_found}
use agent_financial_action_l.Outputs.{create_approval_receipt}
use agent_financial_action_l.Types.Afal.{ActionReceipt, SettlementRecord}
use agent_financial_action_l.Runtime.Resume.{
  Resumption, return_settled, refuse_payment, is_result_approved, settled_refs,
}
use agent_financial_action_l.Runtime.Pay.{
  record_payment, dispatch_payment_settlement_notification, settle_budget, pay, continue_payment,
  resume_approved_payment_action, execute_or_release,
}
use agent_financial_action_l.Base.{
  none, ◌≡◌, arith, Bool-cases, ◌==◌, some, Option, inr, inl, Option-cases, refl,
}
use agent_financial_action_l.Runtime.{
  Environment, NotificationPort, PaymentIntent, AfalState, IdRef,
}

-- The same environment with another port.
abbrev pub with_port : Environment → NotificationPort → Environment
with_port env port = record env { notifications = port }

record_payment-port :
    (env : Environment) (p q : NotificationPort) (args : Resumption) (intent : PaymentIntent)
    (receipt : ActionReceipt) (settlement : SettlementRecord) (u : AfalState)
    → (record_payment (with_port env p) args intent receipt settlement u).0
      ≡ (record_payment (with_port env q) args intent receipt settlement u).0
unfolding record_payment dispatch_payment_settlement_notification settle_budget
record_payment-port env p q args intent receipt settlement u = ground arith

module _ (env : Environment) (p q : NotificationPort) (args : Resumption) where
  pay-port :
      (intent : PaymentIntent) (t : AfalState)
      → (pay (with_port env p) args intent t).0 ≡ (pay (with_port env q) args intent t).0
  unfolding pay execute_or_release
  pay-port intent t =
      let receipt =
        create_approval_receipt env.output_templates intent.intent_id
          (some args.resumed.final_decision.decision_id) args.resumed.approval_result t.outputs in
      elim (Result-cases receipt.0) [
        | inr (e, thrown) ↦ rw thrown refl
        | inl (approval, returned) ↦
            let paid = execute_or_release env args intent (record t { outputs = receipt.1 }) in
            elim (Result-cases paid.0) [
              | inr (e, failed) ↦ rw (returned, failed) refl
              | inl (settlement, done) ↦
                  rw (returned, done)
                    (record_payment-port env p q args intent approval settlement paid.1)
            ]
      ]

  continue-port :
      (intent : PaymentIntent) (o : Option (IdRef × IdRef)) (t : AfalState)
      → (continue_payment (with_port env p) args intent o t).0
        ≡ (continue_payment (with_port env q) args intent o t).0
  unfolding continue_payment return_settled refuse_payment
  continue-port intent (some refs) t = refl
  continue-port intent none t =
      elim (Bool-cases (is_result_approved args.resumed.final_decision.result)) [
        | inl approved ↦ rw approved (pay-port intent t)
        | inr refused ↦ rw refused refl
      ]

  -- What a resumed payment returns or throws does not depend on the notification port: one that
  -- fails, or does nothing, changes no answer.
  pub notifications_are_best_effort :
      (t : AfalState)
      → (resume_approved_payment_action (with_port env p) args t).0
        ≡ (resume_approved_payment_action (with_port env q) args t).0
  unfolding resume_approved_payment_action
  notifications_are_best_effort t =
      elim (Bool-cases (args.pending.action_ref == env.payment_fixtures.intent_id)) [
        | inr other ↦ rw other refl
        | inl supported ↦
            elim (Option-cases (lookup args.pending.action_ref t.intents.payment_intents)) [
              | inl missing ↦ rw (supported, missing, assert_found) refl
              | inr (intent, found) ↦
                  rw (supported, found, assert_found) (continue-port intent (settled_refs intent) t)
            ]
      ]
