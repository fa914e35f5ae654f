-- ===== src/Runtime/Bypass.antt =====
-- A payment whose reservation was released goes through, and is not counted.
use agent_financial_action_l.Runtime.Unreserved.{pay_closed}
use agent_financial_action_l.Base.Map.{lookup}
use agent_financial_action_l.Types.Ats.{MonetaryReservation, is_reserved}
use agent_financial_action_l.State.{mark_pending_execution}
use agent_financial_action_l.Base.Action.{err, Result-cases, throw, assert_found}
use agent_financial_action_l.Types.Afal.{SettlementRecord, approval, PendingApprovalExecutionStatus}
use agent_financial_action_l.Types.Amn.{ApprovalResult}
use agent_financial_action_l.Runtime.Pay.{
  execute_or_release, pay, resume_approved_payment_action, continue_payment,
}
use agent_financial_action_l.Settlement.{Call, execute_payment, execute_payment_call}
use agent_financial_action_l.Runtime.Resume.{
  Resumption, release_payment, ended_mark, settled_refs, is_result_approved,
}
use agent_financial_action_l.Runtime.{
  Environment, IdRef, PaymentIntent, Error, AfalState, on_intents,
}
use agent_financial_action_l.Outputs.{create_approval_receipt, OutputTemplates, OutputStore}
use agent_financial_action_l.Base.{
  List, ◌≡◌, refl, true, false, some, none, inl, inr, arith, ◌∷◌, ◌≢◌, Option, Option-cases, ◌==◌,
}
use agent_financial_action_l.Base.Action.{◌>>◌}
use agent_financial_action_l.Runtime.Calls.{Keeps}
use agent_financial_action_l.Runtime.Quiet.{quiet_parts, record_payment-Keeps}

pub receipt_returns :
    (templates : OutputTemplates) (ref : IdRef) (decision : Option IdRef) (result : ApprovalResult)
    (o : OutputStore) (e : Error)
    → (create_approval_receipt templates ref decision result o).0 ≢ err e
unfolding create_approval_receipt
receipt_returns templates ref decision result o e =
    elim (Option-cases (templates.receipts approval ref)) [
      | inl missing ↦ rw missing (ground arith)
      | inr (r, found) ↦ rw found (ground arith)
    ]

module _ (env : Environment) (args : Resumption) (intent : PaymentIntent) where
  failed-Keeps :
      {P : List Call → Type 0} (error : Error)
      → Keeps {A = SettlementRecord} P (do
        release_payment env args.pending.reservation_ref none "settlement-failed"
        on_intents (
            mark_pending_execution
              (ended_mark args.resumed PendingApprovalExecutionStatus.failed env.now))
        throw error)
  failed-Keeps error = search quiet_parts depth 30

  executed :
      (u : AfalState)
      → (execute_or_release env args intent u).1.settlement.calls
        ≡ execute_payment_call intent args.resumed.final_decision ∷ u.settlement.calls
  unfolding execute_or_release execute_payment
  executed u =
      elim (Result-cases
        (env.adapters.execute_payment u.settlement.calls intent args.resumed.final_decision)) [
          | inl (r, answered) ↦ rw answered refl
          | inr (e, failed) ↦ rw failed (
              (failed-Keeps
                  {P = λ c.
                    c
                    ≡ execute_payment_call intent args.resumed.final_decision ∷ u.settlement.calls}
                  e).keep
                (record u {
                  settlement = record (u.settlement) {
                    calls =
                        execute_payment_call intent args.resumed.final_decision
                        ∷ u.settlement.calls;
                  };
                })
                refl)
        ]

  pay_calls :
      (t : AfalState)
      → (pay env args intent t).1.settlement.calls
        ≡ execute_payment_call intent args.resumed.final_decision ∷ t.settlement.calls
  unfolding pay
  pay_calls t =
      elim (Result-cases
        (create_approval_receipt env.output_templates intent.intent_id
          (some args.resumed.final_decision.decision_id) args.resumed.approval_result
          t.outputs).0) [
            | inr (e, thrown) ↦ absurd (
                receipt_returns env.output_templates intent.intent_id
                  (some args.resumed.final_decision.decision_id) args.resumed.approval_result
                  t.outputs e thrown)
            | inl (receipt, returned) ↦
                let u = record t {
                  outputs =
                      (create_approval_receipt env.output_templates intent.intent_id
                        (some args.resumed.final_decision.decision_id) args.resumed.approval_result
                        t.outputs).1;
                } in
                elim (Result-cases (execute_or_release env args intent u).0) [
                  | inr (e, failed) ↦ rw (returned, failed) (executed u)
                  | inl (settlement, done) ↦
                      rw (returned, done)
                        ((record_payment-Keeps
                            {P = λ c.
                              c
                              ≡ execute_payment_call intent args.resumed.final_decision
                                ∷ t.settlement.calls}
                            env args intent receipt settlement).keep
                          (execute_or_release env args intent u).1 (executed u))
                ]
          ]

-- An approved payment that is not settled yet, and whose reservation was settled or released, is
-- paid all the same: the rail is called once, and whatever it answers, budgets, reservations and
-- accounts stay as they were, so that the amount is counted nowhere.
pub closed_reservation_is_paid :
    (env : Environment) (args : Resumption) (intent : PaymentIntent) (ref : IdRef)
    (r : MonetaryReservation) (t : AfalState)
    → (args.pending.action_ref == env.payment_fixtures.intent_id) ≡ true
    → lookup args.pending.action_ref t.intents.payment_intents ≡ some intent
    → settled_refs intent ≡ none
    → is_result_approved args.resumed.final_decision.result ≡ true
    → args.pending.reservation_ref ≡ some ref
    → lookup ref t.ats.monetary_reservations ≡ some r
    → is_reserved r.status ≡ false
    → ((resume_approved_payment_action env args t).1.settlement.calls
        ≡ execute_payment_call intent args.resumed.final_decision ∷ t.settlement.calls)
      × ((resume_approved_payment_action env args t).1.ats ≡ t.ats)
unfolding resume_approved_payment_action continue_payment
closed_reservation_is_paid env args intent ref r t supported known unsettled approved reserved found
      closed =
    rw (supported, known, assert_found, unsettled, approved)
      (
        pay_calls env args intent t,
        (pay_closed env args ref r t.ats reserved found closed intent).leave t refl,
      )
