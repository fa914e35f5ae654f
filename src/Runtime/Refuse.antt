-- ===== src/Runtime/Refuse.antt =====
-- What a refused answer does to the payment that waits for it.
use agent_financial_action_l.Base.Action.{assert_found}
use agent_financial_action_l.State.{mark_payment_challenge, mark_pending_execution}
use agent_financial_action_l.Ats.Monetary.{release_monetary_reservation}
use agent_financial_action_l.Runtime.Approval.{apply_result, refuse_pending, close_refused}
use agent_financial_action_l.Amn.{is_approved}
use agent_financial_action_l.Base.Map.{lookup, lookup-insert_self}
use agent_financial_action_l.Types.Ats.{
  MonetaryReservation, MonetaryBudget, is_reserved, ReservationStatus,
}
use agent_financial_action_l.Types.Afal.{
  PendingApprovalExecution, ActionType, PendingApprovalExecutionStatus,
}
use agent_financial_action_l.Types.Amn.{
  ApprovalSession, ChallengeRecord, ApprovalResult, AuthorizationDecision,
}
use agent_financial_action_l.Amn.{resume_authorization_session}
use agent_financial_action_l.Base.{
  ◌∙◌, sym, ap, ◌≡◌, inl, inr, some, none, true, false, Option-cases, refl,
}
use agent_financial_action_l.Runtime.{Environment, AfalState, IdRef, PaymentIntent}
use agent_financial_action_l.Amn.Apply.{recorded, refusal_ends, apply_exact}

module _ (env : Environment) (s : AfalState) (ref : IdRef) (session : ApprovalSession)
    (challenge : ChallengeRecord) (result : ApprovalResult) (prior : AuthorizationDecision)
    (pending : PendingApprovalExecution) (intent : PaymentIntent) (reservation_ref : IdRef)
    (r : MonetaryReservation) (b : MonetaryBudget) (keyed : session.approval_session_id ≡ ref)
    (challenge_keyed : challenge.challenge_id ≡ session.challenge_ref)
    (session_eq : lookup ref s.amn.approval_sessions ≡ some session)
    (challenge_eq : lookup session.challenge_ref s.amn.challenges ≡ some challenge)
    (undecided : session.final_decision_ref ≡ none)
    (prior_eq : lookup session.prior_decision_ref s.amn.decisions ≡ some prior)
    (refused : is_approved result.result ≡ false)
    (pending_eq : lookup ref s.intents.pending_executions ≡ some pending)
    (pending_keyed : pending.approval_session_ref ≡ ref)
    (is_payment : pending.action_type ≡ ActionType.payment)
    (reserved : pending.reservation_ref ≡ some reservation_ref)
    (intent_eq : lookup pending.action_ref s.intents.payment_intents ≡ some intent)
    (intent_keyed : intent.intent_id ≡ pending.action_ref)
    (reservation_eq : lookup reservation_ref s.ats.monetary_reservations ≡ some r)
    (reservation_keyed : r.reservation_id ≡ reservation_ref)
    (open_status : is_reserved r.status ≡ true)
    (budget_eq : lookup r.budget_ref s.ats.monetary_budgets ≡ some b) where
  abbrev answer : ApprovalResult
  answer =
      recorded env.amn_templates s.amn ref session challenge result keyed challenge_keyed session_eq
        challenge_eq

  answer_refused : is_approved answer.result ≡ false
  answer_refused =
      elim (Option-cases (lookup session.action_ref env.amn_templates.approval_results)) [
        | inl missing ↦ rw missing refused
        | inr (template, found) ↦ rw found refused
      ]

  -- A pending payment gets an answer that is not an approval, for a session without a final
  -- decision: then its open reservation is released at the time of the answer, and its pending
  -- execution is marked released.
  pub refused_payment_is_released :
      ((r' : MonetaryReservation) × (lookup reservation_ref
            (apply_result env ref result s).1.ats.monetary_reservations
          ≡ some r')
        × (r'.status ≡ ReservationStatus.released)
        × (r'.released_at ≡ some answer.decided_at))
      × ((pending' : PendingApprovalExecution) × (lookup ref
              (apply_result env ref result s).1.intents.pending_executions
            ≡ some pending')
          × (pending'.status ≡ PendingApprovalExecutionStatus.released))
  unfolding apply_result refuse_pending close_refused release_monetary_reservation
      mark_payment_challenge mark_pending_execution
  refused_payment_is_released =
      let stored =
        apply_exact env.amn_templates s.amn ref session challenge result keyed challenge_keyed
          session_eq challenge_eq in
      let ended =
        refusal_ends env.amn_templates s.amn ref session challenge result keyed challenge_keyed
          session_eq challenge_eq prior undecided prior_eq refused in
      let resumed =
        sym (ap (λ x. resume_authorization_session env.amn_templates ref x.1) stored) ∙ ended.0 in
      rw
        (
          stored, answer_refused, pending_eq, assert_found, resumed, is_payment, intent_eq,
          reserved, reservation_eq, open_status, budget_eq, reservation_keyed, intent_keyed,
          intent_eq, pending_eq, pending_keyed,
        )
        ((_, lookup-insert_self _ _ _, refl, refl), (_, lookup-insert_self _ _ _, refl))
