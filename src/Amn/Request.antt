-- ===== src/Amn/Request.antt =====
-- `createApprovalRequest` and what follows it.
use agent_financial_action_l.Base.{◌≡◌, refl, some, Option-cases, inl, inr}
use agent_financial_action_l.Base.Action.{ok, err, assert_found, no_approval_result, Result}
use agent_financial_action_l.Base.Map.{lookup, lookup-insert_self}
use text.Mathlib.TextLemmas.{append_cancel_left}
use agent_financial_action_l.Amn.{
  AmnStore, Templates, create_approval_request, create_approval_session_id, ContextOverrides,
  resume_authorization_session, IdRef, AuthorizationDecision, ChallengeRecord, ApprovalContext,
  ApprovalSession, ApprovalSessionStatus, ChallengeState,
}

-- Two challenges never share an approval session.
pub session_id_injective :
    (c d : IdRef) → create_approval_session_id c ≡ create_approval_session_id d → c ≡ d
unfolding create_approval_session_id
session_id_injective c d h = append_cancel_left "aps-" c d h

-- What a request leaves behind. One that returned has stored a pending session that is bound to the
-- prior decision, to a challenge awaiting approval and to its context, and that cannot be resumed
-- yet; one that threw has opened no session.
abbrev pub Pends :
    Templates
    → AuthorizationDecision
    → AmnStore
    → Result (ChallengeRecord × ApprovalContext × ApprovalSession) × AmnStore
    → Type 0
Pends templates prior s (ok (challenge, context, session), s') =
    (lookup session.approval_session_id s'.approval_sessions ≡ some session)
    × (lookup session.challenge_ref s'.challenges ≡ some challenge)
    × (lookup session.approval_context_ref s'.approval_contexts ≡ some context)
    × (session.status ≡ ApprovalSessionStatus.pending)
    × (challenge.state ≡ ChallengeState.pending_approval)
    × (session.prior_decision_ref ≡ prior.decision_id)
    × (session.approval_session_id ≡ create_approval_session_id session.challenge_ref)
    × (resume_authorization_session templates session.approval_session_id s'
        ≡ (err (no_approval_result session.approval_session_id), s'))
Pends templates prior s (err e, s') = s'.approval_sessions ≡ s.approval_sessions

-- A request that returns has stored its pending session, challenge and context, and resuming that
-- session before a result is applied throws and writes nothing. A request that throws opens none.
pub request-Pends :
    (templates : Templates) (prior : AuthorizationDecision) (overrides : ContextOverrides)
    (s : AmnStore)
    → Pends templates prior s (create_approval_request templates prior overrides s)
unfolding create_approval_request resume_authorization_session
request-Pends templates prior overrides s =
    elim (Option-cases (lookup prior.action_ref templates.challenges)) [
      | inl missing ↦ rw (missing, assert_found) refl
      | inr (t, found) ↦ elim (Option-cases (lookup prior.action_ref templates.approval_contexts)) [
        | inl missing ↦ rw (found, assert_found, missing) refl
        | inr (c, found') ↦
            rw (found, assert_found, found')
              (
                lookup-insert_self _ _ _,
                lookup-insert_self _ _ _,
                lookup-insert_self _ _ _,
                refl,
                refl,
                refl,
                refl,
                rw (lookup-insert_self, assert_found, lookup-insert_self),
              )
      ]
    ]
