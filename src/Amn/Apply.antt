-- ===== src/Amn/Apply.antt =====
-- `applyApprovalResult`, alone and followed by a resumption.
use agent_financial_action_l.Base.{◌≡◌, refl, some, none, Option, false, ◌≢◌, arith, ap}
use agent_financial_action_l.Base.Action.{ok, assert_found}
use agent_financial_action_l.Base.Map.{lookup, insert, lookup-insert_self}
use agent_financial_action_l.Amn.{
  AmnStore, Templates, apply_approval_result, overlay_result, decided_session, challenge_state_of,
  resume_authorization_session, refused_decision, is_approved, finalized_session, IdRef,
  ApprovalSession, ChallengeRecord, ApprovalResult, ApprovalOutcome, AuthorizationDecision, refusal,
  AuthorizationResult,
}
use agent_financial_action_l.Amn.Resume.{IsReady, resume_refused, resume_decided, concluded}

refusal-ne-approved : (o : ApprovalOutcome) → refusal o ≢ AuthorizationResult.approved
refusal-ne-approved ApprovalOutcome.expired = ground arith
refusal-ne-approved _ = ground arith

result-recorded :
    (o : Option ApprovalResult) (r : ApprovalResult) → (overlay_result o r).result ≡ r.result
result-recorded none r = refl
result-recorded (some template) r = refl

module _ (templates : Templates) (s : AmnStore) (ref : IdRef) (session : ApprovalSession)
    (challenge : ChallengeRecord) (result : ApprovalResult)
    (keyed : session.approval_session_id ≡ ref)
    (challenge_keyed : challenge.challenge_id ≡ session.challenge_ref)
    (session_eq : lookup ref s.approval_sessions ≡ some session)
    (challenge_eq : lookup session.challenge_ref s.challenges ≡ some challenge) where
  -- The result as it is recorded: bound to the session's challenge and action.
  abbrev pub recorded : ApprovalResult
  recorded =
      overlay_result (lookup session.action_ref templates.approval_results)
        (record result { challenge_ref = session.challenge_ref; action_ref = session.action_ref })

  abbrev pub answered : ChallengeRecord
  answered = record challenge {
    state = challenge_state_of recorded.result;
    updated_at = recorded.decided_at;
  }

  -- The store after a result.
  abbrev pub applied : AmnStore
  applied = record s {
    approval_results = insert recorded.approval_result_id recorded s.approval_results;
    challenges = insert session.challenge_ref answered s.challenges;
    approval_sessions = insert ref (decided_session session recorded) s.approval_sessions;
  }

  -- A result is accepted for any known session with a known challenge, whatever their states.
  pub apply_exact :
      apply_approval_result templates ref result s
      ≡ (ok (recorded, decided_session session recorded, answered), applied)
  unfolding apply_approval_result
  apply_exact = rw (session_eq, assert_found, challenge_eq, challenge_keyed, keyed)

  -- After a result, the session can be resumed with it.
  pub applied-IsReady : IsReady applied ref (decided_session session recorded) answered recorded
  applied-IsReady = record {
    keyed = keyed;
    session_eq = lookup-insert_self ref (decided_session session recorded) s.approval_sessions;
    challenge_eq = lookup-insert_self session.challenge_ref answered s.challenges;
    result_eq = lookup-insert_self recorded.approval_result_id recorded s.approval_results;
  }

  -- An answer other than an approval, recorded and then resumed, turns the prior decision into a
  -- refusal: it expires if the answer expired and is rejected otherwise, the session is finalized
  -- with it, and the decision's other references stay.
  pub refusal_ends :
      (prior : AuthorizationDecision)
      → session.final_decision_ref ≡ none
      → lookup session.prior_decision_ref s.decisions ≡ some prior
      → is_approved result.result ≡ false
      → (resume_authorization_session templates ref (apply_approval_result templates ref result s).1
          ≡ (
            ok (record {
              final_decision = refused_decision prior recorded;
              approval_result = recorded;
              approval_session =
                  finalized_session
                    (decided_session session recorded)
                    (refused_decision prior recorded)
                    recorded;
              challenge = answered;
            }),
            concluded templates applied ref
                (decided_session session recorded)
                answered
                recorded
                applied-IsReady
                (refused_decision prior recorded),
          ))
        × ((refused_decision prior recorded).result ≡ refusal result.result)
        × (refusal result.result ≢ AuthorizationResult.approved)
  refusal_ends prior undecided known refused =
      let same =
        result-recorded (lookup session.action_ref templates.approval_results) (record result {
          challenge_ref = session.challenge_ref;
          action_ref = session.action_ref;
        }) in
      (
        rw apply_exact (
            resume_refused templates applied ref (decided_session session recorded) answered
              recorded applied-IsReady undecided prior known (rw same refused)),
        ap refusal same,
        refusal-ne-approved result.result,
      )

  -- A result that comes after the final decision is accepted too: the session then shows the new
  -- answer, while resuming still returns the old decision.
  pub late_result_accepted :
      (d : IdRef) (decision : AuthorizationDecision)
      → session.final_decision_ref ≡ some d
      → lookup d s.decisions ≡ some decision
      → resume_authorization_session templates ref (apply_approval_result templates ref result s).1
        ≡ (
          ok (record {
            final_decision = decision;
            approval_result = recorded;
            approval_session = decided_session session recorded;
            challenge = answered;
          }),
          applied,
        )
  late_result_accepted d decision decided known = rw apply_exact (
      resume_decided templates applied ref (decided_session session recorded) answered recorded
        applied-IsReady d decision decided known)
