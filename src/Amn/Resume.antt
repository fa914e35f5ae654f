-- ===== src/Amn/Resume.antt =====
-- `resumeAuthorizationSession` and `finalizeAuthorization`: the decision follows the approval result,
-- and resuming again changes nothing.
use agent_financial_action_l.Base.{
  ◌≡◌, some, none, false, Option, true, ◌∙◌, Option-cases, inl, inr, Bool-cases, subst, sym,
}
use agent_financial_action_l.Base.Action.{
  ok, err, assert_found, Result, unknown_action_for_finalization, unknown_decision,
}
use agent_financial_action_l.Base.Map.{lookup, insert, lookup-insert_self}
use agent_financial_action_l.Amn.{
  AmnStore, Templates, Resumed, resume_authorization_session, conclude_session,
  finalize_authorization, refused_decision, overlay_decision, overlay_of, is_approved,
  finalized_session, persisted_result, IdRef, ApprovalSession, ChallengeRecord, ApprovalResult,
  AuthorizationDecision,
}

-- What a resumption has read before it concludes.
pub record IsReady (s : AmnStore) (ref : IdRef) (session : ApprovalSession)
    (challenge : ChallengeRecord) (result : ApprovalResult) : Type 0 where
  pub keyed : session.approval_session_id ≡ ref
  pub session_eq : lookup ref s.approval_sessions ≡ some session
  pub challenge_eq : lookup session.challenge_ref s.challenges ≡ some challenge
  pub result_eq : persisted_result session.approval_result_ref s.approval_results ≡ some result

module _ (templates : Templates) (s : AmnStore) (ref : IdRef) (session : ApprovalSession)
    (challenge : ChallengeRecord) (result : ApprovalResult)
    (ready : IsReady s ref session challenge result) where
  resume-eq-conclude :
      resume_authorization_session templates ref s
      ≡ conclude_session templates session challenge result session.final_decision_ref s
  unfolding resume_authorization_session
  resume-eq-conclude = rw (ready.session_eq, assert_found, ready.challenge_eq, ready.result_eq)

  -- The decision that closes a session: the prior one refused, or the template of an approved action.
  abbrev pub outcome : AuthorizationDecision → Resumed
  outcome decision = record {
    final_decision = decision;
    approval_result = result;
    approval_session = finalized_session session decision result;
    challenge = challenge;
  }

  abbrev pub concluded : AuthorizationDecision → AmnStore
  concluded decision = record s {
    decisions = insert decision.decision_id decision s.decisions;
    approval_sessions = insert ref (finalized_session session decision result) s.approval_sessions;
  }

  resume_concluded :
      (decision : AuthorizationDecision)
      → resume_authorization_session templates ref (concluded decision)
        ≡ (ok (outcome decision), concluded decision)
  unfolding resume_authorization_session
  resume_concluded decision = rw (
    lookup-insert_self ref (finalized_session session decision result) s.approval_sessions,
    assert_found,
    ready.challenge_eq,
    ready.result_eq,
    lookup-insert_self decision.decision_id decision s.decisions,
  )

  module _ (undecided : session.final_decision_ref ≡ none) (prior : AuthorizationDecision)
      (known : lookup session.prior_decision_ref s.decisions ≡ some prior) where
    -- An answer other than an approval turns the prior decision into a refusal, and finalizes the
    -- session with it.
    pub resume_refused :
        is_approved result.result ≡ false
        → resume_authorization_session templates ref s ≡ (
          ok (outcome (refused_decision prior result)),
          concluded (refused_decision prior result),
        )
    resume_refused refused =
        resume-eq-conclude
        ∙ (unfold conclude_session finalize_authorization in
            rw (undecided, known, assert_found, refused, ready.keyed))

    -- What an approval gives: the final decision's template with the references of the prior
    -- decision, or an error that finalizes nothing where the action has no template.
    abbrev pub approved_outcome : Option AuthorizationDecision → Result Resumed × AmnStore
    approved_outcome none = (err (unknown_action_for_finalization prior.action_ref), s)
    approved_outcome (some template) =
        let decision = overlay_decision template (overlay_of prior) in
        (ok (outcome decision), concluded decision)

    -- An approval finalizes the session with the action's final decision template, overlaid with the
    -- prior decision's references; without a template it throws and writes nothing.
    pub resume_approved :
        is_approved result.result ≡ true
        → resume_authorization_session templates ref s
          ≡ approved_outcome (lookup prior.action_ref templates.final_decisions)
    resume_approved approved =
        resume-eq-conclude
        ∙ (unfold conclude_session finalize_authorization in
            rw (undecided, known, assert_found, approved)
              (elim (Option-cases (lookup prior.action_ref templates.final_decisions)) [
                | inl missing ↦ rw missing
                | inr (template, found) ↦ rw (found, ready.keyed)
              ]))

  -- A session that already has a final decision returns it, and nothing is written.
  pub resume_decided :
      (d : IdRef) (decision : AuthorizationDecision)
      → session.final_decision_ref ≡ some d
      → lookup d s.decisions ≡ some decision
      → resume_authorization_session templates ref s ≡ (
        ok (record {
          final_decision = decision;
          approval_result = result;
          approval_session = session;
          challenge = challenge;
        }),
        s,
      )
  resume_decided d decision decided known =
      resume-eq-conclude ∙ (unfold conclude_session in rw (decided, known, assert_found))

  -- A resumption that left a state which resumes to itself can be repeated.
  repeat :
      (p : Result Resumed × AmnStore) (out : Resumed) (s' : AmnStore)
      → resume_authorization_session templates ref p.1 ≡ p
      → resume_authorization_session templates ref s ≡ p
      → resume_authorization_session templates ref s ≡ (ok out, s')
      → resume_authorization_session templates ref s' ≡ (ok out, s')
  repeat p out s' stable e h =
      subst (λ r. resume_authorization_session templates ref r.1 ≡ r) (sym e ∙ h) stable

  resume_twice_undecided :
      (out : Resumed) (s' : AmnStore)
      → session.final_decision_ref ≡ none
      → resume_authorization_session templates ref s ≡ (ok out, s')
      → resume_authorization_session templates ref s' ≡ (ok out, s')
  resume_twice_undecided out s' undecided h =
      elim (Option-cases (lookup session.prior_decision_ref s.decisions)) [
        | inl missing ↦
            let e : resume_authorization_session templates ref s
                ≡ (err (unknown_decision session.prior_decision_ref), s) =
              resume-eq-conclude
              ∙ (unfold conclude_session in rw (undecided, missing, assert_found)) in
            cc
        | inr (prior, known) ↦ elim (Bool-cases (is_approved result.result)) [
          | inr refused ↦
              repeat _ out s' (resume_concluded (refused_decision prior result))
                (resume_refused undecided prior known refused) h
          | inl approved ↦ elim (Option-cases (lookup prior.action_ref templates.final_decisions)) [
            | inl missing ↦
                let e = resume_approved undecided prior known approved in cc (rw missing at e)
            | inr (template, found) ↦
                let e = resume_approved undecided prior known approved in
                repeat _ out s' (resume_concluded (overlay_decision template (overlay_of prior)))
                  (rw found at e) h
          ]
        ]
      ]

  -- Resuming a session again returns what the first resumption returned, and writes nothing more.
  pub resume_twice :
      (out : Resumed) (s' : AmnStore)
      → resume_authorization_session templates ref s ≡ (ok out, s')
      → resume_authorization_session templates ref s' ≡ (ok out, s')
  resume_twice out s' h = elim (Option-cases session.final_decision_ref) [
    | inl undecided ↦ resume_twice_undecided out s' undecided h
    | inr (d, decided) ↦ elim (Option-cases (lookup d s.decisions)) [
      | inl missing ↦
          let e : resume_authorization_session templates ref s ≡ (err (unknown_decision d), s) =
            resume-eq-conclude ∙ (unfold conclude_session in rw (decided, missing, assert_found)) in
          cc
      | inr (decision, known) ↦
          let e = resume_decided d decision decided known in repeat _ out s' e e h
    ]
  ]
