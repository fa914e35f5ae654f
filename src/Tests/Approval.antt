-- ===== src/Tests/Approval.antt =====
-- A payment that waits for approval, its session answered or not, and finalized.
use agent_financial_action_l.Base.{◌≡◌, refl, none, some, [], ◌∷◌, true, ◌≢◌}
use agent_financial_action_l.Base.Map.{lookup}
use agent_financial_action_l.Base.Action.{ok}
use agent_financial_action_l.Types.{AuthorizationResult, ChallengeState}
use agent_financial_action_l.Types.Amn.{
  ApprovalSession, ApprovalOutcome, ApprovalSessionStatus, AuthorizationDecision, ChallengeRecord,
  ApprovalContext, ApprovalResult,
}
use agent_financial_action_l.Amn.{
  AmnStore, Templates, resume_authorization_session, apply_approval_result, ContextOverrides,
  create_approval_request, refused_decision, Resumed, decided_session, finalized_session,
}
use agent_financial_action_l.Amn.Resume.{
  IsReady, resume_refused, resume_approved, resume_twice, outcome, concluded,
}
use agent_financial_action_l.Amn.Apply.{
  recorded, answered, applied, refusal_ends, late_result_accepted, applied-IsReady,
}
use agent_financial_action_l.Amn.Request.{request-Pends, Pends}

abbrev pub prior : AuthorizationDecision
prior = record {
  decision_id = "dec-1";
  action_ref = "act-1";
  action_type = "payment";
  subject_did = "did:afal:agent:1";
  mandate_ref = "mnd-1";
  policy_ref = none;
  account_ref = some "acc-1";
  result = AuthorizationResult.challenge_required;
  challenge_state = ChallengeState.required;
  reason_code = none;
  evaluated_at = "t0";
  expires_at = none;
  audit_ref = none;
}

abbrev pub final_template : AuthorizationDecision
final_template = record prior {
  decision_id = "dec-2";
  result = AuthorizationResult.approved;
  challenge_state = ChallengeState.approved;
}

abbrev pub challenge : ChallengeRecord
challenge = record {
  challenge_id = "chl-1";
  action_ref = "act-1";
  action_type = "payment";
  subject_did = "did:afal:agent:1";
  mandate_ref = some "mnd-1";
  policy_ref = none;
  state = ChallengeState.pending_approval;
  reason_code = "limit";
  risk_signals = [];
  trusted_surface_ref = "surface-1";
  approval_context_ref = some "ctx-1";
  created_at = "t0";
  updated_at = "t0";
  expires_at = none;
}

abbrev pub context : ApprovalContext
context = record {
  approval_context_id = "ctx-1";
  challenge_ref = "chl-1";
  action_ref = "act-1";
  action_type = "payment";
  headline = "Pay";
  summary = "Pay the provider";
  subject_did = "did:afal:agent:1";
  human_visible_fields = [];
  created_at = "t0";
}

abbrev pub result : ApprovalResult
result = record {
  approval_result_id = "apr-1";
  challenge_ref = "chl-1";
  action_ref = "act-1";
  result = ApprovalOutcome.approved;
  approved_by = "did:afal:owner:1";
  approval_channel = "web";
  step_up_auth_used = true;
  comment = none;
  approval_receipt_ref = none;
  decided_at = "t1";
}

abbrev pub rejection : ApprovalResult
rejection = record result { approval_result_id = "apr-2"; result = ApprovalOutcome.rejected }

abbrev pub session : ApprovalSession
session = record {
  approval_session_id = "aps-chl-1";
  action_ref = "act-1";
  action_type = "payment";
  subject_did = "did:afal:agent:1";
  mandate_ref = some "mnd-1";
  policy_ref = none;
  prior_decision_ref = "dec-1";
  challenge_ref = "chl-1";
  approval_context_ref = "ctx-1";
  approval_result_ref = none;
  final_decision_ref = none;
  trusted_surface_ref = "surface-1";
  status = ApprovalSessionStatus.pending;
  created_at = "t0";
  updated_at = "t0";
  expires_at = none;
}

-- The session with an approval, with a rejection, and finalized.
abbrev pub approved_session : ApprovalSession
approved_session = record session {
  approval_result_ref = some "apr-1";
  status = ApprovalSessionStatus.approved;
}

abbrev rejected_session : ApprovalSession
rejected_session = record session {
  approval_result_ref = some "apr-2";
  status = ApprovalSessionStatus.rejected;
}

abbrev pub final_session : ApprovalSession
final_session = record approved_session {
  final_decision_ref = some "dec-2";
  status = ApprovalSessionStatus.finalized;
}

abbrev pub templates : Templates
templates = record {
  initial_decisions = ("act-1", prior) ∷ [];
  final_decisions = ("act-1", final_template) ∷ [];
  challenges = ("act-1", challenge) ∷ [];
  approval_contexts = ("act-1", context) ∷ [];
  approval_results = [];
}

abbrev pub store_with : ApprovalSession → AmnStore
store_with session = record {
  mandates = [];
  decisions = ("dec-1", prior) ∷ ("dec-2", final_template) ∷ [];
  challenges = ("chl-1", challenge) ∷ [];
  approval_contexts = ("ctx-1", context) ∷ [];
  approval_results = ("apr-1", result) ∷ ("apr-2", rejection) ∷ [];
  approval_sessions = ("aps-chl-1", session) ∷ [];
}

in-store : (a : ApprovalSession) → lookup "aps-chl-1" (store_with a).approval_sessions ≡ some a
unfolding lookup
in-store a = refl

challenge-store : (a : ApprovalSession) → lookup "chl-1" (store_with a).challenges ≡ some challenge
unfolding lookup
challenge-store a = refl

prior-store : (a : ApprovalSession) → lookup "dec-1" (store_with a).decisions ≡ some prior
unfolding lookup
prior-store a = refl

final-store : (a : ApprovalSession) → lookup "dec-2" (store_with a).decisions ≡ some final_template
unfolding lookup
final-store a = refl

approved-IsReady :
    IsReady (store_with approved_session) "aps-chl-1" approved_session challenge result
unfolding lookup
approved-IsReady = record { keyed = refl; session_eq = refl; challenge_eq = refl; result_eq = refl }

rejected-IsReady :
    IsReady (store_with rejected_session) "aps-chl-1" rejected_session challenge rejection
unfolding lookup
rejected-IsReady = record { keyed = refl; session_eq = refl; challenge_eq = refl; result_eq = refl }

resume_refused_example :
    resume_authorization_session templates "aps-chl-1" (store_with rejected_session) ≡ (
      ok (
          outcome templates
            (store_with rejected_session)
            "aps-chl-1"
            rejected_session
            challenge
            rejection
            rejected-IsReady
            (refused_decision prior rejection)),
      concluded templates
          (store_with rejected_session)
          "aps-chl-1"
          rejected_session
          challenge
          rejection
          rejected-IsReady
          (refused_decision prior rejection),
    )
resume_refused_example =
    resume_refused templates (store_with rejected_session) "aps-chl-1" rejected_session challenge
      rejection rejected-IsReady refl prior (prior-store rejected_session) refl

abbrev approved_outcome : Resumed
approved_outcome =
    outcome templates (store_with approved_session) "aps-chl-1" approved_session challenge result
      approved-IsReady final_template

abbrev approved_store : AmnStore
approved_store =
    concluded templates (store_with approved_session) "aps-chl-1" approved_session challenge result
      approved-IsReady final_template

resume_approved_example :
    resume_authorization_session templates "aps-chl-1" (store_with approved_session)
    ≡ (ok approved_outcome, approved_store)
unfolding lookup
resume_approved_example =
    resume_approved templates (store_with approved_session) "aps-chl-1" approved_session challenge
      result approved-IsReady refl prior (prior-store approved_session) refl

resume_twice_example :
    resume_authorization_session templates "aps-chl-1" approved_store
    ≡ (ok approved_outcome, approved_store)
resume_twice_example =
    resume_twice templates (store_with approved_session) "aps-chl-1" approved_session challenge
      result approved-IsReady approved_outcome approved_store resume_approved_example

-- The rejection as it is recorded, its challenge, and the store, for a session of the store.
module _ (a : ApprovalSession) (keyed : a.approval_session_id ≡ "aps-chl-1")
    (challenged : "chl-1" ≡ a.challenge_ref)
    (known : lookup a.challenge_ref (store_with a).challenges ≡ some challenge) where
  abbrev late : ApprovalResult
  late =
      recorded templates (store_with a) "aps-chl-1" a challenge rejection keyed challenged
        (in-store a) known

  abbrev late_challenge : ChallengeRecord
  late_challenge =
      answered templates (store_with a) "aps-chl-1" a challenge rejection keyed challenged
        (in-store a) known

  abbrev late_store : AmnStore
  late_store =
      applied templates (store_with a) "aps-chl-1" a challenge rejection keyed challenged
        (in-store a) known

late_result_accepted_example :
    resume_authorization_session templates "aps-chl-1"
      (apply_approval_result templates "aps-chl-1" rejection (store_with final_session)).1
    ≡ (
      ok (record {
        final_decision = final_template;
        approval_result = late final_session refl refl (challenge-store final_session);
        approval_session =
            decided_session final_session
              (late final_session refl refl (challenge-store final_session));
        challenge = late_challenge final_session refl refl (challenge-store final_session);
      }),
      late_store final_session refl refl (challenge-store final_session),
    )
late_result_accepted_example =
    late_result_accepted templates (store_with final_session) "aps-chl-1" final_session challenge
      rejection refl refl (in-store final_session) (challenge-store final_session) "dec-2"
      final_template refl (final-store final_session)

abbrev refusing : AuthorizationDecision
refusing = refused_decision prior (late session refl refl (challenge-store session))

abbrev refused_session : ApprovalSession
refused_session = decided_session session (late session refl refl (challenge-store session))

refusal_ends_example :
    (resume_authorization_session templates "aps-chl-1"
        (apply_approval_result templates "aps-chl-1" rejection (store_with session)).1
      ≡ (
        ok (record {
          final_decision = refusing;
          approval_result = late session refl refl (challenge-store session);
          approval_session =
              finalized_session refused_session refusing
                (late session refl refl (challenge-store session));
          challenge = late_challenge session refl refl (challenge-store session);
        }),
        concluded templates
            (late_store session refl refl (challenge-store session))
            "aps-chl-1"
            refused_session
            (late_challenge session refl refl (challenge-store session))
            (late session refl refl (challenge-store session))
            (applied-IsReady templates
              (store_with session)
              "aps-chl-1"
              session
              challenge
              rejection
              refl
              refl
              (in-store session)
              (challenge-store session))
            refusing,
      ))
    × (refusing.result ≡ AuthorizationResult.rejected)
    × (AuthorizationResult.rejected ≢ AuthorizationResult.approved)
refusal_ends_example =
    refusal_ends templates (store_with session) "aps-chl-1" session challenge rejection refl refl
      (in-store session) (challenge-store session) prior refl (prior-store session) refl

abbrev overrides : ContextOverrides
overrides = record { headline = some "Approve"; summary = none; human_visible_fields = none }

request-Pends_example :
    Pends templates prior
      (store_with session)
      (create_approval_request templates prior overrides (store_with session))
request-Pends_example = request-Pends templates prior overrides (store_with session)
