-- ===== src/Stores/AmnFile.antt =====
-- backend/amn/file-store.ts (`JsonFileAmnStore`): what the snapshot of its file holds.
use agent_financial_action_l.Base.{List, Option}
use agent_financial_action_l.Types.{IdRef}
use agent_financial_action_l.Types.Amn.{
  Mandate, AuthorizationDecision, ChallengeRecord, ApprovalContext, ApprovalResult, ApprovalSession,
}
use agent_financial_action_l.Stores.File.{find_entry, put_entry}

pub record AmnSnapshot : Type 0 where
  pub mandates : List Mandate
  pub decisions : List AuthorizationDecision
  pub challenges : List ChallengeRecord
  pub approval_contexts : List ApprovalContext
  pub approval_results : List ApprovalResult
  pub approval_sessions : List ApprovalSession

unfoldable pub get_mandate : IdRef → AmnSnapshot → Option Mandate
unfolding find_entry
get_mandate ref s = find_entry (λ (v : Mandate). v.mandate_id) ref s.mandates

unfoldable pub put_mandate : Mandate → AmnSnapshot → AmnSnapshot
unfolding put_entry
put_mandate v s = record s { mandates = put_entry (λ (w : Mandate). w.mandate_id) v s.mandates }

abbrev pub list_mandates : AmnSnapshot → List Mandate
list_mandates s = s.mandates

unfoldable pub get_decision : IdRef → AmnSnapshot → Option AuthorizationDecision
unfolding find_entry
get_decision ref s = find_entry (λ (v : AuthorizationDecision). v.decision_id) ref s.decisions

unfoldable pub put_decision : AuthorizationDecision → AmnSnapshot → AmnSnapshot
unfolding put_entry
put_decision v s = record s {
  decisions = put_entry (λ (w : AuthorizationDecision). w.decision_id) v s.decisions;
}

abbrev pub list_decisions : AmnSnapshot → List AuthorizationDecision
list_decisions s = s.decisions

unfoldable pub get_challenge : IdRef → AmnSnapshot → Option ChallengeRecord
unfolding find_entry
get_challenge ref s = find_entry (λ (v : ChallengeRecord). v.challenge_id) ref s.challenges

unfoldable pub put_challenge : ChallengeRecord → AmnSnapshot → AmnSnapshot
unfolding put_entry
put_challenge v s = record s {
  challenges = put_entry (λ (w : ChallengeRecord). w.challenge_id) v s.challenges;
}

abbrev pub list_challenges : AmnSnapshot → List ChallengeRecord
list_challenges s = s.challenges

unfoldable pub get_approval_context : IdRef → AmnSnapshot → Option ApprovalContext
unfolding find_entry
get_approval_context ref s =
    find_entry (λ (v : ApprovalContext). v.approval_context_id) ref s.approval_contexts

unfoldable pub put_approval_context : ApprovalContext → AmnSnapshot → AmnSnapshot
unfolding put_entry
put_approval_context v s = record s {
  approval_contexts =
      put_entry (λ (w : ApprovalContext). w.approval_context_id) v s.approval_contexts;
}

abbrev pub list_approval_contexts : AmnSnapshot → List ApprovalContext
list_approval_contexts s = s.approval_contexts

unfoldable pub get_approval_result : IdRef → AmnSnapshot → Option ApprovalResult
unfolding find_entry
get_approval_result ref s =
    find_entry (λ (v : ApprovalResult). v.approval_result_id) ref s.approval_results

unfoldable pub put_approval_result : ApprovalResult → AmnSnapshot → AmnSnapshot
unfolding put_entry
put_approval_result v s = record s {
  approval_results = put_entry (λ (w : ApprovalResult). w.approval_result_id) v s.approval_results;
}

abbrev pub list_approval_results : AmnSnapshot → List ApprovalResult
list_approval_results s = s.approval_results

unfoldable pub get_approval_session : IdRef → AmnSnapshot → Option ApprovalSession
unfolding find_entry
get_approval_session ref s =
    find_entry (λ (v : ApprovalSession). v.approval_session_id) ref s.approval_sessions

unfoldable pub put_approval_session : ApprovalSession → AmnSnapshot → AmnSnapshot
unfolding put_entry
put_approval_session v s = record s {
  approval_sessions =
      put_entry (λ (w : ApprovalSession). w.approval_session_id) v s.approval_sessions;
}

abbrev pub list_approval_sessions : AmnSnapshot → List ApprovalSession
list_approval_sessions s = s.approval_sessions
