-- ===== src/Runtime/Approval.antt =====
-- backend/afal/service/runtime.ts: applyApprovalResult, resumeApprovalSession, getApprovalSession
-- and resumeApprovedAction.
use agent_financial_action_l.Base.{some, if◌then◌else◌, String, none}
use agent_financial_action_l.Base.Action.{Action, pure, ◌>>=◌, ◌>>◌}
use agent_financial_action_l.Types.{IdRef}
use agent_financial_action_l.Types.Amn.{
  ApprovalSession, ApprovalResult, ApprovalOutcome, ChallengeRecord,
}
use agent_financial_action_l.Types.Afal.{
  PendingApprovalExecution, PendingApprovalExecutionStatus, ActionType,
}
use agent_financial_action_l.Amn.{
  Resumed, apply_approval_result, resume_authorization_session, get_approval_session, get_decision,
  get_approval_context, is_approved,
}
use agent_financial_action_l.State.{
  PendingMark, get_payment_intent, get_resource_intent, get_pending_execution,
  mark_payment_challenge, mark_resource_challenge, mark_pending_execution,
}
use agent_financial_action_l.Runtime.{AfalState, Environment, on_amn, on_intents}
use agent_financial_action_l.Runtime.Resume.{
  PaymentFlowOutput, Resumption, release_payment, refused_mark,
}
use agent_financial_action_l.Runtime.Pay.{resume_approved_payment_action}
use agent_financial_action_l.Runtime.Provide.{
  ResourceFlowOutput, release_capacity, resume_approved_resource_action,
}

-- The text of an answer, as a reason code.
abbrev pub outcome_text : ApprovalOutcome → String
outcome_text ApprovalOutcome.approved = "approved"
outcome_text ApprovalOutcome.rejected = "rejected"
outcome_text ApprovalOutcome.expired = "expired"
outcome_text ApprovalOutcome.cancelled = "cancelled"

-- The intent of a refused action is marked and what was reserved for it released.
unfoldable pub close_refused :
    Environment → PendingApprovalExecution → Resumed → ActionType → Action AfalState (Unit {0})
close_refused env pending resumed ActionType.payment = do
  intent ← on_intents (get_payment_intent pending.action_ref)
  release_payment env pending.reservation_ref (some resumed.approval_result.decided_at)
      (outcome_text resumed.approval_result.result)
  on_intents (mark_payment_challenge (refused_mark intent.intent_id resumed))
  pure tt
close_refused env pending resumed ActionType.resource = do
  intent ← on_intents (get_resource_intent pending.action_ref)
  release_capacity env pending.reservation_ref (some resumed.approval_result.decided_at)
      (outcome_text resumed.approval_result.result)
  on_intents (mark_resource_challenge (refused_mark intent.intent_id resumed))
  pure tt

abbrev pub released_mark : IdRef → Resumed → PendingMark
released_mark approval_session_ref resumed = record {
  approval_session_ref = approval_session_ref;
  status = PendingApprovalExecutionStatus.released;
  updated_at = some resumed.approval_result.decided_at;
  final_decision_ref = some resumed.final_decision.decision_id;
  settlement_ref = none;
  receipt_ref = none;
  usage_receipt_ref = none;
}

unfoldable pub refuse_pending : Environment → IdRef → Action AfalState (Unit {0})
refuse_pending env approval_session_ref = do
  pending ← on_intents (get_pending_execution approval_session_ref)
  resumed ← on_amn (resume_authorization_session env.amn_templates approval_session_ref)
  close_refused env pending resumed pending.action_type
  on_intents (mark_pending_execution (released_mark approval_session_ref resumed))
  pure tt

unfoldable pub apply_result :
    Environment
    → IdRef
    → ApprovalResult
    → Action AfalState (ApprovalResult × ApprovalSession × ChallengeRecord)
apply_result env approval_session_ref result = do
  applied ← on_amn (apply_approval_result env.amn_templates approval_session_ref result)
  if is_approved applied.0.result then pure tt else refuse_pending env approval_session_ref
  pure applied

unfoldable pub resume_approval_session : Environment → IdRef → Action AfalState Resumed
resume_approval_session env approval_session_ref =
    on_amn (resume_authorization_session env.amn_templates approval_session_ref)

abbrev pub read_approval_session : IdRef → Action AfalState ApprovalSession
read_approval_session approval_session_ref = on_amn (get_approval_session approval_session_ref)

-- PaymentFlowOutput | ResourceFlowOutput
pub data ResumeApprovedActionOutput : Type 0 where
  payment_output : PaymentFlowOutput → ResumeApprovedActionOutput
  resource_output : ResourceFlowOutput → ResumeApprovedActionOutput

abbrev pub resume_action :
    Environment → Resumption → ActionType → Action AfalState ResumeApprovedActionOutput
resume_action env args ActionType.payment = do
  output ← resume_approved_payment_action env args
  pure (ResumeApprovedActionOutput.payment_output output)
resume_action env args ActionType.resource = do
  output ← resume_approved_resource_action env args
  pure (ResumeApprovedActionOutput.resource_output output)

-- What `resumeApprovedAction` reads before it branches.
unfoldable pub prepare_resumption : Environment → IdRef → Action AfalState Resumption
prepare_resumption env approval_session_ref = do
  pending ← on_intents (get_pending_execution approval_session_ref)
  resumed ← on_amn (resume_authorization_session env.amn_templates approval_session_ref)
  session ← on_amn (get_approval_session approval_session_ref)
  initial_decision ← on_amn (get_decision session.prior_decision_ref)
  approval_context ← on_amn (get_approval_context session.approval_context_ref)
  pure (record {
    pending = pending;
    initial_decision = initial_decision;
    approval_context = approval_context;
    resumed = resumed;
  })

unfoldable pub resume_approved_action :
    Environment → IdRef → Action AfalState ResumeApprovedActionOutput
resume_approved_action env approval_session_ref = do
  args ← prepare_resumption env approval_session_ref
  resume_action env args args.pending.action_type
