-- ===== src/Runtime/Command.antt =====
-- backend/afal/service/runtime.ts: `invoke` on the commands of backend/afal/service/interfaces.ts.
use agent_financial_action_l.Base.{ℕ, Option, List}
use agent_financial_action_l.Base.Action.{Action, pure, ◌>>=◌}
use agent_financial_action_l.Types.{IdRef}
use agent_financial_action_l.Types.Amn.{ApprovalResult, ApprovalSession, ChallengeRecord}
use agent_financial_action_l.Types.Afal.{PaymentIntent, ResourceIntent}
use agent_financial_action_l.Amn.{Resumed}
use agent_financial_action_l.Runtime.{AfalState, Environment}
use agent_financial_action_l.Runtime.Request.{
  PaymentApprovalRequestOutput, ResourceApprovalRequestOutput, request_payment_approval,
  request_resource_approval,
}
use agent_financial_action_l.Runtime.Resume.{PaymentFlowOutput}
use agent_financial_action_l.Runtime.Provide.{ResourceFlowOutput}
use agent_financial_action_l.Runtime.Approval.{
  ResumeApprovedActionOutput, apply_result, resume_approval_session, read_approval_session,
  resume_approved_action,
}
use agent_financial_action_l.Runtime.Status.{ActionStatusOutput, get_action_status}
use agent_financial_action_l.Notifications.Entries.{DeliveryRecord}
use agent_financial_action_l.Notifications.Worker.{WorkerStatus}
use agent_financial_action_l.AdminAudit.{AdminAuditEntry}
use agent_financial_action_l.Runtime.Admin.{
  read_notification_delivery, redeliver_one, read_notification_deliveries,
  get_notification_worker_status, start_notification_worker, stop_notification_worker,
  run_notification_worker, get_admin_audit_entry, read_admin_audit_entries,
}
use agent_financial_action_l.Orchestrator.{TrustedSurface, execute_payment_flow}
use agent_financial_action_l.Orchestrator.Resource.{execute_resource_settlement_flow}

-- AfalServiceCommand: the constructor is the capability.
pub data Command : Type 0 where
  request_payment_approval_of execute_payment_of :
      (request_ref : IdRef) → PaymentIntent → (budget_ref : Option IdRef) → Command
  request_resource_approval_of settle_resource_usage_of :
      (request_ref : IdRef) → ResourceIntent → (budget_ref quota_ref : IdRef) → Command
  get_action_status_of get_approval_session_of resume_approval_session_of
        resume_approved_action_of :
      IdRef → Command
  apply_approval_result_of : IdRef → ApprovalResult → Command
  get_notification_delivery_of redeliver_notification_of :
      (request_ref notification_id : IdRef) → Command
  list_notification_deliveries_of get_notification_worker_status_of start_notification_worker_of
        stop_notification_worker_of run_notification_worker_of :
      (request_ref : IdRef) → Command
  get_admin_audit_entry_of : (audit_id : IdRef) → Command
  list_admin_audit_entries_of : Command

-- AfalServiceResult
pub data ServiceResult : Type 0 where
  payment_request : PaymentApprovalRequestOutput → ServiceResult
  payment_flow : PaymentFlowOutput → ServiceResult
  resource_request : ResourceApprovalRequestOutput → ServiceResult
  resource_flow : ResourceFlowOutput → ServiceResult
  action_status : ActionStatusOutput → ServiceResult
  approval_session : ApprovalSession → ServiceResult
  applied_result : ApprovalResult → ApprovalSession → ChallengeRecord → ServiceResult
  resumed_session : Resumed → ServiceResult
  resumed_action : ResumeApprovedActionOutput → ServiceResult
  delivery : DeliveryRecord → ServiceResult
  deliveries : List DeliveryRecord → ServiceResult
  worker_state : WorkerStatus → ServiceResult
  worker_run : (redelivered : ℕ) → WorkerStatus → ServiceResult
  audit_entry : AdminAuditEntry → ServiceResult
  audit_entries : List AdminAuditEntry → ServiceResult

abbrev pub mapped : {A B : Type 0} → (A → B) → Action AfalState A → Action AfalState B
mapped f m = do a ← m; pure (f a)

unfoldable pub invoke : Environment → TrustedSurface → Command → Action AfalState ServiceResult
invoke env surface (Command.request_payment_approval_of request_ref input budget_ref) =
    mapped payment_request (request_payment_approval env request_ref input budget_ref)
invoke env surface (Command.execute_payment_of request_ref input budget_ref) =
    mapped payment_flow (execute_payment_flow env surface request_ref input budget_ref)
invoke env surface (Command.request_resource_approval_of request_ref input budget_ref quota_ref) =
    mapped resource_request (request_resource_approval env request_ref input budget_ref quota_ref)
invoke env surface (Command.settle_resource_usage_of request_ref input budget_ref quota_ref) =
    mapped resource_flow
      (execute_resource_settlement_flow env surface request_ref input budget_ref quota_ref)
invoke env surface (Command.get_action_status_of action_ref) =
    mapped action_status (get_action_status env action_ref)
invoke env surface (Command.get_approval_session_of ref) =
    mapped approval_session (read_approval_session ref)
invoke env surface (Command.resume_approval_session_of ref) =
    mapped resumed_session (resume_approval_session env ref)
invoke env surface (Command.resume_approved_action_of ref) =
    mapped resumed_action (resume_approved_action env ref)
invoke env surface (Command.apply_approval_result_of ref result) =
    mapped (λ applied. applied_result applied.0 applied.1 applied.2) (apply_result env ref result)
invoke env surface (Command.get_notification_delivery_of request_ref id) =
    mapped delivery (read_notification_delivery env request_ref id)
invoke env surface (Command.redeliver_notification_of request_ref id) =
    mapped delivery (redeliver_one env request_ref id)
invoke env surface (Command.list_notification_deliveries_of request_ref) =
    mapped deliveries (read_notification_deliveries env request_ref)
invoke env surface (Command.get_notification_worker_status_of request_ref) =
    mapped worker_state (get_notification_worker_status env request_ref)
invoke env surface (Command.start_notification_worker_of request_ref) =
    mapped worker_state (start_notification_worker env request_ref)
invoke env surface (Command.stop_notification_worker_of request_ref) =
    mapped worker_state (stop_notification_worker env request_ref)
invoke env surface (Command.run_notification_worker_of request_ref) =
    mapped (λ run. worker_run run.0 run.1) (run_notification_worker env request_ref)
invoke env surface (Command.get_admin_audit_entry_of audit_id) =
    mapped audit_entry (get_admin_audit_entry audit_id)
invoke env surface Command.list_admin_audit_entries_of =
    mapped audit_entries (read_admin_audit_entries env)
