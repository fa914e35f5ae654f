-- ===== src/Runtime/Administering.antt =====
-- The administrative commands call no adapter: they keep every property of the calls made.
use agent_financial_action_l.Base.{Option, List}
use agent_financial_action_l.Types.Amn.{Fields}
use agent_financial_action_l.AdminAudit.{AdminAuditAction}
use agent_financial_action_l.Types.{IdRef}
use agent_financial_action_l.Notifications.Worker.{WorkerStatus}
use agent_financial_action_l.Settlement.{Call}
use agent_financial_action_l.Runtime.{Environment}
use agent_financial_action_l.Runtime.Admin.{
  record_admin_audit, resolve_notification_delivery, read_notification_delivery,
  read_notification_deliveries, redeliver_one, set_worker, tick, get_notification_worker_status,
  start_notification_worker, stop_notification_worker, run_notification_worker,
  get_admin_audit_entry, read_admin_audit_entries,
}
use agent_financial_action_l.Runtime.Calls.{Keeps, quiet}

module _ {P : List Call → Type 0} (env : Environment) (request_ref : IdRef) where
  record_admin_audit-Keeps :
      (action : AdminAuditAction) (target_ref : Option IdRef) (details : Fields)
      → Keeps P (record_admin_audit env request_ref action target_ref details)
  unfolding record_admin_audit
  record_admin_audit-Keeps action target_ref details = record { keep = λ s h. h }

  resolve-Keeps : (id : IdRef) → Keeps P (resolve_notification_delivery env id)
  unfolding resolve_notification_delivery
  resolve-Keeps id = search quiet depth 30

  pub read_delivery-Keeps : (id : IdRef) → Keeps P (read_notification_delivery env request_ref id)
  unfolding read_notification_delivery
  read_delivery-Keeps id = search (quiet, record_admin_audit-Keeps, resolve-Keeps) depth 30

  pub redeliver_one-Keeps : (id : IdRef) → Keeps P (redeliver_one env request_ref id)
  unfolding redeliver_one
  redeliver_one-Keeps id = search (quiet, record_admin_audit-Keeps, resolve-Keeps) depth 30

  pub read_deliveries-Keeps : Keeps P (read_notification_deliveries env request_ref)
  unfolding read_notification_deliveries
  read_deliveries-Keeps = search (quiet, record_admin_audit-Keeps) depth 30

  set_worker-Keeps : (w : WorkerStatus) → Keeps P (set_worker w)
  set_worker-Keeps w = record { keep = λ s h. h }

  tick-Keeps : (w : WorkerStatus) → Keeps P (tick env w)
  unfolding tick
  tick-Keeps w = search (quiet, set_worker-Keeps) depth 30

  pub worker_status-Keeps : Keeps P (get_notification_worker_status env request_ref)
  unfolding get_notification_worker_status
  worker_status-Keeps = search (quiet, record_admin_audit-Keeps) depth 30

  pub start-Keeps : Keeps P (start_notification_worker env request_ref)
  unfolding start_notification_worker
  start-Keeps = search (quiet, record_admin_audit-Keeps, set_worker-Keeps) depth 30

  pub stop-Keeps : Keeps P (stop_notification_worker env request_ref)
  unfolding stop_notification_worker
  stop-Keeps = search (quiet, record_admin_audit-Keeps, set_worker-Keeps) depth 30

  pub run-Keeps : Keeps P (run_notification_worker env request_ref)
  unfolding run_notification_worker
  run-Keeps = search (quiet, record_admin_audit-Keeps, tick-Keeps) depth 30

module _ {P : List Call → Type 0} where
  pub audit_entry-Keeps : (id : IdRef) → Keeps P (get_admin_audit_entry id)
  unfolding get_admin_audit_entry
  audit_entry-Keeps id = search quiet depth 30

  pub audit_entries-Keeps : (env : Environment) → Keeps P (read_admin_audit_entries env)
  unfolding read_admin_audit_entries
  audit_entries-Keeps env = search quiet depth 30
