-- ===== src/AdminAudit.antt =====
-- backend/afal/admin-audit.ts (`InMemoryAfalAdminAuditStore`): the log of administrative commands.
use agent_financial_action_l.Base.{Option, List}
use agent_financial_action_l.Base.Map.{Map, lookup, insert, values}
use agent_financial_action_l.Base.Action.{Action, modify}
use agent_financial_action_l.Types.{IdRef, Timestamp}
use agent_financial_action_l.Types.Amn.{Fields}

pub data AdminAuditAction : Type 0 where
  get_notification_delivery list_notification_deliveries redeliver_notification : AdminAuditAction
  get_notification_worker_status start_notification_worker : AdminAuditAction
  stop_notification_worker run_notification_worker : AdminAuditAction

pub record AdminAuditEntry : Type 0 where
  pub audit_id : IdRef
  pub request_ref : IdRef
  pub action : AdminAuditAction
  pub created_at : Timestamp
  pub target_ref : Option IdRef
  pub details : Fields

abbrev pub AuditStore : Type 0
AuditStore = Map AdminAuditEntry

abbrev pub get_audit_entry : IdRef → AuditStore → Option AdminAuditEntry
get_audit_entry audit_id s = lookup audit_id s

abbrev pub list_audit_entries : AuditStore → List AdminAuditEntry
list_audit_entries s = values s

abbrev pub put_audit_entry : AdminAuditEntry → Action AuditStore (Unit {0})
put_audit_entry e = modify (insert e.audit_id e)
