-- ===== src/Runtime/Admin.antt =====
-- backend/afal/service/runtime.ts: the commands on notification deliveries, the worker and the log.
use agent_financial_action_l.Base.{
  ℕ, zero, suc, Bool, true, false, String, Option, none, some, List, [], ◌∷◌, ◌==◌, if◌then◌else◌,
}
use agent_financial_action_l.Base.Ids.{number_text}
use agent_financial_action_l.Base.Action.{
  Action, ok, err, pure, throw, gets, modify, assert_found, ◌>>=◌, ◌>>◌, unknown_notification,
  outbox_not_configured, worker_not_configured, audit_not_configured, unknown_admin_audit,
}
use Prim.Native.String.{◌++◌}
use agent_financial_action_l.Types.{IdRef, Timestamp}
use agent_financial_action_l.Types.Amn.{Fields}
use agent_financial_action_l.Notifications.Entries.{DeliveryRecord, DeliveryStatus}
use agent_financial_action_l.Notifications.Worker
use agent_financial_action_l.Notifications.Worker.{WorkerStatus, tick_started, tick_ended}
use agent_financial_action_l.AdminAudit.{
  AdminAuditAction, AdminAuditEntry, AuditStore, get_audit_entry, list_audit_entries,
  put_audit_entry,
}
use agent_financial_action_l.Runtime.{
  AfalState, Environment, NotificationAdmin, on_outbox, catching,
}

abbrev flag_text : Bool → String
flag_text true = "true"
flag_text false = "false"

abbrev status_text : DeliveryStatus → String
status_text DeliveryStatus.delivered = "delivered"
status_text DeliveryStatus.failed = "failed"
status_text DeliveryStatus.skipped = "skipped"
status_text DeliveryStatus.dead_lettered = "dead-lettered"

abbrev logged : Option AuditStore → AdminAuditEntry → Option AuditStore
logged none entry = none
logged (some log) entry = some (put_audit_entry entry log).1

-- recordAdminAudit: nothing is written where no log is configured.
unfoldable pub record_admin_audit :
    Environment
    → (request_ref : IdRef) → AdminAuditAction
    → (target_ref : Option IdRef) → (details : Fields) → Action AfalState (Unit {0})
record_admin_audit env request_ref action target_ref details = modify (λ (s : AfalState). record s {
  audit = logged s.audit (record {
    audit_id = "admin-audit-" ++ request_ref;
    request_ref = request_ref;
    action = action;
    created_at = env.now;
    target_ref = target_ref;
    details = details;
  });
})

-- deliveries.find((candidate) => candidate.notificationId === notificationId)
abbrev find_delivery : IdRef → List DeliveryRecord → Option DeliveryRecord
find_delivery id [] = none
find_delivery id (d ∷ more) =
    let rest = find_delivery id more in if d.notification_id == id then some d else rest

abbrev pub administered : Environment → Action AfalState NotificationAdmin
administered env = assert_found env.notification_admin outbox_not_configured

unfoldable pub resolve_notification_delivery : Environment → IdRef → Action AfalState DeliveryRecord
resolve_notification_delivery env id = do
  port ← administered env
  deliveries ← gets (λ (s : AfalState). port.list_delivery_records s.outbox)
  assert_found (find_delivery id deliveries) (unknown_notification id)

unfoldable pub read_notification_delivery :
    Environment → (request_ref id : IdRef) → Action AfalState DeliveryRecord
read_notification_delivery env request_ref id = do
  delivery ← resolve_notification_delivery env id
  record_admin_audit env request_ref AdminAuditAction.get_notification_delivery (some id)
      (("status", status_text delivery.status) ∷ ("attempts", number_text delivery.attempts) ∷ [])
  pure delivery

abbrev count : List DeliveryRecord → ℕ
count [] = zero
count (d ∷ ds) = suc (count ds)

unfoldable pub read_notification_deliveries :
    Environment → (request_ref : IdRef) → Action AfalState (List DeliveryRecord)
read_notification_deliveries env request_ref = do
  port ← administered env
  deliveries ← gets (λ (s : AfalState). port.list_delivery_records s.outbox)
  record_admin_audit env request_ref AdminAuditAction.list_notification_deliveries none
      (("count", number_text (count deliveries)) ∷ [])
  pure deliveries

unfoldable pub redeliver_one :
    Environment → (request_ref id : IdRef) → Action AfalState DeliveryRecord
redeliver_one env request_ref id = do
  port ← administered env
  on_outbox (port.redeliver_notification id)
  delivery ← resolve_notification_delivery env id
  record_admin_audit env request_ref AdminAuditAction.redeliver_notification (some id) (
      ("attempts", number_text delivery.attempts)
      ∷ ("status", status_text delivery.status)
      ∷ ("redeliveryCount", number_text delivery.redelivery_count)
      ∷ [])
  pure delivery

abbrev pub worker_status : Action AfalState WorkerStatus
worker_status = do assert_found (← gets (λ (s : AfalState). s.worker)) worker_not_configured

abbrev pub set_worker : WorkerStatus → Action AfalState (Unit {0})
set_worker w = modify (λ (s : AfalState). record s { worker = some w })

abbrev worker_details : WorkerStatus → Fields
worker_details w = ("running", flag_text w.running) ∷ ("intervalMs", number_text w.interval_ms) ∷ []

unfoldable pub get_notification_worker_status :
    Environment → (request_ref : IdRef) → Action AfalState WorkerStatus
get_notification_worker_status env request_ref = do
  status ← worker_status
  record_admin_audit env request_ref AdminAuditAction.get_notification_worker_status none
      (worker_details status)
  pure status

unfoldable pub start_notification_worker :
    Environment → (request_ref : IdRef) → Action AfalState WorkerStatus
start_notification_worker env request_ref = do
  worker ← worker_status
  set_worker (Worker.start worker)
  status ← worker_status
  record_admin_audit env request_ref AdminAuditAction.start_notification_worker none
      (worker_details status)
  pure status

unfoldable pub stop_notification_worker :
    Environment → (request_ref : IdRef) → Action AfalState WorkerStatus
stop_notification_worker env request_ref = do
  worker ← worker_status
  set_worker (Worker.stop worker)
  status ← worker_status
  record_admin_audit env request_ref AdminAuditAction.stop_notification_worker none
      (worker_details status)
  pure status

-- The worker's tick: its status keeps the number of redelivered entries, or the error.
unfoldable pub tick : Environment → WorkerStatus → Action AfalState ℕ
tick env worker = do
  let started = tick_started env.now worker
  set_worker started
  result ←
      catching (on_outbox env.redeliver_failed)
        (λ error. do set_worker (tick_ended (err error) started); throw error)
  set_worker (tick_ended (ok result) started)
  pure result

unfoldable pub run_notification_worker :
    Environment → (request_ref : IdRef) → Action AfalState (ℕ × WorkerStatus)
run_notification_worker env request_ref = do
  worker ← worker_status
  redelivered ← tick env worker
  status ← worker_status
  record_admin_audit env request_ref AdminAuditAction.run_notification_worker none
      (("redelivered", number_text redelivered) ∷ ("running", flag_text status.running) ∷ [])
  pure (redelivered, status)

abbrev audit_log : Action AfalState AuditStore
audit_log = do assert_found (← gets (λ (s : AfalState). s.audit)) audit_not_configured

unfoldable pub get_admin_audit_entry : IdRef → Action AfalState AdminAuditEntry
get_admin_audit_entry audit_id = do
  log ← audit_log
  assert_found (get_audit_entry audit_id log) (unknown_admin_audit audit_id)

-- [...entries].sort((left, right) => right.createdAt.localeCompare(left.createdAt)), which is stable.
abbrev insert_sorted :
    (Timestamp → Timestamp → Bool) → AdminAuditEntry → List AdminAuditEntry → List AdminAuditEntry
insert_sorted is_after e [] = e ∷ []
insert_sorted is_after e (f ∷ more) =
    let rest = insert_sorted is_after e more in
    if is_after f.created_at e.created_at then f ∷ rest else e ∷ f ∷ more

unfoldable pub sort_entries :
    (Timestamp → Timestamp → Bool) → List AdminAuditEntry → List AdminAuditEntry
sort_entries is_after [] = []
sort_entries is_after (e ∷ es) = insert_sorted is_after e (sort_entries is_after es)

unfoldable pub read_admin_audit_entries : Environment → Action AfalState (List AdminAuditEntry)
read_admin_audit_entries env = do
  log ← audit_log
  pure (sort_entries env.is_after (list_audit_entries log))
