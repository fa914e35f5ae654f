-- ===== src/Notifications/Entries.antt =====
-- backend/afal/notifications.ts: the outbox and its entries, and the notifications of
-- backend/afal/interfaces.ts. The time of the next attempt is kept as the instant in milliseconds
-- that its ISO text prints: such texts order as their instants. A message of a failure is kept as
-- the values it is built from.
use agent_financial_action_l.Base.{String, ℕ, Option, List, [], ◌∷◌}
use agent_financial_action_l.Base.Int.{ℤ}
use agent_financial_action_l.Money.{DecimalString}
use agent_financial_action_l.Base.Map.{Map, insert, values}
use agent_financial_action_l.Base.Action.{Action, modify}
use agent_financial_action_l.Types.{IdRef, Did, Timestamp, CommonActionStatus}

pub record PaymentNotification : Type 0 where
  pub notification_id : IdRef
  pub request_ref : IdRef
  pub action_ref : IdRef
  pub approval_session_ref : IdRef
  pub payee_did : Did
  pub intent_status : CommonActionStatus
  pub settlement_ref : IdRef
  pub receipt_ref : IdRef
  pub asset : String
  pub amount : DecimalString
  pub chain : String
  pub settled_at : Timestamp

pub record ResourceNotification : Type 0 where
  pub notification_id : IdRef
  pub request_ref : IdRef
  pub action_ref : IdRef
  pub approval_session_ref : IdRef
  pub provider_id : String
  pub provider_did : Did
  pub intent_status : CommonActionStatus
  pub usage_receipt_ref : IdRef
  pub settlement_ref : IdRef
  pub receipt_ref : IdRef
  pub asset : String
  pub amount : DecimalString
  pub resource_class : String
  pub resource_unit : String
  pub quantity : ℤ
  pub settled_at : Timestamp

-- The event type of an entry is the one of its payload: it is the constructor here.
pub data Notification : Type 0 where
  payment : PaymentNotification → Notification
  resource : ResourceNotification → Notification

abbrev pub notification_id : Notification → IdRef
notification_id (payment p) = p.notification_id
notification_id (resource r) = r.notification_id

pub data DeliveryStatus : Type 0 where
  delivered failed skipped dead_lettered : DeliveryStatus

pub data Failure : Type 0 where
  no_payment_url no_resource_url no_attempt : Failure
  refused_with : ℕ → String → Failure
  thrown : String → Failure

pub record OutboxEntry : Type 0 where
  pub notification_id : IdRef
  pub target_url : Option String
  pub payload : Notification
  pub idempotency_key : String
  pub attempts : ℕ
  pub status : DeliveryStatus
  pub redelivery_count : ℕ
  pub created_at : Timestamp
  pub updated_at : Timestamp
  pub last_attempt_at : Timestamp
  pub next_attempt_at : Option ℕ
  pub dead_lettered_at : Option Timestamp
  pub response_status : Option ℕ
  pub error_message : Option Failure

abbrev pub Outbox : Type 0
Outbox = Map OutboxEntry

abbrev pub put_outbox_entry : OutboxEntry → Action Outbox (Unit {0})
put_outbox_entry e = modify (insert e.notification_id e)

abbrev pub list_outbox_entries : Outbox → List OutboxEntry
list_outbox_entries s = values s

abbrev pub event_type : Notification → String
event_type (payment p) = "payment.settled"
event_type (resource r) = "resource.settled"

-- SettlementNotificationDeliveryRecord
pub record DeliveryRecord : Type 0 where
  pub notification_id : IdRef
  pub event_type : String
  pub target_url : Option String
  pub idempotency_key : String
  pub attempts : ℕ
  pub status : DeliveryStatus
  pub redelivery_count : ℕ
  pub last_attempt_at : Timestamp
  pub next_attempt_at : Option ℕ
  pub dead_lettered_at : Option Timestamp
  pub response_status : Option ℕ
  pub error_message : Option Failure

-- An entry without its payload and its times of creation and update.
abbrev pub delivery_of : OutboxEntry → DeliveryRecord
delivery_of e = record {
  notification_id = e.notification_id;
  event_type = event_type e.payload;
  target_url = e.target_url;
  idempotency_key = e.idempotency_key;
  attempts = e.attempts;
  status = e.status;
  redelivery_count = e.redelivery_count;
  last_attempt_at = e.last_attempt_at;
  next_attempt_at = e.next_attempt_at;
  dead_lettered_at = e.dead_lettered_at;
  response_status = e.response_status;
  error_message = e.error_message;
}

abbrev deliveries_of : List OutboxEntry → List DeliveryRecord
deliveries_of [] = []
deliveries_of (e ∷ es) = delivery_of e ∷ deliveries_of es

-- HttpSettlementNotificationPort.listDeliveryRecords
abbrev pub list_delivery_records : Outbox → List DeliveryRecord
list_delivery_records s = deliveries_of (list_outbox_entries s)
