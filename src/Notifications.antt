-- ===== src/Notifications.antt =====
-- backend/afal/notifications.ts: `HttpSettlementNotificationPort`.
pub mod Entries
pub mod Delivery
pub mod Sound
pub mod Dead
pub mod Worker
use mathlib.Core.Bool.{cond}
use agent_financial_action_l.Base.{zero}
use agent_financial_action_l.Base.{◌∷◌, ◌&&◌}
use agent_financial_action_l.Clients.Store.{truthy}
use agent_financial_action_l.Notifications.Entries.{
  Notification, DeliveryStatus, OutboxEntry, Failure, notification_id, Outbox, PaymentNotification,
  ResourceNotification, put_outbox_entry, list_outbox_entries, payment, resource, no_payment_url,
  no_resource_url, no_attempt, refused_with, thrown,
}
use agent_financial_action_l.Types.{Timestamp, IdRef, Did}
use agent_financial_action_l.Base.Map.{Map, lookup}
use agent_financial_action_l.Base.{
  ℕ, Bool, String, Option, if◌then◌else◌, ◌or_else◌, List, eqb, [], true, some, none, false, suc,
  leb, ◌+◌, ◌or_some◌, ◌*◌, ◌^◌, ◌-◌,
}
use agent_financial_action_l.Base.Action.{
  Action, ◌>>=◌, ◌>>◌, pure, assert_found, gets, throw, callback_failed, unknown_notification,
  no_callback_target,
}

-- What `fetch` gives: a response, with `ok`, its status and its text, or a throw.
pub data Response : Type 0 where
  responded : Bool → ℕ → String → Response
  threw : String → Response

-- The receivers, as `fetch` shows them: the response to a payload posted to a URL, by the number of
-- the attempt in its headers.
abbrev pub Fetch : Type 0
Fetch = String → Notification → ℕ → Response

-- The options of the port, as its constructor clamps them.
pub record Config : Type 0 where
  pub payment_callback_urls : Map String
  pub resource_callback_urls : Map String
  pub max_attempts : ℕ
  pub redelivery_base_delay_ms : ℕ
  pub redelivery_backoff_multiplier : ℕ
  pub max_redelivery_cycles : ℕ

pub record Options : Type 0 where
  pub payment_callback_urls : Option (Map String)
  pub resource_callback_urls : Option (Map String)
  pub max_attempts : Option ℕ
  pub redelivery_base_delay_ms : Option ℕ
  pub redelivery_backoff_multiplier : Option ℕ
  pub max_redelivery_cycles : Option ℕ

-- Math.max(1, n)
abbrev pub at_least_one : ℕ → ℕ
at_least_one n = if eqb n 0 then 1 else n

unfoldable pub configured : Options → Config
configured o = record {
  payment_callback_urls = o.payment_callback_urls or_else [];
  resource_callback_urls = o.resource_callback_urls or_else [];
  max_attempts = at_least_one (o.max_attempts or_else 1);
  redelivery_base_delay_ms = o.redelivery_base_delay_ms or_else 1000;
  redelivery_backoff_multiplier = at_least_one (o.redelivery_backoff_multiplier or_else 2);
  max_redelivery_cycles = at_least_one (o.max_redelivery_cycles or_else 3);
}

-- The clock's readings in one call of `postNotification`: the time at its start, as a text, and the
-- instant at which the next attempt is planned.
pub record Moment : Type 0 where
  pub begun : Timestamp
  pub ended_ms : ℕ

-- How the loop of attempts ends: after how many attempts, and with which response or last failure.
pub data Outcome : Type 0 where
  accepted : ℕ → ℕ → Outcome
  exhausted : ℕ → Option ℕ → Option Failure → Outcome

-- while (attempts < maxAttemptsForInvocation), with the number of attempts that are left.
unfoldable pub attempt_loop : (ℕ → Response) → ℕ → ℕ → Option ℕ → Option Failure → Outcome
attempt_loop respond zero attempts last_status last_error =
    exhausted attempts last_status last_error
attempt_loop respond (suc left) attempts last_status last_error = elim (respond (suc attempts)) [
  | responded good status text ↦
      cond good (accepted (suc attempts) status)
        (attempt_loop respond left (suc attempts) (some status) (some (refused_with status text)))
  | threw message ↦ attempt_loop respond left (suc attempts) last_status (some (thrown message))
]

-- The entry after an invocation.
unfoldable pub entry_after :
    Config → Moment → String → Notification → Timestamp → ℕ → Outcome → OutboxEntry
entry_after config moment url payload created existing_count (accepted attempts status) = record {
  notification_id = notification_id payload;
  target_url = some url;
  payload = payload;
  idempotency_key = notification_id payload;
  attempts = attempts;
  status = DeliveryStatus.delivered;
  redelivery_count = existing_count;
  created_at = created;
  updated_at = moment.begun;
  last_attempt_at = moment.begun;
  next_attempt_at = none;
  dead_lettered_at = none;
  response_status = some status;
  error_message = none;
}
entry_after config moment url payload created existing_count
      (exhausted attempts last_status last_error) =
    let redelivery_count = suc existing_count in
    let is_dead = leb config.max_redelivery_cycles redelivery_count in
    record {
      notification_id = notification_id payload;
      target_url = some url;
      payload = payload;
      idempotency_key = notification_id payload;
      attempts = attempts;
      status = if is_dead then DeliveryStatus.dead_lettered else DeliveryStatus.failed;
      redelivery_count = redelivery_count;
      created_at = created;
      updated_at = moment.begun;
      last_attempt_at = moment.begun;
      next_attempt_at =
          if is_dead
          then none
          else some (
              moment.ended_ms
              + config.redelivery_base_delay_ms
                * config.redelivery_backoff_multiplier ^ (redelivery_count - 1));
      dead_lettered_at = if is_dead then some moment.begun else none;
      response_status = last_status;
      error_message = some (last_error or_else no_attempt);
    }

abbrev pub returns : IdRef → Outcome → Action Outbox (Unit {0})
returns id (accepted attempts status) = pure tt
returns id (exhausted attempts last_status last_error) = throw (callback_failed id)

unfoldable pub post_notification :
    Config → Fetch → Moment → String → Notification → ℕ → Timestamp → ℕ → Action Outbox (Unit {0})
post_notification config fetch moment url payload existing_attempts created existing_count =
    let outcome =
      attempt_loop (fetch url payload) config.max_attempts existing_attempts none none in
    do
      put_outbox_entry (entry_after config moment url payload created existing_count outcome)
      returns (notification_id payload) outcome

abbrev pub skipped_entry : Notification → Timestamp → Failure → OutboxEntry
skipped_entry payload settled_at why = record {
  notification_id = notification_id payload;
  target_url = none;
  payload = payload;
  idempotency_key = notification_id payload;
  attempts = 0;
  status = DeliveryStatus.skipped;
  redelivery_count = 0;
  created_at = settled_at;
  updated_at = settled_at;
  last_attempt_at = settled_at;
  next_attempt_at = none;
  dead_lettered_at = none;
  response_status = none;
  error_message = some why;
}

-- resolved?.[did]
abbrev pub given_url : Option (Map String) → Did → Option String
given_url none did = none
given_url (some urls) did = lookup did urls

-- resolvePaymentCallbackUrl and resolveResourceCallbackUrl: the port's own URLs, then those that the
-- resolver gives, where there is one. An empty URL counts as none.
unfoldable pub resolve_callback_url : Map String → Option (Map String) → Did → Option String
resolve_callback_url urls resolved did =
    truthy (truthy (lookup did urls) or_some (given_url resolved did))

unfoldable pub notify_payment_settlement :
    Config → Option (Map String) → Fetch → Moment → PaymentNotification → Action Outbox (Unit {0})
notify_payment_settlement config resolved fetch moment n =
    elim (resolve_callback_url config.payment_callback_urls resolved n.payee_did) [
      | none ↦ put_outbox_entry (skipped_entry (payment n) n.settled_at no_payment_url)
      | some url ↦ post_notification config fetch moment url (payment n) 0 moment.begun 0
    ]

unfoldable pub notify_resource_settlement :
    Config → Option (Map String) → Fetch → Moment → ResourceNotification → Action Outbox (Unit {0})
notify_resource_settlement config resolved fetch moment n =
    elim (resolve_callback_url config.resource_callback_urls resolved n.provider_did) [
      | none ↦ put_outbox_entry (skipped_entry (resource n) n.settled_at no_resource_url)
      | some url ↦ post_notification config fetch moment url (resource n) 0 moment.begun 0
    ]

unfoldable pub redeliver_notification : Config → Fetch → Moment → IdRef → Action Outbox (Unit {0})
redeliver_notification config fetch moment id = do
  entry ← assert_found (← gets (lookup id)) (unknown_notification id)
  url ← assert_found (truthy entry.target_url) (no_callback_target id)
  post_notification config fetch moment url entry.payload entry.attempts entry.created_at
      entry.redelivery_count

-- `!entry.nextAttemptAt || entry.nextAttemptAt <= now`
abbrev pub is_due : ℕ → Option ℕ → Bool
is_due now none = true
is_due now (some at) = leb at now

abbrev pub is_failed : DeliveryStatus → Bool
is_failed DeliveryStatus.failed = true
is_failed _ = false

unfoldable pub due_entries : ℕ → List OutboxEntry → List OutboxEntry
due_entries now [] = []
due_entries now (e ∷ es) =
    cond (is_failed e.status && is_due now e.next_attempt_at) (e ∷ due_entries now es)
      (due_entries now es)

-- The posting of one entry, where it has a target.
unfoldable pub redeliver_entry : Config → Fetch → Moment → OutboxEntry → Action Outbox (Unit {0})
redeliver_entry config fetch moment e = elim (truthy e.target_url) [
  | none ↦ pure tt
  | some url ↦
      post_notification config fetch moment url e.payload e.attempts e.created_at e.redelivery_count
]

-- The loop of `redeliverFailedNotifications`: a throw ends it.
unfoldable pub redeliver_entries :
    Config → Fetch → (IdRef → Moment) → List OutboxEntry → Action Outbox (Unit {0})
redeliver_entries config fetch moments [] = pure tt
redeliver_entries config fetch moments (e ∷ es) =
    redeliver_entry config fetch (moments e.notification_id) e
    >> redeliver_entries config fetch moments es

unfoldable pub length : List OutboxEntry → ℕ
length [] = 0
length (e ∷ es) = suc (length es)

unfoldable pub redeliver_failed_notifications :
    Config → Fetch → (IdRef → Moment) → ℕ → Action Outbox ℕ
redeliver_failed_notifications config fetch moments now = do
  entries ← gets list_outbox_entries
  let due = due_entries now entries
  redeliver_entries config fetch moments due
  pure (length due)
