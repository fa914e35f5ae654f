-- ===== src/Notifications/Sound.antt =====
-- The entries of the outbox, over all operations of the port.
use agent_financial_action_l.Base.{
  ◌∷◌, ◌≡◌, ℕ, ◌<◌, ◌≤◌, arith, inl, inr, true, refl, some, none, String, subst, Option,
  Option-cases, List, is_some, ◌≢◌, [],
}
use agent_financial_action_l.Base.Action.{Result-cases, assert_found}
use agent_financial_action_l.Base.Map.Distinct.{HasDistinctKeys, insert-HasDistinctKeys}
use agent_financial_action_l.Base.Map.{lookup, lookup-insert_inv, Map}
use agent_financial_action_l.Notifications.{
  post_notification, Config, entry_after, IdRef, OutboxEntry, Outbox, Moment, Notification, Outcome,
  Fetch, notification_id, put_outbox_entry, Timestamp, returns, notify_payment_settlement,
  notify_resource_settlement, redeliver_notification, redeliver_entry, redeliver_entries,
  redeliver_failed_notifications, DeliveryStatus, Failure, due_entries, accepted, skipped_entry,
  truthy, list_outbox_entries, exhausted, PaymentNotification, ResourceNotification,
  resolve_callback_url, payment, resource,
}

-- An entry stands under the id of its payload. A failed one has cycles left and a planned attempt, a
-- dead one has used them all and none is planned, a skipped one was never tried, and all others have
-- a target.
pub record IsSound (config : Config) (id : IdRef) (e : OutboxEntry) : Type 0 where
  pub keyed : e.notification_id ≡ id
  pub payload_keyed : notification_id e.payload ≡ id
  pub waits :
      e.status ≡ DeliveryStatus.failed
      → (e.redelivery_count < config.max_redelivery_cycles) × (is_some e.next_attempt_at ≡ true)
  pub buried :
      e.status ≡ DeliveryStatus.dead_lettered
      → (config.max_redelivery_cycles ≤ e.redelivery_count)
        × (e.next_attempt_at ≡ none)
        × (is_some e.dead_lettered_at ≡ true)
  pub untried : e.status ≡ DeliveryStatus.skipped → (e.attempts ≡ 0) × (e.target_url ≡ none)
  pub targeted : e.status ≢ DeliveryStatus.skipped → is_some e.target_url ≡ true

-- Each id has one entry, and all entries are sound.
pub record IsOutbox (config : Config) (s : Outbox) : Type 0 where
  pub distinct : HasDistinctKeys s
  pub sound : (id : IdRef) (e : OutboxEntry) → lookup id s ≡ some e → IsSound config id e

put-IsOutbox :
    (config : Config) (e : OutboxEntry) (s : Outbox)
    → IsSound config e.notification_id e
    → IsOutbox config s
    → IsOutbox config (put_outbox_entry e s).1
put-IsOutbox config e s i inv = record {
  distinct = insert-HasDistinctKeys e.notification_id e s inv.distinct;
  sound = λ id d h. elim (lookup-insert_inv e.notification_id id e d s h) [
    | inl (e1, e2) ↦
        subst (λ x. IsSound config x d) e1 (subst (λ x. IsSound config e.notification_id x) e2 i)
    | inr (e1, e2) ↦ inv.sound id d e2
  ];
}

entry-IsSound :
    (config : Config) (moment : Moment) (url : String) (payload : Notification)
    (created : Timestamp) (count : ℕ) (o : Outcome)
    → IsSound config
        (entry_after config moment url payload created count o).notification_id
        (entry_after config moment url payload created count o)
unfolding entry_after
entry-IsSound config moment url payload created count (accepted a status) = record {
  keyed = refl;
  payload_keyed = refl;
  waits = λ h. ground arith;
  buried = λ h. ground arith;
  untried = λ h. ground arith;
  targeted = λ h. refl;
}
entry-IsSound config moment url payload created count (exhausted a status failure) = record {
  keyed = refl;
  payload_keyed = refl;
  waits = λ h. ground arith;
  buried = λ h. ground arith;
  untried = λ h. ground arith;
  targeted = λ h. refl;
}

skipped-IsSound :
    (config : Config) (payload : Notification) (at : Timestamp) (why : Failure)
    → IsSound config (notification_id payload) (skipped_entry payload at why)
skipped-IsSound config payload at why = record {
  keyed = refl;
  payload_keyed = refl;
  waits = λ h. ground arith;
  buried = λ h. ground arith;
  untried = λ h. (refl, refl);
  targeted = λ h. ground arith;
}

returns-keeps : (id : IdRef) (o : Outcome) (s : Outbox) → (returns id o s).1 ≡ s
returns-keeps id (accepted a status) s = refl
returns-keeps id (exhausted a status failure) s = refl

module _ (config : Config) (fetch : Fetch) where
  post-IsOutbox :
      (moment : Moment) (url : String) (payload : Notification) (before : ℕ) (created : Timestamp)
      (count : ℕ) (s : Outbox)
      → IsOutbox config s
      → IsOutbox config (post_notification config fetch moment url payload before created count s).1
  unfolding post_notification
  post-IsOutbox moment url payload before created count s inv =
      rw returns-keeps
        (put-IsOutbox config _ s (entry-IsSound config moment url payload created count _) inv)

  payment-IsOutbox :
      (resolved : Option (Map String)) (moment : Moment) (n : PaymentNotification) (s : Outbox)
      → IsOutbox config s
      → IsOutbox config (notify_payment_settlement config resolved fetch moment n s).1
  unfolding notify_payment_settlement
  payment-IsOutbox resolved moment n s inv =
      elim (Option-cases (resolve_callback_url config.payment_callback_urls resolved n.payee_did)) [
        | inl missing ↦
            rw (notify_payment_settlement, missing)
              (put-IsOutbox config _ s (skipped-IsSound config (payment n) n.settled_at _) inv)
        | inr (url, found) ↦
            rw (notify_payment_settlement, found)
              (post-IsOutbox moment url (payment n) 0 moment.begun 0 s inv)
      ]

  resource-IsOutbox :
      (resolved : Option (Map String)) (moment : Moment) (n : ResourceNotification) (s : Outbox)
      → IsOutbox config s
      → IsOutbox config (notify_resource_settlement config resolved fetch moment n s).1
  unfolding notify_resource_settlement
  resource-IsOutbox resolved moment n s inv =
      elim (Option-cases
        (resolve_callback_url config.resource_callback_urls resolved n.provider_did)) [
          | inl missing ↦
              rw (notify_resource_settlement, missing)
                (put-IsOutbox config _ s (skipped-IsSound config (resource n) n.settled_at _) inv)
          | inr (url, found) ↦
              rw (notify_resource_settlement, found)
                (post-IsOutbox moment url (resource n) 0 moment.begun 0 s inv)
        ]

  redeliver-IsOutbox :
      (moment : Moment) (id : IdRef) (s : Outbox)
      → IsOutbox config s
      → IsOutbox config (redeliver_notification config fetch moment id s).1
  unfolding redeliver_notification
  redeliver-IsOutbox moment id s inv = elim (Option-cases (lookup id s)) [
    | inl missing ↦ rw (missing, assert_found) inv
    | inr (e, found) ↦ elim (Option-cases (truthy e.target_url)) [
      | inl missing ↦ rw (found, assert_found, missing) inv
      | inr (url, given) ↦
          rw (found, assert_found, given)
            (post-IsOutbox moment url e.payload e.attempts e.created_at e.redelivery_count s inv)
    ]
  ]

  entry-IsOutbox :
      (moment : Moment) (e : OutboxEntry) (s : Outbox)
      → IsOutbox config s
      → IsOutbox config (redeliver_entry config fetch moment e s).1
  unfolding redeliver_entry
  entry-IsOutbox moment e s inv = elim (Option-cases (truthy e.target_url)) [
    | inl missing ↦ rw (redeliver_entry, missing) inv
    | inr (url, given) ↦
        rw (redeliver_entry, given)
          (post-IsOutbox moment url e.payload e.attempts e.created_at e.redelivery_count s inv)
  ]

  entries-IsOutbox :
      (moments : IdRef → Moment) (es : List OutboxEntry) (s : Outbox)
      → IsOutbox config s
      → IsOutbox config (redeliver_entries config fetch moments es s).1
  unfolding redeliver_entries
  entries-IsOutbox moments [] s inv = inv
  entries-IsOutbox moments (e ∷ es) s inv =
      let moment = moments e.notification_id in
      let inv' = entry-IsOutbox moment e s inv in
      elim (Result-cases (redeliver_entry config fetch moment e s).0) [
        | inl (done, h) ↦ rw h (entries-IsOutbox moments es _ inv')
        | inr (x, h) ↦ rw h inv'
      ]

  failed-IsOutbox :
      (moments : IdRef → Moment) (now : ℕ) (s : Outbox)
      → IsOutbox config s
      → IsOutbox config (redeliver_failed_notifications config fetch moments now s).1
  unfolding redeliver_failed_notifications
  failed-IsOutbox moments now s inv =
      let due = due_entries now (list_outbox_entries s) in
      let inv' = entries-IsOutbox moments due s inv in
      elim (Result-cases (redeliver_entries config fetch moments due s).0) [
        | inl (done, h) ↦ rw h inv'
        | inr (x, h) ↦ rw h inv'
      ]

-- What the port does over time, with any receivers, resolver and clock.
pub data Acts (config : Config) : Outbox → Type 0 where
  empty : Acts config []
  notifies_payment :
      {s : Outbox} (fetch : Fetch) (resolved : Option (Map String)) (moment : Moment)
      (n : PaymentNotification)
      → Acts config s
      → Acts config (notify_payment_settlement config resolved fetch moment n s).1
  notifies_resource :
      {s : Outbox} (fetch : Fetch) (resolved : Option (Map String)) (moment : Moment)
      (n : ResourceNotification)
      → Acts config s
      → Acts config (notify_resource_settlement config resolved fetch moment n s).1
  redelivers :
      {s : Outbox} (fetch : Fetch) (moment : Moment) (id : IdRef)
      → Acts config s
      → Acts config (redeliver_notification config fetch moment id s).1
  redelivers_failed :
      {s : Outbox} (fetch : Fetch) (moments : IdRef → Moment) (now : ℕ)
      → Acts config s
      → Acts config (redeliver_failed_notifications config fetch moments now s).1

-- In every outbox that the port builds up, whatever the receivers answer and whether the calls
-- return or throw, each id has one entry and all entries are sound: failed ones have cycles left and
-- a planned attempt, dead ones have used their cycles and are planned no more, skipped ones have no
-- attempt and no target, and all others have a target.
pub outbox_sound : (config : Config) (s : Outbox) → Acts config s → IsOutbox config s
unfolding lookup HasDistinctKeys
outbox_sound config s empty = record { distinct = tt; sound = λ id e h. ground arith }
outbox_sound config s (notifies_payment {s = t} fetch resolved moment n acts) =
    payment-IsOutbox config fetch resolved moment n t (outbox_sound config t acts)
outbox_sound config s (notifies_resource {s = t} fetch resolved moment n acts) =
    resource-IsOutbox config fetch resolved moment n t (outbox_sound config t acts)
outbox_sound config s (redelivers {s = t} fetch moment id acts) =
    redeliver-IsOutbox config fetch moment id t (outbox_sound config t acts)
outbox_sound config s (redelivers_failed {s = t} fetch moments now acts) =
    failed-IsOutbox config fetch moments now t (outbox_sound config t acts)
