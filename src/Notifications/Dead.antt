-- ===== src/Notifications/Dead.antt =====
-- Entries that are not failed are left alone by `redeliverFailedNotifications`.
use agent_financial_action_l.Base.Action.{Result-cases}
use mathlib.Core.List.{Memᴰ}
use agent_financial_action_l.Base.{
  ◌≡◌, refl, true, false, ◌∷◌, [], some, arith, Bool-cases, Option-cases, inl, inr, ℕ, List, ◌&&◌,
  String, ◌≢◌, ◌∙◌, Bool, sym,
}
use agent_financial_action_l.Base.Map.{lookup, values, lookup-insert_ne}
use agent_financial_action_l.Base.Map.Distinct.{lookup-values}
use agent_financial_action_l.Notifications.{
  due_entries, redeliver_entries, redeliver_entry, post_notification,
  redeliver_failed_notifications, Config, Fetch, OutboxEntry, IdRef, is_failed, Moment, Outbox,
  is_due, Notification, notification_id, Timestamp, truthy, list_outbox_entries,
}
use agent_financial_action_l.Notifications.Delivery.{post_exact}
use agent_financial_action_l.Notifications.Sound.{Acts, outbox_sound}

and_left : (a b : Bool) → (a && b) ≡ true → a ≡ true
and_left true b h = refl
and_left false b h = h

-- What is due was in the outbox, and failed.
due-failed :
    (now : ℕ) (es : List OutboxEntry) (e : OutboxEntry)
    → Memᴰ e (due_entries now es)
    → Memᴰ e es × (is_failed e.status ≡ true)
unfolding due_entries
due-failed now [] e x = elim x [ ]
due-failed now (d ∷ es) e x =
    elim (Bool-cases (is_failed d.status && is_due now d.next_attempt_at)) [
      | inr skipped ↦ let (m, h) = due-failed now es e (rw skipped at x) in (Memᴰ.tail m, h)
      | inl due ↦ elim (rw due at x) [
        | Memᴰ.head same ↦ (
          Memᴰ.head same,
          rw same (and_left (is_failed d.status) (is_due now d.next_attempt_at) due),
        )
        | Memᴰ.tail y ↦ let (m, h) = due-failed now es e y in (Memᴰ.tail m, h)
      ]
    ]

module _ (config : Config) (fetch : Fetch) (id : IdRef) where
  post-other :
      (moment : Moment) (url : String) (payload : Notification) (before : ℕ) (created : Timestamp)
      (count : ℕ) (s : Outbox)
      → notification_id payload ≢ id
      → lookup id (post_notification config fetch moment url payload before created count s).1
        ≡ lookup id s
  post-other moment url payload before created count s other =
      let (e, stored, same, rest) =
        post_exact config fetch moment url payload before created count s in
      rw stored (lookup-insert_ne (notification_id payload) id e s other)

  entry-other :
      (moment : Moment) (e : OutboxEntry) (s : Outbox)
      → notification_id e.payload ≢ id
      → lookup id (redeliver_entry config fetch moment e s).1 ≡ lookup id s
  unfolding redeliver_entry
  entry-other moment e s other = elim (Option-cases (truthy e.target_url)) [
    | inl missing ↦ rw (redeliver_entry, missing) refl
    | inr (url, given) ↦
        rw (redeliver_entry, given)
          (post-other moment url e.payload e.attempts e.created_at e.redelivery_count s other)
  ]

  entries-other :
      (moments : IdRef → Moment) (es : List OutboxEntry) (s : Outbox)
      → ((e : OutboxEntry) → Memᴰ e es → notification_id e.payload ≢ id)
      → lookup id (redeliver_entries config fetch moments es s).1 ≡ lookup id s
  unfolding redeliver_entries
  entries-other moments [] s others = refl
  entries-other moments (e ∷ es) s others =
      let moment = moments e.notification_id in
      let kept = entry-other moment e s (others e (Memᴰ.head refl)) in
      elim (Result-cases (redeliver_entry config fetch moment e s).0) [
        | inl (done, h) ↦ rw h (entries-other moments es _ (λ d m. others d (Memᴰ.tail m)) ∙ kept)
        | inr (x, h) ↦ rw h kept
      ]

not_both :
    (id : IdRef) (s : Outbox) (d e : OutboxEntry)
    → lookup id s ≡ some d
    → lookup id s ≡ some e
    → is_failed d.status ≡ true
    → is_failed e.status ≢ false
not_both id s d e h h' failed settled = ground arith

-- An entry that is not failed, so a delivered, skipped or dead one, stays as it is while the failed
-- entries are redelivered, whatever the receivers answer and whether the run returns or throws.
pub settled_entries_stay :
    (config : Config) (fetch : Fetch) (moments : IdRef → Moment) (now : ℕ) (s : Outbox) (id : IdRef)
    (e : OutboxEntry)
    → Acts config s
    → lookup id s ≡ some e
    → is_failed e.status ≡ false
    → lookup id (redeliver_failed_notifications config fetch moments now s).1 ≡ some e
unfolding redeliver_failed_notifications
settled_entries_stay config fetch moments now s id e acts known settled =
    let inv = outbox_sound config s acts in
    let due = due_entries now (list_outbox_entries s) in
    let others : (d : OutboxEntry) → Memᴰ d due → notification_id d.payload ≢ id = λ d m same.
      let (listed, failed) = due-failed now (values s) d m in
      let (k, found) = lookup-values d s inv.distinct listed in
      not_both id s d e (rw (sym ((inv.sound k d found).payload_keyed) ∙ same) at found) known
        failed settled in
    let kept = entries-other config fetch id moments due s others ∙ known in
    elim (Result-cases (redeliver_entries config fetch moments due s).0) [
      | inl (done, h) ↦ rw h kept
      | inr (x, h) ↦ rw h kept
    ]
