-- ===== src/Tests/Notification.antt =====
-- A payment notification whose receiver refuses the first attempt, and a number as a text.
use agent_financial_action_l.Money.{to_money, from_money, num}
use agent_financial_action_l.Base.Action.{Result, ok}
use agent_financial_action_l.Base.{
  ◌≡◌, refl, none, [], ◌∷◌, true, false, if◌then◌else◌, leb, some, codes,
}
use agent_financial_action_l.Base.Map.{insert, lookup}
use agent_financial_action_l.Base.Int.{pos}
use agent_financial_action_l.Money.RoundTrip.{to_money-from_money}
use agent_financial_action_l.Types.{CommonActionStatus}
use agent_financial_action_l.Notifications.Entries.{
  PaymentNotification, payment, OutboxEntry, Outbox, no_payment_url,
}
use agent_financial_action_l.Notifications.{
  Config, Moment, Fetch, post_notification, attempt_loop, redeliver_failed_notifications,
  entry_after, notify_payment_settlement, responded, resolve_callback_url, skipped_entry,
}
use agent_financial_action_l.Notifications.Dead.{settled_entries_stay}
use agent_financial_action_l.Notifications.Delivery.{post_exact, Posted}
use agent_financial_action_l.Notifications.Sound.{outbox_sound, Acts, IsOutbox}

abbrev notification : PaymentNotification
notification = record {
  notification_id = "ntf-1";
  request_ref = "req-1";
  action_ref = "act-1";
  approval_session_ref = "aps-1";
  payee_did = "did:afal:payee:1";
  intent_status = CommonActionStatus.settled;
  settlement_ref = "stl-1";
  receipt_ref = "rcp-1";
  asset = "USDC";
  amount = codes "20.00";
  chain = "base";
  settled_at = "t0";
}

abbrev config : Config
config = record {
  payment_callback_urls = ("did:afal:payee:1", "https://a") ∷ [];
  resource_callback_urls = [];
  max_attempts = 3;
  redelivery_base_delay_ms = 1000;
  redelivery_backoff_multiplier = 2;
  max_redelivery_cycles = 3;
}

abbrev moment : Moment
moment = record { begun = "t1"; ended_ms = 5000 }

-- The first attempt is refused with status 500, later ones are accepted.
abbrev fetch : Fetch
fetch url payload attempt =
    if leb attempt 1 then responded false 500 "busy" else responded true 200 "OK"

abbrev posted : Result (Unit {0}) × Outbox
posted = post_notification config fetch moment "https://a" (payment notification) 0 "t1" 0 []

accepted_second : posted.0 ≡ ok tt
unfolding post_notification attempt_loop entry_after insert
accepted_second = refl

post_exact_example :
    (e : OutboxEntry) × (posted.1 ≡ insert "ntf-1" e [])
    × (e.payload ≡ payment notification)
    × Posted config (fetch "https://a" (payment notification)) moment 0 0 e posted.0
post_exact_example = post_exact config fetch moment "https://a" (payment notification) 0 "t1" 0 []

outbox_sound_example :
    IsOutbox config
      (redeliver_failed_notifications config fetch
        (λ id. moment)
        9000
        (notify_payment_settlement config none fetch moment notification []).1).1
outbox_sound_example =
    outbox_sound config
      (redeliver_failed_notifications config fetch (λ id. moment) 9000
        (notify_payment_settlement config none fetch moment notification []).1).1
      (Acts.redelivers_failed fetch (λ id. moment) 9000
        (Acts.notifies_payment fetch none moment notification Acts.empty))

to_money-from_money_example : to_money (from_money (num (pos 1205))) ≡ num (pos 1205)
to_money-from_money_example = to_money-from_money (pos 1205)

-- Without a registered URL the notification is skipped, and stays so.
abbrev silent : Config
silent = record config { payment_callback_urls = [] }

abbrev skipped : Outbox
skipped = (notify_payment_settlement silent none fetch moment notification []).1

known-skipped :
    lookup "ntf-1" skipped ≡ some (skipped_entry (payment notification) "t0" no_payment_url)
unfolding notify_payment_settlement resolve_callback_url lookup insert
known-skipped = refl

settled_entries_stay_example :
    lookup "ntf-1" (redeliver_failed_notifications silent fetch (λ id. moment) 9000 skipped).1
    ≡ some (skipped_entry (payment notification) "t0" no_payment_url)
settled_entries_stay_example =
    settled_entries_stay silent fetch (λ id. moment) 9000 skipped "ntf-1"
      (skipped_entry (payment notification) "t0" no_payment_url)
      (Acts.notifies_payment fetch none moment notification Acts.empty) known-skipped refl
