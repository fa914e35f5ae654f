-- ===== src/Notifications/Delivery.antt =====
-- What `postNotification` does with its attempts.
use agent_financial_action_l.Base.{
  ◌≡◌, ℕ, zero, suc, ◌+◌, ◌<◌, arith, inl, inr, true, false, Bool, String, Option, ◌⊎◌, refl, ◌≤◌,
  ◌-◌, none, some, ◌*◌, ◌^◌, Bool-cases, leb, leb→le, ◌∙◌, ap,
}
use agent_financial_action_l.Base.Action.{ok, err, Result}
use agent_financial_action_l.Base.Map.{insert}
use agent_financial_action_l.Notifications.{
  Response, attempt_loop, entry_after, post_notification, returns, Outcome, responded, Failure,
  accepted, threw, exhausted, Config, Moment, Fetch, OutboxEntry, Notification, Timestamp,
  DeliveryStatus, Outbox, notification_id, refused_with, thrown,
}

abbrev pub accepts : Response → Bool
accepts (responded good status text) = good
accepts (threw message) = false

-- Every attempt after `from`, up to `to`, was refused.
abbrev pub AllRefused : (ℕ → Response) → ℕ → ℕ → Type 0
AllRefused respond from to = (b : ℕ) → from < b → b ≤ to → accepts (respond b) ≡ false

-- What an outcome says of at most `n` attempts after `from`: the accepted one was made, and it was
-- the first that was accepted, or all `n` were made and refused.
abbrev pub Tells : (ℕ → Response) → ℕ → ℕ → Outcome → Type 0
Tells respond from n (accepted a status) =
    (from < a) × (a ≤ from + n) × (accepts (respond a) ≡ true) × AllRefused respond from (a - 1)
Tells respond from n (exhausted a status failure) = (a ≡ from + n) × AllRefused respond from a

first_or_later : (from b : ℕ) → from < b → (b ≡ suc from) ⊎ (suc from < b)
first_or_later from b h = ground arith

module _ (respond : ℕ → Response) (from : ℕ) (refused : accepts (respond (suc from)) ≡ false) where
  AllRefused-shift : (to : ℕ) → AllRefused respond (suc from) to → AllRefused respond from to
  AllRefused-shift to all b h h' = elim (first_or_later from b h) [
    | inl first ↦ rw first refused
    | inr later ↦ all b later h'
  ]

  Tells-shift : (n : ℕ) (o : Outcome) → Tells respond (suc from) n o → Tells respond from (suc n) o
  Tells-shift n (accepted a status) (lt, le, good, all) =
      (omega arith, omega arith, good, AllRefused-shift (a - 1) all)
  Tells-shift n (exhausted a status failure) (eq, all) = (omega arith, AllRefused-shift a all)

Response-cases :
    (r : Response)
    → ((status : ℕ) × (text : String) × (r ≡ responded true status text))
      ⊎ ((status : ℕ) × (text : String) × (r ≡ responded false status text))
      ⊎ ((message : String) × (r ≡ threw message))
Response-cases (responded true status text) = inl (status, text, refl)
Response-cases (responded false status text) = inr (inl (status, text, refl))
Response-cases (threw message) = inr (inr (message, refl))

pub attempt_loop-Tells :
    (respond : ℕ → Response) (n from : ℕ) (status : Option ℕ) (failure : Option Failure)
    → Tells respond from n (attempt_loop respond n from status failure)
unfolding attempt_loop
attempt_loop-Tells respond zero from status failure = (omega arith, λ b h h'. ground arith)
attempt_loop-Tells respond (suc n) from status failure =
    elim (Response-cases (respond (suc from))) [
      | inl (code, text, e) ↦
          let step : attempt_loop respond (suc n) from status failure ≡ accepted (suc from) code =
            rw (attempt_loop, e) refl in
          rw step (omega arith, omega arith, rw e refl, λ b h h'. ground arith)
      | inr (inl (code, text, e)) ↦
          let step : attempt_loop respond (suc n) from status failure
              ≡ attempt_loop respond n (suc from) (some code) (some (refused_with code text)) =
            rw (attempt_loop, e) refl in
          rw step
            (Tells-shift respond from (rw e refl) n _ (attempt_loop-Tells respond n (suc from) _ _))
      | inr (inr (message, e)) ↦
          let step : attempt_loop respond (suc n) from status failure
              ≡ attempt_loop respond n (suc from) status (some (thrown message)) =
            rw (attempt_loop, e) refl in
          rw step
            (Tells-shift respond from (rw e refl) n _ (attempt_loop-Tells respond n (suc from) _ _))
    ]

-- What an invocation leaves behind, by its entry `e` and its result: delivered at the first attempt
-- that was accepted, or failed after all of them were refused, one cycle later and either dead or
-- planned again after the delay of that cycle.
abbrev pub Posted :
    Config → (ℕ → Response) → Moment → ℕ → ℕ → OutboxEntry → Result (Unit {0}) → Type 0
Posted config respond moment before count e (ok done) =
    (e.status ≡ DeliveryStatus.delivered)
    × (before < e.attempts)
    × (e.attempts ≤ before + config.max_attempts)
    × (accepts (respond e.attempts) ≡ true)
    × AllRefused respond before (e.attempts - 1)
    × (e.redelivery_count ≡ count)
Posted config respond moment before count e (err error) =
    (e.attempts ≡ before + config.max_attempts)
    × AllRefused respond before e.attempts
    × (e.redelivery_count ≡ suc count)
    × (((config.max_redelivery_cycles ≤ suc count)
          × (e.status ≡ DeliveryStatus.dead_lettered)
          × (e.next_attempt_at ≡ none))
        ⊎ ((suc count < config.max_redelivery_cycles)
            × (e.status ≡ DeliveryStatus.failed)
            × (e.next_attempt_at
                ≡ some (
                    moment.ended_ms
                    + config.redelivery_base_delay_ms
                      * config.redelivery_backoff_multiplier ^ count))))

pred_suc : (n : ℕ) → suc n - 1 ≡ n
pred_suc n = omega arith

module _ (config : Config) (fetch : Fetch) (moment : Moment) (url : String) (payload : Notification)
    (before : ℕ) (created : Timestamp) (count : ℕ) (s : Outbox) where
  entry-id :
      (o : Outcome) (t : Outbox)
      → ((entry_after config moment url payload created count o).notification_id
          ≡ notification_id payload)
        × ((entry_after config moment url payload created count o).payload ≡ payload)
        × ((returns (notification_id payload) o t).1 ≡ t)
  unfolding entry_after
  entry-id (accepted a status) t = (refl, refl, refl)
  entry-id (exhausted a status failure) t = (refl, refl, refl)

  entry-Posted :
      (o : Outcome) (t : Outbox)
      → Tells (fetch url payload) before config.max_attempts o
      → Posted config
          (fetch url payload)
          moment
          before
          count
          (entry_after config moment url payload created count o)
          (returns (notification_id payload) o t).0
  unfolding entry_after
  entry-Posted (accepted a status) t (lt, le, good, all) = (refl, lt, le, good, all, refl)
  entry-Posted (exhausted a status failure) t (eq, all) = (
    eq,
    all,
    refl,
    elim (Bool-cases (leb config.max_redelivery_cycles (suc count))) [
      | inl dead ↦ inl (leb→le _ _ dead, rw dead refl, rw dead refl)
      | inr alive ↦ inr (ground arith, rw alive refl, rw (alive, pred_suc count) refl)
    ],
  )

  -- Every invocation stores exactly one entry, under the id of its notification. It returns when an
  -- attempt was accepted, within `maxAttempts` after those made before; all attempts before that one
  -- were refused. It throws when all were refused: the entry is then dead-lettered from
  -- `maxRedeliveryCycles` on, and until then planned with the exponential delay of its cycle.
  pub post_exact :
      (e : OutboxEntry) × ((post_notification config fetch moment url payload before created count
          s).1
        ≡ insert (notification_id payload) e s)
      × (e.payload ≡ payload)
      × Posted config
          (fetch url payload)
          moment
          before
          count
          e
          (post_notification config fetch moment url payload before created count s).0
  unfolding post_notification
  post_exact =
      let o = attempt_loop (fetch url payload) config.max_attempts before none none in
      let e = entry_after config moment url payload created count o in
      let (named, same, kept) = entry-id o (insert e.notification_id e s) in
      (
        e,
        kept ∙ ap (λ i. insert i e s) named,
        same,
        entry-Posted o (insert e.notification_id e s)
            (attempt_loop-Tells (fetch url payload) config.max_attempts before none none),
      )
