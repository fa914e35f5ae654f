-- ===== src/Runtime/Unreserved.antt =====
-- What a payment does whose reservation is not open any more.
use agent_financial_action_l.Base.Action.{Result-cases, pure, throw}
use agent_financial_action_l.Types.Afal.{SettlementRecord, ActionReceipt}
use agent_financial_action_l.Ats.Monetary.{
  release_monetary_reservation, settle_monetary_reservation,
}
use agent_financial_action_l.Runtime.Pay.{
  settle_budget, record_payment, dispatch_payment_settlement_notification, execute_or_release, pay,
}
use agent_financial_action_l.Base.Map.{lookup}
use agent_financial_action_l.Types.Ats.{MonetaryReservation, is_reserved}
use agent_financial_action_l.Runtime.Resume.{Resumption, release_payment}
use agent_financial_action_l.Runtime.{
  Environment, IdRef, AtsStore, PaymentIntent, Timestamp, AfalState, Action, ◌>>=◌, Error, catching,
  IntentStore, OutputStore, Outbox, SettlementStore, on_intents, on_outputs, on_outbox,
  on_settlement,
}
use agent_financial_action_l.Base.{◌≡◌, some, arith, false, Option, String, inl, inr}

-- A call that leaves the accounts at `ats`.
pub record Leaves {A : Type 0} (ats : AtsStore) (m : Action AfalState A) : Type 0 where
  pub leave : (u : AfalState) → u.ats ≡ ats → (m u).1.ats ≡ ats

module _ {ats : AtsStore} where
  bind-Leaves :
      {A B : Type 0} {m : Action AfalState A} {f : A → Action AfalState B}
      → Leaves ats m
      → ((a : A) → Leaves ats (f a))
      → Leaves ats (m >>= f)
  bind-Leaves {m = m} first later = record {
    leave = λ u same. elim (Result-cases (m u).0) [
      | inl (a, returned) ↦ rw returned ((later a).leave (m u).1 (first.leave u same))
      | inr (e, thrown) ↦ rw thrown (first.leave u same)
    ];
  }

  catching-Leaves :
      {A : Type 0} {m : Action AfalState A} {handler : Error → Action AfalState A}
      → Leaves ats m
      → ((e : Error) → Leaves ats (handler e))
      → Leaves ats (catching m handler)
  catching-Leaves {m = m} first later = record {
    leave = λ u same. elim (Result-cases (m u).0) [
      | inl (a, returned) ↦ rw returned (first.leave u same)
      | inr (e, thrown) ↦ rw thrown ((later e).leave (m u).1 (first.leave u same))
    ];
  }

  pure-Leaves : {A : Type 0} (a : A) → Leaves ats (pure a)
  pure-Leaves a = record { leave = λ u same. same }

  throw-Leaves : {A : Type 0} (e : Error) → Leaves {A = A} ats (throw e)
  throw-Leaves e = record { leave = λ u same. same }

  on_intents-Leaves : {A : Type 0} (m : Action IntentStore A) → Leaves ats (on_intents m)
  on_intents-Leaves m = record { leave = λ u same. same }

  on_outputs-Leaves : {A : Type 0} (m : Action OutputStore A) → Leaves ats (on_outputs m)
  on_outputs-Leaves m = record { leave = λ u same. same }

  on_outbox-Leaves : {A : Type 0} (m : Action Outbox A) → Leaves ats (on_outbox m)
  on_outbox-Leaves m = record { leave = λ u same. same }

  on_settlement-Leaves : {A : Type 0} (m : Action SettlementStore A) → Leaves ats (on_settlement m)
  on_settlement-Leaves m = record { leave = λ u same. same }

  ruleset leaving = (
    bind-Leaves, catching-Leaves, pure-Leaves, throw-Leaves, on_intents-Leaves, on_outputs-Leaves,
    on_outbox-Leaves, on_settlement-Leaves,
  )

module _ (env : Environment) (args : Resumption) (ref : IdRef) (r : MonetaryReservation)
    (ats : AtsStore) (reserved : args.pending.reservation_ref ≡ some ref)
    (found : lookup ref ats.monetary_reservations ≡ some r)
    (closed : is_reserved r.status ≡ false) where
  settle_closed :
      (settlement : SettlementRecord) → Leaves ats (settle_budget env args.pending settlement)
  unfolding settle_budget settle_monetary_reservation
  settle_closed settlement = record {
    leave = λ u same. rw reserved (ground (arith, found, closed, same));
  }

  release_closed :
      (at : Option Timestamp) (reason : String)
      → Leaves ats (release_payment env args.pending.reservation_ref at reason)
  unfolding release_monetary_reservation
  release_closed at reason = record {
    leave = λ u same. rw reserved (ground (arith, found, closed, same));
  }

  record_closed :
      (intent : PaymentIntent) (receipt : ActionReceipt) (settlement : SettlementRecord)
      → Leaves ats (record_payment env args intent receipt settlement)
  unfolding record_payment dispatch_payment_settlement_notification
  record_closed intent receipt settlement = search (leaving, settle_closed) depth 40

  pub pay_closed : (intent : PaymentIntent) → Leaves ats (pay env args intent)
  unfolding pay execute_or_release
  pay_closed intent = search (leaving, release_closed, record_closed) depth 40
