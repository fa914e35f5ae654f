-- ===== src/Ats/Monetary/Once.antt =====
-- Each operation on monetary budgets is atomic, and a reservation is closed once.
use agent_financial_action_l.Base.{◌≡◌, false, Option, some, arith, inl, inr, Option-cases}
use agent_financial_action_l.Base.Action.{
  ok, err, assert_found, monetary_reservation_not_active, IsAtomic, IsAtomic-intro,
}
use agent_financial_action_l.Base.Map.{lookup, lookup-insert_self}
use agent_financial_action_l.Money.{DecimalString}
use agent_financial_action_l.Types.{IdRef, Timestamp}
use agent_financial_action_l.Types.Ats.{MonetaryBudget, MonetaryReservation, is_reserved}
use agent_financial_action_l.Ats.{AtsStore}
use agent_financial_action_l.Ats.Monetary.{
  consume_monetary_budget, reserve_monetary_budget, settle_monetary_reservation,
  release_monetary_reservation,
}
use agent_financial_action_l.Ats.Monetary.Ledger.{IsLedger}

-- A consumption, reservation, settlement or release of money that throws has written nothing.
pub monetary-IsAtomic :
    (now : Timestamp) (rid bref aref act : IdRef) (amount : DecimalString) (at : Option Timestamp)
    (why : Option IdRef) (s : AtsStore)
    → IsAtomic s (consume_monetary_budget now bref amount at s)
      × IsAtomic s (reserve_monetary_budget now rid bref aref act amount at s)
      × IsAtomic s (settle_monetary_reservation now rid at s)
      × IsAtomic s (release_monetary_reservation now rid at why s)
unfolding consume_monetary_budget reserve_monetary_budget settle_monetary_reservation
    release_monetary_reservation
monetary-IsAtomic now rid bref aref act amount at why s = (
  IsAtomic-intro s _ (λ e h. ground arith),
  IsAtomic-intro s _ (λ e h. ground arith),
  IsAtomic-intro s _ (λ e h. ground arith),
  IsAtomic-intro s _ (λ e h. ground arith),
)

settled_closed :
    (now : Timestamp) (ref : IdRef) (at : Option Timestamp) (s : AtsStore) (r : MonetaryReservation)
    (b : MonetaryBudget)
    → IsLedger s
    → (settle_monetary_reservation now ref at s).0 ≡ ok (r, b)
    → (lookup ref (settle_monetary_reservation now ref at s).1.monetary_reservations ≡ some r)
      × (is_reserved r.status ≡ false)
unfolding settle_monetary_reservation
settled_closed now ref at s r b inv h = elim (Option-cases (lookup ref s.monetary_reservations)) [
  | inl missing ↦ ground arith
  | inr (r', found) ↦ grind (arith, lookup-insert_self, (inv.reservations ref r' found).keyed)
]

released_closed :
    (now : Timestamp) (ref : IdRef) (at : Option Timestamp) (why : Option IdRef) (s : AtsStore)
    (r : MonetaryReservation) (b : MonetaryBudget)
    → IsLedger s
    → (release_monetary_reservation now ref at why s).0 ≡ ok (r, b)
    → (lookup ref (release_monetary_reservation now ref at why s).1.monetary_reservations ≡ some r)
      × (is_reserved r.status ≡ false)
unfolding release_monetary_reservation
released_closed now ref at why s r b inv h =
    elim (Option-cases (lookup ref s.monetary_reservations)) [
      | inl missing ↦ ground arith
      | inr (r', found) ↦ grind (arith, lookup-insert_self, (inv.reservations ref r' found).keyed)
    ]

-- A closed reservation can neither be settled nor released.
pub closed_refuses :
    (now : Timestamp) (ref : IdRef) (at : Option Timestamp) (why : Option IdRef) (s : AtsStore)
    (r : MonetaryReservation)
    → lookup ref s.monetary_reservations ≡ some r
    → is_reserved r.status ≡ false
    → (settle_monetary_reservation now ref at s ≡ (err (monetary_reservation_not_active ref), s))
      × (release_monetary_reservation now ref at why s
          ≡ (err (monetary_reservation_not_active ref), s))
unfolding settle_monetary_reservation release_monetary_reservation
closed_refuses now ref at why s r found closed =
    (rw (found, assert_found, closed), rw (found, assert_found, closed))

-- The state after settling or releasing the reservation `ref`.
pub data Closes (ref : IdRef) (s s' : AtsStore) : Type 0 where
  by_settling :
      (now : Timestamp) (at : Option Timestamp) (r : MonetaryReservation) (b : MonetaryBudget)
      → settle_monetary_reservation now ref at s ≡ (ok (r, b), s')
      → Closes ref s s'
  by_releasing :
      (now : Timestamp) (at : Option Timestamp) (why : Option IdRef) (r : MonetaryReservation)
      (b : MonetaryBudget)
      → release_monetary_reservation now ref at why s ≡ (ok (r, b), s')
      → Closes ref s s'

-- A reservation that was settled or released in a ledger is closed for good: settling or releasing
-- it again throws that it is not active, and writes nothing.
pub monetary_stays_closed :
    (now : Timestamp) (ref : IdRef) (at : Option Timestamp) (why : Option IdRef) (s s' : AtsStore)
    → IsLedger s
    → Closes ref s s'
    → (settle_monetary_reservation now ref at s' ≡ (err (monetary_reservation_not_active ref), s'))
      × (release_monetary_reservation now ref at why s'
          ≡ (err (monetary_reservation_not_active ref), s'))
monetary_stays_closed now ref at why s s' inv (by_settling now' at' r b e) =
    let (found, closed) = settled_closed now' ref at' s r b inv (rw e) in
    closed_refuses now ref at why s' r (rw e at found) closed
monetary_stays_closed now ref at why s s' inv (by_releasing now' at' why' r b e) =
    let (found, closed) = released_closed now' ref at' why' s r b inv (rw e) in
    closed_refuses now ref at why s' r (rw e at found) closed
