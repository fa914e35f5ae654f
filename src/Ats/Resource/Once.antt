-- ===== src/Ats/Resource/Once.antt =====
-- Each operation on resource budgets and quotas is atomic, and a reservation is closed once.
use agent_financial_action_l.Base.{◌≡◌, false, Option, some, arith, inl, inr, Option-cases}
use agent_financial_action_l.Base.Action.{
  ok, err, assert_found, resource_reservation_not_active, IsAtomic, IsAtomic-intro,
}
use agent_financial_action_l.Base.Map.{lookup, lookup-insert_self}
use agent_financial_action_l.Base.Int.{ℤ}
use agent_financial_action_l.Types.{IdRef, Timestamp}
use agent_financial_action_l.Types.Ats.{
  ResourceBudget, ResourceReservation, ResourceQuota, is_reserved,
}
use agent_financial_action_l.Ats.{AtsStore}
use agent_financial_action_l.Ats.Resource.{
  consume_resource_budget, consume_resource_quota, reserve_resource_capacity,
  settle_resource_reservation, release_resource_reservation,
}
use agent_financial_action_l.Ats.Resource.Ledger.{IsLedger}

-- A consumption, reservation, settlement or release that throws has written nothing.
pub resource-IsAtomic :
    (now : Timestamp) (rid bref qref aref act : IdRef) (n : ℤ) (at : Option Timestamp)
    (why : Option IdRef) (s : AtsStore)
    → IsAtomic s (consume_resource_budget now bref n at s)
      × IsAtomic s (consume_resource_quota now qref n at s)
      × IsAtomic s (reserve_resource_capacity now rid bref qref aref act n at s)
      × IsAtomic s (settle_resource_reservation now rid at s)
      × IsAtomic s (release_resource_reservation now rid at why s)
unfolding consume_resource_budget consume_resource_quota reserve_resource_capacity
    settle_resource_reservation release_resource_reservation
resource-IsAtomic now rid bref qref aref act n at why s = (
  IsAtomic-intro s _ (λ e h. ground arith),
  IsAtomic-intro s _ (λ e h. ground arith),
  IsAtomic-intro s _ (λ e h. ground arith),
  IsAtomic-intro s _ (λ e h. ground arith),
  IsAtomic-intro s _ (λ e h. ground arith),
)

settled_closed :
    (now : Timestamp) (ref : IdRef) (at : Option Timestamp) (s : AtsStore) (r : ResourceReservation)
    (b : ResourceBudget) (q : ResourceQuota)
    → IsLedger s
    → (settle_resource_reservation now ref at s).0 ≡ ok (r, b, q)
    → (lookup ref (settle_resource_reservation now ref at s).1.resource_reservations ≡ some r)
      × (is_reserved r.status ≡ false)
unfolding settle_resource_reservation
settled_closed now ref at s r b q inv h = elim (Option-cases (lookup ref s.resource_reservations)) [
  | inl missing ↦ ground arith
  | inr (r', found) ↦ grind (arith, lookup-insert_self, (inv.reservations ref r' found).keyed)
]

released_closed :
    (now : Timestamp) (ref : IdRef) (at : Option Timestamp) (why : Option IdRef) (s : AtsStore)
    (r : ResourceReservation) (b : ResourceBudget) (q : ResourceQuota)
    → IsLedger s
    → (release_resource_reservation now ref at why s).0 ≡ ok (r, b, q)
    → (lookup ref (release_resource_reservation now ref at why s).1.resource_reservations ≡ some r)
      × (is_reserved r.status ≡ false)
unfolding release_resource_reservation
released_closed now ref at why s r b q inv h =
    elim (Option-cases (lookup ref s.resource_reservations)) [
      | inl missing ↦ ground arith
      | inr (r', found) ↦ grind (arith, lookup-insert_self, (inv.reservations ref r' found).keyed)
    ]

-- A closed reservation can neither be settled nor released.
pub closed_refuses :
    (now : Timestamp) (ref : IdRef) (at : Option Timestamp) (why : Option IdRef) (s : AtsStore)
    (r : ResourceReservation)
    → lookup ref s.resource_reservations ≡ some r
    → is_reserved r.status ≡ false
    → (settle_resource_reservation now ref at s ≡ (err (resource_reservation_not_active ref), s))
      × (release_resource_reservation now ref at why s
          ≡ (err (resource_reservation_not_active ref), s))
unfolding settle_resource_reservation release_resource_reservation
closed_refuses now ref at why s r found closed =
    (rw (found, assert_found, closed), rw (found, assert_found, closed))

-- The state after settling or releasing the reservation `ref`.
pub data Closes (ref : IdRef) (s s' : AtsStore) : Type 0 where
  by_settling :
      (now : Timestamp) (at : Option Timestamp) (r : ResourceReservation) (b : ResourceBudget)
      (q : ResourceQuota)
      → settle_resource_reservation now ref at s ≡ (ok (r, b, q), s')
      → Closes ref s s'
  by_releasing :
      (now : Timestamp) (at : Option Timestamp) (why : Option IdRef) (r : ResourceReservation)
      (b : ResourceBudget) (q : ResourceQuota)
      → release_resource_reservation now ref at why s ≡ (ok (r, b, q), s')
      → Closes ref s s'

-- A reservation that was settled or released in a ledger is closed for good: settling or releasing
-- it again throws that it is not active, and writes nothing.
pub resource_stays_closed :
    (now : Timestamp) (ref : IdRef) (at : Option Timestamp) (why : Option IdRef) (s s' : AtsStore)
    → IsLedger s
    → Closes ref s s'
    → (settle_resource_reservation now ref at s' ≡ (err (resource_reservation_not_active ref), s'))
      × (release_resource_reservation now ref at why s'
          ≡ (err (resource_reservation_not_active ref), s'))
resource_stays_closed now ref at why s s' inv (by_settling now' at' r b q e) =
    let (found, closed) = settled_closed now' ref at' s r b q inv (rw e) in
    closed_refuses now ref at why s' r (rw e at found) closed
resource_stays_closed now ref at why s s' inv (by_releasing now' at' why' r b q e) =
    let (found, closed) = released_closed now' ref at' why' s r b q inv (rw e) in
    closed_refuses now ref at why s' r (rw e at found) closed
