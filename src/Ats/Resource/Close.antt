-- ===== src/Ats/Resource/Close.antt =====
-- `settleResourceReservation` and `releaseResourceReservation`.
use agent_financial_action_l.Base.Action.{ok, assert_found}
use agent_financial_action_l.Base.Map.{lookup}
use agent_financial_action_l.Base.{
  ℕ, ◌+◌, ◌-◌, ◌≤◌, ◌≡◌, refl, ◌∙◌, some, true, false, arith, ap, Option, ◌or_else◌, Option-cases,
  inl, inr, Bool-cases,
}
use agent_financial_action_l.Base.Int.{pos, +ℤ_pos, -ℤ_rest, -ℤ_pos, ◌-ℤ◌, ◌+ℤ◌}
use agent_financial_action_l.Base.Map.Total.{le-total}
use agent_financial_action_l.Ats.Resource.{
  budget_reserved, quota_reserved, settle_resource_reservation, release_resource_reservation,
  next_status, AtsStore, IdRef, ResourceReservation, is_reserved, ResourceBudget, ResourceQuota,
  Timestamp, ReservationStatus, BudgetStatus,
}
use agent_financial_action_l.Ats.Resource.Ledger.{
  held, weight, weight-reserved, held-insert_other, held-insert_closed, budget_of, quota_of,
  IsBacked, IsWithin, IsSized, IsLedger, written, written-IsLedger,
}

-- An open reservation of a known budget and quota in a ledger.
module _ (s : AtsStore) (inv : IsLedger s) (ref : IdRef) (r : ResourceReservation)
    (found : lookup ref s.resource_reservations ≡ some r)
    (open_status : is_reserved r.status ≡ true) (b : ResourceBudget) (q : ResourceQuota)
    (known : lookup r.budget_ref s.resource_budgets ≡ some b)
    (known_quota : lookup r.quota_ref s.resource_quotas ≡ some q) where
  abbrev sized : IsSized ref r
  sized = inv.reservations ref r found

  abbrev backed : IsBacked r.budget_ref b (held budget_of r.budget_ref s.resource_reservations)
  backed = inv.budgets r.budget_ref b known

  abbrev quota : IsWithin r.quota_ref q (held quota_of r.quota_ref s.resource_reservations)
  quota = inv.quotas r.quota_ref q known_quota

  abbrev budget_held : ℕ
  budget_held = held budget_of r.budget_ref s.resource_reservations

  abbrev quota_held : ℕ
  quota_held = held quota_of r.quota_ref s.resource_reservations

  budget_weight : weight budget_of r.budget_ref r ≡ sized.size
  budget_weight = weight-reserved budget_of r.budget_ref r sized.size open_status refl sized.size_eq

  quota_weight : weight quota_of r.quota_ref r ≡ sized.size
  quota_weight = weight-reserved quota_of r.quota_ref r sized.size open_status refl sized.size_eq

  size-le-budget : sized.size ≤ budget_held
  size-le-budget = omega (
    arith,
    budget_weight,
    le-total (weight budget_of r.budget_ref) ref r s.resource_reservations found,
  )

  size-le-quota : sized.size ≤ quota_held
  size-le-quota = omega (
    arith,
    quota_weight,
    le-total (weight quota_of r.quota_ref) ref r s.resource_reservations found,
  )

  budget_freed : budget_reserved b -ℤ r.quantity ≡ pos (budget_held - sized.size)
  budget_freed =
      rw (backed.reserved_eq, sized.size_eq) (-ℤ_pos budget_held sized.size size-le-budget)

  quota_freed : quota_reserved q -ℤ r.quantity ≡ pos (quota_held - sized.size)
  quota_freed = rw (quota.reserved_eq, sized.size_eq) (-ℤ_pos quota_held sized.size size-le-quota)

  consumed_after : b.consumed_quantity +ℤ r.quantity ≡ pos (backed.consumed + sized.size)
  consumed_after = rw (backed.consumed_eq, sized.size_eq) (+ℤ_pos backed.consumed sized.size)

  used_after : q.used_quantity +ℤ r.quantity ≡ pos (quota.used + sized.size)
  used_after = rw (quota.used_eq, sized.size_eq) (+ℤ_pos quota.used sized.size)

  available_settled :
      b.limit_quantity -ℤ pos (backed.consumed + sized.size) -ℤ pos (budget_held - sized.size)
      ≡ pos backed.available
  available_settled = rw backed.limit_eq (
      -ℤ_rest backed.limit (backed.consumed + sized.size) (budget_held - sized.size)
        (omega (arith, backed.balance, size-le-budget))
      ∙ ap pos (omega (arith, backed.balance, size-le-budget)))

  available_released :
      b.limit_quantity -ℤ b.consumed_quantity -ℤ pos (budget_held - sized.size)
      ≡ pos (backed.available + sized.size)
  available_released =
      rw (backed.limit_eq, backed.consumed_eq)
        (-ℤ_rest backed.limit backed.consumed (budget_held - sized.size)
            (omega (arith, backed.balance, size-le-budget))
          ∙ ap pos (omega (arith, backed.balance, size-le-budget)))

  quota_rest_settled :
      q.max_quantity -ℤ pos (quota.used + sized.size) -ℤ pos (quota_held - sized.size)
      ≡ pos (quota.maximum - quota.used - quota_held)
  quota_rest_settled = rw quota.maximum_eq (
      -ℤ_rest quota.maximum (quota.used + sized.size) (quota_held - sized.size)
        (omega (arith, quota.within, size-le-quota))
      ∙ ap pos (omega (arith, quota.within, size-le-quota)))

  -- A closed reservation, its budget's and its quota's new numbers, written.
  closed-IsLedger :
      (r' : ResourceReservation) (b' : ResourceBudget) (q' : ResourceQuota)
      → r'.reservation_id ≡ ref
      → r'.budget_ref ≡ r.budget_ref
      → r'.quota_ref ≡ r.quota_ref
      → r'.quantity ≡ r.quantity
      → is_reserved r'.status ≡ false
      → IsBacked r.budget_ref b' (budget_held - sized.size)
      → IsWithin r.quota_ref q' (quota_held - sized.size)
      → IsLedger (written s ref r.budget_ref r.quota_ref r' b' q')
  closed-IsLedger r' b' q' kr kb kq ks closed backed' quota' =
      written-IsLedger s ref r.budget_ref r.quota_ref r' b' q' inv
        (record { keyed = kr; size = sized.size; size_eq = rw ks sized.size_eq })
        (λ k n. held-insert_other budget_of k ref r' s.resource_reservations r found (rw kb n) n)
        (λ k n. held-insert_other quota_of k ref r' s.resource_reservations r found (rw kq n) n)
        (rw
          (held-insert_closed budget_of r.budget_ref ref r' s.resource_reservations r sized.size
            found budget_weight closed)
          backed')
        (rw
          (held-insert_closed quota_of r.quota_ref ref r' s.resource_reservations r sized.size found
            quota_weight closed)
          quota')

  module _ (now : Timestamp) (at : Option Timestamp) where
    abbrev pub settled_reservation : ResourceReservation
    settled_reservation = record r {
      status = ReservationStatus.settled;
      settled_at = some (at or_else now);
      updated_at = at or_else now;
    }

    abbrev pub settled_budget : ResourceBudget
    settled_budget = record b {
      consumed_quantity = pos (backed.consumed + sized.size);
      reserved_quantity = some (pos (budget_held - sized.size));
      available_quantity = pos backed.available;
      status = next_status (pos backed.available) b.status;
      updated_at = at or_else now;
    }

    abbrev pub settled_quota : ResourceQuota
    settled_quota = record q {
      used_quantity = pos (quota.used + sized.size);
      reserved_quantity = some (pos (quota_held - sized.size));
      status = next_status (pos (quota.maximum - quota.used - quota_held)) q.status;
      updated_at = at or_else now;
    }

    -- Settling an open reservation of a ledger moves its quantity from reserved to consumed in the
    -- budget and from reserved to used in the quota; what the budget has available stays.
    pub settle_capacity_exact : settle_resource_reservation now ref at s ≡ (
      ok (settled_reservation, settled_budget, settled_quota),
      written s ref r.budget_ref r.quota_ref settled_reservation settled_budget settled_quota,
    )
    unfolding settle_resource_reservation
    settle_capacity_exact = rw (
      found, assert_found, open_status, known, known_quota, budget_freed, quota_freed,
      consumed_after, used_after, available_settled, quota_rest_settled, backed.keyed, quota.keyed,
      sized.keyed,
    )

    settle-IsLedger_open : IsLedger (settle_resource_reservation now ref at s).1
    settle-IsLedger_open = rw settle_capacity_exact (
        closed-IsLedger settled_reservation settled_budget settled_quota sized.keyed refl refl refl
          refl
          (record {
            keyed = backed.keyed;
            limit = backed.limit;
            consumed = backed.consumed + sized.size;
            available = backed.available;
            limit_eq = backed.limit_eq;
            consumed_eq = refl;
            reserved_eq = refl;
            available_eq = refl;
            balance = omega (arith, backed.balance, size-le-budget);
          })
          (record {
            keyed = quota.keyed;
            maximum = quota.maximum;
            used = quota.used + sized.size;
            maximum_eq = quota.maximum_eq;
            used_eq = refl;
            reserved_eq = refl;
            within = omega (arith, quota.within, size-le-quota);
          }))

    module _ (why : Option IdRef) where
      abbrev pub released_reservation : ResourceReservation
      released_reservation = record r {
        status = ReservationStatus.released;
        released_at = some (at or_else now);
        release_reason_code = why;
        updated_at = at or_else now;
      }

      abbrev pub released_budget : ResourceBudget
      released_budget = record b {
        reserved_quantity = some (pos (budget_held - sized.size));
        available_quantity = pos (backed.available + sized.size);
        status = BudgetStatus.active;
        updated_at = at or_else now;
      }

      abbrev pub released_quota : ResourceQuota
      released_quota = record q {
        reserved_quantity = some (pos (quota_held - sized.size));
        status = BudgetStatus.active;
        updated_at = at or_else now;
      }

      -- Releasing an open reservation of a ledger frees its quantity in the budget and in the quota,
      -- and marks both active, whatever their status was.
      pub release_capacity_exact : release_resource_reservation now ref at why s ≡ (
        ok (released_reservation, released_budget, released_quota),
        written s ref r.budget_ref r.quota_ref released_reservation released_budget released_quota,
      )
      unfolding release_resource_reservation
      release_capacity_exact = rw (
        found, assert_found, open_status, known, known_quota, budget_freed, quota_freed,
        available_released, backed.keyed, quota.keyed, sized.keyed,
      )

      release-IsLedger_open : IsLedger (release_resource_reservation now ref at why s).1
      release-IsLedger_open = rw release_capacity_exact (
          closed-IsLedger released_reservation released_budget released_quota sized.keyed refl refl
            refl refl
            (record {
              keyed = backed.keyed;
              limit = backed.limit;
              consumed = backed.consumed;
              available = backed.available + sized.size;
              limit_eq = backed.limit_eq;
              consumed_eq = backed.consumed_eq;
              reserved_eq = refl;
              available_eq = refl;
              balance = omega (arith, backed.balance, size-le-budget);
            })
            (record {
              keyed = quota.keyed;
              maximum = quota.maximum;
              used = quota.used;
              maximum_eq = quota.maximum_eq;
              used_eq = quota.used_eq;
              reserved_eq = refl;
              within = omega (arith, quota.within, size-le-quota);
            }))

-- Settling keeps the ledger on every branch: an unknown or closed reservation, an unknown budget and
-- an unknown quota throw before anything is written.
pub settle-IsLedger :
    (now : Timestamp) (ref : IdRef) (at : Option Timestamp) (s : AtsStore)
    → IsLedger s
    → IsLedger (settle_resource_reservation now ref at s).1
settle-IsLedger now ref at s inv = elim (Option-cases (lookup ref s.resource_reservations)) [
  | inl missing ↦ unfold settle_resource_reservation in rw (missing, assert_found) inv
  | inr (r, found) ↦ elim (Bool-cases (is_reserved r.status)) [
    | inr closed ↦ unfold settle_resource_reservation in rw (found, assert_found, closed) inv
    | inl open_status ↦ elim (Option-cases (lookup r.budget_ref s.resource_budgets)) [
      | inl unknown ↦
          unfold settle_resource_reservation in rw (found, assert_found, open_status, unknown) inv
      | inr (b, known) ↦ elim (Option-cases (lookup r.quota_ref s.resource_quotas)) [
        | inl unknown ↦
            unfold settle_resource_reservation in
            rw (found, assert_found, open_status, known, unknown) inv
        | inr (q, known_quota) ↦
            settle-IsLedger_open s inv ref r found open_status b q known known_quota now at
      ]
    ]
  ]
]

-- Releasing keeps the ledger on every branch.
pub release-IsLedger :
    (now : Timestamp) (ref : IdRef) (at : Option Timestamp) (why : Option IdRef) (s : AtsStore)
    → IsLedger s
    → IsLedger (release_resource_reservation now ref at why s).1
release-IsLedger now ref at why s inv = elim (Option-cases (lookup ref s.resource_reservations)) [
  | inl missing ↦ unfold release_resource_reservation in rw (missing, assert_found) inv
  | inr (r, found) ↦ elim (Bool-cases (is_reserved r.status)) [
    | inr closed ↦ unfold release_resource_reservation in rw (found, assert_found, closed) inv
    | inl open_status ↦ elim (Option-cases (lookup r.budget_ref s.resource_budgets)) [
      | inl unknown ↦
          unfold release_resource_reservation in rw (found, assert_found, open_status, unknown) inv
      | inr (b, known) ↦ elim (Option-cases (lookup r.quota_ref s.resource_quotas)) [
        | inl unknown ↦
            unfold release_resource_reservation in
            rw (found, assert_found, open_status, known, unknown) inv
        | inr (q, known_quota) ↦
            release-IsLedger_open s inv ref r found open_status b q known known_quota now at why
      ]
    ]
  ]
]
