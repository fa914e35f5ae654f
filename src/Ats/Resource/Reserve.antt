-- ===== src/Ats/Resource/Reserve.antt =====
-- `reserveResourceCapacity` on every branch, and that it keeps the ledger.
use agent_financial_action_l.Base.Map.Total.{total-insert_new}
use agent_financial_action_l.Base.Action.{
  ok, err, resource_quota_exceeded, resource_budget_exceeded, assert_found,
}
use agent_financial_action_l.Base.Map.{lookup}
use agent_financial_action_l.Base.{
  ℕ, ◌+◌, ◌-◌, ◌≤◌, ◌<◌, ◌≡◌, ◌∙◌, inl, inr, some, Option, arith, if◌then◌else◌, ap, true,
  ◌or_else◌, leb, Bool-cases, leb→le, none, Option-cases, refl,
}
use agent_financial_action_l.Base.Int.{pos, +ℤ_pos, -ℤ_rest, ◌-ℤ◌, ◌+ℤ◌, is_negative_rest}
use agent_financial_action_l.Ats.Resource.{
  budget_reserved, quota_reserved, reserve_resource_capacity, open_reservation, Timestamp, IdRef,
  AtsStore, ResourceBudget, ResourceQuota, ℤ, is_negative, ResourceReservation, next_status,
}
use agent_financial_action_l.Ats.Resource.Ledger.{
  held, budget_of, quota_of, IsBacked, IsWithin, IsLedger, written, written-IsLedger,
  held-insert_new_other, weight, weight-reserved,
}

module _ (now : Timestamp) (rid bref qref aref act : IdRef) (x : ℕ) (at : Option Timestamp)
    (s : AtsStore) (inv : IsLedger s) (b : ResourceBudget) (q : ResourceQuota)
    (known : lookup bref s.resource_budgets ≡ some b)
    (known_quota : lookup qref s.resource_quotas ≡ some q) where
  abbrev backed : IsBacked bref b (held budget_of bref s.resource_reservations)
  backed = inv.budgets bref b known

  abbrev quota : IsWithin qref q (held quota_of qref s.resource_reservations)
  quota = inv.quotas qref q known_quota

  abbrev budget_held : ℕ
  budget_held = held budget_of bref s.resource_reservations

  abbrev quota_held : ℕ
  quota_held = held quota_of qref s.resource_reservations

  abbrev budget_rest : ℤ
  budget_rest = b.limit_quantity -ℤ b.consumed_quantity -ℤ (budget_reserved b +ℤ pos x)

  abbrev quota_rest : ℤ
  quota_rest = q.max_quantity -ℤ q.used_quantity -ℤ (quota_reserved q +ℤ pos x)

  budget_sum : budget_reserved b +ℤ pos x ≡ pos (budget_held + x)
  budget_sum = rw backed.reserved_eq (+ℤ_pos budget_held x)

  quota_sum : quota_reserved q +ℤ pos x ≡ pos (quota_held + x)
  quota_sum = rw quota.reserved_eq (+ℤ_pos quota_held x)

  budget_rest_numbers :
      budget_rest ≡ pos backed.limit -ℤ pos backed.consumed -ℤ pos (budget_held + x)
  budget_rest_numbers = rw (backed.limit_eq, backed.consumed_eq, budget_sum)

  quota_rest_numbers : quota_rest ≡ pos quota.maximum -ℤ pos quota.used -ℤ pos (quota_held + x)
  quota_rest_numbers = rw (quota.maximum_eq, quota.used_eq, quota_sum)

  budget_rest_fits : x ≤ backed.available → budget_rest ≡ pos (backed.available - x)
  budget_rest_fits h =
      budget_rest_numbers
      ∙ -ℤ_rest backed.limit backed.consumed (budget_held + x) (omega (arith, backed.balance))
      ∙ ap pos (omega (arith, backed.balance))

  quota_rest_fits :
      quota.used + (quota_held + x) ≤ quota.maximum
      → quota_rest ≡ pos (quota.maximum - quota.used - (quota_held + x))
  quota_rest_fits h = quota_rest_numbers ∙ -ℤ_rest quota.maximum quota.used (quota_held + x) h

  budget_exceeds : backed.available < x → is_negative budget_rest ≡ true
  budget_exceeds h = rw budget_rest_numbers (
      is_negative_rest backed.limit backed.consumed (budget_held + x)
        (omega (arith, backed.balance)) (omega (arith, backed.balance)))

  quota_exceeds : quota.maximum < quota.used + (quota_held + x) → is_negative quota_rest ≡ true
  quota_exceeds h =
      rw quota_rest_numbers
        (is_negative_rest quota.maximum quota.used (quota_held + x) (omega (arith, quota.within)) h)

  abbrev opened : ResourceReservation
  opened = open_reservation rid bref qref aref act (pos x) (at or_else now)

  abbrev pub reserving_budget : ResourceBudget
  reserving_budget = record b {
    reserved_quantity = some (pos (budget_held + x));
    available_quantity = pos (backed.available - x);
    status = next_status (pos (backed.available - x)) b.status;
    updated_at = at or_else now;
  }

  abbrev pub reserving_quota : ResourceQuota
  reserving_quota = record q {
    reserved_quantity = some (pos (quota_held + x));
    status = next_status (pos (quota.maximum - quota.used - (quota_held + x))) q.status;
    updated_at = at or_else now;
  }

  -- On a known budget and quota of a ledger a quantity is reserved exactly if the budget has it
  -- available and the quota has room for it. A budget that is short is reported before a quota that
  -- is short, and then nothing is written.
  pub reserve_capacity_exact : reserve_resource_capacity now rid bref qref aref act (pos x) at s ≡ (
      if leb x backed.available
      then if leb (quota.used + (quota_held + x)) quota.maximum
        then (
          ok (opened, reserving_budget, reserving_quota),
          written s rid bref qref opened reserving_budget reserving_quota,
        )
        else (err (resource_quota_exceeded qref), s)
      else (err (resource_budget_exceeded bref), s))
  unfolding reserve_resource_capacity
  reserve_capacity_exact =
      rw (known, assert_found, known_quota)
        (elim (Bool-cases (leb x backed.available)) [
          | inr short ↦ rw (short, budget_exceeds (ground arith))
          | inl has ↦
              rw (has, budget_rest_fits (leb→le _ _ has))
                (elim (Bool-cases (leb (quota.used + (quota_held + x)) quota.maximum)) [
                  | inr full ↦ rw (full, quota_exceeds (ground arith))
                  | inl room ↦ rw (
                    room,
                    quota_rest_fits (leb→le _ _ room),
                    budget_sum,
                    quota_sum,
                    backed.keyed,
                    quota.keyed,
                  )
                ])
        ])

  reserve-IsLedger_known :
      lookup rid s.resource_reservations ≡ none
      → IsLedger (reserve_resource_capacity now rid bref qref aref act (pos x) at s).1
  reserve-IsLedger_known fresh =
      rw reserve_capacity_exact (elim (Bool-cases (leb x backed.available)) [
        | inr short ↦ rw short inv
        | inl has ↦ rw has (elim (Bool-cases (leb (quota.used + (quota_held + x)) quota.maximum)) [
          | inr full ↦ rw full inv
          | inl room ↦ rw room (
              written-IsLedger s rid bref qref opened reserving_budget reserving_quota inv
                (record { keyed = refl; size = x; size_eq = refl })
                (λ k n.
                  held-insert_new_other budget_of k rid opened s.resource_reservations fresh n)
                (λ k n. held-insert_new_other quota_of k rid opened s.resource_reservations fresh n)
                (rw
                  (
                    total-insert_new (weight budget_of bref) rid opened s.resource_reservations
                        fresh,
                    weight-reserved budget_of bref opened x refl refl refl,
                  )
                  (record {
                    keyed = backed.keyed;
                    limit = backed.limit;
                    consumed = backed.consumed;
                    available = backed.available - x;
                    limit_eq = backed.limit_eq;
                    consumed_eq = backed.consumed_eq;
                    reserved_eq = refl;
                    available_eq = refl;
                    balance = omega (arith, backed.balance, leb→le x backed.available has);
                  }))
                (rw
                  (
                    total-insert_new (weight quota_of qref) rid opened s.resource_reservations
                        fresh,
                    weight-reserved quota_of qref opened x refl refl refl,
                  )
                  (record {
                    keyed = quota.keyed;
                    maximum = quota.maximum;
                    used = quota.used;
                    maximum_eq = quota.maximum_eq;
                    used_eq = quota.used_eq;
                    reserved_eq = refl;
                    within = leb→le _ _ room;
                  })))
        ])
      ])

-- Reserving a quantity under a new id keeps the ledger, whether the call returns or throws.
pub reserve-IsLedger :
    (now : Timestamp) (rid bref qref aref act : IdRef) (x : ℕ) (at : Option Timestamp)
    (s : AtsStore)
    → IsLedger s
    → lookup rid s.resource_reservations ≡ none
    → IsLedger (reserve_resource_capacity now rid bref qref aref act (pos x) at s).1
reserve-IsLedger now rid bref qref aref act x at s inv fresh =
    elim (Option-cases (lookup bref s.resource_budgets)) [
      | inl missing ↦ unfold reserve_resource_capacity in rw (missing, assert_found) inv
      | inr (b, known) ↦ elim (Option-cases (lookup qref s.resource_quotas)) [
        | inl missing ↦ unfold reserve_resource_capacity in rw (known, assert_found, missing) inv
        | inr (q, known_quota) ↦
            reserve-IsLedger_known now rid bref qref aref act x at s inv b q known known_quota fresh
      ]
    ]
