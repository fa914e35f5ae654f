-- ===== src/Ats/Resource.antt =====
-- backend/ats/service.ts: the operations on resource budgets, quotas and their reservations.
pub mod Ledger
pub mod Reserve
pub mod Close
pub mod Once
pub mod Trace
use agent_financial_action_l.Base.{not, Option, none, some, ◌or_else◌, if◌then◌else◌}
use agent_financial_action_l.Base.Int.{ℤ, pos, ◌+ℤ◌, ◌-ℤ◌, is_negative, is_zero, max_zero}
use agent_financial_action_l.Base.Action.{
  Action, pure, throw_if, ◌>>=◌, ◌>>◌, resource_budget_exceeded, resource_quota_exceeded,
  resource_reservation_not_active,
}
use agent_financial_action_l.Types.{IdRef, Timestamp}
use agent_financial_action_l.Types.Ats.{
  BudgetStatus, ResourceBudget, ResourceQuota, ResourceReservation, ReservationStatus, is_reserved,
}
use agent_financial_action_l.Ats.{
  AtsStore, get_resource_budget_state, get_resource_quota_state, get_resource_reservation_state,
  put_resource_budget, put_resource_quota, put_resource_reservation,
}

-- `getReservedQuantity`, of a budget and of a quota.
abbrev pub budget_reserved : ResourceBudget → ℤ
budget_reserved b = b.reserved_quantity or_else pos 0

abbrev pub quota_reserved : ResourceQuota → ℤ
quota_reserved q = q.reserved_quantity or_else pos 0

-- `nextAvailable === 0 ? "exhausted" : status`
abbrev pub next_status : ℤ → BudgetStatus → BudgetStatus
next_status available status = if is_zero available then BudgetStatus.exhausted else status

unfoldable pub consume_resource_budget :
    Timestamp → IdRef → ℤ → Option Timestamp → Action AtsStore ResourceBudget
consume_resource_budget now budget_ref quantity updated_at = do
  budget ← get_resource_budget_state budget_ref
  let next_consumed = budget.consumed_quantity +ℤ quantity
  let next_available = budget.limit_quantity -ℤ next_consumed
  throw_if (is_negative next_available) (resource_budget_exceeded budget_ref)
  let updated = record budget {
    consumed_quantity = next_consumed;
    available_quantity = next_available;
    status = next_status next_available budget.status;
    updated_at = updated_at or_else now;
  }
  put_resource_budget updated
  pure updated

unfoldable pub consume_resource_quota :
    Timestamp → IdRef → ℤ → Option Timestamp → Action AtsStore ResourceQuota
consume_resource_quota now quota_ref quantity updated_at = do
  quota ← get_resource_quota_state quota_ref
  let next_used = quota.used_quantity +ℤ quantity
  let next_available = quota.max_quantity -ℤ next_used
  throw_if (is_negative next_available) (resource_quota_exceeded quota_ref)
  let updated = record quota {
    used_quantity = next_used;
    status = next_status next_available quota.status;
    updated_at = updated_at or_else now;
  }
  put_resource_quota updated
  pure updated

-- The reservation that `reserveResourceCapacity` writes.
abbrev pub open_reservation :
    (reservation_id budget_ref quota_ref account_ref action_ref : IdRef)
    → ℤ
    → Timestamp
    → ResourceReservation
open_reservation reservation_id budget_ref quota_ref account_ref action_ref quantity timestamp =
    record {
      reservation_id = reservation_id;
      budget_ref = budget_ref;
      quota_ref = quota_ref;
      account_ref = account_ref;
      action_ref = action_ref;
      quantity = quantity;
      status = ReservationStatus.reserved;
      created_at = timestamp;
      updated_at = timestamp;
      settled_at = none;
      released_at = none;
      release_reason_code = none;
    }

unfoldable pub reserve_resource_capacity :
    Timestamp
    → (reservation_id budget_ref quota_ref account_ref action_ref : IdRef) → ℤ
    → Option Timestamp
    → Action AtsStore (ResourceReservation × ResourceBudget × ResourceQuota)
reserve_resource_capacity now reservation_id budget_ref quota_ref account_ref action_ref quantity
      created_at =
    do
      budget ← get_resource_budget_state budget_ref
      quota ← get_resource_quota_state quota_ref
      let next_budget_reserved = budget_reserved budget +ℤ quantity
      let next_budget_available =
          budget.limit_quantity -ℤ budget.consumed_quantity -ℤ next_budget_reserved
      throw_if (is_negative next_budget_available) (resource_budget_exceeded budget_ref)
      let next_quota_reserved = quota_reserved quota +ℤ quantity
      let next_quota_available = quota.max_quantity -ℤ quota.used_quantity -ℤ next_quota_reserved
      throw_if (is_negative next_quota_available) (resource_quota_exceeded quota_ref)
      let timestamp = created_at or_else now
      let reservation =
          open_reservation reservation_id budget_ref quota_ref account_ref action_ref quantity
            timestamp
      let updated_budget = record budget {
        reserved_quantity = some next_budget_reserved;
        available_quantity = next_budget_available;
        status = next_status next_budget_available budget.status;
        updated_at = timestamp;
      }
      let updated_quota = record quota {
        reserved_quantity = some next_quota_reserved;
        status = next_status next_quota_available quota.status;
        updated_at = timestamp;
      }
      put_resource_reservation reservation
      put_resource_budget updated_budget
      put_resource_quota updated_quota
      pure (reservation, updated_budget, updated_quota)

unfoldable pub settle_resource_reservation :
    Timestamp
    → IdRef
    → Option Timestamp
    → Action AtsStore (ResourceReservation × ResourceBudget × ResourceQuota)
settle_resource_reservation now reservation_ref settled_at = do
  reservation ← get_resource_reservation_state reservation_ref
  throw_if (not (is_reserved reservation.status)) (resource_reservation_not_active reservation_ref)
  budget ← get_resource_budget_state reservation.budget_ref
  quota ← get_resource_quota_state reservation.quota_ref
  let timestamp = settled_at or_else now
  let next_budget_reserved = budget_reserved budget -ℤ reservation.quantity
  let next_budget_consumed = budget.consumed_quantity +ℤ reservation.quantity
  let next_budget_available = budget.limit_quantity -ℤ next_budget_consumed -ℤ next_budget_reserved
  let next_quota_reserved = quota_reserved quota -ℤ reservation.quantity
  let next_quota_used = quota.used_quantity +ℤ reservation.quantity
  let next_quota_available = quota.max_quantity -ℤ next_quota_used -ℤ next_quota_reserved
  let updated_reservation = record reservation {
    status = ReservationStatus.settled;
    settled_at = some timestamp;
    updated_at = timestamp;
  }
  let updated_budget = record budget {
    consumed_quantity = next_budget_consumed;
    reserved_quantity = some (max_zero next_budget_reserved);
    available_quantity = max_zero next_budget_available;
    status = next_status next_budget_available budget.status;
    updated_at = timestamp;
  }
  let updated_quota = record quota {
    used_quantity = next_quota_used;
    reserved_quantity = some (max_zero next_quota_reserved);
    status = next_status next_quota_available quota.status;
    updated_at = timestamp;
  }
  put_resource_reservation updated_reservation
  put_resource_budget updated_budget
  put_resource_quota updated_quota
  pure (updated_reservation, updated_budget, updated_quota)

unfoldable pub release_resource_reservation :
    Timestamp
    → IdRef
    → Option Timestamp
    → Option IdRef
    → Action AtsStore (ResourceReservation × ResourceBudget × ResourceQuota)
release_resource_reservation now reservation_ref released_at reason_code = do
  reservation ← get_resource_reservation_state reservation_ref
  throw_if (not (is_reserved reservation.status)) (resource_reservation_not_active reservation_ref)
  budget ← get_resource_budget_state reservation.budget_ref
  quota ← get_resource_quota_state reservation.quota_ref
  let timestamp = released_at or_else now
  let next_budget_reserved = budget_reserved budget -ℤ reservation.quantity
  let next_budget_available =
      budget.limit_quantity -ℤ budget.consumed_quantity -ℤ next_budget_reserved
  let next_quota_reserved = quota_reserved quota -ℤ reservation.quantity
  let updated_reservation = record reservation {
    status = ReservationStatus.released;
    released_at = some timestamp;
    release_reason_code = reason_code;
    updated_at = timestamp;
  }
  let updated_budget = record budget {
    reserved_quantity = some (max_zero next_budget_reserved);
    available_quantity = max_zero next_budget_available;
    status = BudgetStatus.active;
    updated_at = timestamp;
  }
  let updated_quota = record quota {
    reserved_quantity = some (max_zero next_quota_reserved);
    status = BudgetStatus.active;
    updated_at = timestamp;
  }
  put_resource_reservation updated_reservation
  put_resource_budget updated_budget
  put_resource_quota updated_quota
  pure (updated_reservation, updated_budget, updated_quota)
