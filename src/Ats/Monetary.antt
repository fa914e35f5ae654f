-- ===== src/Ats/Monetary.antt =====
-- backend/ats/service.ts: the operations on monetary budgets and their reservations.
pub mod Ledger
pub mod Reserve
pub mod Close
pub mod Once
pub mod Trace
pub mod Exact
use agent_financial_action_l.Base.{Bool, not, Option, none, some, ◌or_else◌, if◌then◌else◌, codes}
use agent_financial_action_l.Base.Map.{lookup}
use agent_financial_action_l.Base.Action.{
  Action, pure, throw_if, ◌>>=◌, ◌>>◌, monetary_budget_exceeded, monetary_reservation_not_active,
}
use agent_financial_action_l.Money.{
  DecimalString, Number, ◌+ₙ◌, ◌-ₙ◌, below_zero, equals_zero, max_zero, to_money, from_money,
}
use agent_financial_action_l.Types.{IdRef, Timestamp}
use agent_financial_action_l.Types.Ats.{
  BudgetStatus, MonetaryBudget, MonetaryReservation, ReservationStatus, is_reserved,
}
use agent_financial_action_l.Ats.{
  AtsStore, get_monetary_budget_state, get_monetary_reservation_state, put_monetary_budget,
  put_monetary_reservation,
}

abbrev pub get_reserved_amount : MonetaryBudget → Number
get_reserved_amount b = to_money (b.reserved_amount or_else codes "0.00")

-- `nextAvailable === 0 ? "exhausted" : budget.status`
abbrev pub next_status : Number → BudgetStatus → BudgetStatus
next_status available status = if equals_zero available then BudgetStatus.exhausted else status

unfoldable pub consume_monetary_budget :
    Timestamp → IdRef → DecimalString → Option Timestamp → Action AtsStore MonetaryBudget
consume_monetary_budget now budget_ref amount updated_at = do
  budget ← get_monetary_budget_state budget_ref
  let next_consumed = to_money budget.consumed_amount +ₙ to_money amount
  let next_available = to_money budget.limit_amount -ₙ next_consumed
  throw_if (below_zero next_available) (monetary_budget_exceeded budget_ref)
  let updated = record budget {
    consumed_amount = from_money next_consumed;
    available_amount = from_money next_available;
    status = next_status next_available budget.status;
    updated_at = updated_at or_else now;
  }
  put_monetary_budget updated
  pure updated

-- The reservation that `reserveMonetaryBudget` writes.
abbrev pub open_reservation :
    (reservation_id budget_ref account_ref action_ref : IdRef)
    → DecimalString
    → Timestamp
    → MonetaryReservation
open_reservation reservation_id budget_ref account_ref action_ref amount timestamp = record {
  reservation_id = reservation_id;
  budget_ref = budget_ref;
  account_ref = account_ref;
  action_ref = action_ref;
  amount = amount;
  status = ReservationStatus.reserved;
  created_at = timestamp;
  updated_at = timestamp;
  settled_at = none;
  released_at = none;
  release_reason_code = none;
}

unfoldable pub reserve_monetary_budget :
    Timestamp
    → (reservation_id budget_ref account_ref action_ref : IdRef) → DecimalString
    → Option Timestamp
    → Action AtsStore (MonetaryReservation × MonetaryBudget)
reserve_monetary_budget now reservation_id budget_ref account_ref action_ref amount created_at = do
  budget ← get_monetary_budget_state budget_ref
  let next_reserved = get_reserved_amount budget +ₙ to_money amount
  let next_available =
      to_money budget.limit_amount -ₙ to_money budget.consumed_amount -ₙ next_reserved
  throw_if (below_zero next_available) (monetary_budget_exceeded budget_ref)
  let timestamp = created_at or_else now
  let reservation =
      open_reservation reservation_id budget_ref account_ref action_ref amount timestamp
  let updated_budget = record budget {
    reserved_amount = some (from_money next_reserved);
    available_amount = from_money next_available;
    status = next_status next_available budget.status;
    updated_at = timestamp;
  }
  put_monetary_reservation reservation
  put_monetary_budget updated_budget
  pure (reservation, updated_budget)

unfoldable pub settle_monetary_reservation :
    Timestamp → IdRef → Option Timestamp → Action AtsStore (MonetaryReservation × MonetaryBudget)
settle_monetary_reservation now reservation_ref settled_at = do
  reservation ← get_monetary_reservation_state reservation_ref
  throw_if (not (is_reserved reservation.status)) (monetary_reservation_not_active reservation_ref)
  budget ← get_monetary_budget_state reservation.budget_ref
  let timestamp = settled_at or_else now
  let amount = to_money reservation.amount
  let next_reserved = get_reserved_amount budget -ₙ amount
  let next_consumed = to_money budget.consumed_amount +ₙ amount
  let next_available = to_money budget.limit_amount -ₙ next_consumed -ₙ next_reserved
  let updated_reservation = record reservation {
    status = ReservationStatus.settled;
    settled_at = some timestamp;
    updated_at = timestamp;
  }
  let updated_budget = record budget {
    consumed_amount = from_money next_consumed;
    reserved_amount = some (from_money (max_zero next_reserved));
    available_amount = from_money (max_zero next_available);
    status = next_status next_available budget.status;
    updated_at = timestamp;
  }
  put_monetary_reservation updated_reservation
  put_monetary_budget updated_budget
  pure (updated_reservation, updated_budget)

unfoldable pub release_monetary_reservation :
    Timestamp
    → IdRef
    → Option Timestamp
    → Option IdRef
    → Action AtsStore (MonetaryReservation × MonetaryBudget)
release_monetary_reservation now reservation_ref released_at reason_code = do
  reservation ← get_monetary_reservation_state reservation_ref
  throw_if (not (is_reserved reservation.status)) (monetary_reservation_not_active reservation_ref)
  budget ← get_monetary_budget_state reservation.budget_ref
  let timestamp = released_at or_else now
  let next_reserved = get_reserved_amount budget -ₙ to_money reservation.amount
  let next_available =
      to_money budget.limit_amount -ₙ to_money budget.consumed_amount -ₙ next_reserved
  let updated_reservation = record reservation {
    status = ReservationStatus.released;
    released_at = some timestamp;
    release_reason_code = reason_code;
    updated_at = timestamp;
  }
  let updated_budget = record budget {
    reserved_amount = some (from_money (max_zero next_reserved));
    available_amount = from_money (max_zero next_available);
    status = BudgetStatus.active;
    updated_at = timestamp;
  }
  put_monetary_reservation updated_reservation
  put_monetary_budget updated_budget
  pure (updated_reservation, updated_budget)
