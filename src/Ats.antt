-- ===== src/Ats.antt =====
-- backend/ats/store.ts (`InMemoryAtsStore`) and the reads and `freezeAccount` of
-- backend/ats/service.ts (`InMemoryAtsService`). Values are immutable here, so `clone` is the
-- identity; `new Date().toISOString()` is the argument `now`.
pub mod Monetary
pub mod Resource
use agent_financial_action_l.Base.{
  String, Bool, true, Option, none, some, List, [], ◌∷◌, ◌or_else◌, ◌or_some◌,
}
use agent_financial_action_l.Base.Map.{Map, lookup, insert, values}
use agent_financial_action_l.Base.Action.{
  Action, Error, pure, gets, modify, assert_found, ◌>>=◌, ◌>>◌, unknown_account,
  unknown_monetary_budget, unknown_resource_budget, unknown_resource_quota,
  unknown_monetary_reservation, unknown_resource_reservation,
}
use agent_financial_action_l.Types.{Did, IdRef, Timestamp}
use agent_financial_action_l.Types.Ats.{
  AccountRecord, AccountStatus, FreezeState, MonetaryBudget, ResourceBudget, ResourceQuota,
  MonetaryReservation, ResourceReservation,
}

pub record AtsStore : Type 0 where
  pub accounts : Map AccountRecord
  pub monetary_budgets : Map MonetaryBudget
  pub resource_budgets : Map ResourceBudget
  pub resource_quotas : Map ResourceQuota
  pub monetary_reservations : Map MonetaryReservation
  pub resource_reservations : Map ResourceReservation

abbrev pub put_account : AccountRecord → Action AtsStore (Unit {0})
put_account a = modify (λ s. record s { accounts = insert a.account_id a s.accounts })

abbrev pub put_monetary_budget : MonetaryBudget → Action AtsStore (Unit {0})
put_monetary_budget b =
    modify (λ s. record s { monetary_budgets = insert b.budget_id b s.monetary_budgets })

abbrev pub put_resource_budget : ResourceBudget → Action AtsStore (Unit {0})
put_resource_budget b =
    modify (λ s. record s { resource_budgets = insert b.budget_id b s.resource_budgets })

abbrev pub put_resource_quota : ResourceQuota → Action AtsStore (Unit {0})
put_resource_quota q =
    modify (λ s. record s { resource_quotas = insert q.quota_id q s.resource_quotas })

abbrev pub put_monetary_reservation : MonetaryReservation → Action AtsStore (Unit {0})
put_monetary_reservation r =
    modify
      (λ s. record s { monetary_reservations = insert r.reservation_id r s.monetary_reservations })

abbrev pub put_resource_reservation : ResourceReservation → Action AtsStore (Unit {0})
put_resource_reservation r =
    modify
      (λ s. record s { resource_reservations = insert r.reservation_id r s.resource_reservations })

-- The reads: each throws at an unknown reference.
abbrev pub get_account_state : IdRef → Action AtsStore AccountRecord
get_account_state ref = do assert_found (← gets (λ s. lookup ref s.accounts)) (unknown_account ref)

abbrev pub get_monetary_budget_state : IdRef → Action AtsStore MonetaryBudget
get_monetary_budget_state ref = do
  assert_found (← gets (λ s. lookup ref s.monetary_budgets)) (unknown_monetary_budget ref)

abbrev pub get_resource_budget_state : IdRef → Action AtsStore ResourceBudget
get_resource_budget_state ref = do
  assert_found (← gets (λ s. lookup ref s.resource_budgets)) (unknown_resource_budget ref)

abbrev pub get_resource_quota_state : IdRef → Action AtsStore ResourceQuota
get_resource_quota_state ref = do
  assert_found (← gets (λ s. lookup ref s.resource_quotas)) (unknown_resource_quota ref)

abbrev pub get_monetary_reservation_state : IdRef → Action AtsStore MonetaryReservation
get_monetary_reservation_state ref = do
  assert_found (← gets (λ s. lookup ref s.monetary_reservations)) (unknown_monetary_reservation ref)

abbrev pub get_resource_reservation_state : IdRef → Action AtsStore ResourceReservation
get_resource_reservation_state ref = do
  assert_found (← gets (λ s. lookup ref s.resource_reservations)) (unknown_resource_reservation ref)

abbrev pub list_monetary_budgets : AtsStore → List MonetaryBudget
list_monetary_budgets s = values s.monetary_budgets

abbrev pub list_monetary_reservations : AtsStore → List MonetaryReservation
list_monetary_reservations s = values s.monetary_reservations

abbrev review_of : Option FreezeState → Option IdRef
review_of none = none
review_of (some f) = f.review_ref

unfoldable pub freeze_account :
    Timestamp
    → IdRef
    → Option String
    → Option Did
    → Option Timestamp
    → Action AtsStore AccountRecord
freeze_account now account_ref reason_code frozen_by frozen_at = do
  account ← get_account_state account_ref
  let at = frozen_at or_else now
  let updated = record account {
    status = AccountStatus.frozen;
    updated_at = at;
    freeze_state = some (record {
      is_frozen = true;
      reason_code = some (reason_code or_else "manual-freeze");
      frozen_by = frozen_by;
      frozen_at = some at;
      review_ref = review_of account.freeze_state;
    });
  }
  put_account updated
  pure updated
