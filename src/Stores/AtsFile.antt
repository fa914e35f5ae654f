-- ===== src/Stores/AtsFile.antt =====
-- backend/ats/file-store.ts (`JsonFileAtsStore`): what the snapshot of its file holds.
use agent_financial_action_l.Base.{List, Option}
use agent_financial_action_l.Types.{IdRef}
use agent_financial_action_l.Types.Ats.{
  AccountRecord, MonetaryBudget, ResourceBudget, ResourceQuota, MonetaryReservation,
  ResourceReservation,
}
use agent_financial_action_l.Stores.File.{find_entry, put_entry}

pub record AtsSnapshot : Type 0 where
  pub accounts : List AccountRecord
  pub monetary_budgets : List MonetaryBudget
  pub resource_budgets : List ResourceBudget
  pub resource_quotas : List ResourceQuota
  pub monetary_reservations : List MonetaryReservation
  pub resource_reservations : List ResourceReservation

unfoldable pub get_account : IdRef → AtsSnapshot → Option AccountRecord
unfolding find_entry
get_account ref s = find_entry (λ (v : AccountRecord). v.account_id) ref s.accounts

unfoldable pub put_account : AccountRecord → AtsSnapshot → AtsSnapshot
unfolding put_entry
put_account v s = record s {
  accounts = put_entry (λ (w : AccountRecord). w.account_id) v s.accounts;
}

abbrev pub list_accounts : AtsSnapshot → List AccountRecord
list_accounts s = s.accounts

unfoldable pub get_monetary_budget : IdRef → AtsSnapshot → Option MonetaryBudget
unfolding find_entry
get_monetary_budget ref s = find_entry (λ (v : MonetaryBudget). v.budget_id) ref s.monetary_budgets

unfoldable pub put_monetary_budget : MonetaryBudget → AtsSnapshot → AtsSnapshot
unfolding put_entry
put_monetary_budget v s = record s {
  monetary_budgets = put_entry (λ (w : MonetaryBudget). w.budget_id) v s.monetary_budgets;
}

abbrev pub list_monetary_budgets : AtsSnapshot → List MonetaryBudget
list_monetary_budgets s = s.monetary_budgets

unfoldable pub get_resource_budget : IdRef → AtsSnapshot → Option ResourceBudget
unfolding find_entry
get_resource_budget ref s = find_entry (λ (v : ResourceBudget). v.budget_id) ref s.resource_budgets

unfoldable pub put_resource_budget : ResourceBudget → AtsSnapshot → AtsSnapshot
unfolding put_entry
put_resource_budget v s = record s {
  resource_budgets = put_entry (λ (w : ResourceBudget). w.budget_id) v s.resource_budgets;
}

abbrev pub list_resource_budgets : AtsSnapshot → List ResourceBudget
list_resource_budgets s = s.resource_budgets

unfoldable pub get_resource_quota : IdRef → AtsSnapshot → Option ResourceQuota
unfolding find_entry
get_resource_quota ref s = find_entry (λ (v : ResourceQuota). v.quota_id) ref s.resource_quotas

unfoldable pub put_resource_quota : ResourceQuota → AtsSnapshot → AtsSnapshot
unfolding put_entry
put_resource_quota v s = record s {
  resource_quotas = put_entry (λ (w : ResourceQuota). w.quota_id) v s.resource_quotas;
}

abbrev pub list_resource_quotas : AtsSnapshot → List ResourceQuota
list_resource_quotas s = s.resource_quotas

unfoldable pub get_monetary_reservation : IdRef → AtsSnapshot → Option MonetaryReservation
unfolding find_entry
get_monetary_reservation ref s =
    find_entry (λ (v : MonetaryReservation). v.reservation_id) ref s.monetary_reservations

unfoldable pub put_monetary_reservation : MonetaryReservation → AtsSnapshot → AtsSnapshot
unfolding put_entry
put_monetary_reservation v s = record s {
  monetary_reservations =
      put_entry (λ (w : MonetaryReservation). w.reservation_id) v s.monetary_reservations;
}

abbrev pub list_monetary_reservations : AtsSnapshot → List MonetaryReservation
list_monetary_reservations s = s.monetary_reservations

unfoldable pub get_resource_reservation : IdRef → AtsSnapshot → Option ResourceReservation
unfolding find_entry
get_resource_reservation ref s =
    find_entry (λ (v : ResourceReservation). v.reservation_id) ref s.resource_reservations

unfoldable pub put_resource_reservation : ResourceReservation → AtsSnapshot → AtsSnapshot
unfolding put_entry
put_resource_reservation v s = record s {
  resource_reservations =
      put_entry (λ (w : ResourceReservation). w.reservation_id) v s.resource_reservations;
}

abbrev pub list_resource_reservations : AtsSnapshot → List ResourceReservation
list_resource_reservations s = s.resource_reservations
