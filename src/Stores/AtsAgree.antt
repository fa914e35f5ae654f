-- ===== src/Stores/AtsAgree.antt =====
-- backend/ats/file-store.ts (`JsonFileAtsStore`) beside backend/ats/store.ts (`InMemoryAtsStore`).
use agent_financial_action_l.Base.{◌≡◌, List, [], ◌∷◌}
use agent_financial_action_l.Base.Map.{lookup}
use agent_financial_action_l.Types.{IdRef}
use agent_financial_action_l.Types.Ats.{
  AccountRecord, MonetaryBudget, ResourceBudget, ResourceQuota, MonetaryReservation,
  ResourceReservation,
}
use agent_financial_action_l.Ats
use agent_financial_action_l.Ats.{AtsStore}
use agent_financial_action_l.Stores.AtsFile
use agent_financial_action_l.Stores.AtsFile.{
  AtsSnapshot, get_account, get_monetary_budget, get_resource_budget, get_resource_quota,
  get_monetary_reservation, get_resource_reservation,
}
use agent_financial_action_l.Stores.Agree.{written-Agrees}

-- A write of `AtsStore`: the constructor is the method.
pub data Write : Type 0 where
  account : AccountRecord → Write
  monetary_budget : MonetaryBudget → Write
  resource_budget : ResourceBudget → Write
  resource_quota : ResourceQuota → Write
  monetary_reservation : MonetaryReservation → Write
  resource_reservation : ResourceReservation → Write

unfoldable pub write_file : Write → AtsSnapshot → AtsSnapshot
write_file (Write.account v) s = AtsFile.put_account v s
write_file (Write.monetary_budget v) s = AtsFile.put_monetary_budget v s
write_file (Write.resource_budget v) s = AtsFile.put_resource_budget v s
write_file (Write.resource_quota v) s = AtsFile.put_resource_quota v s
write_file (Write.monetary_reservation v) s = AtsFile.put_monetary_reservation v s
write_file (Write.resource_reservation v) s = AtsFile.put_resource_reservation v s

unfoldable pub write_memory : Write → AtsStore → AtsStore
write_memory (Write.account v) s = (Ats.put_account v s).1
write_memory (Write.monetary_budget v) s = (Ats.put_monetary_budget v s).1
write_memory (Write.resource_budget v) s = (Ats.put_resource_budget v s).1
write_memory (Write.resource_quota v) s = (Ats.put_resource_quota v s).1
write_memory (Write.monetary_reservation v) s = (Ats.put_monetary_reservation v s).1
write_memory (Write.resource_reservation v) s = (Ats.put_resource_reservation v s).1

unfoldable pub run_file : List Write → AtsSnapshot → AtsSnapshot
run_file [] s = s
run_file (w ∷ ws) s = run_file ws (write_file w s)

unfoldable pub run_memory : List Write → AtsStore → AtsStore
run_memory [] s = s
run_memory (w ∷ ws) s = run_memory ws (write_memory w s)

-- Each of the six reads gives the same record or none, for every id.
pub record ReadsAgree (f : AtsSnapshot) (m : AtsStore) : Type 0 where
  pub accounts : (k : IdRef) → get_account k f ≡ lookup k m.accounts
  pub monetary_budgets : (k : IdRef) → get_monetary_budget k f ≡ lookup k m.monetary_budgets
  pub resource_budgets : (k : IdRef) → get_resource_budget k f ≡ lookup k m.resource_budgets
  pub resource_quotas : (k : IdRef) → get_resource_quota k f ≡ lookup k m.resource_quotas
  pub monetary_reservations :
      (k : IdRef) → get_monetary_reservation k f ≡ lookup k m.monetary_reservations
  pub resource_reservations :
      (k : IdRef) → get_resource_reservation k f ≡ lookup k m.resource_reservations

module _ (f : AtsSnapshot) (m : AtsStore) (same : ReadsAgree f m) where
  write-ReadsAgree : (w : Write) → ReadsAgree (write_file w f) (write_memory w m)
  unfolding write_file write_memory AtsFile.put_account AtsFile.put_monetary_budget
      AtsFile.put_resource_budget AtsFile.put_resource_quota AtsFile.put_monetary_reservation
      AtsFile.put_resource_reservation get_account get_monetary_budget get_resource_budget
      get_resource_quota get_monetary_reservation get_resource_reservation
  write-ReadsAgree (Write.account v) = record {
    accounts =
        written-Agrees (λ (w : AccountRecord). w.account_id) v f.accounts m.accounts same.accounts;
    monetary_budgets = same.monetary_budgets;
    resource_budgets = same.resource_budgets;
    resource_quotas = same.resource_quotas;
    monetary_reservations = same.monetary_reservations;
    resource_reservations = same.resource_reservations;
  }
  write-ReadsAgree (Write.monetary_budget v) = record {
    accounts = same.accounts;
    monetary_budgets =
        written-Agrees (λ (w : MonetaryBudget). w.budget_id) v f.monetary_budgets m.monetary_budgets
          same.monetary_budgets;
    resource_budgets = same.resource_budgets;
    resource_quotas = same.resource_quotas;
    monetary_reservations = same.monetary_reservations;
    resource_reservations = same.resource_reservations;
  }
  write-ReadsAgree (Write.resource_budget v) = record {
    accounts = same.accounts;
    monetary_budgets = same.monetary_budgets;
    resource_budgets =
        written-Agrees (λ (w : ResourceBudget). w.budget_id) v f.resource_budgets m.resource_budgets
          same.resource_budgets;
    resource_quotas = same.resource_quotas;
    monetary_reservations = same.monetary_reservations;
    resource_reservations = same.resource_reservations;
  }
  write-ReadsAgree (Write.resource_quota v) = record {
    accounts = same.accounts;
    monetary_budgets = same.monetary_budgets;
    resource_budgets = same.resource_budgets;
    resource_quotas =
        written-Agrees (λ (w : ResourceQuota). w.quota_id) v f.resource_quotas m.resource_quotas
          same.resource_quotas;
    monetary_reservations = same.monetary_reservations;
    resource_reservations = same.resource_reservations;
  }
  write-ReadsAgree (Write.monetary_reservation v) = record {
    accounts = same.accounts;
    monetary_budgets = same.monetary_budgets;
    resource_budgets = same.resource_budgets;
    resource_quotas = same.resource_quotas;
    monetary_reservations =
        written-Agrees (λ (w : MonetaryReservation). w.reservation_id) v f.monetary_reservations
          m.monetary_reservations same.monetary_reservations;
    resource_reservations = same.resource_reservations;
  }
  write-ReadsAgree (Write.resource_reservation v) = record {
    accounts = same.accounts;
    monetary_budgets = same.monetary_budgets;
    resource_budgets = same.resource_budgets;
    resource_quotas = same.resource_quotas;
    monetary_reservations = same.monetary_reservations;
    resource_reservations =
        written-Agrees (λ (w : ResourceReservation). w.reservation_id) v f.resource_reservations
          m.resource_reservations same.resource_reservations;
  }

-- The ATS file store refines the in-memory one: from stores whose six reads agree, such as two empty
-- ones, the same writes of any kinds in any order lead to stores whose six reads agree.
pub file_refines_memory :
    (writes : List Write) (f : AtsSnapshot) (m : AtsStore)
    → ReadsAgree f m
    → ReadsAgree (run_file writes f) (run_memory writes m)
unfolding run_file run_memory
file_refines_memory [] f m same = same
file_refines_memory (w ∷ ws) f m same =
    file_refines_memory ws (write_file w f) (write_memory w m) (write-ReadsAgree f m same w)
