-- ===== src/Tests/Stores.antt =====
-- The ATS file store and the in-memory one, from empty stores: a budget is written, then a
-- reservation, then the budget again.
use agent_financial_action_l.Base.{refl, List, [], ◌∷◌, codes}
use agent_financial_action_l.Base.Map.{lookup}
use agent_financial_action_l.Ats.{AtsStore}
use agent_financial_action_l.Stores.File.{find_entry}
use agent_financial_action_l.Stores.AtsFile.{
  AtsSnapshot, get_account, get_monetary_budget, get_resource_budget, get_resource_quota,
  get_monetary_reservation, get_resource_reservation,
}
use agent_financial_action_l.Stores.AtsAgree.{
  Write, ReadsAgree, run_file, run_memory, file_refines_memory,
}
use agent_financial_action_l.Tests.Monetary.{budget, reservation}

abbrev no_file : AtsSnapshot
no_file = record {
  accounts = [];
  monetary_budgets = [];
  resource_budgets = [];
  resource_quotas = [];
  monetary_reservations = [];
  resource_reservations = [];
}

abbrev no_memory : AtsStore
no_memory = record {
  accounts = [];
  monetary_budgets = [];
  resource_budgets = [];
  resource_quotas = [];
  monetary_reservations = [];
  resource_reservations = [];
}

empty-ReadsAgree : ReadsAgree no_file no_memory
unfolding lookup find_entry get_account get_monetary_budget get_resource_budget get_resource_quota
    get_monetary_reservation get_resource_reservation
empty-ReadsAgree = record {
  accounts = λ k. refl;
  monetary_budgets = λ k. refl;
  resource_budgets = λ k. refl;
  resource_quotas = λ k. refl;
  monetary_reservations = λ k. refl;
  resource_reservations = λ k. refl;
}

abbrev writes : List Write
writes =
    Write.monetary_budget budget
    ∷ Write.monetary_reservation reservation
    ∷ Write.monetary_budget (record budget { limit_amount = codes "200.00" })
    ∷ []

file_refines_memory_example : ReadsAgree (run_file writes no_file) (run_memory writes no_memory)
file_refines_memory_example = file_refines_memory writes no_file no_memory empty-ReadsAgree
