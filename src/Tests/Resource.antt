-- ===== src/Tests/Resource.antt =====
-- A ledger of one resource budget and one quota, with a reservation of 200 units.
use agent_financial_action_l.Types.{IdRef}
use agent_financial_action_l.Base.Map.Total.{total}
use agent_financial_action_l.Base.{◌≡◌, refl, subst, ap, some, none, [], ◌∷◌, ◌+◌, ◌≤◌, arith}
use agent_financial_action_l.Base.Int.{pos}
use agent_financial_action_l.Base.Map.{lookup, insert}
use agent_financial_action_l.Base.Action.{ok, err, IsAtomic, resource_reservation_not_active}
use agent_financial_action_l.Tests.{lookup_only}
use agent_financial_action_l.Ats.{AtsStore}
use agent_financial_action_l.Ats.Resource.Ledger.{
  IsLedger, IsBacked, IsWithin, held, weight, written, budget_of, quota_of,
}
use agent_financial_action_l.Ats.Resource.Trace.{Step, here, next, capacity-IsLedger}
use agent_financial_action_l.Ats.Resource.Reserve.{
  reserving_budget, reserving_quota, reserve_capacity_exact,
}
use agent_financial_action_l.Ats.Resource.Once.{Closes, resource_stays_closed, resource-IsAtomic}
use agent_financial_action_l.Ats.Resource.Close.{
  settled_reservation, settled_budget, settled_quota, settle_capacity_exact, released_reservation,
  released_budget, released_quota, release_capacity_exact,
}
use agent_financial_action_l.Ats.Resource.{
  open_reservation, settle_resource_reservation, budget_reserved, quota_reserved,
  reserve_resource_capacity, release_resource_reservation, consume_resource_budget,
  consume_resource_quota,
}
use agent_financial_action_l.Types.Ats.{
  ResourceBudget, ResourceQuota, ResourceReservation, BudgetStatus, ReservationStatus,
}

abbrev budget : ResourceBudget
budget = record {
  budget_id = "rbg-1";
  subject_did = "did:afal:agent:1";
  account_ref = "acc-1";
  resource_class = "compute";
  resource_unit = "tokens";
  period = "monthly";
  limit_quantity = pos 1000;
  consumed_quantity = pos 100;
  reserved_quantity = some (pos 200);
  available_quantity = pos 700;
  max_spend_amount = none;
  pricing_asset = none;
  status = BudgetStatus.active;
  created_at = "t0";
  updated_at = "t0";
}

abbrev quota : ResourceQuota
quota = record {
  quota_id = "quo-1";
  subject_did = "did:afal:agent:1";
  provider_id = "provider-1";
  provider_did = "did:afal:provider:1";
  resource_class = "compute";
  resource_unit = "tokens";
  period = "monthly";
  max_quantity = pos 800;
  used_quantity = pos 100;
  reserved_quantity = some (pos 200);
  status = BudgetStatus.active;
  created_at = "t0";
  updated_at = "t0";
}

abbrev reservation : ResourceReservation
reservation = record {
  reservation_id = "res-1";
  budget_ref = "rbg-1";
  quota_ref = "quo-1";
  account_ref = "acc-1";
  action_ref = "act-1";
  quantity = pos 200;
  status = ReservationStatus.reserved;
  created_at = "t0";
  updated_at = "t0";
  settled_at = none;
  released_at = none;
  release_reason_code = none;
}

abbrev store : AtsStore
store = record {
  accounts = [];
  monetary_budgets = [];
  resource_budgets = ("rbg-1", budget) ∷ [];
  resource_quotas = ("quo-1", quota) ∷ [];
  monetary_reservations = [];
  resource_reservations = ("res-1", reservation) ∷ [];
}

at-store : lookup "rbg-1" store.resource_budgets ≡ some budget
unfolding lookup
at-store = refl

quota-store : lookup "quo-1" store.resource_quotas ≡ some quota
unfolding lookup
quota-store = refl

open_in-store : lookup "res-1" store.resource_reservations ≡ some reservation
unfolding lookup
open_in-store = refl

held-budget : held budget_of "rbg-1" store.resource_reservations ≡ 200
unfolding weight total
held-budget = refl

held-quota : held quota_of "quo-1" store.resource_reservations ≡ 200
unfolding weight total
held-quota = refl

reserved-budget : budget_reserved budget ≡ pos (held budget_of "rbg-1" store.resource_reservations)
unfolding weight total
reserved-budget = refl

reserved-quota : quota_reserved quota ≡ pos (held quota_of "quo-1" store.resource_reservations)
unfolding weight total
reserved-quota = refl

unfoldable backed :
    (k : IdRef) (b : ResourceBudget)
    → "rbg-1" ≡ k
    → budget ≡ b
    → IsBacked k b (held budget_of k store.resource_reservations)
backed k b ek eb = record {
  keyed = subst (λ x. x.budget_id ≡ k) eb ek;
  limit = 1000;
  consumed = 100;
  available = 700;
  limit_eq = subst (λ x. x.limit_quantity ≡ pos 1000) eb refl;
  consumed_eq = subst (λ x. x.consumed_quantity ≡ pos 100) eb refl;
  reserved_eq =
      subst (λ x. budget_reserved x ≡ pos (held budget_of k store.resource_reservations)) eb
        (subst (λ x. budget_reserved budget ≡ pos (held budget_of x store.resource_reservations)) ek
          reserved-budget);
  available_eq = subst (λ x. x.available_quantity ≡ pos 700) eb refl;
  balance =
      subst (λ x. 100 + held budget_of x store.resource_reservations + 700 ≡ 1000) ek
        (ap (λ x. 100 + x + 700) held-budget);
}

unfoldable within :
    (k : IdRef) (q : ResourceQuota)
    → "quo-1" ≡ k
    → quota ≡ q
    → IsWithin k q (held quota_of k store.resource_reservations)
within k q ek eq = record {
  keyed = subst (λ x. x.quota_id ≡ k) eq ek;
  maximum = 800;
  used = 100;
  maximum_eq = subst (λ x. x.max_quantity ≡ pos 800) eq refl;
  used_eq = subst (λ x. x.used_quantity ≡ pos 100) eq refl;
  reserved_eq =
      subst (λ x. quota_reserved x ≡ pos (held quota_of k store.resource_reservations)) eq
        (subst (λ x. quota_reserved quota ≡ pos (held quota_of x store.resource_reservations)) ek
          reserved-quota);
  within =
      subst (λ x. 100 + held quota_of x store.resource_reservations ≤ 800) ek
        (rw held-quota (omega arith));
}

unfoldable store-IsLedger : IsLedger store
store-IsLedger = record {
  budgets =
      λ k b h. backed k b (lookup_only "rbg-1" k budget b h).0 (lookup_only "rbg-1" k budget b h).1;
  quotas =
      λ k q h. within k q (lookup_only "quo-1" k quota q h).0 (lookup_only "quo-1" k quota q h).1;
  reservations = λ k r h. record {
    keyed =
        let (ek, er) = lookup_only "res-1" k reservation r h in
        subst (λ x. x.reservation_id ≡ k) er ek;
    size = 200;
    size_eq = subst (λ x. x.quantity ≡ pos 200) (lookup_only "res-1" k reservation r h).1 refl;
  };
}

abbrev opened : ResourceReservation
opened = open_reservation "res-2" "rbg-1" "quo-1" "acc-1" "act-2" (pos 300) "t1"

abbrev reserved_budget : ResourceBudget
reserved_budget =
    reserving_budget "t1" "res-2" "rbg-1" "quo-1" "acc-1" "act-2" 300 none store store-IsLedger
      budget quota at-store quota-store

abbrev reserved_quota : ResourceQuota
reserved_quota =
    reserving_quota "t1" "res-2" "rbg-1" "quo-1" "acc-1" "act-2" 300 none store store-IsLedger
      budget quota at-store quota-store

reserve_capacity_exact_example :
    reserve_resource_capacity "t1" "res-2" "rbg-1" "quo-1" "acc-1" "act-2" (pos 300) none store ≡ (
      ok (opened, reserved_budget, reserved_quota),
      written store "res-2" "rbg-1" "quo-1" opened reserved_budget reserved_quota,
    )
unfolding store-IsLedger backed within weight total
reserve_capacity_exact_example =
    reserve_capacity_exact "t1" "res-2" "rbg-1" "quo-1" "acc-1" "act-2" 300 none store
      store-IsLedger budget quota at-store quota-store

fresh-settled :
    lookup "res-2" (settle_resource_reservation "t1" "res-1" none store).1.resource_reservations
    ≡ none
unfolding settle_resource_reservation lookup insert
fresh-settled = refl

capacity-IsLedger_example :
    IsLedger
      (reserve_resource_capacity "t1" "res-2" "rbg-1" "quo-1" "acc-1" "act-2"
        (pos 300)
        none
        (settle_resource_reservation "t1" "res-1" none store).1).1
capacity-IsLedger_example = capacity-IsLedger store-IsLedger (
    next (next here (Step.settle store "t1" "res-1" none))
      (Step.reserve _ "t1" "res-2" "rbg-1" "quo-1" "acc-1" "act-2" 300 none fresh-settled))

abbrev settled : ResourceReservation × ResourceBudget × ResourceQuota
settled = (
  settled_reservation store store-IsLedger "res-1" reservation open_in-store refl budget quota
      at-store quota-store "t1" none,
  settled_budget store store-IsLedger "res-1" reservation open_in-store refl budget quota at-store
      quota-store "t1" none,
  settled_quota store store-IsLedger "res-1" reservation open_in-store refl budget quota at-store
      quota-store "t1" none,
)

abbrev settled_store : AtsStore
settled_store = written store "res-1" "rbg-1" "quo-1" settled.0 settled.1 settled.2

settle_capacity_exact_example :
    settle_resource_reservation "t1" "res-1" none store ≡ (ok settled, settled_store)
settle_capacity_exact_example =
    settle_capacity_exact store store-IsLedger "res-1" reservation open_in-store refl budget quota
      at-store quota-store "t1" none

abbrev released : ResourceReservation × ResourceBudget × ResourceQuota
released = (
  released_reservation store store-IsLedger "res-1" reservation open_in-store refl budget quota
      at-store quota-store "t1" none (some "why"),
  released_budget store store-IsLedger "res-1" reservation open_in-store refl budget quota at-store
      quota-store "t1" none (some "why"),
  released_quota store store-IsLedger "res-1" reservation open_in-store refl budget quota at-store
      quota-store "t1" none (some "why"),
)

release_capacity_exact_example :
    release_resource_reservation "t1" "res-1" none (some "why") store
    ≡ (ok released, written store "res-1" "rbg-1" "quo-1" released.0 released.1 released.2)
release_capacity_exact_example =
    release_capacity_exact store store-IsLedger "res-1" reservation open_in-store refl budget quota
      at-store quota-store "t1" none (some "why")

resource_stays_closed_example :
    (settle_resource_reservation "t2" "res-1" none settled_store
      ≡ (err (resource_reservation_not_active "res-1"), settled_store))
    × (release_resource_reservation "t2" "res-1" none none settled_store
        ≡ (err (resource_reservation_not_active "res-1"), settled_store))
resource_stays_closed_example =
    resource_stays_closed "t2" "res-1" none none store settled_store store-IsLedger
      (Closes.by_settling "t1" none settled.0 settled.1 settled.2 settle_capacity_exact_example)

resource-IsAtomic_example :
    IsAtomic store (consume_resource_budget "t1" "rbg-1" (pos 950) none store)
    × IsAtomic store (consume_resource_quota "t1" "quo-1" (pos 950) none store)
    × IsAtomic store (
        reserve_resource_capacity "t1" "res-1" "rbg-1" "quo-1" "acc-1" "act-1" (pos 950) none store)
    × IsAtomic store (settle_resource_reservation "t1" "res-1" none store)
    × IsAtomic store (release_resource_reservation "t1" "res-1" none none store)
resource-IsAtomic_example =
    resource-IsAtomic "t1" "res-1" "rbg-1" "quo-1" "acc-1" "act-1" (pos 950) none none store
