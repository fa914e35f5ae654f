-- ===== src/Tests/Monetary.antt =====
-- A ledger of one budget of 100.00, of which 10.00 is consumed and 20.00 is held by a reservation.
use agent_financial_action_l.Ats.Monetary.Once.{monetary_stays_closed, monetary-IsAtomic, Closes}
use agent_financial_action_l.Base.Action.{ok, err, monetary_reservation_not_active, IsAtomic}
use agent_financial_action_l.Ats.Monetary.Close.{
  released_reservation, released_budget, release_reactivates, release_exact,
}
use agent_financial_action_l.Ats.Monetary.Exact.{
  IsExact, reserving_budget, reserve_exact, consumed_budget, consume_exact, consume_overcommits,
  settled_reservation, settled_budget, settle_exact, amount_of,
}
use agent_financial_action_l.Ats.Monetary.{
  get_reserved_amount, reserve_monetary_budget, settle_monetary_reservation,
  release_monetary_reservation, consume_monetary_budget, open_reservation,
}
use agent_financial_action_l.Types.{IdRef}
use agent_financial_action_l.Base.Map.Total.{total}
use agent_financial_action_l.Money.{to_money, from_money, num}
use agent_financial_action_l.Base.Int.{pos}
use agent_financial_action_l.Base.{
  ◌≡◌, refl, subst, codes, [], some, none, ◌∷◌, ◌+◌, ◌<◌, ◌≤◌, ap, arith,
}
use agent_financial_action_l.Base.Map.{lookup, insert}
use agent_financial_action_l.Tests.{lookup_only}
use agent_financial_action_l.Ats.{AtsStore}
use agent_financial_action_l.Ats.Monetary.Ledger.{IsLedger, held, weight, IsBacked, written}
use agent_financial_action_l.Ats.Monetary.Trace.{Step, here, next, Reach-IsLedger}
use agent_financial_action_l.Types.Ats.{
  MonetaryBudget, MonetaryReservation, BudgetStatus, ReservationStatus,
}

abbrev pub budget : MonetaryBudget
budget = record {
  budget_id = "bgt-1";
  subject_did = "did:afal:agent:1";
  account_ref = "acc-1";
  asset = "USDC";
  period = "monthly";
  limit_amount = codes "100.00";
  consumed_amount = codes "10.00";
  reserved_amount = some (codes "20.00");
  available_amount = codes "70.00";
  status = BudgetStatus.active;
  created_at = "t0";
  updated_at = "t0";
}

abbrev pub reservation : MonetaryReservation
reservation = record {
  reservation_id = "res-1";
  budget_ref = "bgt-1";
  account_ref = "acc-1";
  action_ref = "act-1";
  amount = codes "20.00";
  status = ReservationStatus.reserved;
  created_at = "t0";
  updated_at = "t0";
  settled_at = none;
  released_at = none;
  release_reason_code = none;
}

abbrev pub store : AtsStore
store = record {
  accounts = [];
  monetary_budgets = ("bgt-1", budget) ∷ [];
  resource_budgets = [];
  resource_quotas = [];
  monetary_reservations = ("res-1", reservation) ∷ [];
  resource_reservations = [];
}

at-store : lookup "bgt-1" store.monetary_budgets ≡ some budget
unfolding lookup
at-store = refl

open_in-store : lookup "res-1" store.monetary_reservations ≡ some reservation
unfolding lookup
open_in-store = refl

priced-20 : to_money (codes "20.00") ≡ num (pos 2000)
unfolding to_money
priced-20 = refl

-- All amounts of the budget are whole.
unfoldable budget-IsExact : IsExact "bgt-1" budget
unfolding from_money
budget-IsExact = record {
  keyed = refl;
  limit = 10000;
  consumed = 1000;
  reserved = 2000;
  available = 7000;
  limit_eq = refl;
  consumed_eq = refl;
  reserved_eq = refl;
  available_eq = refl;
  balance = refl;
  limit_quarters = (refl, omega arith);
  consumed_quarters = (refl, omega arith);
  reserved_quarters = (refl, omega arith);
}

held-exact : 2000 ≤ budget-IsExact.reserved
unfolding budget-IsExact
held-exact = omega arith

priced-20_text : codes "20.00" ≡ amount_of 2000
unfolding from_money
priced-20_text = refl

priced-30 : to_money (codes "30.00") ≡ num (pos 3000)
unfolding to_money
priced-30 = refl

priced-80 : to_money (codes "80.00") ≡ num (pos 8000)
unfolding to_money
priced-80 = refl

fresh-store : lookup "res-2" store.monetary_reservations ≡ none
unfolding lookup
fresh-store = refl

held-store : held "bgt-1" store.monetary_reservations ≡ 2000
unfolding weight total to_money
held-store = refl

limit-store : to_money budget.limit_amount ≡ num (pos 10000)
unfolding to_money
limit-store = refl

consumed-store : to_money budget.consumed_amount ≡ num (pos 1000)
unfolding to_money
consumed-store = refl

available-store : to_money budget.available_amount ≡ num (pos 7000)
unfolding to_money
available-store = refl

reserved-store : get_reserved_amount budget ≡ num (pos (held "bgt-1" store.monetary_reservations))
unfolding to_money weight total
reserved-store = refl

unfoldable backed :
    (k : IdRef) (b : MonetaryBudget)
    → "bgt-1" ≡ k
    → budget ≡ b
    → IsBacked k b (held k store.monetary_reservations)
backed k b ek eb = record {
  keyed = subst (λ x. x.budget_id ≡ k) eb ek;
  limit = 10000;
  consumed = 1000;
  available = 7000;
  limit_eq = subst (λ x. to_money x.limit_amount ≡ num (pos 10000)) eb limit-store;
  consumed_eq = subst (λ x. to_money x.consumed_amount ≡ num (pos 1000)) eb consumed-store;
  reserved_eq =
      subst (λ x. get_reserved_amount x ≡ num (pos (held k store.monetary_reservations))) eb
        (subst (λ x. get_reserved_amount budget ≡ num (pos (held x store.monetary_reservations))) ek
          reserved-store);
  available_eq = subst (λ x. to_money x.available_amount ≡ num (pos 7000)) eb available-store;
  balance =
      subst (λ x. 1000 + held x store.monetary_reservations + 7000 ≡ 10000) ek
        (ap (λ x. 1000 + x + 7000) held-store);
}

unfoldable store-IsLedger : IsLedger store
store-IsLedger = record {
  budgets =
      λ k b h. backed k b (lookup_only "bgt-1" k budget b h).0 (lookup_only "bgt-1" k budget b h).1;
  reservations = λ k r h. record {
    keyed =
        let (ek, er) = lookup_only "res-1" k reservation r h in
        subst (λ x. x.reservation_id ≡ k) er ek;
    price = 2000;
    price_eq =
        subst (λ x. to_money x.amount ≡ num (pos 2000)) (lookup_only "res-1" k reservation r h).1
          priced-20;
  };
}

-- Reserving 30.00 leaves 40.00 available; 80.00 would exceed the budget.
abbrev reserved_budget : MonetaryBudget
reserved_budget =
    reserving_budget "t1" "res-2" "bgt-1" "acc-1" "act-2" 3000 (refl, omega arith) none store budget
      at-store budget-IsExact

reserve_exact_example :
    reserve_monetary_budget "t1" "res-2" "bgt-1" "acc-1" "act-2" (amount_of 3000) none store ≡ (
      ok (open_reservation "res-2" "bgt-1" "acc-1" "act-2" (amount_of 3000) "t1", reserved_budget),
      written store "res-2" "bgt-1"
          (open_reservation "res-2" "bgt-1" "acc-1" "act-2" (amount_of 3000) "t1")
          reserved_budget,
    )
unfolding budget-IsExact
reserve_exact_example =
    reserve_exact "t1" "res-2" "bgt-1" "acc-1" "act-2" 3000 (refl, omega arith) none store budget
      at-store budget-IsExact

fresh-settled :
    lookup "res-2" (settle_monetary_reservation "t1" "res-1" none store).1.monetary_reservations
    ≡ none
unfolding settle_monetary_reservation lookup insert
fresh-settled = refl

Reach-IsLedger_example :
    IsLedger
      (reserve_monetary_budget "t1" "res-2" "bgt-1" "acc-1" "act-2"
        (codes "30.00")
        none
        (settle_monetary_reservation "t1" "res-1" none store).1).1
Reach-IsLedger_example = Reach-IsLedger store-IsLedger (
    next (next here (Step.settle store "t1" "res-1" none)) (
      Step.reserve _ "t1" "res-2" "bgt-1" "acc-1" "act-2" (codes "30.00") 3000 none priced-30
        fresh-settled))

abbrev settled : MonetaryReservation × MonetaryBudget
settled = (
  settled_reservation "t1" "res-1" none store reservation open_in-store refl refl 2000
      (refl, omega arith) priced-20_text budget at-store budget-IsExact held-exact,
  settled_budget "t1" "res-1" none store reservation open_in-store refl refl 2000
      (refl, omega arith) priced-20_text budget at-store budget-IsExact held-exact,
)

settle_exact_example :
    settle_monetary_reservation "t1" "res-1" none store
    ≡ (ok settled, written store "res-1" "bgt-1" settled.0 settled.1)
unfolding budget-IsExact
settle_exact_example =
    settle_exact "t1" "res-1" none store reservation open_in-store refl refl 2000
      (refl, omega arith) priced-20_text budget at-store budget-IsExact held-exact

abbrev released : MonetaryReservation × MonetaryBudget
released = (
  released_reservation store store-IsLedger "res-1" reservation open_in-store refl budget at-store
      "t1" none (some "why"),
  released_budget store store-IsLedger "res-1" reservation open_in-store refl budget at-store "t1"
      none (some "why"),
)

release_exact_example :
    release_monetary_reservation "t1" "res-1" none (some "why") store
    ≡ (ok released, written store "res-1" "bgt-1" released.0 released.1)
release_exact_example =
    release_exact store store-IsLedger "res-1" reservation open_in-store refl budget at-store "t1"
      none (some "why")

release_reactivates_example :
    lookup "bgt-1"
      (release_monetary_reservation "t1" "res-1" none (some "why") store).1.monetary_budgets
    ≡ some released.1
release_reactivates_example =
    release_reactivates store store-IsLedger "res-1" reservation open_in-store refl budget at-store
      "t1" none (some "why")

monetary_stays_closed_example :
    (settle_monetary_reservation "t2" "res-1" none
        (written store "res-1" "bgt-1" settled.0 settled.1)
      ≡ (
        err (monetary_reservation_not_active "res-1"),
        written store "res-1" "bgt-1" settled.0 settled.1,
      ))
    × (release_monetary_reservation "t2" "res-1" none none
          (written store "res-1" "bgt-1" settled.0 settled.1)
        ≡ (
          err (monetary_reservation_not_active "res-1"),
          written store "res-1" "bgt-1" settled.0 settled.1,
        ))
monetary_stays_closed_example =
    monetary_stays_closed "t2" "res-1" none none store
      (written store "res-1" "bgt-1" settled.0 settled.1) store-IsLedger
      (Closes.by_settling "t1" none settled.0 settled.1 settle_exact_example)

monetary-IsAtomic_example :
    IsAtomic store (consume_monetary_budget "t1" "bgt-1" (codes "95.00") none store)
    × IsAtomic store
        (reserve_monetary_budget "t1" "res-1" "bgt-1" "acc-1" "act-1" (codes "95.00") none store)
    × IsAtomic store (settle_monetary_reservation "t1" "res-1" none store)
    × IsAtomic store (release_monetary_reservation "t1" "res-1" none none store)
monetary-IsAtomic_example =
    monetary-IsAtomic "t1" "res-1" "bgt-1" "acc-1" "act-1" (codes "95.00") none none store

-- 80.00 of 90.00 that are not consumed, although 20.00 of them are held.
abbrev over : MonetaryBudget
over =
    consumed_budget "t1" "bgt-1" 8000 (refl, omega arith) none store budget at-store budget-IsExact

consume_exact_example :
    consume_monetary_budget "t1" "bgt-1" (amount_of 8000) none store
    ≡ (ok over, record store { monetary_budgets = insert "bgt-1" over store.monetary_budgets })
unfolding budget-IsExact
consume_exact_example =
    consume_exact "t1" "bgt-1" 8000 (refl, omega arith) none store budget at-store budget-IsExact

consume_overcommits_example :
    (lookup "bgt-1"
        (consume_monetary_budget "t1" "bgt-1" (amount_of 8000) none store).1.monetary_budgets
      ≡ some over)
    × (to_money over.consumed_amount ≡ num (pos 9000))
    × (get_reserved_amount over ≡ num (pos 2000))
    × (10000 < 11000)
unfolding budget-IsExact
consume_overcommits_example =
    consume_overcommits "t1" "bgt-1" 8000 (refl, omega arith) none store budget at-store
      budget-IsExact (omega arith) (omega arith)
