-- ===== src/Ats/Monetary/Ledger.antt =====
-- The invariant of monetary budgets: what a budget holds back is what its open reservations ask for,
-- and consumed, reserved and available hundredths add up to the limit.
use agent_financial_action_l.Base.{
  ℕ, ◌+◌, ◌-◌, eq_refl, true, false, ◌≡◌, ◌≢◌, inl, inr, ◌&&◌, none, some, arith, ◌==◌, eq_iff,
  if◌then◌else◌,
}
use agent_financial_action_l.Base.Int.{pos}
use agent_financial_action_l.Base.Map.{Map, lookup, insert, lookup-insert_inv}
use agent_financial_action_l.Base.Map.Total.{total, total-insert, total-insert_new}
use agent_financial_action_l.Money.{Number, num, to_money}
use agent_financial_action_l.Types.{IdRef}
use agent_financial_action_l.Types.Ats.{MonetaryBudget, MonetaryReservation, is_reserved}
use agent_financial_action_l.Ats.{AtsStore}
use agent_financial_action_l.Ats.Monetary.{get_reserved_amount}

-- The natural number of hundredths, 0 for any other number.
abbrev pub hundredths : Number → ℕ
hundredths (num (pos n)) = n
hundredths _ = 0

-- What a reservation holds back from the budget `budget_ref`.
unfoldable pub weight : IdRef → MonetaryReservation → ℕ
weight budget_ref r =
    if is_reserved r.status && r.budget_ref == budget_ref then hundredths (to_money r.amount) else 0

abbrev pub held : IdRef → Map MonetaryReservation → ℕ
held budget_ref = total (weight budget_ref)

pub record IsBacked (budget_ref : IdRef) (b : MonetaryBudget) (reserved : ℕ) : Type 0 where
  pub keyed : b.budget_id ≡ budget_ref
  pub limit : ℕ
  pub consumed : ℕ
  pub available : ℕ
  pub limit_eq : to_money b.limit_amount ≡ num (pos limit)
  pub consumed_eq : to_money b.consumed_amount ≡ num (pos consumed)
  pub reserved_eq : get_reserved_amount b ≡ num (pos reserved)
  pub available_eq : to_money b.available_amount ≡ num (pos available)
  pub balance : consumed + reserved + available ≡ limit

pub record IsPriced (reservation_ref : IdRef) (r : MonetaryReservation) : Type 0 where
  pub keyed : r.reservation_id ≡ reservation_ref
  pub price : ℕ
  pub price_eq : to_money r.amount ≡ num (pos price)

pub record IsLedger (s : AtsStore) : Type 0 where
  pub budgets :
      (k : IdRef) (b : MonetaryBudget)
      → lookup k s.monetary_budgets ≡ some b
      → IsBacked k b (held k s.monetary_reservations)
  pub reservations :
      (k : IdRef) (r : MonetaryReservation)
      → lookup k s.monetary_reservations ≡ some r
      → IsPriced k r

module _ (s : AtsStore) (rid bref : IdRef) (r : MonetaryReservation) (b : MonetaryBudget) where
  -- The store after a reservation and its budget have been written.
  abbrev pub written : AtsStore
  written = record s {
    monetary_reservations = insert rid r s.monetary_reservations;
    monetary_budgets = insert bref b s.monetary_budgets;
  }

  pub written-IsLedger :
      IsLedger s
      → IsPriced rid r
      → ((k : IdRef)
          → bref ≢ k
          → held k (insert rid r s.monetary_reservations) ≡ held k s.monetary_reservations)
      → IsBacked bref b (held bref (insert rid r s.monetary_reservations))
      → IsLedger written
  written-IsLedger inv priced same backed = record {
    budgets = λ k b' h. elim (lookup-insert_inv bref k b b' s.monetary_budgets h) [
      | inl (e, e') ↦ rw (← e, ← e') backed
      | inr (n, h') ↦ rw (same k n) (inv.budgets k b' h')
    ];
    reservations = λ k r' h. elim (lookup-insert_inv rid k r r' s.monetary_reservations h) [
      | inl (e, e') ↦ rw (← e, ← e') priced
      | inr (n, h') ↦ inv.reservations k r' h'
    ];
  }

pub weight_other : (r : MonetaryReservation) (k : IdRef) → r.budget_ref ≢ k → weight k r ≡ 0
unfolding weight
weight_other r k n = ground (arith, eq_iff r.budget_ref k)

-- An open reservation weighs its price on its own budget, and a closed one nothing.
pub weight-reserved :
    (r : MonetaryReservation) (k : IdRef) (x : ℕ)
    → is_reserved r.status ≡ true
    → r.budget_ref ≡ k
    → to_money r.amount ≡ num (pos x)
    → weight k r ≡ x
unfolding weight
weight-reserved r k x open_status same priced = rw (open_status, same, eq_refl, priced)

pub weight_closed :
    (r : MonetaryReservation) (k : IdRef) → is_reserved r.status ≡ false → weight k r ≡ 0
unfolding weight
weight_closed r k closed = rw closed

-- Writing a reservation of one budget changes what that budget holds, and no other.
module _ (rid : IdRef) (r : MonetaryReservation) (m : Map MonetaryReservation) where
  pub held-insert_new_other :
      (k : IdRef) → lookup rid m ≡ none → r.budget_ref ≢ k → held k (insert rid r m) ≡ held k m
  held-insert_new_other k fresh n =
      omega (arith, total-insert_new (weight k) rid r m fresh, weight_other r k n)

  pub held-insert_other :
      (k : IdRef) (old : MonetaryReservation)
      → lookup rid m ≡ some old
      → r.budget_ref ≢ k
      → old.budget_ref ≢ k
      → held k (insert rid r m) ≡ held k m
  held-insert_other k old known n n' =
      omega (
        arith,
        total-insert (weight k) rid r old m known,
        weight_other r k n,
        weight_other old k n',
      )

  -- Closing a reservation frees its price.
  pub held-insert_closed :
      (k : IdRef) (old : MonetaryReservation) (x : ℕ)
      → lookup rid m ≡ some old
      → weight k old ≡ x
      → is_reserved r.status ≡ false
      → held k (insert rid r m) ≡ held k m - x
  held-insert_closed k old x known open_weight closed =
      omega
        (arith, total-insert (weight k) rid r old m known, weight_closed r k closed, open_weight)
