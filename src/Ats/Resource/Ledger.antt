-- ===== src/Ats/Resource/Ledger.antt =====
-- The invariant of resource budgets and quotas: what each holds back is what its open reservations
-- ask for; a budget's quantities add up to its limit, and a quota's stay within its maximum.
use agent_financial_action_l.Base.Map.{Map, lookup, insert, lookup-insert_inv}
use agent_financial_action_l.Base.{
  ℕ, ◌+◌, ◌-◌, ◌≤◌, ◌≡◌, ◌≢◌, some, none, if◌then◌else◌, arith, ◌&&◌, eq_iff, true, false, ◌==◌,
  eq_refl, inl, inr,
}
use agent_financial_action_l.Base.Int.{pos, pos_part}
use agent_financial_action_l.Base.Map.Total.{total, total-insert, total-insert_new}
use agent_financial_action_l.Ats.Resource.{
  budget_reserved, quota_reserved, ResourceReservation, IdRef, AtsStore, is_reserved,
  ResourceBudget, ResourceQuota,
}

-- What a reservation holds back from the budget or quota `k`, which it names by `ref_of`.
module _ (ref_of : ResourceReservation → IdRef) (k : IdRef) where
  unfoldable pub weight : ResourceReservation → ℕ
  weight r = if is_reserved r.status && ref_of r == k then pos_part r.quantity else 0

  abbrev pub held : Map ResourceReservation → ℕ
  held = total weight

  pub weight_other : (r : ResourceReservation) → ref_of r ≢ k → weight r ≡ 0
  unfolding weight
  weight_other r n = ground (arith, eq_iff (ref_of r) k)

  pub weight-reserved :
      (r : ResourceReservation) (x : ℕ)
      → is_reserved r.status ≡ true
      → ref_of r ≡ k
      → r.quantity ≡ pos x
      → weight r ≡ x
  unfolding weight
  weight-reserved r x open_status same sized = rw (open_status, same, eq_refl, sized)

  pub weight_closed : (r : ResourceReservation) → is_reserved r.status ≡ false → weight r ≡ 0
  unfolding weight
  weight_closed r closed = rw closed

  module _ (rid : IdRef) (r : ResourceReservation) (m : Map ResourceReservation) where
    pub held-insert_new_other : lookup rid m ≡ none → ref_of r ≢ k → held (insert rid r m) ≡ held m
    held-insert_new_other fresh n =
        omega (arith, total-insert_new weight rid r m fresh, weight_other r n)

    pub held-insert_other :
        (old : ResourceReservation)
        → lookup rid m ≡ some old
        → ref_of r ≢ k
        → ref_of old ≢ k
        → held (insert rid r m) ≡ held m
    held-insert_other old known n n' =
        omega (arith, total-insert weight rid r old m known, weight_other r n, weight_other old n')

    pub held-insert_closed :
        (old : ResourceReservation) (x : ℕ)
        → lookup rid m ≡ some old
        → weight old ≡ x
        → is_reserved r.status ≡ false
        → held (insert rid r m) ≡ held m - x
    held-insert_closed old x known open_weight closed =
        omega (arith, total-insert weight rid r old m known, weight_closed r closed, open_weight)

abbrev pub budget_of : ResourceReservation → IdRef
budget_of r = r.budget_ref

abbrev pub quota_of : ResourceReservation → IdRef
quota_of r = r.quota_ref

pub record IsBacked (budget_ref : IdRef) (b : ResourceBudget) (reserved : ℕ) : Type 0 where
  pub keyed : b.budget_id ≡ budget_ref
  pub limit : ℕ
  pub consumed : ℕ
  pub available : ℕ
  pub limit_eq : b.limit_quantity ≡ pos limit
  pub consumed_eq : b.consumed_quantity ≡ pos consumed
  pub reserved_eq : budget_reserved b ≡ pos reserved
  pub available_eq : b.available_quantity ≡ pos available
  pub balance : consumed + reserved + available ≡ limit

pub record IsWithin (quota_ref : IdRef) (q : ResourceQuota) (reserved : ℕ) : Type 0 where
  pub keyed : q.quota_id ≡ quota_ref
  pub maximum : ℕ
  pub used : ℕ
  pub maximum_eq : q.max_quantity ≡ pos maximum
  pub used_eq : q.used_quantity ≡ pos used
  pub reserved_eq : quota_reserved q ≡ pos reserved
  pub within : used + reserved ≤ maximum

pub record IsSized (reservation_ref : IdRef) (r : ResourceReservation) : Type 0 where
  pub keyed : r.reservation_id ≡ reservation_ref
  pub size : ℕ
  pub size_eq : r.quantity ≡ pos size

pub record IsLedger (s : AtsStore) : Type 0 where
  pub budgets :
      (k : IdRef) (b : ResourceBudget)
      → lookup k s.resource_budgets ≡ some b
      → IsBacked k b (held budget_of k s.resource_reservations)
  pub quotas :
      (k : IdRef) (q : ResourceQuota)
      → lookup k s.resource_quotas ≡ some q
      → IsWithin k q (held quota_of k s.resource_reservations)
  pub reservations :
      (k : IdRef) (r : ResourceReservation)
      → lookup k s.resource_reservations ≡ some r
      → IsSized k r

module _ (s : AtsStore) (rid bref qref : IdRef) (r : ResourceReservation) (b : ResourceBudget)
    (q : ResourceQuota) where
  -- The store after a reservation, its budget and its quota have been written.
  abbrev pub written : AtsStore
  written = record s {
    resource_reservations = insert rid r s.resource_reservations;
    resource_budgets = insert bref b s.resource_budgets;
    resource_quotas = insert qref q s.resource_quotas;
  }

  pub written-IsLedger :
      IsLedger s
      → IsSized rid r
      → ((k : IdRef)
          → bref ≢ k
          → held budget_of k (insert rid r s.resource_reservations)
            ≡ held budget_of k s.resource_reservations)
      → ((k : IdRef)
          → qref ≢ k
          → held quota_of k (insert rid r s.resource_reservations)
            ≡ held quota_of k s.resource_reservations)
      → IsBacked bref b (held budget_of bref (insert rid r s.resource_reservations))
      → IsWithin qref q (held quota_of qref (insert rid r s.resource_reservations))
      → IsLedger written
  written-IsLedger inv sized same_budget same_quota backed within = record {
    budgets = λ k b' h. elim (lookup-insert_inv bref k b b' s.resource_budgets h) [
      | inl (e, e') ↦ rw (← e, ← e') backed
      | inr (n, h') ↦ rw (same_budget k n) (inv.budgets k b' h')
    ];
    quotas = λ k q' h. elim (lookup-insert_inv qref k q q' s.resource_quotas h) [
      | inl (e, e') ↦ rw (← e, ← e') within
      | inr (n, h') ↦ rw (same_quota k n) (inv.quotas k q' h')
    ];
    reservations = λ k r' h. elim (lookup-insert_inv rid k r r' s.resource_reservations h) [
      | inl (e, e') ↦ rw (← e, ← e') sized
      | inr (n, h') ↦ inv.reservations k r' h'
    ];
  }
