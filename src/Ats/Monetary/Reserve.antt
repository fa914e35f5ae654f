-- ===== src/Ats/Monetary/Reserve.antt =====
-- `reserveMonetaryBudget` keeps the ledger, and what it does on every branch.
use agent_financial_action_l.Base.{
  some, ◌<◌, leb, leb→le, true, if◌then◌else◌, ◌or_else◌, ℕ, ◌+◌, ◌-◌, ◌≤◌, ◌≡◌, refl, ◌∙◌, ap, inl,
  inr, true, Option, none, arith, Bool-cases, Option-cases,
}
use agent_financial_action_l.Base.Int.{pos}
use agent_financial_action_l.Base.Action.{ok, err, monetary_budget_exceeded, assert_found}
use agent_financial_action_l.Base.Map.{lookup}
use agent_financial_action_l.Base.Map.Total.{total-insert_new}
use agent_financial_action_l.Money.{
  from_money, Number, num, ◌+ₙ◌, ◌-ₙ◌, below_zero, to_money, DecimalString,
}
use agent_financial_action_l.Money.Hundredths.{left_over, sum_of, below_zero_rest}
use agent_financial_action_l.Money.RoundTrip.{to_money-from_money}
use agent_financial_action_l.Types.{IdRef, Timestamp}
use agent_financial_action_l.Types.Ats.{MonetaryBudget, MonetaryReservation}
use agent_financial_action_l.Ats.{AtsStore}
use agent_financial_action_l.Ats.Monetary.{
  get_reserved_amount, open_reservation, next_status, reserve_monetary_budget,
}
use agent_financial_action_l.Ats.Monetary.Ledger.{
  written, weight-reserved, weight, IsBacked, IsLedger, written-IsLedger, held-insert_new_other,
  held,
}

-- What is asked for fits what is available, or the budget is exceeded.
module _ (bref : IdRef) (b : MonetaryBudget) (held : ℕ) (backed : IsBacked bref b held)
    (amount : Number) (x : ℕ) (priced : amount ≡ num (pos x)) where
  abbrev asked : Number
  asked = to_money b.limit_amount -ₙ to_money b.consumed_amount -ₙ (get_reserved_amount b +ₙ amount)

  pub reserved_after : get_reserved_amount b +ₙ amount ≡ num (pos (held + x))
  reserved_after = rw (backed.reserved_eq, priced) (sum_of held x)

  asked_numbers :
      asked ≡ num (pos backed.limit) -ₙ num (pos backed.consumed) -ₙ num (pos (held + x))
  asked_numbers = rw (backed.limit_eq, backed.consumed_eq, reserved_after)

  pub asked_available : x ≤ backed.available → asked ≡ num (pos (backed.available - x))
  asked_available h =
      asked_numbers
      ∙ left_over backed.limit backed.consumed (held + x) (omega (arith, backed.balance))
      ∙ ap (λ (k : ℕ). num (pos k)) (omega (arith, backed.balance))

  pub asked_exceeds : backed.available < x → below_zero asked ≡ true
  asked_exceeds h = rw asked_numbers (
      below_zero_rest backed.limit backed.consumed (held + x) (omega (arith, backed.balance))
        (omega (arith, backed.balance)))

module _ (now : Timestamp) (rid bref aref act : IdRef) (amount : DecimalString) (x : ℕ)
    (at : Option Timestamp) (s : AtsStore) (inv : IsLedger s)
    (priced : to_money amount ≡ num (pos x)) (b : MonetaryBudget)
    (known : lookup bref s.monetary_budgets ≡ some b) where
  abbrev backed : IsBacked bref b (held bref s.monetary_reservations)
  backed = inv.budgets bref b known

  abbrev opened : MonetaryReservation
  opened = open_reservation rid bref aref act amount (at or_else now)

  -- The budget after the reservation.
  abbrev pub reserving_budget : MonetaryBudget
  reserving_budget = record b {
    reserved_amount = some (from_money (num (pos (held bref s.monetary_reservations + x))));
    available_amount = from_money (num (pos (backed.available - x)));
    status = next_status (num (pos (backed.available - x))) b.status;
    updated_at = at or_else now;
  }

  -- In the arithmetic of whole hundredths: on a known budget of a ledger an amount is reserved if it is
  -- available, which writes the reservation and the budget's new amounts, else the call throws.
  pub reserve-written : reserve_monetary_budget now rid bref aref act amount at s ≡ (
      if leb x backed.available
      then (ok (opened, reserving_budget), written s rid bref opened reserving_budget)
      else (err (monetary_budget_exceeded bref), s))
  unfolding reserve_monetary_budget
  reserve-written =
      rw (known, assert_found)
        (elim (Bool-cases (leb x backed.available)) [
          | inl within ↦ rw (
            within,
            asked_available bref b _ backed (to_money amount) x priced (leb→le _ _ within),
            reserved_after bref b _ backed (to_money amount) x priced,
            backed.keyed,
          )
          | inr beyond ↦
              rw (beyond, asked_exceeds bref b _ backed (to_money amount) x priced (ground arith))
        ])

  reserve-IsLedger_known :
      lookup rid s.monetary_reservations ≡ none
      → IsLedger (reserve_monetary_budget now rid bref aref act amount at s).1
  reserve-IsLedger_known fresh = rw reserve-written (elim (Bool-cases (leb x backed.available)) [
    | inr beyond ↦ rw beyond inv
    | inl within ↦ rw within (
        written-IsLedger s rid bref opened reserving_budget inv
          (record { keyed = refl; price = x; price_eq = priced })
          (λ k n. held-insert_new_other rid opened s.monetary_reservations k fresh n)
          (rw
            (
              total-insert_new (weight bref) rid opened s.monetary_reservations fresh,
              weight-reserved opened bref x refl refl priced,
            )
            (record {
              keyed = backed.keyed;
              limit = backed.limit;
              consumed = backed.consumed;
              available = backed.available - x;
              limit_eq = backed.limit_eq;
              consumed_eq = backed.consumed_eq;
              reserved_eq = to_money-from_money (pos _);
              available_eq = to_money-from_money (pos _);
              balance = omega (arith, backed.balance, leb→le x backed.available within);
            })))
  ])

-- Reserving under a new id keeps the ledger, whether the call returns or throws.
module _ (now : Timestamp) (rid bref aref act : IdRef) (amount : DecimalString) (x : ℕ)
    (at : Option Timestamp) (s : AtsStore) (inv : IsLedger s)
    (priced : to_money amount ≡ num (pos x))
    (fresh : lookup rid s.monetary_reservations ≡ none) where
  pub reserve-IsLedger : IsLedger (reserve_monetary_budget now rid bref aref act amount at s).1
  unfolding reserve_monetary_budget
  reserve-IsLedger = elim (Option-cases (lookup bref s.monetary_budgets)) [
    | inl missing ↦ rw (missing, assert_found) inv
    | inr (b, known) ↦
        reserve-IsLedger_known now rid bref aref act amount x at s inv priced b known fresh
  ]
