-- ===== src/Ats/Monetary/Exact.antt =====
-- Amounts on which the double arithmetic of backend/ats/service.ts is exact, so that the comparisons
-- `nextAvailable < 0` and `nextAvailable === 0` are those of the whole numbers of hundredths.
use agent_financial_action_l.Base.{
  ℕ, ◌+◌, ◌-◌, ◌%◌, ◌^◌, ◌≤◌, ◌<◌, ◌≡◌, inl, inr, Option, some, codes, ◌or_else◌, leb, leb→le,
  le→leb, if◌then◌else◌, arith, ap, ◌∙◌, true, Bool-cases,
}
use agent_financial_action_l.Base.Int.{pos}
use agent_financial_action_l.Base.Action.{ok, err, assert_found, monetary_budget_exceeded}
use agent_financial_action_l.Base.Map.{lookup, insert, lookup-insert_self}
use agent_financial_action_l.Money.{num, ◌-ₙ◌, to_money, from_money, DecimalString}
use agent_financial_action_l.Money.RoundTrip.{to_money-from_money}
use agent_financial_action_l.Money.Hundredths.{left_over, sum_of, difference_of, below_zero_of_lt}
use agent_financial_action_l.Types.{IdRef, Timestamp}
use agent_financial_action_l.Types.Ats.{
  MonetaryBudget, MonetaryReservation, ReservationStatus, is_reserved,
}
use agent_financial_action_l.Ats.{AtsStore}
use agent_financial_action_l.Ats.Monetary.{
  get_reserved_amount, next_status, open_reservation, reserve_monetary_budget,
  consume_monetary_budget, settle_monetary_reservation,
}
use agent_financial_action_l.Ats.Monetary.Ledger.{IsBacked, written}
use agent_financial_action_l.Ats.Monetary.Reserve.{asked_available, asked_exceeds, reserved_after}

-- Hundredths that are a multiple of 25 are a quarter of a whole number: below 2 ^ 50, doubles hold
-- them, and what is added or taken away below, without rounding.
abbrev pub IsQuarters : ℕ → Type 0
IsQuarters n = (n % 25 ≡ 0) × (n < 2 ^ 50)

-- The text with two fraction digits of `n` hundredths.
abbrev pub amount_of : ℕ → DecimalString
amount_of n = from_money (num (pos n))

-- A budget in balance whose amounts doubles hold exactly.
pub record IsExact (budget_ref : IdRef) (b : MonetaryBudget) : Type 0 where
  pub keyed : b.budget_id ≡ budget_ref
  pub limit : ℕ
  pub consumed : ℕ
  pub reserved : ℕ
  pub available : ℕ
  pub limit_eq : b.limit_amount ≡ amount_of limit
  pub consumed_eq : b.consumed_amount ≡ amount_of consumed
  pub reserved_eq : (b.reserved_amount or_else codes "0.00") ≡ amount_of reserved
  pub available_eq : b.available_amount ≡ amount_of available
  pub balance : consumed + reserved + available ≡ limit
  pub limit_quarters : IsQuarters limit
  pub consumed_quarters : IsQuarters consumed
  pub reserved_quarters : IsQuarters reserved

read : (n : ℕ) (t : DecimalString) → t ≡ amount_of n → to_money t ≡ num (pos n)
read n t same = ap to_money same ∙ to_money-from_money (pos n)

-- Such a budget backs what it holds back.
module _ (bref : IdRef) (b : MonetaryBudget) (e : IsExact bref b) where
  abbrev backed : IsBacked bref b e.reserved
  backed = record {
    keyed = e.keyed;
    limit = e.limit;
    consumed = e.consumed;
    available = e.available;
    limit_eq = read e.limit b.limit_amount e.limit_eq;
    consumed_eq = read e.consumed b.consumed_amount e.consumed_eq;
    reserved_eq = read e.reserved (b.reserved_amount or_else codes "0.00") e.reserved_eq;
    available_eq = read e.available b.available_amount e.available_eq;
    balance = e.balance;
  }

module _ (now : Timestamp) (rid bref aref act : IdRef) (x : ℕ) (x_quarters : IsQuarters x)
    (at : Option Timestamp) (s : AtsStore) (b : MonetaryBudget)
    (known : lookup bref s.monetary_budgets ≡ some b) (e : IsExact bref b) where
  abbrev opened : MonetaryReservation
  opened = open_reservation rid bref aref act (amount_of x) (at or_else now)

  -- The budget after the reservation.
  abbrev pub reserving_budget : MonetaryBudget
  reserving_budget = record b {
    reserved_amount = some (amount_of (e.reserved + x));
    available_amount = amount_of (e.available - x);
    status = next_status (num (pos (e.available - x))) b.status;
    updated_at = at or_else now;
  }

  -- On a known budget in balance, where the amounts of the budget and of the reservation are quarters
  -- of a whole number that doubles hold exactly: the amount is reserved exactly if it is available.
  -- Then the reservation and the budget's new amounts are written, the status being exhausted where
  -- nothing is left. Else the call throws and writes nothing.
  pub reserve_exact : reserve_monetary_budget now rid bref aref act (amount_of x) at s ≡ (
      if leb x e.available
      then (ok (opened, reserving_budget), written s rid bref opened reserving_budget)
      else (err (monetary_budget_exceeded bref), s))
  unfolding reserve_monetary_budget
  reserve_exact =
      let priced = to_money-from_money (pos x) in
      rw (known, assert_found)
        (elim (Bool-cases (leb x e.available)) [
          | inl within ↦ rw (
            within,
            asked_available bref b _ (backed bref b e) (to_money (amount_of x)) x priced
                (leb→le _ _ within),
            reserved_after bref b _ (backed bref b e) (to_money (amount_of x)) x priced,
            e.keyed,
          )
          | inr beyond ↦ rw (
            beyond,
            asked_exceeds bref b _ (backed bref b e) (to_money (amount_of x)) x priced
                (ground arith),
          )
        ])

module _ (now : Timestamp) (ref : IdRef) (x : ℕ) (x_quarters : IsQuarters x) (at : Option Timestamp)
    (s : AtsStore) (b : MonetaryBudget) (known : lookup ref s.monetary_budgets ≡ some b)
    (e : IsExact ref b) where
  abbrev pub consumed_budget : MonetaryBudget
  consumed_budget = record b {
    consumed_amount = amount_of (e.consumed + x);
    available_amount = amount_of (e.limit - (e.consumed + x));
    status = next_status (num (pos (e.limit - (e.consumed + x)))) b.status;
    updated_at = at or_else now;
  }

  -- On a known budget in balance, where the amounts of the budget and the consumed one are quarters of
  -- a whole number that doubles hold exactly: an amount is consumed exactly if it and what was
  -- consumed stay within the limit, whatever reservations hold back; else the call throws and writes
  -- nothing.
  pub consume_exact : consume_monetary_budget now ref (amount_of x) at s ≡ (
      if leb (e.consumed + x) e.limit
      then (
        ok consumed_budget,
        record s { monetary_budgets = insert ref consumed_budget s.monetary_budgets },
      )
      else (err (monetary_budget_exceeded ref), s))
  unfolding consume_monetary_budget
  consume_exact =
      let kept = backed ref b e in
      rw (known, assert_found, kept.consumed_eq, kept.limit_eq, to_money-from_money (pos x), sum_of)
        (elim (Bool-cases (leb (e.consumed + x) e.limit)) [
          | inl within ↦ rw (within, difference_of e.limit (e.consumed + x) (ground arith), e.keyed)
          | inr beyond ↦ rw (beyond, below_zero_of_lt e.limit (e.consumed + x) (ground arith))
        ])

  -- On such a budget an amount that reservations already hold back is consumed too: the consumed and
  -- the reserved hundredths that are then written together pass the limit.
  pub consume_overcommits :
      e.consumed + x ≤ e.limit
      → e.available < x
      → let s' = (consume_monetary_budget now ref (amount_of x) at s).1 in
        (lookup ref s'.monetary_budgets ≡ some consumed_budget)
        × (to_money consumed_budget.consumed_amount ≡ num (pos (e.consumed + x)))
        × (get_reserved_amount consumed_budget ≡ num (pos e.reserved))
        × (e.limit < e.consumed + x + e.reserved)
  consume_overcommits within short = (
    rw (consume_exact, le→leb _ _ within)
        (lookup-insert_self ref consumed_budget s.monetary_budgets),
    to_money-from_money (pos _),
    (backed ref b e).reserved_eq,
    omega (arith, e.balance),
  )

-- An open reservation of an exact amount, on a budget that holds it back.
module _ (now : Timestamp) (ref : IdRef) (at : Option Timestamp) (s : AtsStore)
    (r : MonetaryReservation) (found : lookup ref s.monetary_reservations ≡ some r)
    (r_keyed : r.reservation_id ≡ ref) (open_status : is_reserved r.status ≡ true) (x : ℕ)
    (x_quarters : IsQuarters x) (priced : r.amount ≡ amount_of x) (b : MonetaryBudget)
    (known : lookup r.budget_ref s.monetary_budgets ≡ some b) (e : IsExact r.budget_ref b)
    (holds : x ≤ e.reserved) where
  abbrev pub settled_reservation : MonetaryReservation
  settled_reservation = record r {
    status = ReservationStatus.settled;
    settled_at = some (at or_else now);
    updated_at = at or_else now;
  }

  abbrev pub settled_budget : MonetaryBudget
  settled_budget = record b {
    consumed_amount = amount_of (e.consumed + x);
    reserved_amount = some (amount_of (e.reserved - x));
    available_amount = amount_of e.available;
    status = next_status (num (pos e.available)) b.status;
    updated_at = at or_else now;
  }

  left_after :
      num (pos e.limit) -ₙ num (pos (e.consumed + x)) -ₙ num (pos (e.reserved - x))
      ≡ num (pos e.available)
  left_after =
      left_over e.limit (e.consumed + x) (e.reserved - x) (omega (arith, e.balance, holds))
      ∙ ap (λ (k : ℕ). num (pos k)) (omega (arith, e.balance, holds))

  -- Settling an open reservation of a budget in balance that holds it back, where the amounts of both
  -- are quarters of a whole number that doubles hold exactly, moves its price from reserved to
  -- consumed and leaves what is available alone; the reservation is marked settled, and the budget
  -- exhausted where nothing is available.
  pub settle_exact : settle_monetary_reservation now ref at s ≡ (
    ok (settled_reservation, settled_budget),
    written s ref r.budget_ref settled_reservation settled_budget,
  )
  unfolding settle_monetary_reservation
  settle_exact =
      let kept = backed r.budget_ref b e in
      rw (
        found,
        assert_found,
        open_status,
        known,
        kept.consumed_eq,
        kept.reserved_eq,
        kept.limit_eq,
        read x r.amount priced,
        sum_of e.consumed x,
        difference_of e.reserved x holds,
        left_after,
        e.keyed,
        r_keyed,
      )
