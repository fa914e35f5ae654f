-- ===== src/Ats/Monetary/Close.antt =====
-- `settleMonetaryReservation` and `releaseMonetaryReservation` keep the ledger.
use agent_financial_action_l.Base.{
  ℕ, ◌+◌, ◌-◌, ◌≤◌, ◌≡◌, refl, ◌∙◌, ap, inl, inr, true, false, Option, some, arith, Bool-cases,
  Option-cases, ◌or_else◌,
}
use agent_financial_action_l.Base.Int.{pos}
use agent_financial_action_l.Base.Action.{assert_found, ok}
use agent_financial_action_l.Base.Map.{lookup, insert, lookup-insert_self}
use agent_financial_action_l.Base.Map.Total.{le-total}
use agent_financial_action_l.Money.{num, ◌+ₙ◌, ◌-ₙ◌, to_money}
use agent_financial_action_l.Money.RoundTrip.{to_money-from_money}
use agent_financial_action_l.Types.{IdRef, Timestamp}
use agent_financial_action_l.Types.Ats.{MonetaryBudget, MonetaryReservation, is_reserved}
use agent_financial_action_l.Ats.{AtsStore}
use agent_financial_action_l.Ats.Monetary.{
  get_reserved_amount, settle_monetary_reservation, release_monetary_reservation, ReservationStatus,
  from_money, next_status, BudgetStatus,
}
use agent_financial_action_l.Money.Hundredths.{left_over, sum_of, difference_of}
use agent_financial_action_l.Ats.Monetary.Ledger.{
  weight, weight-reserved, held, IsBacked, IsPriced, IsLedger, written-IsLedger, held-insert_other,
  held-insert_closed, written,
}

-- An open reservation of a known budget in a ledger.
module _ (s : AtsStore) (inv : IsLedger s) (ref : IdRef) (r : MonetaryReservation)
    (found : lookup ref s.monetary_reservations ≡ some r)
    (open_status : is_reserved r.status ≡ true) (b : MonetaryBudget)
    (known : lookup r.budget_ref s.monetary_budgets ≡ some b) where
  abbrev priced : IsPriced ref r
  priced = inv.reservations ref r found

  abbrev backed : IsBacked r.budget_ref b (held r.budget_ref s.monetary_reservations)
  backed = inv.budgets r.budget_ref b known

  abbrev held_before : ℕ
  held_before = held r.budget_ref s.monetary_reservations

  own_weight : weight r.budget_ref r ≡ priced.price
  own_weight = weight-reserved r r.budget_ref priced.price open_status refl priced.price_eq

  price-le-held : priced.price ≤ held_before
  price-le-held =
      omega (arith, own_weight, le-total (weight r.budget_ref) ref r s.monetary_reservations found)

  reserved_after :
      get_reserved_amount b -ₙ to_money r.amount ≡ num (pos (held_before - priced.price))
  reserved_after =
      rw (backed.reserved_eq, priced.price_eq)
        (difference_of held_before priced.price price-le-held)

  consumed_after :
      to_money b.consumed_amount +ₙ to_money r.amount ≡ num (pos (backed.consumed + priced.price))
  consumed_after = rw (backed.consumed_eq, priced.price_eq) (sum_of backed.consumed priced.price)

  available_settled :
      to_money b.limit_amount
        -ₙ num (pos (backed.consumed + priced.price))
        -ₙ num (pos (held_before - priced.price))
      ≡ num (pos backed.available)
  available_settled = rw backed.limit_eq (
      left_over backed.limit (backed.consumed + priced.price) (held_before - priced.price)
        (omega (arith, backed.balance, price-le-held))
      ∙ ap (λ (k : ℕ). num (pos k)) (omega (arith, backed.balance, price-le-held)))

  available_released :
      to_money b.limit_amount
        -ₙ to_money b.consumed_amount
        -ₙ num (pos (held_before - priced.price))
      ≡ num (pos (backed.available + priced.price))
  available_released =
      rw (backed.limit_eq, backed.consumed_eq)
        (left_over backed.limit backed.consumed (held_before - priced.price)
            (omega (arith, backed.balance, price-le-held))
          ∙ ap (λ (k : ℕ). num (pos k)) (omega (arith, backed.balance, price-le-held)))

  -- A closed reservation and its budget's new numbers, written.
  closed-IsLedger :
      (r' : MonetaryReservation) (b' : MonetaryBudget) (c a : ℕ)
      → r'.reservation_id ≡ ref
      → r'.budget_ref ≡ r.budget_ref
      → r'.amount ≡ r.amount
      → is_reserved r'.status ≡ false
      → b'.budget_id ≡ r.budget_ref
      → b'.limit_amount ≡ b.limit_amount
      → to_money b'.consumed_amount ≡ num (pos c)
      → get_reserved_amount b' ≡ num (pos (held_before - priced.price))
      → to_money b'.available_amount ≡ num (pos a)
      → c + (held_before - priced.price) + a ≡ backed.limit
      → IsLedger (record s {
        monetary_reservations = insert ref r' s.monetary_reservations;
        monetary_budgets = insert r.budget_ref b' s.monetary_budgets;
      })
  closed-IsLedger r' b' c a kr kb ka closed kb' kl hc hr ha balance =
      written-IsLedger s ref r.budget_ref r' b' inv
        (record { keyed = kr; price = priced.price; price_eq = rw ka priced.price_eq })
        (λ k n. held-insert_other ref r' s.monetary_reservations k r found (rw kb n) n)
        (rw
          (held-insert_closed ref r' s.monetary_reservations r.budget_ref r priced.price found
            own_weight closed)
          (record {
            keyed = kb';
            limit = backed.limit;
            consumed = c;
            available = a;
            limit_eq = rw kl backed.limit_eq;
            consumed_eq = hc;
            reserved_eq = hr;
            available_eq = ha;
            balance = balance;
          }))

  module _ (now : Timestamp) (at : Option Timestamp) where
    abbrev pub settled_reservation : MonetaryReservation
    settled_reservation = record r {
      status = ReservationStatus.settled;
      settled_at = some (at or_else now);
      updated_at = at or_else now;
    }

    abbrev pub settled_budget : MonetaryBudget
    settled_budget = record b {
      consumed_amount = from_money (num (pos (backed.consumed + priced.price)));
      reserved_amount = some (from_money (num (pos (held_before - priced.price))));
      available_amount = from_money (num (pos backed.available));
      status = next_status (num (pos backed.available)) b.status;
      updated_at = at or_else now;
    }

    -- In the arithmetic of whole hundredths: settling an open reservation of a ledger's budget moves
    -- its price from reserved to consumed and leaves what is available alone.
    pub settle-written : settle_monetary_reservation now ref at s ≡ (
      ok (settled_reservation, settled_budget),
      written s ref r.budget_ref settled_reservation settled_budget,
    )
    unfolding settle_monetary_reservation
    settle-written = rw (
      found, assert_found, open_status, known, reserved_after, consumed_after, available_settled,
      backed.keyed, priced.keyed,
    )

    settle-IsLedger_open : IsLedger (settle_monetary_reservation now ref at s).1
    settle-IsLedger_open = rw settle-written (
        closed-IsLedger settled_reservation settled_budget (backed.consumed + priced.price)
          backed.available priced.keyed refl refl refl backed.keyed refl
          (to_money-from_money (pos _)) (to_money-from_money (pos _)) (to_money-from_money (pos _))
          (omega (arith, backed.balance, price-le-held)))

    module _ (why : Option IdRef) where
      abbrev pub released_reservation : MonetaryReservation
      released_reservation = record r {
        status = ReservationStatus.released;
        released_at = some (at or_else now);
        release_reason_code = why;
        updated_at = at or_else now;
      }

      abbrev pub released_budget : MonetaryBudget
      released_budget = record b {
        reserved_amount = some (from_money (num (pos (held_before - priced.price))));
        available_amount = from_money (num (pos (backed.available + priced.price)));
        status = BudgetStatus.active;
        updated_at = at or_else now;
      }

      -- Releasing an open reservation of a ledger's budget gives its price back to what is available
      -- and consumes nothing. The budget becomes active, whatever its status was.
      pub release_exact : release_monetary_reservation now ref at why s ≡ (
        ok (released_reservation, released_budget),
        written s ref r.budget_ref released_reservation released_budget,
      )
      unfolding release_monetary_reservation
      release_exact = rw (
        found, assert_found, open_status, known, reserved_after, available_released, backed.keyed,
        priced.keyed,
      )

      release-IsLedger_open : IsLedger (release_monetary_reservation now ref at why s).1
      release-IsLedger_open = rw release_exact (
          closed-IsLedger released_reservation released_budget backed.consumed
            (backed.available + priced.price) priced.keyed refl refl refl backed.keyed refl
            backed.consumed_eq (to_money-from_money (pos _)) (to_money-from_money (pos _))
            (omega (arith, backed.balance, price-le-held)))

      -- A budget that was revoked or restricted is active again after one of its reservations is released.
      pub release_reactivates :
          lookup r.budget_ref (release_monetary_reservation now ref at why s).1.monetary_budgets
          ≡ some released_budget
      release_reactivates =
          rw release_exact (lookup-insert_self r.budget_ref released_budget s.monetary_budgets)

-- Settling keeps the ledger on every branch: an unknown or closed reservation and an unknown budget
-- throw before anything is written.
pub settle-IsLedger :
    (now : Timestamp) (ref : IdRef) (at : Option Timestamp) (s : AtsStore)
    → IsLedger s
    → IsLedger (settle_monetary_reservation now ref at s).1
settle-IsLedger now ref at s inv = elim (Option-cases (lookup ref s.monetary_reservations)) [
  | inl missing ↦ unfold settle_monetary_reservation in rw (missing, assert_found) inv
  | inr (r, found) ↦ elim (Bool-cases (is_reserved r.status)) [
    | inl open_status ↦ elim (Option-cases (lookup r.budget_ref s.monetary_budgets)) [
      | inl unknown ↦
          unfold settle_monetary_reservation in rw (found, assert_found, open_status, unknown) inv
      | inr (b, known) ↦ settle-IsLedger_open s inv ref r found open_status b known now at
    ]
    | inr closed ↦ unfold settle_monetary_reservation in rw (found, assert_found, closed) inv
  ]
]

-- Releasing keeps the ledger on every branch.
pub release-IsLedger :
    (now : Timestamp) (ref : IdRef) (at : Option Timestamp) (why : Option IdRef) (s : AtsStore)
    → IsLedger s
    → IsLedger (release_monetary_reservation now ref at why s).1
release-IsLedger now ref at why s inv = elim (Option-cases (lookup ref s.monetary_reservations)) [
  | inl missing ↦ unfold release_monetary_reservation in rw (missing, assert_found) inv
  | inr (r, found) ↦ elim (Bool-cases (is_reserved r.status)) [
    | inl open_status ↦ elim (Option-cases (lookup r.budget_ref s.monetary_budgets)) [
      | inl unknown ↦
          unfold release_monetary_reservation in rw (found, assert_found, open_status, unknown) inv
      | inr (b, known) ↦ release-IsLedger_open s inv ref r found open_status b known now at why
    ]
    | inr closed ↦ unfold release_monetary_reservation in rw (found, assert_found, closed) inv
  ]
]
