-- ===== src/Ats/Monetary/Trace.antt =====
-- Reservations, settlements and releases in any order.
use agent_financial_action_l.Base.{ℕ, ◌≡◌, none, Option}
use agent_financial_action_l.Base.Int.{pos}
use agent_financial_action_l.Base.Map.{lookup}
use agent_financial_action_l.Money.{DecimalString, num, to_money}
use agent_financial_action_l.Types.{IdRef, Timestamp}
use agent_financial_action_l.Ats.{AtsStore}
use agent_financial_action_l.Ats.Monetary.{
  reserve_monetary_budget, settle_monetary_reservation, release_monetary_reservation,
}
use agent_financial_action_l.Ats.Monetary.Ledger.{IsLedger}
use agent_financial_action_l.Ats.Monetary.Reserve.{reserve-IsLedger}
use agent_financial_action_l.Ats.Monetary.Close.{settle-IsLedger, release-IsLedger}

-- One call, whether it returns or throws. A reservation is made under a new id and for an amount
-- that reads as a number of hundredths.
pub data Step : AtsStore → AtsStore → Type 0 where
  reserve :
      (s : AtsStore) (now : Timestamp) (rid bref aref act : IdRef) (amount : DecimalString) (x : ℕ)
      (at : Option Timestamp)
      → to_money amount ≡ num (pos x)
      → lookup rid s.monetary_reservations ≡ none
      → Step s (reserve_monetary_budget now rid bref aref act amount at s).1
  settle :
      (s : AtsStore) (now : Timestamp) (ref : IdRef) (at : Option Timestamp)
      → Step s (settle_monetary_reservation now ref at s).1
  release :
      (s : AtsStore) (now : Timestamp) (ref : IdRef) (at : Option Timestamp) (why : Option IdRef)
      → Step s (release_monetary_reservation now ref at why s).1

pub data Reach (s : AtsStore) : AtsStore → Type 0 where
  here : Reach s s
  next : {t u : AtsStore} → Reach s t → Step t u → Reach s u

Step-IsLedger : {s t : AtsStore} → Step s t → IsLedger s → IsLedger t
Step-IsLedger (reserve s now rid bref aref act amount x at priced fresh) inv =
    reserve-IsLedger now rid bref aref act amount x at s inv priced fresh
Step-IsLedger (settle s now ref at) inv = settle-IsLedger now ref at s inv
Step-IsLedger (release s now ref at why) inv = release-IsLedger now ref at why s inv

-- Whatever the order of the calls, and whether they return or throw: from a ledger, what a budget
-- holds back is the sum of its open reservations, and its consumed, reserved and available amounts
-- add up to its limit. Reservations are made under new ids, of amounts that are not negative.
pub Reach-IsLedger : {s t : AtsStore} → IsLedger s → Reach s t → IsLedger t
Reach-IsLedger inv here = inv
Reach-IsLedger inv (next r st) = Step-IsLedger st (Reach-IsLedger inv r)
