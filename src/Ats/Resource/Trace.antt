-- ===== src/Ats/Resource/Trace.antt =====
-- Reservations of capacity, settlements and releases in any order.
use agent_financial_action_l.Base.{ℕ, ◌≡◌, none, Option}
use agent_financial_action_l.Base.Int.{pos}
use agent_financial_action_l.Base.Map.{lookup}
use agent_financial_action_l.Types.{IdRef, Timestamp}
use agent_financial_action_l.Ats.{AtsStore}
use agent_financial_action_l.Ats.Resource.{
  reserve_resource_capacity, settle_resource_reservation, release_resource_reservation,
}
use agent_financial_action_l.Ats.Resource.Ledger.{IsLedger}
use agent_financial_action_l.Ats.Resource.Reserve.{reserve-IsLedger}
use agent_financial_action_l.Ats.Resource.Close.{settle-IsLedger, release-IsLedger}

-- One call, whether it returns or throws. A reservation is made under a new id.
pub data Step : AtsStore → AtsStore → Type 0 where
  reserve :
      (s : AtsStore) (now : Timestamp) (rid bref qref aref act : IdRef) (x : ℕ)
      (at : Option Timestamp)
      → lookup rid s.resource_reservations ≡ none
      → Step s (reserve_resource_capacity now rid bref qref aref act (pos x) at s).1
  settle :
      (s : AtsStore) (now : Timestamp) (ref : IdRef) (at : Option Timestamp)
      → Step s (settle_resource_reservation now ref at s).1
  release :
      (s : AtsStore) (now : Timestamp) (ref : IdRef) (at : Option Timestamp) (why : Option IdRef)
      → Step s (release_resource_reservation now ref at why s).1

pub data Reach (s : AtsStore) : AtsStore → Type 0 where
  here : Reach s s
  next : {t u : AtsStore} → Reach s t → Step t u → Reach s u

Step-IsLedger : {s t : AtsStore} → Step s t → IsLedger s → IsLedger t
Step-IsLedger (reserve s now rid bref qref aref act x at fresh) inv =
    reserve-IsLedger now rid bref qref aref act x at s inv fresh
Step-IsLedger (settle s now ref at) inv = settle-IsLedger now ref at s inv
Step-IsLedger (release s now ref at why) inv = release-IsLedger now ref at why s inv

-- Whatever the order of the calls, and whether they return or throw: from a ledger, what a budget
-- and a quota hold back is the sum of their open reservations, a budget's consumed, reserved and
-- available quantities add up to its limit, and a quota's used and reserved ones stay within its
-- maximum. Reservations are made under new ids, of quantities that are not negative.
pub capacity-IsLedger : {s t : AtsStore} → IsLedger s → Reach s t → IsLedger t
capacity-IsLedger inv here = inv
capacity-IsLedger inv (next r st) = Step-IsLedger st (capacity-IsLedger inv r)
