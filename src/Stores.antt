-- ===== src/Stores.antt =====
-- The contract of the stores that the services are given (`AtsStore`, `AfalSettlementStore` and the
-- others): a collection of records, each read and written by its id.
pub mod File
pub mod AtsFile
pub mod AipFile
pub mod AmnFile
pub mod OutputFile
pub mod SettlementFile
pub mod IntentFile
pub mod Agree
pub mod AtsAgree
use agent_financial_action_l.Base.{String, Option, none, some, ◌≡◌, ◌≢◌, List, [], ◌∷◌, refl}
use agent_financial_action_l.Base.Map.{Map, lookup, insert, lookup-insert_self, lookup-insert_ne}

-- The operations on one collection of records of type `V`.
pub record Collection (V : Type 0) : Type 1 where
  pub State : Type 0
  pub get : String → State → Option V
  pub put : V → State → State

-- What the services rely on; `id_of` is the field that a record is stored under.
pub record IsLawful {V : Type 0} (id_of : V → String) (c : Collection V) : Type 0 where
  pub get-put_self : (v : V) (s : c.State) → c.get (id_of v) (c.put v s) ≡ some v
  pub get-put_ne :
      (k : String) (v : V) (s : c.State) → id_of v ≢ k → c.get k (c.put v s) ≡ c.get k s

-- The in-memory stores: a `Map` from ids.
abbrev pub in_memory : {V : Type 0} → (V → String) → Collection V
in_memory {V} id_of = record { State = Map V; get = lookup; put = λ v m. insert (id_of v) v m }

pub in_memory-IsLawful : {V : Type 0} (id_of : V → String) → IsLawful id_of (in_memory id_of)
unfolding lookup
in_memory-IsLawful id_of = record {
  get-put_self = λ v s. lookup-insert_self (id_of v) v s;
  get-put_ne = λ k v s other. lookup-insert_ne (id_of v) k v s other;
}
