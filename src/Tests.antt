-- ===== src/Tests.antt =====
-- Concrete stores, and the theorems at them.
pub mod Monetary
pub mod Resource
pub mod Approval
pub mod Client
pub mod Failures
pub mod Identity
pub mod Notification
pub mod Runtime
pub mod Settlement
pub mod Stores
use agent_financial_action_l.Base.{String, ◌≡◌, some, [], ◌∷◌, arith, eq_iff}
use agent_financial_action_l.Base.Map.{lookup}

pub lookup_only {ℓ} :
    {V : Type ℓ} (j k : String) (v w : V) → lookup k ((j, v) ∷ []) ≡ some w → (j ≡ k) × (v ≡ w)
unfolding lookup
lookup_only j k v w h = ground (arith, eq_iff j k)
