-- ===== src/Base/Map/Total.antt =====
-- A sum over the values of a map, under each write.
use Prim.Native.Nat.{ℕ, ◌+◌, ◌≤◌}
use Prim.Native.String.{String}
use mathlib.Core.Path.{◌≡◌}
use mathlib.Core.Option.{none, some}
use mathlib.Core.List.{[], ◌∷◌}
use native.Mathlib.Omega.{arith}
use agent_financial_action_l.Base.Map.{Map, lookup, insert}

module _ {ℓ} {V : Type ℓ} (w : V → ℕ) where
  unfoldable pub total : Map V → ℕ
  total [] = 0
  total ((k, v) ∷ m) = w v + total m

  pub total-insert_new :
      (k : String) (v : V) (m : Map V) → lookup k m ≡ none → total (insert k v m) ≡ total m + w v
  unfolding total insert lookup
  total-insert_new k v [] h = omega arith
  total-insert_new k v (e ∷ m) h = ground (arith, total-insert_new k v m)

  pub total-insert :
      (k : String) (v old : V) (m : Map V)
      → lookup k m ≡ some old
      → total (insert k v m) + w old ≡ total m + w v
  unfolding total insert lookup
  total-insert k v old [] h = cc
  total-insert k v old (e ∷ m) h = ground (arith, total-insert k v old m)

  pub le-total : (k : String) (v : V) (m : Map V) → lookup k m ≡ some v → w v ≤ total m
  unfolding total lookup
  le-total k v [] h = cc
  le-total k v (e ∷ m) h = ground (arith, le-total k v m)
