-- ===== src/Base/Map.antt =====
-- A JavaScript `Map` with text keys, in insertion order: `set` keeps the place of a known key and
-- appends a new one.
pub mod Total
pub mod Distinct
use Prim.Native.String.{String}
use mathlib.Core.Path.{◌≡◌, refl}
use mathlib.Core.Logic.{◌≢◌, ◌⊎◌}
use mathlib.Core.Bool.{cond}
use mathlib.Core.Option.{Option, none, some}
use mathlib.Core.List.{List, [], ◌∷◌}
use native.Mathlib.Omega.{arith}
use text.Mathlib.Text.{◌==◌}
use text.Mathlib.TextEquality.{eq_iff}

abbrev pub Map {ℓ} : Type ℓ → Type ℓ
Map V = List (String × V)

module _ {ℓ} {V : Type ℓ} where
  -- map.get(k)
  unfoldable pub lookup : String → Map V → Option V
  lookup k [] = none
  lookup k ((j, v) ∷ m) = cond (j == k) (some v) (lookup k m)

  -- map.set(k, v)
  unfoldable pub insert : String → V → Map V → Map V
  insert k v [] = (k, v) ∷ []
  insert k v ((j, w) ∷ m) = cond (j == k) ((j, v) ∷ m) ((j, w) ∷ insert k v m)

  -- Array.from(map.values())
  unfoldable pub values : Map V → List V
  values [] = []
  values ((k, v) ∷ m) = v ∷ values m

  pub lookup-insert :
      (key at : String) (new : V) (m : Map V)
      → lookup at (insert key new m) ≡ cond (key == at) (some new) (lookup at m)
  unfolding lookup insert
  lookup-insert key at new [] = refl
  lookup-insert key at new ((first, old) ∷ rest) =
      let later = lookup-insert key at new rest in
      ground (arith, eq_iff first key, eq_iff first at, eq_iff key at)

  pub lookup-insert_self : (k : String) (v : V) (m : Map V) → lookup k (insert k v m) ≡ some v
  lookup-insert_self k v m = ground (arith, lookup-insert k k v m, eq_iff k k)

  pub lookup-insert_ne :
      (k j : String) (v : V) (m : Map V) → k ≢ j → lookup j (insert k v m) ≡ lookup j m
  lookup-insert_ne k j v m h = ground (arith, lookup-insert k j v m, eq_iff k j)

  -- What a map holds after a write is the value written, or was there before.
  pub lookup-insert_inv :
      (k j : String) (v w : V) (m : Map V)
      → lookup j (insert k v m) ≡ some w
      → ((k ≡ j) × (v ≡ w)) ⊎ ((k ≢ j) × (lookup j m ≡ some w))
  lookup-insert_inv k j v w m h = ground (arith, lookup-insert k j v m, eq_iff k j)

  pub ruleset map_laws = (lookup-insert, lookup-insert_self)
