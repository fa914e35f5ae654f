-- ===== src/Base/Map/Distinct.antt =====
-- Maps whose keys are all different, as `insert` builds them.
use mathlib.Core.Path.{◌≡◌, refl}
use mathlib.Core.List.{[], ◌∷◌, Memᴰ}
use agent_financial_action_l.Base.Map.{Map, lookup, insert, values, lookup-insert_ne}
use agent_financial_action_l.Base.{
  none, some, Bool-cases, inl, inr, ne_of_eqb, String, ◌==◌, eq_refl, sym, ◌∙◌, arith, eq_iff,
}

module _ {ℓ} {V : Type ℓ} where
  unfoldable pub HasDistinctKeys : Map V → Type ℓ
  HasDistinctKeys [] = Unit
  HasDistinctKeys ((k, v) ∷ m) = (lookup k m ≡ none) × HasDistinctKeys m

  pub insert-HasDistinctKeys :
      (k : String) (v : V) (m : Map V) → HasDistinctKeys m → HasDistinctKeys (insert k v m)
  unfolding HasDistinctKeys insert lookup
  insert-HasDistinctKeys k v [] h = (refl, tt)
  insert-HasDistinctKeys k v ((j, w) ∷ m) (fresh, h) = elim (Bool-cases (j == k)) [
    | inl same ↦ rw same (fresh, h)
    | inr other ↦ rw other (
      lookup-insert_ne k j v m (λ e. ne_of_eqb j k other (sym e)) ∙ fresh,
      insert-HasDistinctKeys k v m h,
    )
  ]

  -- A value of such a map is found under some key.
  pub lookup-values :
      (v : V) (m : Map V)
      → HasDistinctKeys m
      → Memᴰ v (values m)
      → (k : String) × (lookup k m ≡ some v)
  unfolding HasDistinctKeys values lookup
  lookup-values v [] h x = elim x [ ]
  lookup-values v ((k, w) ∷ m) (fresh, h) (Memᴰ.head e) = (k, rw (eq_refl k, e) refl)
  lookup-values v ((k, w) ∷ m) (fresh, h) (Memᴰ.tail x) =
      let (j, found) = lookup-values v m h x in
      (
        j,
        elim (Bool-cases (k == j)) [
          | inl same ↦ ground (arith, eq_iff k j)
          | inr other ↦ rw other found
        ],
      )
