-- ===== src/Stores/File.antt =====
-- backend/*/file-store.ts: the JSON file stores. A collection is the list in the file's snapshot;
-- that `JSON.parse` reads back what `JSON.stringify` wrote is taken for granted.
use agent_financial_action_l.Base.{
  String, Option, none, some, ◌≡◌, refl, ◌≢◌, List, [], ◌∷◌, ◌++◌, ◌==◌, if◌then◌else◌, arith,
  eq_iff, ◌or_some◌, eq_refl,
}
use agent_financial_action_l.Stores.{Collection, IsLawful}

module _ {V : Type 0} (id_of : V → String) where
  -- entries.find((entry) => entry.id === id)
  unfoldable pub find_entry : String → List V → Option V
  find_entry k [] = none
  find_entry k (v ∷ vs) = let rest = find_entry k vs in if id_of v == k then some v else rest

  -- entries.filter((entry) => entry.id !== id)
  unfoldable pub without : String → List V → List V
  without k [] = []
  without k (v ∷ vs) = let rest = without k vs in if id_of v == k then rest else v ∷ rest

  -- The filtered entries with the new one at the end.
  unfoldable pub put_entry : V → List V → List V
  unfolding without
  put_entry v entries = without (id_of v) entries ++ (v ∷ [])

  abbrev pub in_file : Collection V
  in_file = record { State = List V; get = find_entry; put = put_entry }

  find-without_self : (k : String) (vs : List V) → find_entry k (without k vs) ≡ none
  unfolding find_entry without
  find-without_self k [] = refl
  find-without_self k (v ∷ vs) = ground (arith, find-without_self k vs)

  find-without_ne :
      (k j : String) (vs : List V) → k ≢ j → find_entry j (without k vs) ≡ find_entry j vs
  unfolding find_entry without
  find-without_ne k j [] other = refl
  find-without_ne k j (v ∷ vs) other =
      ground (arith, find-without_ne k j vs other, eq_iff (id_of v) k, eq_iff (id_of v) j)

  find-append :
      (k : String) (vs : List V) (v : V)
      → find_entry k (vs ++ (v ∷ []))
        ≡ find_entry k vs or_some (if id_of v == k then some v else none)
  unfolding find_entry
  find-append k [] v = refl
  find-append k (w ∷ vs) v = ground (arith, find-append k vs v)

  pub in_file-IsLawful : IsLawful id_of in_file
  unfolding find_entry put_entry
  in_file-IsLawful = record {
    get-put_self = λ v s.
        rw
          (
            find-append (id_of v) (without (id_of v) s) v,
            find-without_self (id_of v) s,
            eq_refl (id_of v),
          )
          refl;
    get-put_ne = λ k v s other. ground (
      arith,
      find-append k (without (id_of v) s) v,
      find-without_ne (id_of v) k s other,
      eq_iff (id_of v) k,
    );
  }
