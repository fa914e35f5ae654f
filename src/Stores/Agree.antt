-- ===== src/Stores/Agree.antt =====
-- The same write to two stores of one kind of record.
use agent_financial_action_l.Stores.File.{put_entry, in_file, in_file-IsLawful}
use agent_financial_action_l.Base.{
  String, true, ◌≡◌, List, ◌==◌, arith, eq_iff, Bool-cases, inl, subst, ◌∙◌, sym, inr, ne_of_eqb,
}
use agent_financial_action_l.Base.Map.{Map, insert}
use agent_financial_action_l.Stores.{Collection, IsLawful, in_memory, in_memory-IsLawful}

-- Two states give the same answers.
abbrev pub Agrees : {V : Type 0} → (c d : Collection V) → c.State → d.State → Type 0
Agrees c d s t = (k : String) → c.get k s ≡ d.get k t

eq_of_eqb : (a b : String) → (a == b) ≡ true → a ≡ b
eq_of_eqb a b h = ground (arith, eq_iff a b)

module _ {V : Type 0} (id_of : V → String) (c d : Collection V) (lc : IsLawful id_of c)
    (ld : IsLawful id_of d) where
  put-Agrees :
      (v : V) (s : c.State) (t : d.State) → Agrees c d s t → Agrees c d (c.put v s) (d.put v t)
  put-Agrees v s t same k = elim (Bool-cases (id_of v == k)) [
    | inl here ↦
        subst (λ j. c.get j (c.put v s) ≡ d.get j (d.put v t)) (eq_of_eqb (id_of v) k here)
          (lc.get-put_self v s ∙ sym (ld.get-put_self v t))
    | inr there ↦
        let other = ne_of_eqb (id_of v) k there in
        rw (lc.get-put_ne k v s other, ld.get-put_ne k v t other) (same k)
  ]

-- The same record written to a file's list and to a map that give the same answers.
pub written-Agrees :
    {V : Type 0} (id_of : V → String) (v : V) (entries : List V) (m : Map V)
    → Agrees (in_file id_of) (in_memory id_of) entries m
    → Agrees (in_file id_of) (in_memory id_of) (put_entry id_of v entries) (insert (id_of v) v m)
written-Agrees id_of v entries m same =
    put-Agrees id_of (in_file id_of) (in_memory id_of) (in_file-IsLawful id_of)
      (in_memory-IsLawful id_of) v entries m same
