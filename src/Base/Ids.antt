-- ===== src/Base/Ids.antt =====
-- Texts that the services build: amounts, numbers, and the ids that they number:
-- `${prefix}${String(counter).padStart(4, "0")}`.
use agent_financial_action_l.Base.{
  List, [], ◌∷◌, ◌<◌, arith, ℕ, String, eqb, ltb, if◌then◌else◌, ◌/◌, ◌%◌,
}
use Prim.Native.Nat.{zero, suc}
use Prim.Native.Char.{IsScalar, char}
use mathlib.Core.Logic.{dite}
use native.Mathlib.Decide.{dec_lt}
use Prim.Native.String.{◌++◌}

abbrev digit : ℕ → String
digit d =
    if eqb d 0
    then "0"
    else if eqb d 1
    then "1"
    else if eqb d 2
    then "2"
    else if eqb d 3
    then "3"
    else if eqb d 4
    then "4"
    else if eqb d 5
    then "5"
    else if eqb d 6
    then "6"
    else if eqb d 7
    then "7"
    else if eqb d 8
    then "8"
    else "9"

-- The decimal digits of a number; fuel `n + 1` is enough, since each round divides by ten.
unfoldable decimal : ℕ → ℕ → String
decimal zero n = ""
decimal (suc fuel) n =
    let rest = decimal fuel (n / 10) in if ltb n 10 then digit n else rest ++ digit (n % 10)

abbrev zeros : ℕ → String
zeros n = if ltb n 10 then "000" else if ltb n 100 then "00" else if ltb n 1000 then "0" else ""

unfoldable pub generated_id : String → ℕ → String
unfolding decimal
generated_id prefix counter = prefix ++ (zeros counter ++ decimal (suc counter) counter)

-- `${n}` of a number that is not negative.
unfoldable pub number_text : ℕ → String
unfolding decimal
number_text n = decimal (suc n) n

scalar : (n : ℕ) → n < 55296 → IsScalar n
scalar n h = ground arith

-- A text from its character codes, up to the surrogates: amounts have no others.
unfoldable pub text_of : List ℕ → String
unfolding scalar
text_of [] = String.[]
text_of (c ∷ rest) =
    dite (dec_lt c 55296) (λ h. String.◌∷◌ (char c (scalar c h)) (text_of rest)) (λ _. text_of rest)
