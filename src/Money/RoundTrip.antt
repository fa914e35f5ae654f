-- ===== src/Money/RoundTrip.antt =====
-- What `fromMoney` prints, `toMoney` reads back.
use mathlib.Core.List.{append_assoc}
use agent_financial_action_l.Base.{
  ℕ, zero, suc, ◌+◌, ◌*◌, ◌/◌, ◌%◌, ◌<◌, ◌≡◌, ◌∙◌, inl, inr, true, false, List, [], ◌∷◌, ◌++◌,
  arith, ltb, ◌-◌, Bool, Bool-cases,
}
use agent_financial_action_l.Base.Int.{ℤ, pos, negsuc}
use agent_financial_action_l.Money.{
  fraction, decimals, ended, num, scan, parse_unsigned, is_digit, to_money, digits,
  print_hundredths, from_money,
}

-- One digit more.
scan-digit :
    (b : Bool) (n d m : ℕ) (s : List ℕ)
    → d < 10
    → n * 10 + d ≡ m
    → scan b n ((b'0' + d) ∷ s) ≡ scan true m s
unfolding scan
scan-digit b n d m s h e =
    let value : n * 10 + (b'0' + d - b'0') ≡ m = omega arith in
    let test : is_digit (b'0' + d) ≡ true = unfold is_digit in ground arith in rw (test, value)

scan-digits : (f n : ℕ) (s : List ℕ) → n < f → scan false 0 (digits f n ++ s) ≡ scan true n s
unfolding digits
scan-digits zero n s h = absurd (omega arith)
scan-digits (suc f) n s h = elim (Bool-cases (ltb n 10)) [
  | inl last ↦ rw last (scan-digit false 0 n n s (ground arith) (omega arith))
  | inr more ↦
      rw (more, append_assoc)
        (scan-digits f (n / 10) ((b'0' + n % 10) ∷ s) (ground arith)
          ∙ scan-digit true (n / 10) (n % 10) n s (omega arith) (omega arith))
]

parse-print : (n : ℕ) → parse_unsigned (print_hundredths n) ≡ num (pos n)
unfolding parse_unsigned print_hundredths is_digit fraction decimals ended
parse-print n = rw (scan-digits (suc (n / 100)) (n / 100) _ (omega arith)) (ground arith)

-- A text that is read as a number without its sign begins with no minus.
to_money-unsigned : (s : List ℕ) (k : ℤ) → parse_unsigned s ≡ num k → to_money s ≡ num k
unfolding to_money is_digit
to_money-unsigned [] k h = cc
to_money-unsigned (c ∷ s) k h = ground arith

-- Every number of hundredths, negative ones included, is read back from the text with two fraction
-- digits that it is printed as.
pub to_money-from_money : (a : ℤ) → to_money (from_money (num a)) ≡ num a
unfolding from_money
to_money-from_money (pos n) = to_money-unsigned (print_hundredths n) (pos n) (parse-print n)
to_money-from_money (negsuc n) = unfold to_money in rw (parse-print (suc n))
