-- ===== src/Money/Hundredths.antt =====
-- Sums and differences of whole numbers of hundredths that stay natural.
use agent_financial_action_l.Base.{ℕ, ◌+◌, ◌-◌, ◌≤◌, ◌<◌, ◌≡◌, true, arith}
use agent_financial_action_l.Base.Int.{pos, ◌-ℤ◌, +ℤ_pos, -ℤ_pos}
use agent_financial_action_l.Money.{num, ◌+ₙ◌, ◌-ₙ◌, below_zero}

-- The hundredths that are left of `l` after `c` and `r`.
pub left_over :
    (l c r : ℕ) → c + r ≤ l → num (pos l) -ₙ num (pos c) -ₙ num (pos r) ≡ num (pos (l - c - r))
unfolding ◌-ₙ◌
left_over l c r h = rw (-ℤ_pos l c (omega arith), -ℤ_pos (l - c) r (omega arith))

pub sum_of : (a b : ℕ) → num (pos a) +ₙ num (pos b) ≡ num (pos (a + b))
unfolding ◌+ₙ◌
sum_of a b = rw +ℤ_pos

-- A difference below zero is found by its sign.
pub below_zero_of_lt : (a b : ℕ) → a < b → below_zero (num (pos a) -ₙ num (pos b)) ≡ true
unfolding ◌-ₙ◌ ◌-ℤ◌
below_zero_of_lt a b h = ground arith

pub below_zero_rest :
    (l c r : ℕ) → c ≤ l → l < c + r → below_zero (num (pos l) -ₙ num (pos c) -ₙ num (pos r)) ≡ true
unfolding ◌-ₙ◌
below_zero_rest l c r h short = rw (-ℤ_pos l c h) (below_zero_of_lt (l - c) r (omega arith))

pub difference_of : (a b : ℕ) → b ≤ a → num (pos a) -ₙ num (pos b) ≡ num (pos (a - b))
unfolding ◌-ₙ◌
difference_of a b h = rw (-ℤ_pos a b h)
