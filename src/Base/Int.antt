-- ===== src/Base/Int.antt =====
-- Integers over the native numbers.
use Prim.Native.Nat.{ℕ, suc, ◌+◌, ◌-◌, ◌≤◌, ◌<◌, compare, Ordering}
use mathlib.Core.Path.{◌≡◌}
use mathlib.Core.Bool.{Bool, true, false, cond}
use native.Mathlib.Omega.{arith}

-- `negsuc n` is -(n + 1).
pub data ℤ : Type 0 where
  pos : ℕ → ℤ
  negsuc : ℕ → ℤ

abbrev pub pos_part : ℤ → ℕ
pos_part (pos n) = n
pos_part (negsuc n) = 0

abbrev pub neg_part : ℤ → ℕ
neg_part (pos n) = 0
neg_part (negsuc n) = suc n

abbrev at_least : ℕ → ℕ → Bool
at_least a b = elim (compare a b) [ Ordering.lt ↦ false | _ ↦ true ]

abbrev pub sub_ℕ : ℕ → ℕ → ℤ
sub_ℕ a b = cond (at_least a b) (pos (a - b)) (negsuc (b - a - 1))

infixl 65 ◌+ℤ◌ ◌-ℤ◌
infix 50 ◌≤ℤ◌
unfoldable pub ◌+ℤ◌ : ℤ → ℤ → ℤ
a +ℤ b = sub_ℕ (pos_part a + pos_part b) (neg_part a + neg_part b)

unfoldable pub ◌-ℤ◌ : ℤ → ℤ → ℤ
a -ℤ b = sub_ℕ (pos_part a + neg_part b) (neg_part a + pos_part b)

abbrev pub ◌≤ℤ◌ : ℤ → ℤ → Type 0
a ≤ℤ b = pos_part a + neg_part b ≤ pos_part b + neg_part a

-- `a < 0`, `a === 0` and `Math.max(a, 0)`.
abbrev pub is_negative : ℤ → Bool
is_negative (pos n) = false
is_negative (negsuc n) = true

abbrev pub is_zero : ℤ → Bool
is_zero (pos n) = elim (compare n 0) [ Ordering.eq ↦ true | _ ↦ false ]
is_zero (negsuc n) = false

abbrev pub max_zero : ℤ → ℤ
max_zero (pos n) = pos n
max_zero (negsuc n) = pos 0

pub +ℤ_pos : (a b : ℕ) → pos a +ℤ pos b ≡ pos (a + b)
unfolding ◌+ℤ◌
+ℤ_pos a b = ground arith

-- The difference of two naturals that stays a natural.
pub -ℤ_pos : (a b : ℕ) → b ≤ a → pos a -ℤ pos b ≡ pos (a - b)
unfolding ◌-ℤ◌
-ℤ_pos a b h = ground arith

pub -ℤ_nonneg : (a b : ℕ) → is_negative (pos a -ℤ pos b) ≡ false → b ≤ a
unfolding ◌-ℤ◌
-ℤ_nonneg a b h = ground arith

pub -ℤ_rest : (l c r : ℕ) → c + r ≤ l → pos l -ℤ pos c -ℤ pos r ≡ pos (l - c - r)
unfolding ◌-ℤ◌
-ℤ_rest l c r h = ground arith

pub is_negative_rest :
    (l c r : ℕ) → c ≤ l → l < c + r → is_negative (pos l -ℤ pos c -ℤ pos r) ≡ true
unfolding ◌-ℤ◌
is_negative_rest l c r h short = ground arith
