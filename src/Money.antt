-- ===== src/Money.antt =====
-- backend/ats/service.ts: `toMoney` and `fromMoney`. A decimal text is the list of its character
-- codes, and a number is `nan`, a whole number of hundredths, or `inexact`: one that the model does not
-- follow, as its text has more than two fraction digits, an exponent, a blank or a plus in front, or
-- no whole part. On hundredths the model is exact where doubles are: where the value is a quarter of
-- a whole number. On others a sum or a difference of doubles can miss the hundredths by less than the
-- half of one, which `toFixed(2)` rounds away but a comparison with 0 sees.
pub mod RoundTrip
pub mod Hundredths
use agent_financial_action_l.Base.{
  ℕ, zero, suc, ◌+◌, ◌-◌, ◌*◌, ◌/◌, ◌%◌, ◌≡◌, refl, Bool, true, false, ◌&&◌, List, [], ◌∷◌, ◌++◌,
  leb, ltb, eqb, if◌then◌else◌, codes, Option, none, some, ◌||◌,
}
use agent_financial_action_l.Base.Int.{ℤ, pos, negsuc, ◌+ℤ◌, ◌-ℤ◌}
use agent_financial_action_l.Base.Int

abbrev pub DecimalString : Type 0
DecimalString = List ℕ

pub data Number : Type 0 where
  nan inexact : Number
  num : ℤ → Number

infixl 65 ◌+ₙ◌ ◌-ₙ◌
unfoldable pub ◌+ₙ◌ : Number → Number → Number
nan +ₙ b = nan
inexact +ₙ nan = nan
inexact +ₙ b = inexact
num a +ₙ nan = nan
num a +ₙ inexact = inexact
num a +ₙ num b = num (a +ℤ b)

unfoldable pub ◌-ₙ◌ : Number → Number → Number
nan -ₙ b = nan
inexact -ₙ nan = nan
inexact -ₙ b = inexact
num a -ₙ nan = nan
num a -ₙ inexact = inexact
num a -ₙ num b = num (a -ℤ b)

-- `x < 0`, `x === 0` and `Math.max(x, 0)`; the comparisons are false at `nan`, and
-- stand for nothing at `inexact`.
abbrev pub below_zero : Number → Bool
below_zero nan = false
below_zero inexact = false
below_zero (num a) = Int.is_negative a

abbrev pub equals_zero : Number → Bool
equals_zero nan = false
equals_zero inexact = false
equals_zero (num a) = Int.is_zero a

abbrev pub max_zero : Number → Number
max_zero nan = nan
max_zero inexact = inexact
max_zero (num a) = num (Int.max_zero a)

unfoldable pub is_digit : ℕ → Bool
is_digit c = leb b'0' c && leb c b'9'

-- Digits are read as long as they come; the flag says whether there was one.
unfoldable pub scan : Bool → ℕ → List ℕ → Bool × ℕ × List ℕ
unfolding is_digit
scan seen n [] = (seen, n, [])
scan seen n (c ∷ s) =
    let rest = scan true (n * 10 + (c - b'0')) s in if is_digit c then rest else (seen, n, c ∷ s)

abbrev is_exponent : ℕ → Bool
is_exponent c = eqb c b'e' || eqb c b'E'

-- The hundredths, where neither a further digit nor an exponent follows.
unfoldable ended : List ℕ → ℕ → Option ℕ
unfolding is_digit
ended [] n = some n
ended (c ∷ s) n = if is_digit c || is_exponent c then none else some n

-- The hundredths of the digits behind the point.
unfoldable decimals : List ℕ → Option ℕ
unfolding is_digit ended
decimals [] = some 0
decimals (d ∷ []) = if is_digit d then some ((d - b'0') * 10) else ended (d ∷ []) 0
decimals (d ∷ e ∷ s) =
    if is_digit d
    then (if is_digit e
        then ended s ((d - b'0') * 10 + (e - b'0'))
        else ended (e ∷ s) ((d - b'0') * 10))
    else ended (d ∷ e ∷ s) 0

-- The hundredths of what stands behind the whole part.
unfoldable fraction : List ℕ → Option ℕ
unfolding decimals ended
fraction [] = some 0
fraction (p ∷ s) = if eqb p b'.' then decimals s else ended (p ∷ s) 0

abbrev number_of : ℕ → Option ℕ → Number
number_of whole none = inexact
number_of whole (some hundredths) = num (pos (whole * 100 + hundredths))

-- A text without digits in front: a number may follow a blank, a plus or a point, or be infinite.
abbrev unread : List ℕ → Number
unread [] = nan
unread (c ∷ s) = if leb c 32 || eqb c b'.' || eqb c b'+' || eqb c b'I' then inexact else nan

unfoldable pub parse_unsigned : List ℕ → Number
unfolding scan fraction
parse_unsigned s =
    let (seen, whole, rest) = scan false 0 s in
    if seen then number_of whole (fraction rest) else unread rest

abbrev negate : Number → Number
negate nan = nan
negate inexact = inexact
negate (num (pos zero)) = num (pos zero)
negate (num (pos (suc n))) = num (negsuc n)
negate (num (negsuc n)) = num (pos (suc n))

-- Number.parseFloat(value)
unfoldable pub to_money : DecimalString → Number
unfolding parse_unsigned
to_money [] = nan
to_money (c ∷ s) = if eqb c b'-' then negate (parse_unsigned s) else parse_unsigned (c ∷ s)

-- The decimal digits of `n`; fuel `n + 1` is enough, since each round divides by ten.
unfoldable pub digits : ℕ → ℕ → List ℕ
digits zero n = []
digits (suc f) n =
    let rest = digits f (n / 10) in
    if ltb n 10 then (b'0' + n) ∷ [] else rest ++ (b'0' + n % 10) ∷ []

unfoldable pub print_hundredths : ℕ → List ℕ
unfolding digits
print_hundredths n =
    digits (suc (n / 100)) (n / 100) ++ (b'.' ∷ (b'0' + n / 10 % 10) ∷ (b'0' + n % 10) ∷ [])

-- value.toFixed(2), and no text for a number that the model does not follow.
unfoldable pub from_money : Number → DecimalString
unfolding print_hundredths
from_money nan = codes "NaN"
from_money inexact = []
from_money (num (pos n)) = print_hundredths n
from_money (num (negsuc n)) = b'-' ∷ print_hundredths (suc n)

from_money-run : from_money (num (negsuc 120504)) ≡ codes "-1205.05"
unfolding from_money
from_money-run = refl

to_money-run : to_money (codes "45.5 USDC") ≡ num (pos 4550)
unfolding to_money
to_money-run = refl

-- Past the second fraction digit.
to_money-run_long : to_money (codes "0.005") ≡ inexact
unfolding to_money
to_money-run_long = refl

to_money-run_exponent : to_money (codes "1e3") ≡ inexact
unfolding to_money
to_money-run_exponent = refl
