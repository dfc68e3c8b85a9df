-- ===== src/Runtime/Numeric/Word.antt =====
-- The machine integers of the arithmetic: the ranges of i32 and i64, and Rust's checked and
-- wrapping operations on them, over integers.
use apex_exec.Prelude.{
  ℕ, suc, ◌-◌, ◌*◌, ◌/◌, ◌%◌, ◌^◌, Bool, false, ◌&&◌, Option, none, some, ltb, ◌==◌, if◌then◌else◌,
}
use apex_exec.Prelude.Int.{ℤ, pos, negsuc, sub_ℕ, ◌+ℤ◌, ◌-ℤ◌, ◌*ℤ◌, pos_part, neg_part, abs}

-- `half` is 2 ^ 31 for i32 and 2 ^ 63 for i64: the integers from -half to half - 1.
abbrev pub i32_half : ℕ
i32_half = 2147483648

abbrev pub i64_half : ℕ
i64_half = 9223372036854775808

abbrev pub in_range : ℕ → ℤ → Bool
in_range half (pos n) = ltb n half
in_range half (negsuc n) = ltb n half

unfoldable pub checked : ℕ → ℤ → Option ℤ
checked half v = if in_range half v then some v else none

-- The quotient rounded towards zero, and its remainder, which has the sign of the dividend.
unfoldable pub quotient : ℤ → ℤ → ℤ
quotient (pos a) (pos b) = pos (a / b)
quotient (pos a) (negsuc b) = sub_ℕ 0 (a / suc b)
quotient (negsuc a) (pos b) = sub_ℕ 0 (suc a / b)
quotient (negsuc a) (negsuc b) = pos (suc a / suc b)

unfoldable pub remainder : ℤ → ℤ → ℤ
remainder (pos a) b = pos (a % abs b)
remainder (negsuc a) b = sub_ℕ 0 (suc a % abs b)

abbrev pub is_zero : ℤ → Bool
is_zero (pos n) = n == 0
is_zero (negsuc n) = false

abbrev pub is_minimum : ℕ → ℤ → Bool
is_minimum half (pos n) = false
is_minimum half (negsuc n) = suc n == half

abbrev pub is_minus_one : ℤ → Bool
is_minus_one (pos n) = false
is_minus_one (negsuc n) = n == 0

unfoldable pub checked_add : ℕ → ℤ → ℤ → Option ℤ
unfolding ◌+ℤ◌ checked
checked_add half a b = checked half (a +ℤ b)

unfoldable pub checked_sub : ℕ → ℤ → ℤ → Option ℤ
unfolding ◌-ℤ◌ checked
checked_sub half a b = checked half (a -ℤ b)

unfoldable pub checked_mul : ℕ → ℤ → ℤ → Option ℤ
unfolding ◌*ℤ◌ checked
checked_mul half a b = checked half (a *ℤ b)

-- The callers exclude a zero divisor; the overflow left is the minimum by -1, for both.
unfoldable pub checked_div : ℕ → ℤ → ℤ → Option ℤ
unfolding quotient
checked_div half a b =
    if is_zero b
    then none
    else if is_minimum half a && is_minus_one b
    then none
    else some (quotient a b)

unfoldable pub checked_rem : ℕ → ℤ → ℤ → Option ℤ
unfolding remainder
checked_rem half a b =
    if is_zero b
    then none
    else if is_minimum half a && is_minus_one b
    then none
    else some (remainder a b)

unfoldable pub negate : ℤ → ℤ
negate a = sub_ℕ (neg_part a) (pos_part a)

unfoldable pub checked_neg : ℕ → ℤ → Option ℤ
unfolding negate checked
checked_neg half a = checked half (negate a)

-- The two's complement pattern of an integer, and the integer of a pattern.
unfoldable pub to_bits : ℕ → ℤ → ℕ
to_bits half (pos n) = n
to_bits half (negsuc n) = 2 * half - suc n

unfoldable pub of_bits : ℕ → ℕ → ℤ
of_bits half w = if ltb w half then pos w else negsuc (2 * half - suc w)

-- `!a`
unfoldable pub complement : ℤ → ℤ
complement (pos n) = negsuc n
complement (negsuc n) = pos n

-- `f` works on the patterns; a pattern of the width stands for the result.
unfoldable pub bitwise : (ℕ → ℕ → ℕ) → ℕ → ℤ → ℤ → ℤ
unfolding to_bits of_bits
bitwise f half a b = of_bits half (f (to_bits half a) (to_bits half b) % (2 * half))

-- `distance & (width - 1)` on an i64 pattern.
unfoldable pub masked : ℕ → ℤ → ℕ
masked width (pos n) = n % width
masked width (negsuc n) = width - suc (n % width)

unfoldable pub shift_left : ℕ → ℤ → ℕ → ℤ
unfolding to_bits of_bits
shift_left half a d = of_bits half ((to_bits half a * 2 ^ d) % (2 * half))

unfoldable pub shift_right : ℤ → ℕ → ℤ
shift_right (pos n) d = pos (n / 2 ^ d)
shift_right (negsuc n) d = negsuc (n / 2 ^ d)

unfoldable pub unsigned_shift_right : ℕ → ℤ → ℕ → ℤ
unfolding to_bits of_bits
unsigned_shift_right half a d = of_bits half (to_bits half a / 2 ^ d)
