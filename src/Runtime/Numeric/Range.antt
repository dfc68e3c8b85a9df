-- ===== src/Runtime/Numeric/Range.antt =====
-- The results of the machine operations stay in the range of their type.
use apex_exec.Prelude.{
  ℕ, zero, suc, ◌*◌, ◌/◌, ◌%◌, ◌^◌, ◌≤◌, ◌<◌, ◌≡◌, true, false, ◌&&◌, some, inl, inr, arith, ltb,
  ◌==◌, Bool-cases,
}
use apex_exec.Prelude.Int.{ℤ, pos, negsuc, abs}
use apex_exec.Runtime.Numeric.Word.{
  in_range, checked, quotient, remainder, is_minimum, is_minus_one, checked_div, checked_rem,
  to_bits, of_bits, complement, bitwise, shift_left, shift_right, unsigned_shift_right,
}

pub checked-in_range : (half : ℕ) (v : ℤ) {r : ℤ} → checked half v ≡ some r → in_range half r ≡ true
unfolding checked
checked-in_range half v h = elim (Bool-cases (in_range half v)) [
  | inl e ↦ ground arith
  | inr e ↦ ground arith
]

div-le : (a b : ℕ) → a / b ≤ a
div-le a b = grind arith

div-lt : (a b : ℕ) → suc a / suc (suc b) ≤ a
div-lt a b = grind arith

-- A quotient of negative numbers, but for the minimum by -1.
negative_quotient :
    (half a b : ℕ)
    → ltb a half ≡ true
    → ((suc a == half) && (b == 0)) ≡ false
    → ltb (suc a / suc b) half ≡ true
negative_quotient half a zero h n = ground (arith, div-le (suc a) 1)
negative_quotient half a (suc b) h n = ground (arith, div-lt a b)

mod-le : (a b : ℕ) → a % b ≤ a
mod-le a b = grind arith

quotient-in_range :
    (half : ℕ) (a b : ℤ)
    → 0 < half
    → in_range half a ≡ true
    → (is_minimum half a && is_minus_one b) ≡ false
    → in_range half (quotient a b) ≡ true
unfolding quotient
quotient-in_range half (pos a) (pos b) p h n = ground (arith, div-le a b)
quotient-in_range half (pos a) (negsuc b) p h n = ground (arith, div-le a (suc b))
quotient-in_range half (negsuc a) (pos b) p h n = ground (arith, div-le (suc a) b)
quotient-in_range half (negsuc a) (negsuc b) p h n = negative_quotient half a b h n

remainder-in_range :
    (half : ℕ) (a b : ℤ) → 0 < half → in_range half a ≡ true → in_range half (remainder a b) ≡ true
unfolding remainder
remainder-in_range half (pos a) b p h = ground (arith, mod-le a (abs b))
remainder-in_range half (negsuc a) b p h = ground (arith, mod-le (suc a) (abs b))

pub of_bits-in_range : (half w : ℕ) → w < 2 * half → in_range half (of_bits half w) ≡ true
unfolding of_bits
of_bits-in_range half w h = ground arith

pub complement-in_range :
    (half : ℕ) (a : ℤ) → in_range half a ≡ true → in_range half (complement a) ≡ true
unfolding complement
complement-in_range half (pos n) h = h
complement-in_range half (negsuc n) h = h

pub shift_right-in_range :
    (half : ℕ) (a : ℤ) (d : ℕ) → in_range half a ≡ true → in_range half (shift_right a d) ≡ true
unfolding shift_right
shift_right-in_range half (pos n) d h = ground (arith, div-le n (2 ^ d))
shift_right-in_range half (negsuc n) d h = ground (arith, div-le n (2 ^ d))

pub shift_left-in_range :
    (half : ℕ) (a : ℤ) (d : ℕ) → 0 < half → in_range half (shift_left half a d) ≡ true
unfolding shift_left
shift_left-in_range half a d p =
    of_bits-in_range half ((to_bits half a * 2 ^ d) % (2 * half)) (omega arith)

to_bits-lt : (half : ℕ) (a : ℤ) → 0 < half → in_range half a ≡ true → to_bits half a < 2 * half
unfolding to_bits
to_bits-lt half (pos n) p h = ground arith
to_bits-lt half (negsuc n) p h = ground arith

pub unsigned_shift_right-in_range :
    (half : ℕ) (a : ℤ) (d : ℕ)
    → 0 < half
    → in_range half a ≡ true
    → in_range half (unsigned_shift_right half a d) ≡ true
unfolding unsigned_shift_right
unsigned_shift_right-in_range half a d p h =
    of_bits-in_range half (to_bits half a / 2 ^ d)
      (omega (arith, to_bits-lt half a p h, div-le (to_bits half a) (2 ^ d)))

pub bitwise-in_range :
    (f : ℕ → ℕ → ℕ) (half : ℕ) (a b : ℤ) → 0 < half → in_range half (bitwise f half a b) ≡ true
unfolding bitwise
bitwise-in_range f half a b p =
    of_bits-in_range half (f (to_bits half a) (to_bits half b) % (2 * half)) (omega arith)

-- A result of checked arithmetic.
module _ (half : ℕ) (a b : ℤ) {r : ℤ} where
  pub checked_div-in_range :
      0 < half → in_range half a ≡ true → checked_div half a b ≡ some r → in_range half r ≡ true
  unfolding checked_div
  checked_div-in_range p h e = grind (arith, quotient-in_range half a b p h)

  pub checked_rem-in_range :
      0 < half → in_range half a ≡ true → checked_rem half a b ≡ some r → in_range half r ≡ true
  unfolding checked_rem
  checked_rem-in_range p h e = grind (arith, remainder-in_range half a b p h)
