-- ===== src/Runtime/Numeric/Exact.antt =====
-- The arithmetic on Integer and Long values against the integers.
use native.Mathlib.Nat.{div-add-mod'}
use apex_exec.Prelude.{
  ℕ, suc, ◌+◌, ◌*◌, ◌/◌, ◌%◌, ◌<◌, ◌≡◌, refl, Bool, true, false, ◌&&◌, Option, none, some, arith,
  if◌then◌else◌,
}
use apex_exec.Prelude.Int.{ℤ, pos, negsuc, sub_ℕ, ◌+ℤ◌, ◌-ℤ◌, ◌*ℤ◌, abs}
use apex_exec.Span.{Span}
use apex_exec.Diagnostic.{Diagnostic}
use apex_exec.Runtime.Value.{Value, integer, long, Result, ok, err, ◌>>=◌, integer_overflow}
use apex_exec.Runtime.Numeric.{
  apply_integer_binary, apply_long_binary, apply_binary, apply_numeric_binary,
}
use apex_exec.Runtime.Numeric.Operators.{
  BinaryOperator, add, subtract, multiply, divide, remainder, NumericKind, integer_kind, long_kind,
  numeric, DecimalOps, integer_arithmetic,
}
use apex_exec.Runtime.Numeric.Word as Word
use apex_exec.Runtime.Numeric.Word.{
  i32_half, i64_half, in_range, is_zero, is_minimum, is_minus_one, checked, quotient, checked_add,
  checked_sub, checked_mul, checked_div, checked_rem,
}

-- The integer that a sum, a difference or a product stands for.
abbrev pub exact : BinaryOperator → ℤ → ℤ → Option ℤ
exact add a b = some (a +ℤ b)
exact subtract a b = some (a -ℤ b)
exact multiply a b = some (a *ℤ b)
exact _ a b = none

arithmetic-exact :
    (operator : BinaryOperator) (half : ℕ) (a b : ℤ) (span : Span) {r : ℤ}
    → exact operator a b ≡ some r
    → integer_arithmetic operator half a b span
      ≡ (if in_range half r then ok r else err (integer_overflow span))
unfolding integer_arithmetic checked_add checked_sub checked_mul
arithmetic-exact add half a b span e = ground arith
arithmetic-exact subtract half a b span e = ground arith
arithmetic-exact multiply half a b span e = ground arith
arithmetic-exact _ half a b span e = cc

abs_negated : (r : ℕ) → abs (sub_ℕ 0 r) ≡ r
abs_negated r = ground arith

module _ (q b r a : ℕ) where
  signs_pp : q * b + r ≡ a → pos q *ℤ pos b +ℤ pos r ≡ pos a
  unfolding ◌+ℤ◌ ◌*ℤ◌
  signs_pp h = ground arith

  signs_pn : q * suc b + r ≡ a → sub_ℕ 0 q *ℤ negsuc b +ℤ pos r ≡ pos a
  unfolding ◌+ℤ◌ ◌*ℤ◌
  signs_pn h = ground arith

  signs_np : q * b + r ≡ suc a → sub_ℕ 0 q *ℤ pos b +ℤ sub_ℕ 0 r ≡ negsuc a
  unfolding ◌+ℤ◌ ◌*ℤ◌
  signs_np h = ground arith

  signs_nn : q * suc b + r ≡ suc a → pos q *ℤ negsuc b +ℤ sub_ℕ 0 r ≡ negsuc a
  unfolding ◌+ℤ◌ ◌*ℤ◌
  signs_nn h = ground arith

-- The remainder has the sign of the dividend and is smaller than the divisor.
quotient-remainder :
    (a b : ℤ)
    → is_zero b ≡ false
    → (quotient a b *ℤ b +ℤ Word.remainder a b ≡ a) × (abs (Word.remainder a b) < abs b)
unfolding quotient Word.remainder
quotient-remainder (pos a) (pos b) h =
    (signs_pp (a / b) b (a % b) a (div-add-mod' a b), ground arith)
quotient-remainder (pos a) (negsuc b) h =
    (signs_pn (a / suc b) b (a % suc b) a (div-add-mod' a (suc b)), omega arith)
quotient-remainder (negsuc a) (pos b) h = (
  signs_np (suc a / b) b (suc a % b) a (div-add-mod' (suc a) b),
  ground (arith, abs_negated (suc a % b)),
)
quotient-remainder (negsuc a) (negsuc b) h = (
  signs_nn (suc a / suc b) b (suc a % suc b) a (div-add-mod' (suc a) (suc b)),
  ground (arith, abs_negated (suc a % suc b)),
)

bind-if {ℓ κ} :
    {A : Type ℓ} {B : Type κ} (t : Bool) (x : A) (d : Diagnostic) (f : A → Result B)
    → ((if t then ok x else err d) >>= f) ≡ (if t then f x else err d)
bind-if true x d f = refl
bind-if false x d f = refl

-- The two integer types: Integer, an i32, and Long, an i64.
pub data IntegerType : Type 0 where
  integer_type long_type : IntegerType

abbrev pub half_of : IntegerType → ℕ
half_of integer_type = i32_half
half_of long_type = i64_half

abbrev pub kind_of : IntegerType → NumericKind
kind_of integer_type = integer_kind
kind_of long_type = long_kind

abbrev pub value_of : {D C : Type 0} → IntegerType → ℤ → Value D C
value_of integer_type v = integer v
value_of long_type v = long v

module _ {D C : Type 0} (ops : DecimalOps D) (a b : ℤ) (span : Span) where
  -- An operation on two values of one of the types.
  abbrev pub apply_at : BinaryOperator → IntegerType → Result (Value D C)
  apply_at operator t =
      apply_binary ops (numeric operator (kind_of t)) (value_of t a) (value_of t b) span

  -- The arithmetic on values is the arithmetic on what they carry.
  pub apply_at-arithmetic :
      (operator : BinaryOperator) (t : IntegerType)
      → in_range (half_of t) a ≡ true
      → in_range (half_of t) b ≡ true
      → apply_at operator t
        ≡ (integer_arithmetic operator (half_of t) a b span >>= λ v. ok (value_of t v))
  unfolding apply_binary apply_numeric_binary apply_integer_binary apply_long_binary
  apply_at-arithmetic operator integer_type ha hb = rw (ha, hb)
  apply_at-arithmetic operator long_type ha hb = refl

-- A sum, a difference or a product of two values of an integer type, Integer or Long, is exact or
-- an overflow error: of operands in the range of the type, the call returns the integer that the
-- operator stands for if that is in the range too, and fails otherwise.
pub arithmetic_exact_or_overflow :
    {D C : Type 0} (ops : DecimalOps D) (operator : BinaryOperator) (t : IntegerType) (a b : ℤ)
    (span : Span) {r : ℤ}
    → exact operator a b ≡ some r
    → in_range (half_of t) a ≡ true
    → in_range (half_of t) b ≡ true
    → apply_binary {C = C} ops (numeric operator (kind_of t)) (value_of t a) (value_of t b) span
      ≡ (if in_range (half_of t) r then ok (value_of t r) else err (integer_overflow span))
arithmetic_exact_or_overflow ops operator t a b span {r} e ha hb =
    rw
      (
        apply_at-arithmetic ops a b span operator t ha hb,
        arithmetic-exact operator (half_of t) a b span e,
      )
      (bind-if (in_range (half_of t) r) r (integer_overflow span) (λ v. ok (value_of t v)))

-- Division away from the one overflow.
pub divides :
    (half : ℕ) (a b : ℤ) (span : Span)
    → is_zero b ≡ false
    → (is_minimum half a && is_minus_one b) ≡ false
    → (integer_arithmetic divide half a b span ≡ ok (quotient a b))
      × (integer_arithmetic remainder half a b span ≡ ok (Word.remainder a b))
unfolding integer_arithmetic checked_div checked_rem
divides half a b span h n = (rw (h, n), rw (h, n))

-- Dividing two Integer values by a non-zero value, away from the minimum by -1, returns a quotient
-- and a remainder: the dividend is the quotient times the divisor plus the remainder, and the
-- remainder is smaller than the divisor in magnitude.
pub division_law :
    {D C : Type 0} (ops : DecimalOps D) (a b : ℤ) (span : Span)
    → in_range i32_half a ≡ true
    → in_range i32_half b ≡ true
    → is_zero b ≡ false
    → (is_minimum i32_half a && is_minus_one b) ≡ false
    → (q : ℤ) × (r : ℤ) × (apply_binary {C = C} ops
          (numeric divide integer_kind)
          (integer a)
          (integer b)
          span
        ≡ ok (integer q))
      × (apply_binary {C = C} ops (numeric remainder integer_kind) (integer a) (integer b) span
          ≡ ok (integer r))
      × (q *ℤ b +ℤ r ≡ a)
      × (abs r < abs b)
division_law ops a b span ha hb h n =
    let laws = quotient-remainder a b h in
    let steps = divides i32_half a b span h n in
    (
      quotient a b,
      Word.remainder a b,
      rw (apply_at-arithmetic ops a b span divide integer_type ha hb, steps.0),
      rw (apply_at-arithmetic ops a b span remainder integer_type ha hb, steps.1),
      laws.0,
      laws.1,
    )
