-- ===== src/Runtime/Numeric/Division.antt =====
-- The errors of dividing Integer and Long values.
use apex_exec.Prelude.{ℕ, ◌⊎◌, ◌↔◌, Bool-cases, inl, inr, ◌≡◌, refl, true, false, ◌&&◌, arith}
use apex_exec.Prelude.Int.{ℤ, pos, negsuc}
use apex_exec.Span.{Span}
use apex_exec.Diagnostic.{Diagnostic}
use apex_exec.Runtime.Value.{ok, err, integer_overflow}
use apex_exec.Runtime.Numeric.{apply_binary}
use apex_exec.Runtime.Numeric.Operators.{
  BinaryOperator, divide, remainder, numeric, DecimalOps, division_by_zero, remainder_by_zero,
  integer_arithmetic,
}
use apex_exec.Runtime.Numeric.Word.{
  in_range, is_zero, is_minimum, is_minus_one, checked_div, checked_rem,
}
use apex_exec.Runtime.Numeric.Exact.{
  IntegerType, integer_type, long_type, half_of, kind_of, value_of, apply_at-arithmetic, divides,
}

-- The exception of a zero divisor, which names the operation.
abbrev pub zero_error : BinaryOperator → Span → Diagnostic
zero_error divide span = division_by_zero span
zero_error _ span = remainder_by_zero span

pub data IsDivision : BinaryOperator → Type 0 where
  is_divide : IsDivision divide
  is_remainder : IsDivision remainder

-- The least value of the type.
abbrev pub least : IntegerType → ℤ
least integer_type = negsuc 2147483647
least long_type = negsuc 9223372036854775807

-- What a division of two integers of the type fails with.
abbrev pub DivisionError : BinaryOperator → IntegerType → ℤ → ℤ → Span → Diagnostic → Type 0
DivisionError operator t a b span d =
    ((b ≡ pos 0) × (d ≡ zero_error operator span))
    ⊎ ((a ≡ least t) × (b ≡ negsuc 0) × (d ≡ integer_overflow span))

zero_integer : (b : ℤ) → is_zero b ≡ true → b ≡ pos 0
zero_integer b h = ground arith

nonzero_integer : (b : ℤ) → is_zero b ≡ false → ¬ (b ≡ pos 0)
nonzero_integer b h e = cc (rw e at h)

above_least :
    (t : IntegerType) (a b : ℤ)
    → (is_minimum (half_of t) a && is_minus_one b) ≡ false
    → a ≡ least t
    → ¬ (b ≡ negsuc 0)
above_least integer_type a b h l m = cc (rw (l, m) at h)
above_least long_type a b h l m = cc (rw (l, m) at h)

least_integer :
    (t : IntegerType) (a b : ℤ)
    → (is_minimum (half_of t) a && is_minus_one b) ≡ true
    → (a ≡ least t) × (b ≡ negsuc 0)
least_integer t a b h = ground arith

zero_fails :
    {operator : BinaryOperator} (half : ℕ) (a b : ℤ) (span : Span)
    → IsDivision operator
    → is_zero b ≡ true
    → integer_arithmetic operator half a b span ≡ err (zero_error operator span)
unfolding integer_arithmetic
zero_fails half a b span is_divide h = rw h refl
zero_fails half a b span is_remainder h = rw h refl

minimum_fails :
    {operator : BinaryOperator} (half : ℕ) (a b : ℤ) (span : Span)
    → IsDivision operator
    → is_zero b ≡ false
    → (is_minimum half a && is_minus_one b) ≡ true
    → integer_arithmetic operator half a b span ≡ err (integer_overflow span)
unfolding integer_arithmetic checked_div checked_rem
minimum_fails half a b span is_divide h n = rw (h, n) refl
minimum_fails half a b span is_remainder h n = rw (h, n) refl

division_succeeds :
    {operator : BinaryOperator} (half : ℕ) (a b : ℤ) (span : Span)
    → IsDivision operator
    → is_zero b ≡ false
    → (is_minimum half a && is_minus_one b) ≡ false
    → (v : ℤ) × (integer_arithmetic operator half a b span ≡ ok v)
division_succeeds half a b span is_divide h n = (_, (divides half a b span h n).0)
division_succeeds half a b span is_remainder h n = (_, (divides half a b span h n).1)

-- A division of two values of an integer type, Integer or Long, for its quotient or its remainder,
-- fails with a diagnostic exactly if the divisor is zero and it is the exception that names the
-- operation, or the dividend is the least value of the type and the divisor is -1 and it is the
-- overflow exception.
pub division_fails_iff :
    {D C : Type 0} (ops : DecimalOps D) {operator : BinaryOperator} (t : IntegerType) (a b : ℤ)
    (span : Span) (d : Diagnostic)
    → IsDivision operator
    → in_range (half_of t) a ≡ true
    → in_range (half_of t) b ≡ true
    → (apply_binary {C = C} ops (numeric operator (kind_of t)) (value_of t a) (value_of t b) span
        ≡ err d)
      ↔ DivisionError operator t a b span d
division_fails_iff ops {operator} t a b span d division ha hb =
    rw (apply_at-arithmetic ops a b span operator t ha hb) (elim (Bool-cases (is_zero b)) [
      | inl zero ↦ rw (zero_fails (half_of t) a b span division zero) (
        (λ e. inl (zero_integer b zero, cc)),
        λ k. elim k [ inl (z, e) ↦ cc | inr (l, m, e) ↦ cc (zero_integer b zero) ],
      )
      | inr nonzero ↦ elim (Bool-cases (is_minimum (half_of t) a && is_minus_one b)) [
        | inl lowest ↦
            let (l, m) = least_integer t a b lowest in
            rw (minimum_fails (half_of t) a b span division nonzero lowest) (
              (λ e. inr (l, m, cc)),
              λ k. elim k [
                | inl (z, e) ↦ absurd (nonzero_integer b nonzero z)
                | inr (l', m', e) ↦ cc
              ],
            )
        | inr inside ↦
            let (v, s) = division_succeeds (half_of t) a b span division nonzero inside in
            rw s (
              (λ e. cc),
              λ k. elim k [
                | inl (z, e) ↦ absurd (nonzero_integer b nonzero z)
                | inr (l, m, e) ↦ absurd (above_least t a b inside l m)
              ],
            )
      ]
    ])
