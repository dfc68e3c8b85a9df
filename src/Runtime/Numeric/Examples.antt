-- ===== src/Runtime/Numeric/Examples.antt =====
-- Runs of the arithmetic, over decimals that are integers.
use apex_exec.Prelude.{◌↔◌, ◌<◌, ◌≡◌, refl, none, some}
use apex_exec.Prelude.Int.{ℤ, pos, negsuc, ◌+ℤ◌, ◌-ℤ◌, ◌*ℤ◌, abs}
use apex_exec.Span.{Span, new}
use apex_exec.Runtime.Value.{Value, integer, long, ok, err, integer_overflow}
use apex_exec.Runtime.Numeric.{apply_binary, apply_unary, increment}
use apex_exec.Runtime.Numeric.Operators.{
  add, divide, remainder, shift_left_op, unsigned_shift_right_op, numeric, shift, integer_kind,
  long_kind, negate_op, DecimalOps,
}
use apex_exec.Runtime.Numeric.Word.{is_zero}
use apex_exec.Runtime.Numeric.Typed.{IsTypedResult}
use apex_exec.Runtime.Numeric.Sound.{apply_binary-IsTyped, apply_unary-IsTyped}
use apex_exec.Runtime.Numeric.Exact.{long_type, arithmetic_exact_or_overflow, division_law}
use apex_exec.Runtime.Numeric.Division.{DivisionError, is_remainder, division_fails_iff}

abbrev whole : DecimalOps ℤ
whole = record {
  of_integer = λ v. v;
  zero_test = is_zero;
  negative_one = negsuc 0;
  add_checked = λ a b. some (a +ℤ b);
  sub_checked = λ a b. some (a -ℤ b);
  mul_checked = λ a b. some (a *ℤ b);
  div_checked = λ a b. none;
  rem_checked = λ a b. none;
}

abbrev here : Span
unfolding new
here = new 2 5

abbrev V : Type 0
V = Value ℤ Unit

-- -7 / 2 is -3, with remainder -1.
division_runs :
    (apply_binary {C = Unit} whole
        (numeric divide integer_kind)
        (integer (negsuc 6))
        (integer (pos 2))
        here
      ≡ ok (integer (negsuc 2)))
    × (apply_binary {C = Unit} whole
          (numeric remainder integer_kind)
          (integer (negsuc 6))
          (integer (pos 2))
          here
        ≡ ok (integer (negsuc 0)))
unfolding apply_binary
division_runs = (refl, refl)

-- `-1 >>> 28` and `1 << 33` on Integer.
shift_runs :
    (apply_binary {C = Unit} whole
        (shift unsigned_shift_right_op integer_kind)
        (integer (negsuc 0))
        (integer (pos 28))
        here
      ≡ ok (integer (pos 15)))
    × (apply_binary {C = Unit} whole
          (shift shift_left_op integer_kind)
          (integer (pos 1))
          (integer (pos 33))
          here
        ≡ ok (integer (pos 2)))
unfolding apply_binary
shift_runs = (refl, refl)

increment_overflows :
    increment {C = Unit} whole integer_kind (integer (pos 2147483647)) (pos 1) here
    ≡ err (integer_overflow here)
unfolding increment
increment_overflows = refl

apply_binary-IsTyped_example : IsTypedResult (
    apply_binary {C = Unit} whole
      (shift shift_left_op long_kind)
      (long (negsuc 8))
      (integer (pos 62))
      here)
apply_binary-IsTyped_example =
    apply_binary-IsTyped whole (long (negsuc 8)) (integer (pos 62)) here refl refl
      (shift shift_left_op long_kind)

apply_unary-IsTyped_example :
    IsTypedResult
      (apply_unary {C = Unit} whole (negate_op integer_kind) (integer (negsuc 2147483647)) here)
apply_unary-IsTyped_example =
    apply_unary-IsTyped whole (integer (negsuc 2147483647)) here refl (negate_op integer_kind)

-- The sum of two Long values that no Long is.
arithmetic_exact_or_overflow_example :
    apply_binary {C = Unit} whole
      (numeric add long_kind)
      (long (pos 9223372036854775807))
      (long (pos 1))
      here
    ≡ err (integer_overflow here)
unfolding ◌+ℤ◌
arithmetic_exact_or_overflow_example =
    arithmetic_exact_or_overflow whole add long_type (pos 9223372036854775807) (pos 1) here refl
      refl refl

division_law_example :
    (q : ℤ) × (r : ℤ) × (apply_binary {C = Unit} whole
        (numeric divide integer_kind)
        (integer (negsuc 6))
        (integer (pos 2))
        here
      ≡ ok (integer q))
    × (apply_binary {C = Unit} whole
          (numeric remainder integer_kind)
          (integer (negsuc 6))
          (integer (pos 2))
          here
        ≡ ok (integer r))
    × (q *ℤ pos 2 +ℤ r ≡ negsuc 6)
    × (abs r < 2)
division_law_example = division_law whole (negsuc 6) (pos 2) here refl refl refl refl

division_fails_iff_example :
    (apply_binary {C = Unit} whole
        (numeric remainder long_kind)
        (long (negsuc 9223372036854775807))
        (long (negsuc 0))
        here
      ≡ err (integer_overflow here))
    ↔ DivisionError remainder long_type
        (negsuc 9223372036854775807)
        (negsuc 0)
        here
        (integer_overflow here)
division_fails_iff_example =
    division_fails_iff whole long_type (negsuc 9223372036854775807) (negsuc 0) here
      (integer_overflow here) is_remainder refl refl
