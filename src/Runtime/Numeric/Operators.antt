-- ===== src/Runtime/Numeric/Operators.antt =====
-- The operators, and what they do on the numbers themselves: src/runtime/numeric.rs below the
-- handling of values, with the operator types of src/ast.rs and src/hir.rs.
use Prim.Native.Nat.{bit_and, bit_or, bit_xor}
use apex_exec.Prelude.{ℕ, Bool, true, not, ◌&&◌, ◌||◌, Option, none, some, if◌then◌else◌}
use apex_exec.Prelude.Int.{ℤ}
use apex_exec.Prelude.Text.{Text, codes}
use apex_exec.Span.{Span}
use apex_exec.Diagnostic
use apex_exec.Diagnostic.{Diagnostic}
use apex_exec.Runtime.Value.{
  Result, ok, err, ◌>>=◌, ok_or, invalid_runtime_operands, integer_overflow,
}
use apex_exec.Runtime.Numeric.Word.{
  i32_half, in_range, is_zero, checked_add, checked_sub, checked_mul, checked_div, checked_rem,
  checked_neg, bitwise, shift_left, shift_right, unsigned_shift_right,
}

-- src/ast.rs and src/hir.rs
pub data BinaryOperator : Type 0 where
  add subtract multiply divide remainder less less_equal greater greater_equal equal not_equal :
      BinaryOperator
  bitwise_and bitwise_or bitwise_xor shift_left_op shift_right_op unsigned_shift_right_op and_op
        or_op :
      BinaryOperator

pub data NumericKind : Type 0 where
  integer_kind long_kind decimal_kind : NumericKind

pub data CheckedBinaryOperation : Type 0 where
  string_concat : CheckedBinaryOperation
  numeric : BinaryOperator → NumericKind → CheckedBinaryOperation
  boolean_bitwise : BinaryOperator → CheckedBinaryOperation
  integral : BinaryOperator → NumericKind → CheckedBinaryOperation
  shift : BinaryOperator → NumericKind → CheckedBinaryOperation

pub data CheckedUnaryOperation : Type 0 where
  positive negate_op bitwise_not : NumericKind → CheckedUnaryOperation

-- What the program calls of `rust_decimal::Decimal`.
pub record DecimalOps (D : Type 0) : Type 0 where
  pub of_integer : ℤ → D
  pub zero_test : D → Bool
  pub negative_one : D
  pub add_checked : D → D → Option D
  pub sub_checked : D → D → Option D
  pub mul_checked : D → D → Option D
  pub div_checked : D → D → Option D
  pub rem_checked : D → D → Option D

abbrev math_exception : Text → Span → Diagnostic
math_exception message span = Diagnostic.runtime_exception (codes "MathException") message span

pub division_by_zero : Span → Diagnostic
division_by_zero span = math_exception (codes "division by zero") span

pub remainder_by_zero : Span → Diagnostic
remainder_by_zero span = math_exception (codes "remainder by zero") span

pub decimal_overflow : Span → Diagnostic
decimal_overflow span = math_exception (codes "Decimal arithmetic overflow") span

pub null_operand : Text → Span → Diagnostic
null_operand message span = Diagnostic.runtime_exception (codes "NullPointerException") message span

-- The checked operation of an operator on an integer type; the outer `none` is an operator that
-- has none.
unfoldable pub checked_operation : BinaryOperator → Option (ℕ → ℤ → ℤ → Option ℤ)
unfolding checked_add checked_sub checked_mul checked_div checked_rem
checked_operation add = some checked_add
checked_operation subtract = some checked_sub
checked_operation multiply = some checked_mul
checked_operation divide = some checked_div
checked_operation remainder = some checked_rem
checked_operation _ = none

-- The guards on a zero divisor, which stand before the operation.
unfoldable pub divisor_check : BinaryOperator → Bool → Span → Result (Unit {0})
divisor_check divide true span = err (division_by_zero span)
divisor_check remainder true span = err (remainder_by_zero span)
divisor_check _ _ span = ok tt

abbrev pub operation_result : Option (ℕ → ℤ → ℤ → Option ℤ) → ℕ → ℤ → ℤ → Span → Result ℤ
operation_result none half a b span = err (invalid_runtime_operands span)
operation_result (some f) half a b span = ok_or (integer_overflow span) (f half a b)

-- The `match operator` that the i32 and the i64 arithmetic share.
unfoldable pub integer_arithmetic : BinaryOperator → ℕ → ℤ → ℤ → Span → Result ℤ
unfolding checked_operation divisor_check
integer_arithmetic operator half a b span = do
  _ ← divisor_check operator (is_zero b) span
  operation_result (checked_operation operator) half a b span

unfoldable pub bit_operation : BinaryOperator → Option (ℕ → ℕ → ℕ)
bit_operation bitwise_and = some bit_and
bit_operation bitwise_or = some bit_or
bit_operation bitwise_xor = some bit_xor
bit_operation _ = none

abbrev pub bits_result : Option (ℕ → ℕ → ℕ) → ℕ → ℤ → ℤ → Span → Result ℤ
bits_result none half a b span = err (invalid_runtime_operands span)
bits_result (some f) half a b span = ok (bitwise f half a b)

unfoldable pub boolean_operation : BinaryOperator → Bool → Bool → Span → Result Bool
boolean_operation bitwise_and a b span = ok (a && b)
boolean_operation bitwise_or a b span = ok (a || b)
boolean_operation bitwise_xor a b span = ok (if a then not b else b)
boolean_operation _ a b span = err (invalid_runtime_operands span)

unfoldable pub shift_operation : BinaryOperator → ℕ → ℤ → ℕ → Span → Result ℤ
unfolding shift_left shift_right unsigned_shift_right
shift_operation shift_left_op half a d span = ok (shift_left half a d)
shift_operation shift_right_op half a d span = ok (shift_right a d)
shift_operation unsigned_shift_right_op half a d span = ok (unsigned_shift_right half a d)
shift_operation _ half a d span = err (invalid_runtime_operands span)

module _ {D : Type 0} (ops : DecimalOps D) where
  unfoldable pub decimal_operation : BinaryOperator → D → D → Span → Result D
  decimal_operation add a b span = ok_or (decimal_overflow span) (ops.add_checked a b)
  decimal_operation subtract a b span = ok_or (decimal_overflow span) (ops.sub_checked a b)
  decimal_operation multiply a b span = ok_or (decimal_overflow span) (ops.mul_checked a b)
  decimal_operation divide a b span = ok_or (decimal_overflow span) (ops.div_checked a b)
  decimal_operation remainder a b span = ok_or (decimal_overflow span) (ops.rem_checked a b)
  decimal_operation _ a b span = err (invalid_runtime_operands span)

-- A negation that does not fit i32, an integer outside i32 included, is an overflow.
abbrev pub negate_i32 : ℤ → Option ℤ
negate_i32 v = if in_range i32_half v then checked_neg i32_half v else none
