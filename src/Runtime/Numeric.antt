-- ===== src/Runtime/Numeric.antt =====
-- src/runtime/numeric.rs: the checked unary and binary operations on runtime values. The decimal
-- type of the library is a parameter.
pub mod Word
pub mod Operators
pub mod Range
pub mod Typed
pub mod Sound
pub mod Exact
pub mod Division
mod Examples
use apex_exec.Prelude.{ℕ, Bool, true, false, ◌||◌, if◌then◌else◌}
use apex_exec.Prelude.Int.{ℤ}
use apex_exec.Prelude.Text.{codes}
use apex_exec.Span.{Span}
use apex_exec.Diagnostic
use apex_exec.Runtime.Value.{
  Value, string, boolean, integer, long, decimal, null, Result, ok, err, ◌>>=◌, ok_or,
  invalid_runtime_operands, integer_overflow,
}
use Word.{i32_half, i64_half, in_range, checked_neg, complement, masked, is_zero, bitwise}
use Operators.{
  BinaryOperator, add, NumericKind, integer_kind, long_kind, decimal_kind, CheckedBinaryOperation,
  string_concat, numeric, boolean_bitwise, integral, shift, CheckedUnaryOperation, positive,
  negate_op, bitwise_not, DecimalOps, decimal_overflow, null_operand, divisor_check,
  integer_arithmetic, bit_operation, bits_result, boolean_operation, shift_operation,
  decimal_operation, negate_i32,
}

module _ {D C : Type 0} where
  unfoldable pub is_null : Value D C → Bool
  is_null (null ty) = true
  is_null _ = false

  -- `integer`, `long`: the i64 that the value carries.
  unfoldable pub integer_of : Value D C → Span → Result ℤ
  integer_of (integer v) span = ok v
  integer_of _ span = err (invalid_runtime_operands span)

  unfoldable pub long_of : Value D C → Span → Result ℤ
  long_of (integer v) span = ok v
  long_of (long v) span = ok v
  long_of _ span = err (invalid_runtime_operands span)

  -- `i32::try_from(integer(value, span)?)`
  unfoldable pub i32_of : Value D C → Span → Result ℤ
  unfolding integer_of
  i32_of v span = do
    n ← integer_of v span
    if in_range i32_half n then ok n else err (invalid_runtime_operands span)

module _ {D C : Type 0} where
  unfoldable pub apply_integer_binary :
      BinaryOperator → Value D C → Value D C → Span → Result (Value D C)
  unfolding i32_of integer_arithmetic
  apply_integer_binary operator left right span = do
    a ← i32_of left span
    b ← i32_of right span
    v ← integer_arithmetic operator i32_half a b span
    ok (integer v)

  unfoldable pub apply_long_binary :
      BinaryOperator → Value D C → Value D C → Span → Result (Value D C)
  unfolding long_of integer_arithmetic
  apply_long_binary operator left right span = do
    a ← long_of left span
    b ← long_of right span
    v ← integer_arithmetic operator i64_half a b span
    ok (long v)

  unfoldable pub apply_integral_binary :
      BinaryOperator → NumericKind → Value D C → Value D C → Span → Result (Value D C)
  unfolding i32_of long_of bit_operation bitwise
  apply_integral_binary operator integer_kind left right span = do
    a ← i32_of left span
    b ← i32_of right span
    v ← bits_result (bit_operation operator) i32_half a b span
    ok (integer v)
  apply_integral_binary operator long_kind left right span = do
    a ← long_of left span
    b ← long_of right span
    v ← bits_result (bit_operation operator) i64_half a b span
    ok (long v)
  apply_integral_binary operator decimal_kind left right span = err (invalid_runtime_operands span)

  unfoldable pub apply_shift :
      BinaryOperator → NumericKind → Value D C → Value D C → Span → Result (Value D C)
  unfolding integer_of i32_of long_of masked shift_operation
  apply_shift operator integer_kind left right span = do
    distance ← integer_of right span
    a ← i32_of left span
    v ← shift_operation operator i32_half a (masked 32 distance) span
    ok (integer v)
  apply_shift operator long_kind left right span = do
    distance ← integer_of right span
    a ← long_of left span
    v ← shift_operation operator i64_half a (masked 64 distance) span
    ok (long v)
  apply_shift operator decimal_kind left right span = do
    distance ← integer_of right span
    err (invalid_runtime_operands span)

  unfoldable pub apply_boolean : BinaryOperator → Value D C → Value D C → Span → Result (Value D C)
  unfolding boolean_operation
  apply_boolean operator (boolean a) (boolean b) span = do
    v ← boolean_operation operator a b span
    ok (boolean v)
  apply_boolean operator left right span = err (invalid_runtime_operands span)

module _ {D C : Type 0} (ops : DecimalOps D) where
  unfoldable pub decimal_of : Value D C → Span → Result D
  decimal_of (integer v) span = ok (ops.of_integer v)
  decimal_of (long v) span = ok (ops.of_integer v)
  decimal_of (decimal d) span = ok d
  decimal_of _ span = err (invalid_runtime_operands span)

  unfoldable pub apply_decimal_binary :
      BinaryOperator → Value D C → Value D C → Span → Result (Value D C)
  unfolding decimal_of divisor_check decimal_operation
  apply_decimal_binary operator left right span = do
    a ← decimal_of left span
    b ← decimal_of right span
    _ ← divisor_check operator (ops.zero_test b) span
    v ← decimal_operation ops operator a b span
    ok (decimal v)

  unfoldable pub apply_numeric_binary :
      BinaryOperator → NumericKind → Value D C → Value D C → Span → Result (Value D C)
  unfolding apply_integer_binary apply_long_binary apply_decimal_binary
  apply_numeric_binary operator integer_kind left right span =
      apply_integer_binary operator left right span
  apply_numeric_binary operator long_kind left right span =
      apply_long_binary operator left right span
  apply_numeric_binary operator decimal_kind left right span =
      apply_decimal_binary operator left right span

  unfoldable pub dispatch_binary :
      CheckedBinaryOperation → Value D C → Value D C → Span → Result (Value D C)
  unfolding apply_numeric_binary apply_boolean apply_integral_binary apply_shift
  dispatch_binary string_concat left right span =
      err (Diagnostic.new (codes "String concatenation requires runtime rendering") span)
  dispatch_binary (numeric operator kind) left right span =
      apply_numeric_binary operator kind left right span
  dispatch_binary (boolean_bitwise operator) left right span =
      apply_boolean operator left right span
  dispatch_binary (integral operator kind) left right span =
      apply_integral_binary operator kind left right span
  dispatch_binary (shift operator kind) left right span = apply_shift operator kind left right span

  unfoldable pub apply_binary :
      CheckedBinaryOperation → Value D C → Value D C → Span → Result (Value D C)
  unfolding is_null dispatch_binary
  apply_binary operation left right span =
      if is_null left || is_null right
      then err (null_operand (codes "operator cannot be applied to null at runtime") span)
      else dispatch_binary operation left right span

  unfoldable pub convert_numeric : Value D C → NumericKind → Span → Result (Value D C)
  unfolding i32_of long_of decimal_of
  convert_numeric value integer_kind span = do v ← i32_of value span; ok (integer v)
  convert_numeric value long_kind span = do v ← long_of value span; ok (long v)
  convert_numeric value decimal_kind span = do v ← decimal_of value span; ok (decimal v)

  unfoldable pub dispatch_unary : CheckedUnaryOperation → Value D C → Span → Result (Value D C)
  unfolding convert_numeric integer_of i32_of long_of decimal_of checked_neg complement
  dispatch_unary (positive kind) value span = convert_numeric value kind span
  dispatch_unary (negate_op integer_kind) value span = do
    v ← integer_of value span
    r ← ok_or (integer_overflow span) (negate_i32 v)
    ok (integer r)
  dispatch_unary (negate_op long_kind) value span = do
    v ← long_of value span
    r ← ok_or (integer_overflow span) (checked_neg i64_half v)
    ok (long r)
  dispatch_unary (negate_op decimal_kind) value span = do
    v ← decimal_of value span
    r ← ok_or (decimal_overflow span) (ops.mul_checked v ops.negative_one)
    ok (decimal r)
  dispatch_unary (bitwise_not integer_kind) value span = do
    v ← i32_of value span
    ok (integer (complement v))
  dispatch_unary (bitwise_not long_kind) value span = do
    v ← long_of value span
    ok (long (complement v))
  dispatch_unary (bitwise_not decimal_kind) value span = err (invalid_runtime_operands span)

  unfoldable pub apply_unary : CheckedUnaryOperation → Value D C → Span → Result (Value D C)
  unfolding is_null dispatch_unary
  apply_unary operation value span =
      if is_null value
      then err (null_operand (codes "expected non-null numeric value at runtime") span)
      else dispatch_unary operation value span

  -- `delta` is an i32.
  unfoldable pub increment : NumericKind → Value D C → ℤ → Span → Result (Value D C)
  unfolding apply_numeric_binary
  increment integer_kind value delta span =
      apply_numeric_binary add integer_kind value (integer delta) span
  increment long_kind value delta span = apply_numeric_binary add long_kind value (long delta) span
  increment decimal_kind value delta span = err (invalid_runtime_operands span)
