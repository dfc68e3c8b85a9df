-- ===== src/Runtime/Numeric/Sound.antt =====
-- Every operation of src/runtime/numeric.rs returns a value that its type can hold.
use apex_exec.Prelude.{inl, inr, arith, Bool-cases, ◌||◌}
use apex_exec.Span.{Span}
use apex_exec.Runtime.Value.{integer_overflow, Value, boolean, Result, ok, err, ◌>>=◌, ok_or}
use apex_exec.Runtime.Numeric.{
  is_null, integer_of, long_of, i32_of, decimal_of, apply_integer_binary, apply_long_binary,
  apply_integral_binary, apply_shift, apply_boolean, apply_decimal_binary, apply_numeric_binary,
  dispatch_binary, apply_binary, convert_numeric, dispatch_unary, apply_unary,
}
use apex_exec.Runtime.Numeric.Operators.{
  BinaryOperator, NumericKind, integer_kind, long_kind, decimal_kind, CheckedBinaryOperation,
  string_concat, numeric, boolean_bitwise, integral, shift, CheckedUnaryOperation, positive,
  negate_op, bitwise_not, DecimalOps, decimal_overflow, negate_i32, integer_arithmetic,
  bit_operation, bits_result, shift_operation, divisor_check, decimal_operation, boolean_operation,
}
use apex_exec.Runtime.Numeric.Word.{i32_half, i64_half, checked_neg, masked}
use apex_exec.Runtime.Numeric.Range.{complement-in_range}
use apex_exec.Runtime.Numeric.Typed.{
  IsTyped, IsTypedResult, first_step, i32_of-InRange, long_of-InRange, arithmetic-InRange,
  bits-InRange, shift-InRange, checked_neg-InRange, negate_i32-InRange,
}

-- A step whose result the rest need not know.
any_step :
    {D C A : Type 0} (m : Result A) (k : A → Result (Value D C))
    → ((a : A) → IsTypedResult (k a))
    → IsTypedResult (m >>= k)
any_step (ok a) k next = next a
any_step (err d) k next = tt

module _ {D C : Type 0} (operator : BinaryOperator) (left right : Value D C) (span : Span) where
  integer-IsTyped : IsTypedResult (apply_integer_binary operator left right span)
  unfolding apply_integer_binary
  integer-IsTyped = first_step i32_half (i32_of left span) _ (i32_of-InRange left span) λ a ha.
      first_step i32_half (i32_of right span) _ (i32_of-InRange right span) λ b hb.
        first_step i32_half (integer_arithmetic operator i32_half a b span) _
          (arithmetic-InRange i32_half a b span (omega arith) ha operator) (λ v h. h)

  long-IsTyped :
      IsTyped left → IsTyped right → IsTypedResult (apply_long_binary operator left right span)
  unfolding apply_long_binary
  long-IsTyped l r = first_step i64_half (long_of left span) _ (long_of-InRange left span l) λ a ha.
      first_step i64_half (long_of right span) _ (long_of-InRange right span r) λ b hb.
        first_step i64_half (integer_arithmetic operator i64_half a b span) _
          (arithmetic-InRange i64_half a b span (omega arith) ha operator) (λ v h. h)

  integral-IsTyped :
      (kind : NumericKind)
      → IsTyped left
      → IsTyped right
      → IsTypedResult (apply_integral_binary operator kind left right span)
  unfolding apply_integral_binary
  integral-IsTyped integer_kind l r =
      first_step i32_half (i32_of left span) _ (i32_of-InRange left span) λ a ha.
        first_step i32_half (i32_of right span) _ (i32_of-InRange right span) λ b hb.
          first_step i32_half (bits_result (bit_operation operator) i32_half a b span) _
            (bits-InRange i32_half a b span (omega arith) ha operator) (λ v h. h)
  integral-IsTyped long_kind l r =
      first_step i64_half (long_of left span) _ (long_of-InRange left span l) λ a ha.
        first_step i64_half (long_of right span) _ (long_of-InRange right span r) λ b hb.
          first_step i64_half (bits_result (bit_operation operator) i64_half a b span) _
            (bits-InRange i64_half a b span (omega arith) ha operator) (λ v h. h)
  integral-IsTyped decimal_kind l r = tt

  boolean-IsTyped : IsTypedResult (apply_boolean operator left right span)
  unfolding apply_boolean
  boolean-IsTyped = elim left as (λ v. IsTypedResult (apply_boolean operator v right span)) [
    | boolean a ↦ elim right as (λ w. IsTypedResult (apply_boolean operator (boolean a) w span)) [
      | boolean b ↦ any_step (boolean_operation operator a b span) _ (λ v. tt)
      | _ ↦ tt
    ]
    | _ ↦ tt
  ]

  shift-IsTyped :
      (kind : NumericKind)
      → IsTyped left
      → IsTypedResult (apply_shift operator kind left right span)
  unfolding apply_shift
  shift-IsTyped integer_kind l = any_step (integer_of right span) _ λ d.
      first_step i32_half (i32_of left span) _ (i32_of-InRange left span) λ a ha.
        first_step i32_half (shift_operation operator i32_half a (masked 32 d) span) _
          (shift-InRange i32_half a a span (omega arith) ha operator (masked 32 d)) (λ v h. h)
  shift-IsTyped long_kind l = any_step (integer_of right span) _ λ d.
      first_step i64_half (long_of left span) _ (long_of-InRange left span l) λ a ha.
        first_step i64_half (shift_operation operator i64_half a (masked 64 d) span) _
          (shift-InRange i64_half a a span (omega arith) ha operator (masked 64 d)) (λ v h. h)
  shift-IsTyped decimal_kind l = any_step (integer_of right span) _ (λ d. tt)

module _ {D C : Type 0} (ops : DecimalOps D) (left right : Value D C) (span : Span)
    (l : IsTyped left) (r : IsTyped right) where
  decimal-IsTyped :
      (operator : BinaryOperator)
      → IsTypedResult (apply_decimal_binary ops operator left right span)
  unfolding apply_decimal_binary
  decimal-IsTyped operator = any_step (decimal_of ops left span) _ λ a.
      any_step (decimal_of ops right span) _ λ b.
        any_step (divisor_check operator (ops.zero_test b) span) _
          λ u. any_step (decimal_operation ops operator a b span) _ (λ v. tt)

  numeric-IsTyped :
      (operator : BinaryOperator) (kind : NumericKind)
      → IsTypedResult (apply_numeric_binary ops operator kind left right span)
  unfolding apply_numeric_binary
  numeric-IsTyped operator integer_kind = integer-IsTyped operator left right span
  numeric-IsTyped operator long_kind = long-IsTyped operator left right span l r
  numeric-IsTyped operator decimal_kind = decimal-IsTyped operator

  dispatch-IsTyped :
      (operation : CheckedBinaryOperation)
      → IsTypedResult (dispatch_binary ops operation left right span)
  unfolding dispatch_binary
  dispatch-IsTyped string_concat = tt
  dispatch-IsTyped (numeric operator kind) = numeric-IsTyped operator kind
  dispatch-IsTyped (boolean_bitwise operator) = boolean-IsTyped operator left right span
  dispatch-IsTyped (integral operator kind) = integral-IsTyped operator left right span kind l r
  dispatch-IsTyped (shift operator kind) = shift-IsTyped operator left right span kind l

  -- From operands that fit their types, a binary operation returns a value that fits its type, or
  -- an error: an Integer result is an i32 and a Long result is an i64.
  pub apply_binary-IsTyped :
      (operation : CheckedBinaryOperation)
      → IsTypedResult (apply_binary ops operation left right span)
  unfolding apply_binary
  apply_binary-IsTyped operation = elim (Bool-cases (is_null left || is_null right)) [
    | inl e ↦ rw e tt
    | inr e ↦ rw e (dispatch-IsTyped operation)
  ]

module _ {D C : Type 0} (ops : DecimalOps D) (value : Value D C) (span : Span)
    (typed : IsTyped value) where
  convert-IsTyped : (kind : NumericKind) → IsTypedResult (convert_numeric ops value kind span)
  unfolding convert_numeric
  convert-IsTyped integer_kind =
      first_step i32_half (i32_of value span) _ (i32_of-InRange value span) (λ v h. h)
  convert-IsTyped long_kind =
      first_step i64_half (long_of value span) _ (long_of-InRange value span typed) (λ v h. h)
  convert-IsTyped decimal_kind = any_step (decimal_of ops value span) _ (λ v. tt)

  dispatch_unary-IsTyped :
      (operation : CheckedUnaryOperation) → IsTypedResult (dispatch_unary ops operation value span)
  unfolding dispatch_unary
  dispatch_unary-IsTyped (positive kind) = convert-IsTyped kind
  dispatch_unary-IsTyped (negate_op integer_kind) = any_step (integer_of value span) _ λ v.
      first_step i32_half (ok_or (integer_overflow span) (negate_i32 v)) _
        (negate_i32-InRange v span) (λ r h. h)
  dispatch_unary-IsTyped (negate_op long_kind) = any_step (long_of value span) _ λ v.
      first_step i64_half (ok_or (integer_overflow span) (checked_neg i64_half v)) _
        (checked_neg-InRange i64_half v span) (λ r h. h)
  dispatch_unary-IsTyped (negate_op decimal_kind) =
      any_step (decimal_of ops value span) _ λ v.
        any_step (ok_or (decimal_overflow span) (ops.mul_checked v ops.negative_one)) _ (λ r. tt)
  dispatch_unary-IsTyped (bitwise_not integer_kind) =
      first_step i32_half (i32_of value span) _ (i32_of-InRange value span)
        (complement-in_range i32_half)
  dispatch_unary-IsTyped (bitwise_not long_kind) =
      first_step i64_half (long_of value span) _ (long_of-InRange value span typed)
        (complement-in_range i64_half)
  dispatch_unary-IsTyped (bitwise_not decimal_kind) = tt

  -- From an operand that fits its type, a unary operation returns a value that fits its type, or an
  -- error.
  pub apply_unary-IsTyped :
      (operation : CheckedUnaryOperation) → IsTypedResult (apply_unary ops operation value span)
  unfolding apply_unary
  apply_unary-IsTyped operation = elim (Bool-cases (is_null value)) [
    | inl e ↦ rw e tt
    | inr e ↦ rw e (dispatch_unary-IsTyped operation)
  ]
