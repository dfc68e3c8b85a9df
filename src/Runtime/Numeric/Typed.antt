-- ===== src/Runtime/Numeric/Typed.antt =====
-- Values of type Integer carry an i32 and values of type Long an i64, and the operations keep that.
use apex_exec.Prelude.{ℕ, ◌<◌, ◌≡◌, refl, true, Option, none, some, inl, inr, arith, Bool-cases}
use apex_exec.Prelude.Int.{ℤ, pos, negsuc}
use apex_exec.Span.{Span}
use apex_exec.Diagnostic.{Diagnostic}
use apex_exec.Runtime.Value.{Value, integer, long, Result, ok, err, ◌>>=◌, ok_or, integer_overflow}
use apex_exec.Runtime.Numeric.{long_of, i32_of}
use apex_exec.Runtime.Numeric.Operators.{
  BinaryOperator, add, subtract, multiply, divide, remainder, bitwise_and, bitwise_or, bitwise_xor,
  shift_left_op, shift_right_op, unsigned_shift_right_op, divisor_check, checked_operation,
  operation_result, integer_arithmetic, bit_operation, bits_result, shift_operation, negate_i32,
}
use apex_exec.Runtime.Numeric.Word.{i32_half, i64_half, in_range, is_zero, checked_neg}
use apex_exec.Runtime.Numeric.Range.{
  checked-in_range, checked_div-in_range, checked_rem-in_range, shift_left-in_range,
  shift_right-in_range, unsigned_shift_right-in_range, bitwise-in_range,
}

abbrev pub IsTyped : {D C : Type 0} → Value D C → Type 0
IsTyped (integer v) = in_range i32_half v ≡ true
IsTyped (long v) = in_range i64_half v ≡ true
IsTyped _ = Unit

-- An error has no value to be typed.
abbrev pub IsTypedResult : {D C : Type 0} → Result (Value D C) → Type 0
IsTypedResult (ok v) = IsTyped v
IsTypedResult (err d) = Unit

abbrev pub InRange : ℕ → Result ℤ → Type 0
InRange half (ok v) = in_range half v ≡ true
InRange half (err d) = Unit

i32-in-i64 : (v : ℤ) → in_range i32_half v ≡ true → in_range i64_half v ≡ true
i32-in-i64 (pos n) h = ground arith
i32-in-i64 (negsuc n) h = ground arith

module _ {D C : Type 0} where
  -- The first steps of an operation: what they return is in range, so the rest may use it.
  pub first_step :
      (half : ℕ) (m : Result ℤ) (k : ℤ → Result (Value D C))
      → InRange half m
      → ((v : ℤ) → in_range half v ≡ true → IsTypedResult (k v))
      → IsTypedResult (m >>= k)
  first_step half (ok v) k h next = next v h
  first_step half (err d) k h next = tt

  pub i32_of-InRange : (v : Value D C) (span : Span) → InRange i32_half (i32_of v span)
  unfolding i32_of
  i32_of-InRange (integer v) span = elim (Bool-cases (in_range i32_half v)) [
    | inl e ↦ rw e e
    | inr e ↦ rw e tt
  ]
  i32_of-InRange _ span = tt

  pub long_of-InRange :
      (v : Value D C) (span : Span) → IsTyped v → InRange i64_half (long_of v span)
  unfolding long_of
  long_of-InRange (integer v) span h = i32-in-i64 v h
  long_of-InRange (long v) span h = h
  long_of-InRange _ span h = tt

-- The optional result of a checked operation.
ok_or-InRange :
    (half : ℕ) (d : Diagnostic) (o : Option ℤ)
    → ((r : ℤ) → o ≡ some r → in_range half r ≡ true)
    → InRange half (ok_or d o)
ok_or-InRange half d none h = tt
ok_or-InRange half d (some r) h = h r refl

after_check :
    (half : ℕ) (m : Result (Unit {0})) (k : Result ℤ) → InRange half k → InRange half (m >>= λ _. k)
after_check half (ok u) k h = h
after_check half (err d) k h = tt

module _ (half : ℕ) (a b : ℤ) (span : Span) (positive : 0 < half)
    (a_fits : in_range half a ≡ true) where
  operation-InRange :
      (operator : BinaryOperator)
      → InRange half (operation_result (checked_operation operator) half a b span)
  unfolding checked_operation
  operation-InRange add = ok_or-InRange half _ _ (λ r e. checked-in_range half _ e)
  operation-InRange subtract = ok_or-InRange half _ _ (λ r e. checked-in_range half _ e)
  operation-InRange multiply = ok_or-InRange half _ _ (λ r e. checked-in_range half _ e)
  operation-InRange divide =
      ok_or-InRange half _ _ (λ r e. checked_div-in_range half a b positive a_fits e)
  operation-InRange remainder =
      ok_or-InRange half _ _ (λ r e. checked_rem-in_range half a b positive a_fits e)
  operation-InRange _ = tt

  pub arithmetic-InRange :
      (operator : BinaryOperator) → InRange half (integer_arithmetic operator half a b span)
  unfolding integer_arithmetic
  arithmetic-InRange operator =
      after_check half (divisor_check operator (is_zero b) span)
        (operation_result (checked_operation operator) half a b span) (operation-InRange operator)

  pub bits-InRange :
      (operator : BinaryOperator)
      → InRange half (bits_result (bit_operation operator) half a b span)
  unfolding bit_operation
  bits-InRange bitwise_and = bitwise-in_range _ half a b positive
  bits-InRange bitwise_or = bitwise-in_range _ half a b positive
  bits-InRange bitwise_xor = bitwise-in_range _ half a b positive
  bits-InRange _ = tt

  pub shift-InRange :
      (operator : BinaryOperator) (d : ℕ) → InRange half (shift_operation operator half a d span)
  unfolding shift_operation
  shift-InRange shift_left_op d = shift_left-in_range half a d positive
  shift-InRange shift_right_op d = shift_right-in_range half a d a_fits
  shift-InRange unsigned_shift_right_op d = unsigned_shift_right-in_range half a d positive a_fits
  shift-InRange _ d = tt

pub checked_neg-InRange :
    (half : ℕ) (v : ℤ) (span : Span)
    → InRange half (ok_or (integer_overflow span) (checked_neg half v))
unfolding checked_neg
checked_neg-InRange half v span = ok_or-InRange half _ _ (λ r e. checked-in_range half _ e)

pub negate_i32-InRange :
    (v : ℤ) (span : Span) → InRange i32_half (ok_or (integer_overflow span) (negate_i32 v))
negate_i32-InRange v span = elim (Bool-cases (in_range i32_half v)) [
  | inl e ↦ rw e (checked_neg-InRange i32_half v span)
  | inr e ↦ rw e tt
]
