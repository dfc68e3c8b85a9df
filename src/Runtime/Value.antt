-- ===== src/Runtime/Value.antt =====
-- `Value` of src/runtime.rs, and the errors that every operation shares. The types of the decimal
-- and of the calendar libraries are parameters.
use apex_exec.Prelude.{ℕ, Bool, Option, none, some}
use apex_exec.Prelude.Int.{ℤ}
use apex_exec.Prelude.Text.{Text, codes}
use apex_exec.Span.{Span}
use apex_exec.Diagnostic
use apex_exec.Diagnostic.{Diagnostic}

pub data Value (D C : Type 0) : Type 0 where
  string : Text → Value D C
  boolean : Bool → Value D C
  integer : ℤ → Value D C
  long : ℤ → Value D C
  decimal : D → Value D C
  date datetime time : C → Value D C
  id : Text → Value D C
  platform collection object : ℕ → Value D C
  enum : ℕ → ℕ → Value D C
  type_literal : Text → Value D C
  sobject aggregate_result : ℕ → Value D C
  exception : Diagnostic → Value D C
  null : Option Text → Value D C
  void : Value D C

pub data Result {ℓ} (A : Type ℓ) : Type ℓ where
  ok : A → Result A
  err : Diagnostic → Result A

infixl 5 ◌>>=◌
abbrev pub ◌>>=◌ {ℓ κ} : {A : Type ℓ} {B : Type κ} → Result A → (A → Result B) → Result B
ok a >>= f = f a
err d >>= f = err d

-- `Option::ok_or_else`
abbrev pub ok_or {ℓ} : {A : Type ℓ} → Diagnostic → Option A → Result A
ok_or d none = err d
ok_or d (some a) = ok a

unfoldable pub invalid_runtime_operands : Span → Diagnostic
invalid_runtime_operands span =
    Diagnostic.runtime_exception (codes "TypeException")
      (codes "invalid operands escaped semantic validation") span

unfoldable pub integer_overflow : Span → Diagnostic
integer_overflow span =
    Diagnostic.runtime_exception (codes "MathException") (codes "integer overflow") span
