-- ===== src/Parser/Total.antt =====
-- The methods of src/parser/types.rs end, without a panic, on tokens that are in order.
pub mod Lists
pub mod Clauses
pub mod Values
pub mod Conditions
pub mod Bodies
pub mod New
pub mod Operand
pub mod Suffixes
pub mod Levels
pub mod Expressions
pub mod Source
use apex_exec.Prelude.{
  ℕ, zero, suc, ◌+◌, ◌-◌, ◌≤◌, ◌<◌, ◌≡◌, refl, sym, ap, ◌∙◌, inl, inr, Bool, true, false, ◌&&◌,
  ◌||◌, Option, none, some, List, [], ◌∷◌, ◌++◌, length, ◌==◌, if◌then◌else◌, arith, Bool-cases,
}
use apex_exec.Prelude.Text.{Text, codes}
use apex_exec.Span.{Span}
use apex_exec.Diagnostic.{Diagnostic}
use apex_exec.Lexer.Token
use apex_exec.Lexer.Token.{Token, TokenKind, is_eof, same_variant}
use apex_exec.Ast.Types.{TypeName, TypeRef, ref_span}
use apex_exec.Parser.{
  Parser, Parsed, done, M, then_with, pure, current, peek, advance, check, is_keyword,
  check_keyword, expect_simple,
}
use apex_exec.Parser.Types.{parse_type_ref, is_identifier}
use apex_exec.Parser.Types.Total.{parse_type_ref-Reads}
use apex_exec.Parser.TypeNames.{Checked, lift, type_name_from_ref, parse_type_name}
use apex_exec.Parser.Lookahead.{
  look_at, look_or, is_cast_start, cast_operand, is_operand, is_numeric, is_query_expression_start,
  is_unary_expression_start,
}
use apex_exec.Parser.Reads.{
  OfSource, IsReady, IsAt, remaining, Reads, returns, fails, Reads-le, then_with-Reads, peek-Reads,
  current-IsAt, current-Reads, check-Reads, advance-any, advance-Reads, expect_simple-Reads,
}

-- A value found where the parser stands.
pub data Peeks {A : Type 0} (p : Parser) : Parsed A → Type 0 where
  peeks : (a : A) → Peeks p (done a p)

module _ (source : ℕ) where
  pub Peeks-Reads :
      {B : Type 0} {p : Parser} {r : Parsed Bool} {Q : B → Type 0} {m : ℕ} (f : Bool → M B)
      → Peeks p r
      → Reads source m Q (f true p)
      → Reads source m Q (f false p)
      → Reads source m Q (then_with r f)
  Peeks-Reads f (peeks true) found missing = found
  Peeks-Reads f (peeks false) found missing = missing

  pub look_or-Peeks :
      {A : Type 0} {n : ℕ} {P : A → Type 0} {r : Parsed A} (otherwise : A) (p : Parser)
      → Reads source n P r
      → Peeks p (look_at r (λ _. pure otherwise) p)
  look_or-Peeks otherwise p (returns {a = a} h l v) = peeks a
  look_or-Peeks otherwise p (fails h) = peeks otherwise

  lift_type :
      (checked : Checked TypeName) (span : Span) (p : Parser) (n : ℕ)
      → IsReady source p
      → remaining source p < n
      → OfSource source span
      → Reads source n
          (λ (r : TypeName × Span). OfSource source r.1)
          (then_with (lift checked p) (λ ty. pure (ty, span)))
  lift_type (inl ty) span p n ready l o = returns ready l o
  lift_type (inr d) span p n ready l o = fails ready

  pub parse_type_name-Reads :
      (p : Parser)
      → IsReady source p
      → Reads source (remaining source p) (λ r. OfSource source r.1) (parse_type_name p)
  unfolding parse_type_name
  parse_type_name-Reads p ready =
      then_with-Reads source (parse_type_ref-Reads source p ready) (λ syntax q h l o.
        lift_type (type_name_from_ref syntax) (ref_span syntax) q (remaining source p) h l o)

  is_query_expression_start-Reads :
      (p : Parser)
      → IsReady source p
      → Reads source (suc (remaining source p)) (λ _. Unit {0}) (is_query_expression_start p)
  unfolding is_query_expression_start
  is_query_expression_start-Reads p ready =
      peek-Reads source p ready 1 _ (λ next _. returns ready (omega arith) tt)

  is_operand-Reads :
      (numeric : Bool) (kind : TokenKind) (p : Parser)
      → IsReady source p
      → Reads source (suc (remaining source p)) (λ _. Unit {0}) (is_operand numeric kind p)
  is_operand-Reads numeric Token.plus_plus p ready =
      peek-Reads source p ready 1 _ (λ next _. returns ready (omega arith) tt)
  is_operand-Reads numeric Token.minus_minus p ready =
      peek-Reads source p ready 1 _ (λ next _. returns ready (omega arith) tt)
  is_operand-Reads numeric Token.left_bracket p ready = is_query_expression_start-Reads p ready
  is_operand-Reads numeric _ p ready = returns ready (omega arith) tt

  cast_operand-Reads :
      (candidate : TypeName) (p : Parser)
      → IsReady source p
      → Reads source (suc (remaining source p)) (λ _. Unit {0}) (cast_operand candidate p)
  cast_operand-Reads candidate p ready = current-Reads source p ready _ (λ token at.
      elim (Bool-cases (same_variant token.kind Token.right_paren)) [
        | inr other ↦ rw other (returns ready (omega arith) tt)
        | inl closed ↦ rw closed (
            then_with-Reads source (advance-any source p ready) (λ _ q h l _.
              current-Reads source q h _ (λ operand _.
                Reads-le source (omega arith)
                  (is_operand-Reads (is_numeric candidate) operand.kind q h))))
      ])

  pub check-Peeks : (kind : TokenKind) (p : Parser) → IsReady source p → Peeks p (check kind p)
  unfolding check
  check-Peeks kind p ready =
      let (token, at, c) = current-IsAt source p ready in
      rw c (peeks (same_variant token.kind kind))

  pub is_cast_start-Peeks : (p : Parser) → IsReady source p → Peeks p (is_cast_start p)
  unfolding is_cast_start check
  is_cast_start-Peeks p ready =
      let (token, at, c) = current-IsAt source p ready in
      rw c (elim (Bool-cases (same_variant token.kind Token.left_paren)) [
        | inr other ↦ rw other (peeks false)
        | inl paren ↦ rw paren (
            look_or-Peeks {n = suc (remaining source p)} {P = λ _. Unit {0}} false p (
              then_with-Reads source (advance-any source p ready) (λ _ q h l _.
                then_with-Reads source (parse_type_name-Reads q h)
                  (λ r s k m _. Reads-le source (omega arith) (cast_operand-Reads r.0 s k)))))
      ])
