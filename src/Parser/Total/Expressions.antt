-- ===== src/Parser/Total/Expressions.antt =====
-- Whole expressions of src/parser/expressions.rs: the parser ends, without a panic, and consumes.
use apex_exec.Prelude.{
  ℕ, zero, suc, ◌+◌, ◌≡◌, refl, inl, inr, true, false, some, [], ◌∷◌, length, arith, Option-cases,
}
use apex_exec.Lexer.Token
use apex_exec.Lexer.Token.{Token, TokenKind, is_eof, same_variant, same_variant-is_eof}
use apex_exec.Runtime.Numeric.Operators
use apex_exec.Runtime.Numeric.Operators.{BinaryOperator}
use apex_exec.Ast.Expression.{Expression, AssignmentOperator, span_of, target_span}
use apex_exec.Parser.{Parser, M}
use apex_exec.Parser.Types.Total.{merge-Reads}
use apex_exec.Parser.Primary.{Recursion, Queries}
use apex_exec.Parser.Operand.{parse_unary}
use apex_exec.Parser.Expressions.{
  equality_operators, shift_operators, term_operators, factor_operators, parse_binary_level,
  parse_factor, parse_term, parse_shift, parse_comparison, parse_equality, parse_bitwise_and,
  parse_bitwise_xor, parse_bitwise_or, parse_and, parse_or, parse_null_coalescing,
  parse_conditional, assignment_operator, assignment_target, parse_assignment, recursion,
  parse_expression,
}
use apex_exec.Parser.Reads.{
  OfSource, IsReady, remaining, Reads, returns, fails, then_with-Reads, current-Reads, check-Reads,
  advance-Reads, expect_simple-Reads,
}
use apex_exec.Parser.Total.Lists.{HasSource, Takes, IsRecursion}
use apex_exec.Parser.Total.Operand.{QueriesRead}
use apex_exec.Parser.Total.Levels.{
  parse_binary_level-Takes, comparison_from-Reads, coalescing_from-Reads,
}
use apex_exec.Parser.Total.Suffixes.{parse_unary-Reads}

assignment_operator-some :
    (kind : TokenKind) (operator : AssignmentOperator)
    → assignment_operator kind ≡ some operator
    → is_eof kind ≡ false
assignment_operator-some Token.eof operator h = cc
assignment_operator-some _ operator h = refl

module _ (source : ℕ) {Q : Type 0} (queries : Queries Q) (reads : QueriesRead source queries) where
  module _ (self : Recursion Q) (n : ℕ) (good : IsRecursion source n self) where
    unary : Takes source (n + 1) (parse_unary queries self)
    unary = parse_unary-Reads source queries reads self n good

    shift : Takes source (n + 1) (parse_shift queries self)
    unfolding parse_shift parse_term parse_factor
    shift =
        let level = parse_binary_level-Takes source {Q = Q} (n + 1) in
        level _ shift_operators
          (level _ term_operators (level _ factor_operators unary (refl, (refl, (refl, tt))))
            (refl, (refl, tt)))
          (refl, (refl, (refl, tt)))

    comparison : Takes source (n + 1) (parse_comparison queries self)
    unfolding parse_comparison
    comparison p ready l = then_with-Reads source (shift p ready l) (λ e q h lq o.
        comparison_from-Reads source (n + 1) (parse_shift queries self) shift
          (suc (length q.tokens)) e q (remaining source p) h (omega arith) (omega arith) lq o)

    -- A level with one operator.
    single :
        (next : M (Expression Q)) (kind : TokenKind) (operator : BinaryOperator)
        → Takes source (n + 1) next
        → is_eof kind ≡ false
        → Takes source (n + 1) (parse_binary_level next ((kind, operator) ∷ []))
    single next kind operator takes h =
        parse_binary_level-Takes source (n + 1) next ((kind, operator) ∷ []) takes (h, tt)

    or_level : Takes source (n + 1) (parse_or queries self)
    unfolding parse_or parse_and parse_bitwise_or parse_bitwise_xor parse_bitwise_and parse_equality
    or_level =
        single _ Token.or_or Operators.or_op
          (single _ Token.and_and Operators.and_op
            (single _ Token.pipe Operators.bitwise_or
              (single _ Token.caret Operators.bitwise_xor
                (single _ Token.ampersand Operators.bitwise_and
                  (parse_binary_level-Takes source (n + 1) _ equality_operators comparison
                    (refl, (refl, tt)))
                  refl)
                refl)
              refl)
            refl)
          refl

    coalescing : Takes source (n + 1) (parse_null_coalescing queries self)
    unfolding parse_null_coalescing
    coalescing p ready l = then_with-Reads source (or_level p ready l) (λ e q h lq o.
        coalescing_from-Reads source (n + 1) (parse_or queries self) or_level
          (suc (length q.tokens)) e q (remaining source p) h (omega arith) (omega arith) lq o)

    conditional : Takes source (n + 1) (parse_conditional queries self)
    unfolding parse_conditional span_of
    conditional p ready l = then_with-Reads source (coalescing p ready l) (λ condition q h lq o.
        check-Reads source q h Token.question _ refl
          (λ more. then_with-Reads source (advance-Reads source q h more) (λ question r k lr _.
            then_with-Reads source (good.expression_takes r k (omega arith)) (λ yes_part s m ls _.
              then_with-Reads source (expect_simple-Reads source s m Token.colon _ refl)
                (λ _ t u lt _.
                  then_with-Reads source (good.conditional_takes t u (omega arith))
                    (λ no_part v w lv on.
                      merge-Reads source v (span_of condition) (span_of no_part) _ o on
                        (λ span os. returns w (omega arith) os))))))
          (returns h lq o))

    -- A target that is made keeps the span of a part of its source.
    assignment_target-Reads :
        (e : Expression Q) (token : Token) (p : Parser)
        → IsReady source p
        → HasSource source e
        → Reads source
            (suc (remaining source p))
            (λ t. OfSource source (target_span t))
            (assignment_target e token p)
    unfolding span_of
    assignment_target-Reads (Expression.variable name) token p ready o =
        returns ready (omega arith) o
    assignment_target-Reads (Expression.index collection position span) token p ready o =
        returns ready (omega arith) o
    assignment_target-Reads (Expression.member_access receiver member false _ span) token p ready
          o =
        returns ready (omega arith) o
    assignment_target-Reads (Expression.member_access receiver member true _ span) token p ready o =
        fails ready
    assignment_target-Reads _ token p ready o = fails ready

    assignment : Takes source (n + 1) (parse_assignment queries self)
    unfolding parse_assignment span_of
    assignment p ready l = then_with-Reads source (conditional p ready l) (λ e q h lq o.
        current-Reads source q h _ (λ token at.
          elim (Option-cases (assignment_operator token.kind)) [
            | inl absent ↦ rw absent (returns h lq o)
            | inr (operator, found) ↦ rw found (
                then_with-Reads source
                  (advance-Reads source q h
                    (at.before_end (assignment_operator-some token.kind operator found)))
                  (λ sign r k lr _.
                    then_with-Reads source (good.expression_takes r k (omega arith))
                      (λ value s m ls ov.
                        then_with-Reads source (assignment_target-Reads e sign s m o)
                          (λ target t u lt ot.
                            merge-Reads source t (target_span target) (span_of value) _ ot ov
                              (λ span os. returns u (omega arith) os)))))
          ]))

  recursion-IsRecursion : (fuel : ℕ) → IsRecursion source fuel (recursion queries fuel)
  unfolding recursion
  recursion-IsRecursion zero = record {
    expression_takes = λ p ready l. absurd (omega arith);
    conditional_takes = λ p ready l. absurd (omega arith);
    unary_takes = λ p ready l. absurd (omega arith);
  }
  recursion-IsRecursion (suc fuel) =
      let good = recursion-IsRecursion fuel in
      record {
        expression_takes =
            λ p ready l. assignment (recursion queries fuel) fuel good p ready (omega arith);
        conditional_takes =
            λ p ready l. conditional (recursion queries fuel) fuel good p ready (omega arith);
        unary_takes = λ p ready l. unary (recursion queries fuel) fuel good p ready (omega arith);
      }

  pub parse_expression-Reads :
      (p : Parser)
      → IsReady source p
      → Reads source (remaining source p) (HasSource source) (parse_expression queries p)
  unfolding parse_expression
  parse_expression-Reads p ready =
      (recursion-IsRecursion (suc (length p.tokens))).expression_takes p ready (omega arith)
