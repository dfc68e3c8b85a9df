-- ===== src/Parser/Total/Levels.antt =====
-- The levels of src/parser/expressions.rs end, without a panic, and so does the recursion.
use apex_exec.Prelude.{
  ℕ, zero, suc, ◌<◌, ◌≡◌, refl, ◌∙◌, inl, inr, false, some, [], ◌∷◌, length, arith, Bool-cases,
  Option-cases, All,
}
use apex_exec.Lexer.Token
use apex_exec.Lexer.Token.{Token, TokenKind, is_eof, same_variant, same_variant-is_eof}
use apex_exec.Runtime.Numeric.Operators.{BinaryOperator}
use apex_exec.Ast.Expression.{Expression, span_of}
use apex_exec.Parser.{Parser, M}
use apex_exec.Parser.Types.Total.{merge-Reads}
use apex_exec.Parser.Expressions.{
  OperatorTable, find_operator, comparison_operators, binary_step, binary_from, parse_binary_level,
  instanceof_step, comparison_from, coalescing_from,
}
use apex_exec.Parser.Reads.{
  IsReady, remaining, Reads, returns, then_with-Reads, current-Reads, check-Reads, advance-Reads,
}
use apex_exec.Parser.Total.{parse_type_name-Reads}
use apex_exec.Parser.Total.Lists.{HasSource, Takes}
use apex_exec.Parser.Total.Operand.{HasMore}

abbrev pub NoEnd : OperatorTable → Type 0
NoEnd = All (λ entry. is_eof entry.0 ≡ false)

find_operator-some :
    (operators : OperatorTable) (kind : TokenKind) (operator : BinaryOperator)
    → NoEnd operators
    → find_operator operators kind ≡ some operator
    → is_eof kind ≡ false
unfolding find_operator
find_operator-some [] kind operator h e = cc
find_operator-some ((k, o) ∷ operators) kind operator (h, hs) e =
    elim (Bool-cases (same_variant kind k)) [
      | inl same ↦ same_variant-is_eof kind k same ∙ h
      | inr other ↦ find_operator-some operators kind operator hs (rw other at e)
    ]

module _ (source : ℕ) {Q : Type 0} (n : ℕ) where
  -- A loop that goes on from an expression.
  abbrev Extends : ℕ → (Expression Q → M (Expression Q)) → Type 0
  Extends most loop =
      (e : Expression Q) (p : Parser) (bound : ℕ)
      → IsReady source p
      → remaining source p < most
      → remaining source p < n
      → remaining source p < bound
      → HasSource source e
      → Reads source bound (HasSource source) (loop e p)

  binary_step-Reads :
      (next : M (Expression Q)) (operator : BinaryOperator) (left : Expression Q) (p : Parser)
      → Takes source n next
      → IsReady source p
      → remaining source p < n
      → HasMore p
      → HasSource source left
      → Reads source (remaining source p) (HasSource source) (binary_step next operator left p)
  unfolding span_of
  binary_step-Reads next operator left p takes ready l more o =
      then_with-Reads source (advance-Reads source p ready more) (λ token q h lq _.
        then_with-Reads source (takes q h (omega arith)) (λ right r k lr or.
          merge-Reads source r (span_of left) (span_of right) _ o or
            (λ span os. returns k (omega arith) os)))

  binary_from-Reads :
      (next : M (Expression Q)) (operators : OperatorTable)
      → Takes source n next
      → NoEnd operators
      → (fuel : ℕ) → Extends fuel (binary_from next operators fuel)
  unfolding binary_from
  binary_from-Reads next operators takes no_end zero e p bound ready f l b o = absurd (omega arith)
  binary_from-Reads next operators takes no_end (suc fuel) e p bound ready f l b o =
      current-Reads source p ready _ (λ token at.
        elim (Option-cases (find_operator operators token.kind)) [
          | inl absent ↦ rw absent (returns ready b o)
          | inr (operator, found) ↦ rw found (
              then_with-Reads source
                (binary_step-Reads next operator e p takes ready l
                  (at.before_end (find_operator-some operators token.kind operator no_end found)) o)
                (λ longer q h lq os.
                  binary_from-Reads next operators takes no_end fuel longer q bound h (omega arith)
                    (omega arith) (omega arith) os))
        ])

  pub parse_binary_level-Takes :
      (next : M (Expression Q)) (operators : OperatorTable)
      → Takes source n next
      → NoEnd operators
      → Takes source n (parse_binary_level next operators)
  unfolding parse_binary_level
  parse_binary_level-Takes next operators takes no_end p ready l =
      then_with-Reads source (takes p ready l) (λ e q h lq o.
        binary_from-Reads next operators takes no_end (suc (length q.tokens)) e q
          (remaining source p) h (omega arith) (omega arith) lq o)

  instanceof_step-Reads :
      (e : Expression Q) (p : Parser)
      → IsReady source p
      → HasMore p
      → HasSource source e
      → Reads source (remaining source p) (HasSource source) (instanceof_step e p)
  unfolding span_of
  instanceof_step-Reads e p ready more o =
      then_with-Reads source (advance-Reads source p ready more) (λ operator q h lq _.
        then_with-Reads source (parse_type_name-Reads source q h) (λ target r k lr or.
          merge-Reads source r (span_of e) target.1 _ o or (λ span os. returns k (omega arith) os)))

  pub comparison_from-Reads :
      (next : M (Expression Q))
      → Takes source n next
      → (fuel : ℕ) → Extends fuel (comparison_from next fuel)
  unfolding comparison_from
  comparison_from-Reads next takes zero e p bound ready f l b o = absurd (omega arith)
  comparison_from-Reads next takes (suc fuel) e p bound ready f l b o =
      check-Reads source p ready Token.instanceof_keyword _ refl
        (λ more.
          then_with-Reads source (instanceof_step-Reads e p ready more o) (λ longer q h lq os.
            comparison_from-Reads next takes fuel longer q bound h (omega arith) (omega arith)
              (omega arith) os))
        (current-Reads source p ready _ (λ token at.
          elim (Option-cases (find_operator comparison_operators token.kind)) [
            | inl absent ↦ rw absent (returns ready b o)
            | inr (operator, found) ↦ rw found (
                then_with-Reads source
                  (binary_step-Reads next operator e p takes ready l
                    (at.before_end (
                      find_operator-some comparison_operators token.kind operator
                        (refl, (refl, (refl, (refl, tt)))) found))
                    o)
                  (λ longer q h lq os.
                    comparison_from-Reads next takes fuel longer q bound h (omega arith)
                      (omega arith) (omega arith) os))
          ]))

  pub coalescing_from-Reads :
      (next : M (Expression Q))
      → Takes source n next
      → (fuel : ℕ) → Extends fuel (coalescing_from next fuel)
  unfolding coalescing_from span_of
  coalescing_from-Reads next takes zero e p bound ready f l b o = absurd (omega arith)
  coalescing_from-Reads next takes (suc fuel) e p bound ready f l b o =
      check-Reads source p ready Token.null_coalesce _ refl
        (λ more. then_with-Reads source (advance-Reads source p ready more) (λ operator q h lq _.
          then_with-Reads source (takes q h (omega arith)) (λ right r k lr or.
            merge-Reads source r (span_of e) (span_of right) _ o or (λ span os.
              coalescing_from-Reads next takes fuel
                (Expression.null_coalesce e right operator.span span) r bound k (omega arith)
                (omega arith) (omega arith) os))))
        (returns ready b o)
