-- ===== src/Parser/Total/Suffixes.antt =====
-- The postfix and unary operators of src/parser/expressions.rs end, without a panic.
use apex_exec.Prelude.{
  ℕ, zero, suc, ◌+◌, ◌<◌, ◌≡◌, refl, ◌⊎◌, inl, inr, Bool, true, false, some, length, arith,
  Option-cases,
}
use apex_exec.Lexer.Token
use apex_exec.Lexer.Token.{Token, TokenKind, is_eof, same_variant}
use apex_exec.Ast.Types.{identifier}
use apex_exec.Ast.Expression
use apex_exec.Ast.Expression.{Expression, UnaryOperator, PostfixOperator, span_of}
use apex_exec.Parser.{Parser, M}
use apex_exec.Parser.Types.Total.{merge-Reads}
use apex_exec.Parser.Primary.{Recursion, Queries}
use apex_exec.Parser.Operand.{
  Suffix, bracket, point, step_up, step_down, no_more, suffix_of, unary_operator, member_name,
  member_of, indexed, stepped, continued, postfix_from, parse_postfix, parse_unary,
}
use apex_exec.Parser.Reads.{
  OfSource, IsReady, remaining, Reads, returns, fails, then_with-Reads, current-Reads, check-Reads,
  advance-Reads, expect_simple-Reads, expect_identifier-Reads,
}
use apex_exec.Parser.Total.Lists.{HasSource, IsRecursion, parse_argument_list-Reads}
use apex_exec.Parser.Total.Operand.{HasMore, QueriesRead, parse_primary-Reads}

suffix_of-cases : (kind : TokenKind) → (suffix_of kind ≡ no_more) ⊎ (is_eof kind ≡ false)
suffix_of-cases Token.eof = inl refl
suffix_of-cases _ = inr refl

unary_operator-some :
    (kind : TokenKind) (operator : UnaryOperator)
    → unary_operator kind ≡ some operator
    → is_eof kind ≡ false
unary_operator-some Token.eof operator h = cc
unary_operator-some _ operator h = refl

module _ (source : ℕ) {Q : Type 0} (queries : Queries Q) (reads : QueriesRead source queries)
    (self : Recursion Q) (n : ℕ) (good : IsRecursion source n self) where
  member_name-Reads :
      (p : Parser)
      → IsReady source p
      → Reads source (remaining source p) (λ i. OfSource source i.span) (member_name queries self p)
  unfolding identifier
  member_name-Reads p ready =
      check-Reads source p ready Token.new_keyword _ refl
        (λ more.
          then_with-Reads source (advance-Reads source p ready more) (λ _ q h lq o. returns h lq o))
        (expect_identifier-Reads source p ready _)

  member_of-Reads :
      (receiver : Expression Q) (safe : Bool) (navigation : Token) (p : Parser)
      → IsReady source p
      → remaining source p < n + 1
      → HasSource source receiver
      → Reads source
          (remaining source p)
          (HasSource source)
          (member_of queries self receiver safe navigation p)
  unfolding span_of
  member_of-Reads receiver safe navigation p ready l o =
      then_with-Reads source (member_name-Reads p ready) (λ member q h lq om.
        check-Reads source q h Token.left_paren _ refl
          (λ _.
            then_with-Reads source (parse_argument_list-Reads source self n good q h (omega arith))
              (λ args r k lr oa.
                merge-Reads source r (span_of receiver) args.1 _ o oa
                  (λ span os. returns k (omega arith) os)))
          (merge-Reads source q (span_of receiver) member.span _ o om (λ span os. returns h lq os)))

  indexed-Reads :
      (collection : Expression Q) (p : Parser)
      → IsReady source p
      → remaining source p < n + 1
      → HasMore p
      → HasSource source collection
      → Reads source (remaining source p) (HasSource source) (indexed queries self collection p)
  unfolding span_of
  indexed-Reads collection p ready l more o =
      then_with-Reads source (advance-Reads source p ready more) (λ _ q h lq _.
        then_with-Reads source (good.expression_takes q h (omega arith)) (λ position r k lr _.
          then_with-Reads source (expect_simple-Reads source r k Token.right_bracket _ refl)
            (λ stop s m ls os.
              merge-Reads source s (span_of collection) stop.span _ o os
                (λ span ou. returns m (omega arith) ou))))

  stepped-Reads :
      (operand : Expression Q) (operator : PostfixOperator) (p : Parser)
      → IsReady source p
      → HasMore p
      → HasSource source operand
      → Reads source
          (remaining source p)
          (HasSource source)
          (stepped queries self operand operator p)
  unfolding span_of
  stepped-Reads operand operator p ready more o =
      then_with-Reads source (advance-Reads source p ready more) (λ token q h lq os.
        merge-Reads source q (span_of operand) token.span _ o os (λ span ou. returns h lq ou))

  -- The rest of a chain, where fewer tokens than a number are left.
  abbrev Follows : ℕ → ℕ → (Bool → Expression Q → M (Expression Q)) → Type 0
  Follows most bound rest =
      (chain : Bool) (e : Expression Q) (p : Parser)
      → IsReady source p
      → remaining source p < most
      → remaining source p < n + 1
      → remaining source p < bound
      → HasSource source e
      → Reads source bound (HasSource source) (rest chain e p)

  continued-Reads :
      (rest : Bool → Expression Q → M (Expression Q)) (chain : Bool) (e : Expression Q)
      (token : Token) (suffix : Suffix) (p : Parser) (bound : ℕ)
      → IsReady source p
      → remaining source p < n + 1
      → remaining source p < bound
      → HasSource source e
      → (suffix ≡ no_more) ⊎ HasMore p
      → Follows (remaining source p) bound rest
      → Reads source bound (HasSource source) (continued queries self rest chain e token suffix p)
  continued-Reads rest chain e token no_more p bound ready l b o m follows = returns ready b o
  continued-Reads rest chain e token suffix p bound ready l b o (inl h) follows = cc
  continued-Reads rest true e token bracket p bound ready l b o (inr more) follows = fails ready
  continued-Reads rest false e token bracket p bound ready l b o (inr more) follows =
      then_with-Reads source (indexed-Reads e p ready l more o)
        (λ longer q h lq os. follows false longer q h lq (omega arith) (omega arith) os)
  continued-Reads rest chain e token point p bound ready l b o (inr more) follows =
      then_with-Reads source (advance-Reads source p ready more) (λ navigation q h lq _.
        then_with-Reads source (member_of-Reads e _ navigation q h (omega arith) o)
          (λ longer r k lr os. follows _ longer r k (omega arith) (omega arith) (omega arith) os))
  continued-Reads rest chain e token step_up p bound ready l b o (inr more) follows =
      then_with-Reads source (stepped-Reads e Expression.increment p ready more o)
        (λ longer q h lq os. follows chain longer q h lq (omega arith) (omega arith) os)
  continued-Reads rest chain e token step_down p bound ready l b o (inr more) follows =
      then_with-Reads source (stepped-Reads e Expression.decrement p ready more o)
        (λ longer q h lq os. follows chain longer q h lq (omega arith) (omega arith) os)

  postfix_from-Reads : (fuel : ℕ) (bound : ℕ) → Follows fuel bound (postfix_from queries self fuel)
  unfolding postfix_from
  postfix_from-Reads zero bound chain e p ready f l b o = absurd (omega arith)
  postfix_from-Reads (suc fuel) bound chain e p ready f l b o =
      current-Reads source p ready _ (λ token at.
        continued-Reads (postfix_from queries self fuel) chain e token (suffix_of token.kind) p
          bound ready l b o
          (elim (suffix_of-cases token.kind) [
            | inl over ↦ inl over
            | inr inside ↦ inr (at.before_end inside)
          ])
          (λ chain' e' q h lq lq' bq o'.
            postfix_from-Reads fuel bound chain' e' q h (omega arith) lq' bq o'))

  parse_postfix-Reads :
      (p : Parser)
      → IsReady source p
      → remaining source p < n + 1
      → Reads source (remaining source p) (HasSource source) (parse_postfix queries self p)
  unfolding parse_postfix
  parse_postfix-Reads p ready l =
      then_with-Reads source (parse_primary-Reads source queries reads self n good p ready l)
        (λ e q h lq o.
          postfix_from-Reads (suc (length q.tokens)) (remaining source p) false e q h (omega arith)
            (omega arith) lq o)

  pub parse_unary-Reads :
      (p : Parser)
      → IsReady source p
      → remaining source p < n + 1
      → Reads source (remaining source p) (HasSource source) (parse_unary queries self p)
  unfolding parse_unary span_of
  parse_unary-Reads p ready l = current-Reads source p ready _ (λ token at.
      elim (Option-cases (unary_operator token.kind)) [
        | inl absent ↦ rw absent (parse_postfix-Reads p ready l)
        | inr (operator, found) ↦ rw found (
            then_with-Reads source
              (advance-Reads source p ready
                (at.before_end (unary_operator-some token.kind operator found)))
              (λ sign q h lq o.
                then_with-Reads source (good.unary_takes q h (omega arith)) (λ operand r k lr oo.
                  merge-Reads source r sign.span (span_of operand) _ o oo
                    (λ span os. returns k (omega arith) os))))
      ])
