-- ===== src/Parser/Total/Operand.antt =====
-- The operands of src/parser/expressions.rs end, without a panic.
use apex_exec.Prelude.{ℕ, suc, ◌+◌, ◌<◌, ◌≡◌, refl, inl, inr, false, length, arith, Bool-cases}
use apex_exec.Prelude.Text.{Text, codes}
use apex_exec.Lexer.Token
use apex_exec.Lexer.Token.{Token, TokenKind, is_eof, same_variant}
use apex_exec.Ast.Types.{Identifier, identifier}
use apex_exec.Ast.Expression.{Expression, span_of}
use apex_exec.Parser.{Parser, M, check_keyword, is_keyword}
use apex_exec.Parser.Types.Total.{merge-Reads}
use apex_exec.Parser.Primary.{Recursion, Queries}
use apex_exec.Parser.Operand.{
  query_from, parse_query_expression, is_type_literal, type_literal, call_or_variable,
  name_expression, cast_or_group, literal, primary_of, parse_primary,
}
use apex_exec.Parser.Reads.{
  OfSource, IsReady, remaining, Reads, returns, fails, Reads-le, then_with-Reads, peek-Reads,
  current-Reads, current-IsAt, check-Reads, advance-Reads, advance-any, expect_simple-Reads,
}
use apex_exec.Parser.Total.{
  Peeks, Peeks-Reads, look_or-Peeks, parse_type_name-Reads, is_cast_start-Peeks,
}
use apex_exec.Parser.Total.Lists.{HasSource, Takes, IsRecursion, parse_argument_list-Reads}
use apex_exec.Parser.Total.New.{fail_here-Reads, parse_new_expression-Reads}

-- The cursor may pass the token where it is.
abbrev pub HasMore : Parser → Type 0
HasMore p = p.cursor + 1 < length p.tokens

-- What the parsers of query bodies promise: they end, without a panic, if the expressions do.
pub record QueriesRead {Q : Type 0} (source : ℕ) (queries : Queries Q) : Type 0 where
  pub soql_reads :
      (n : ℕ) (expression : M (Expression Q))
      → Takes source n expression
      → (p : Parser) → IsReady source p
      → remaining source p < n
      → Reads source
          (suc (remaining source p))
          (λ _. Unit {0})
          (queries.parse_soql_body expression p)
  pub sosl_reads :
      (n : ℕ) (expression : M (Expression Q))
      → Takes source n expression
      → (p : Parser) → IsReady source p
      → remaining source p < n
      → Reads source
          (suc (remaining source p))
          (λ _. Unit {0})
          (queries.parse_sosl_body expression p)

module _ (source : ℕ) {Q : Type 0} (queries : Queries Q) (reads : QueriesRead source queries)
    (self : Recursion Q) (n : ℕ) (good : IsRecursion source n self) where
  abbrev pub Below : Parser → Type 0
  Below p = remaining source p < n + 1

  query_from-Reads :
      (start : Token) (body : M Q) (message : Text) (p : Parser)
      → OfSource source start.span
      → Reads source (suc (remaining source p)) (λ _. Unit {0}) (body p)
      → Reads source
          (suc (remaining source p))
          (HasSource source)
          (query_from queries self start body message p)
  unfolding span_of
  query_from-Reads start body message p o h = then_with-Reads source h (λ query q k lq _.
      then_with-Reads source (expect_simple-Reads source q k Token.right_bracket message refl)
        (λ stop r m lr os.
          merge-Reads source r start.span stop.span _ o os (λ span ou. returns m (omega arith) ou)))

  parse_query_expression-Reads :
      (p : Parser)
      → IsReady source p
      → Below p
      → Reads source (remaining source p) (HasSource source) (parse_query_expression queries self p)
  unfolding parse_query_expression check_keyword
  parse_query_expression-Reads p ready l =
      then_with-Reads source (expect_simple-Reads source p ready Token.left_bracket _ refl)
        (λ start q h lq o.
          let (token, at, c) = current-IsAt source q h in
          rw c (elim (Bool-cases (is_keyword (codes "select") token.kind)) [
            | inl select ↦ rw select (
                Reads-le source (omega arith) (
                  query_from-Reads start (queries.parse_soql_body self.parse_expression)
                    (codes "expected `]` after SOQL query") q o
                    (reads.soql_reads n self.parse_expression good.expression_takes q h
                      (omega arith))))
            | inr other ↦
                rw (other, c)
                  (elim (Bool-cases (is_keyword (codes "find") token.kind)) [
                    | inl find ↦ rw find (
                        Reads-le source (omega arith) (
                          query_from-Reads start (queries.parse_sosl_body self.parse_expression)
                            (codes "expected `]` after SOSL query") q o
                            (reads.sosl_reads n self.parse_expression good.expression_takes q h
                              (omega arith))))
                    | inr neither ↦ rw neither (fail_here-Reads source self n good _ q h)
                  ])
          ]))

  is_type_literal-Peeks : (p : Parser) → IsReady source p → Peeks p (is_type_literal queries self p)
  unfolding is_type_literal
  is_type_literal-Peeks p ready =
      look_or-Peeks source {n = remaining source p} {P = λ _. Unit {0}} false p (
        then_with-Reads source (parse_type_name-Reads source p ready) (λ _ q h lq _.
          check-Reads source q h Token.dot _ refl
            (λ _. peek-Reads source q h 1 _ (λ _ _. returns h lq tt))
            (peek-Reads source q h 1 _ (λ _ _. returns h lq tt))))

  type_literal-Reads :
      (p : Parser)
      → IsReady source p
      → Reads source (remaining source p) (HasSource source) (type_literal queries self p)
  unfolding span_of
  type_literal-Reads p ready =
      then_with-Reads source (parse_type_name-Reads source p ready) (λ ty q h lq o.
        then_with-Reads source (advance-any source q h) (λ _ r k lr _.
          then_with-Reads source (advance-any source r k) (λ stop s m ls os.
            merge-Reads source s ty.1 stop.span _ o os (λ span ou. returns m (omega arith) ou))))

  call_or_variable-Reads :
      (name : Identifier) (p : Parser)
      → IsReady source p
      → Below p
      → OfSource source name.span
      → Reads source
          (suc (remaining source p))
          (HasSource source)
          (call_or_variable queries self name p)
  unfolding span_of
  call_or_variable-Reads name p ready l o =
      check-Reads source p ready Token.left_paren _ refl
        (λ _.
          then_with-Reads source (parse_argument_list-Reads source self n good p ready l)
            (λ args q h lq oq.
              merge-Reads source q name.span args.1 _ o oq (λ span os. returns h (omega arith) os)))
        (returns ready (omega arith) o)

  name_expression-Reads :
      (spelling : Text) (token : Token) (p : Parser)
      → IsReady source p
      → Below p
      → HasMore p
      → OfSource source token.span
      → Reads source
          (remaining source p)
          (HasSource source)
          (name_expression queries self spelling token p)
  unfolding identifier
  name_expression-Reads spelling token p ready l more o =
      Peeks-Reads source _ (is_type_literal-Peeks p ready) (type_literal-Reads p ready) (
        then_with-Reads source (advance-Reads source p ready more) (λ _ q h lq _.
          Reads-le source (omega arith)
            (call_or_variable-Reads (identifier spelling token.span) q h (omega arith) o)))

  cast_or_group-Reads :
      (p : Parser)
      → IsReady source p
      → Below p
      → HasMore p
      → Reads source (remaining source p) (HasSource source) (cast_or_group queries self p)
  unfolding span_of
  cast_or_group-Reads p ready l more =
      Peeks-Reads source _ (is_cast_start-Peeks source p ready)
        (then_with-Reads source (advance-Reads source p ready more) (λ start q h lq o.
          then_with-Reads source (parse_type_name-Reads source q h) (λ ty r k lr _.
            then_with-Reads source (expect_simple-Reads source r k Token.right_paren _ refl)
              (λ _ s m ls _.
                then_with-Reads source (good.unary_takes s m (omega arith)) (λ operand t u lt ou.
                  merge-Reads source t start.span (span_of operand) _ o ou
                    (λ span os. returns u (omega arith) os))))))
        (then_with-Reads source (advance-Reads source p ready more) (λ _ q h lq _.
          then_with-Reads source (good.expression_takes q h (omega arith)) (λ inner r k lr o.
            then_with-Reads source (expect_simple-Reads source r k Token.right_paren _ refl)
              (λ _ s m ls _. returns m (omega arith) o))))

  literal-Reads :
      (value : Expression Q) (p : Parser)
      → IsReady source p
      → HasMore p
      → HasSource source value
      → Reads source (remaining source p) (HasSource source) (literal queries self value p)
  literal-Reads value p ready more o =
      then_with-Reads source (advance-Reads source p ready more) (λ _ q h lq _. returns h lq o)

  primary_of-Reads :
      (token : Token) (kind : TokenKind) (p : Parser)
      → IsReady source p
      → Below p
      → OfSource source token.span
      → (is_eof kind ≡ false → HasMore p)
      → Reads source (remaining source p) (HasSource source) (primary_of queries self token kind p)
  unfolding span_of
  primary_of-Reads token (Token.string_literal value) p ready l o m =
      literal-Reads (Expression.string_literal value token.span) p ready (m refl) o
  primary_of-Reads token (Token.boolean_literal value) p ready l o m =
      literal-Reads (Expression.boolean_literal value token.span) p ready (m refl) o
  primary_of-Reads token (Token.integer_literal value) p ready l o m =
      literal-Reads (Expression.integer_literal value token.span) p ready (m refl) o
  primary_of-Reads token (Token.long_literal value) p ready l o m =
      literal-Reads (Expression.long_literal value token.span) p ready (m refl) o
  primary_of-Reads token (Token.decimal_literal value) p ready l o m =
      literal-Reads (Expression.decimal_literal value token.span) p ready (m refl) o
  primary_of-Reads token Token.null_keyword p ready l o m =
      literal-Reads (Expression.null_literal token.span) p ready (m refl) o
  primary_of-Reads token (Token.identifier spelling) p ready l o m =
      name_expression-Reads spelling token p ready l (m refl) o
  primary_of-Reads token Token.new_keyword p ready l o m =
      parse_new_expression-Reads source self n good p ready l
  primary_of-Reads token Token.left_bracket p ready l o m = parse_query_expression-Reads p ready l
  primary_of-Reads token Token.left_paren p ready l o m = cast_or_group-Reads p ready l (m refl)
  primary_of-Reads token _ p ready l o m = fails ready

  pub parse_primary-Reads :
      (p : Parser)
      → IsReady source p
      → Below p
      → Reads source (remaining source p) (HasSource source) (parse_primary queries self p)
  unfolding parse_primary
  parse_primary-Reads p ready l =
      current-Reads source p ready _
        (λ token at. primary_of-Reads token token.kind p ready l at.of_source at.before_end)
