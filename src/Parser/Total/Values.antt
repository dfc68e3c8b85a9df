-- ===== src/Parser/Total/Values.antt =====
-- The values of src/parser/queries.rs in queries end, without a panic.
use apex_exec.Prelude.{
  ℕ, suc, ◌+◌, ◌<◌, ◌≡◌, refl, inl, inr, false, Option, none, some, length, arith, Bool-cases,
}
use apex_exec.Prelude.Text.{Text}
use apex_exec.Span.{Span}
use apex_exec.Lexer.Token
use apex_exec.Lexer.Token.{Token, TokenKind, is_eof}
use apex_exec.Ast.Query
use apex_exec.Ast.Query.{
  FieldPath, SoqlValue, value_span, SoqlInValues, SoqlCondition, condition_span,
  SoqlLogicalOperator, SoqlDateLiteralKind, SoqlAggregateFunction,
}
use apex_exec.Parser.{Parser, M}
use apex_exec.Parser.Types.Total.{merge-Reads}
use apex_exec.Parser.Queries
use apex_exec.Parser.Queries.{
  is_relative, is_negative, soql_date_literal_kind, is_not_in, comma_list,
  current_aggregate_function,
}
use apex_exec.Parser.Queries.Conditions.{
  relative_amount, date_value, value_of, parse_soql_value, parse_optional_value_clause,
}
use apex_exec.Parser.Reads.{
  OfSource, IsReady, remaining, Reads, returns, fails, Reads-le, then_with-Reads, current-Reads,
  advance-Reads, advance-any, expect_simple-Reads,
}
use apex_exec.Parser.Total.Clauses.{TakesBelow, after_keyword-Reads}

-- Parts of a query whose spans are of the source.
module _ (source : ℕ) {X : Type 0} where
  abbrev pub OfValue : SoqlValue X → Type 0
  OfValue value = OfSource source (value_span value)

  abbrev pub OfCondition : SoqlCondition X → Type 0
  OfCondition condition = OfSource source (condition_span condition)

  abbrev pub OfOptionValue : Option (SoqlValue X) → Type 0
  OfOptionValue none = Unit
  OfOptionValue (some value) = OfValue value

module _ (source : ℕ) {X : Type 0} (span_of : X → Span) (parse_expression : M X) (n : ℕ)
    (takes : TakesBelow source n (λ x. OfSource source (span_of x)) parse_expression) where
  literal_value :
      (value : SoqlValue X) (p : Parser)
      → IsReady source p
      → p.cursor + 1 < length p.tokens
      → (OfValue source) value
      → Reads source (remaining source p) (OfValue source) (Queries.passing value p)
  literal_value value p ready more o =
      then_with-Reads source (advance-Reads source p ready more) (λ _ q h l _. returns h l o)

  relative_amount-Reads :
      (kind : SoqlDateLiteralKind) (token amount : Token) (found : TokenKind) (p : Parser)
      → IsReady source p
      → OfSource source token.span
      → OfSource source amount.span
      → Reads source
          (suc (remaining source p))
          (OfValue source)
          (relative_amount span_of parse_expression kind token amount found p)
  relative_amount-Reads kind token amount (Token.integer_literal value) p ready o oa =
      then_with-Reads source (advance-any source p ready) (λ _ q h l _.
        elim (Bool-cases (is_negative value)) [
          | inl negative ↦ rw negative (fails h)
          | inr natural ↦ rw natural (
              merge-Reads source q token.span amount.span _ o oa
                (λ span os. returns h (omega arith) os))
        ])
  relative_amount-Reads kind token amount _ p ready o oa = fails ready

  date_value-Reads :
      (token : Token) (kind : Option SoqlDateLiteralKind) (p : Parser)
      → IsReady source p
      → p.cursor + 1 < length p.tokens
      → OfSource source token.span
      → Reads source
          (remaining source p)
          (OfValue source)
          (date_value span_of parse_expression token kind p)
  date_value-Reads token none p ready more o = fails ready
  date_value-Reads token (some kind) p ready more o =
      then_with-Reads source (advance-Reads source p ready more) (λ _ q h l _.
        elim (Bool-cases (is_relative kind)) [
          | inl relative ↦ rw relative (
              then_with-Reads source (expect_simple-Reads source q h Token.colon _ refl)
                (λ _ r k lr _. current-Reads source r k _ (λ amount at.
                  Reads-le source (omega arith)
                    (relative_amount-Reads kind token amount amount.kind r k o at.of_source))))
          | inr fixed ↦ rw fixed (returns h l o)
        ])

  value_of-Reads :
      (token : Token) (kind : TokenKind) (p : Parser)
      → IsReady source p
      → remaining source p < n + 1
      → OfSource source token.span
      → (is_eof kind ≡ false → p.cursor + 1 < length p.tokens)
      → Reads source
          (remaining source p)
          (OfValue source)
          (value_of span_of parse_expression token kind p)
  value_of-Reads token (Token.string_literal value) p ready l o m =
      literal_value (Query.string value token.span) p ready (m refl) o
  value_of-Reads token (Token.boolean_literal value) p ready l o m =
      literal_value (Query.boolean value token.span) p ready (m refl) o
  value_of-Reads token (Token.integer_literal value) p ready l o m =
      literal_value (Query.integer value token.span) p ready (m refl) o
  value_of-Reads token (Token.identifier name) p ready l o m =
      date_value-Reads token (soql_date_literal_kind name) p ready (m refl) o
  value_of-Reads token Token.null_keyword p ready l o m =
      literal_value (Query.null token.span) p ready (m refl) o
  value_of-Reads token Token.colon p ready l o m =
      then_with-Reads source (advance-Reads source p ready (m refl)) (λ _ q h lq _.
        then_with-Reads source (takes q h (omega arith)) (λ expression r k lr ox.
          merge-Reads source r token.span (span_of expression) _ o ox
            (λ span os. returns k (omega arith) os)))
  value_of-Reads token _ p ready l o m = fails ready

  pub parse_soql_value-Reads :
      TakesBelow source (n + 1) (OfValue source) (parse_soql_value span_of parse_expression)
  unfolding parse_soql_value
  parse_soql_value-Reads p ready l =
      current-Reads source p ready _
        (λ token at. value_of-Reads token token.kind p ready l at.of_source at.before_end)

  -- What a method does that need not take a token, where few enough are left.
  abbrev pub MayTakeBelow : {A : Type 0} → M A → (A → Type 0) → Type 0
  MayTakeBelow m P =
      (p : Parser)
      → IsReady source p
      → remaining source p < n + 1
      → Reads source (suc (remaining source p)) P (m p)

  pub parse_optional_value_clause-Reads :
      (keyword : Text)
      → MayTakeBelow
          (parse_optional_value_clause span_of parse_expression keyword)
          (OfOptionValue source)
  unfolding parse_optional_value_clause
  parse_optional_value_clause-Reads keyword p ready l =
      after_keyword-Reads source keyword _ _ p ready
        (λ q h lq.
          then_with-Reads source (parse_soql_value-Reads q h (omega arith))
            (λ value r k lr o. returns k (omega arith) o))
        (returns ready (omega arith) tt)
