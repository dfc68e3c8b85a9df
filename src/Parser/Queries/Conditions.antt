-- ===== src/Parser/Queries/Conditions.antt =====
-- src/parser/queries.rs: the values and the conditions. The parser of whole expressions is a
-- parameter, as the methods call it.
use apex_exec.Prelude.{ℕ, zero, suc, Bool, true, false, Option, none, some, List, [], ◌∷◌}
use apex_exec.Prelude.Text.{Text, codes}
use apex_exec.Prelude.Map.{text_key}
use apex_exec.Span.{Span}
use apex_exec.Lexer.Token
use apex_exec.Lexer.Token.{Token, TokenKind, same_variant}
use apex_exec.Ast.Query
use apex_exec.Ast.Query.{
  FieldPath, SoqlAggregateFunction, SoqlComparisonOperator, SoqlLogicalOperator,
  SoqlDateLiteralKind, SoqlValue, value_span, SoqlInValues, SoqlCondition, condition_span,
  SoqlOrderBy, SortDirection, NullsOrder,
}
use apex_exec.Parser.{M, ◌>>=◌, ◌>>◌, pure, fail, current, advance, expect_simple}
use apex_exec.Parser.Types.{merge, out_of_fuel, with_fuel}
use apex_exec.Parser.Queries.{
  if_keyword, if_check, passing, comma_list, parse_field_path, current_aggregate_function,
  parse_optional_aggregate_field, parse_soql_comparison_operator, soql_date_literal_kind,
  is_relative, is_negative, is_not_in,
}

-- The span of the last value, or another.
abbrev pub last_span : {A : Type 0} → (A → Span) → Span → List A → Span
last_span span start [] = start
last_span span start (x ∷ []) = span x
last_span span start (x ∷ y ∷ more) = last_span span start (y ∷ more)

module _ {X : Type 0} (span_of : X → Span) (parse_expression : M X) where
  abbrev pub relative_amount : SoqlDateLiteralKind → Token → Token → TokenKind → M (SoqlValue X)
  relative_amount kind token amount (Token.integer_literal value) = do
    advance
    elim (is_negative value) [
      | true ↦ fail (codes "relative SOQL date literal amount cannot be negative") amount.span
      | false ↦ do
        span ← merge token.span amount.span
        pure (Query.date_literal (record { kind = kind; amount = some value; span = span }))
    ]
  relative_amount kind token amount _ =
      fail (codes "expected a non-negative Integer in relative SOQL date literal") amount.span

  abbrev pub date_value : Token → Option SoqlDateLiteralKind → M (SoqlValue X)
  date_value token none = fail (codes "expected a SOQL literal or bind expression") token.span
  date_value token (some kind) = do
    advance
    elim (is_relative kind) [
      | true ↦ do
        expect_simple Token.colon (codes "expected `:` in relative SOQL date literal")
        amount ← current
        relative_amount kind token amount amount.kind
      | false ↦ pure (Query.date_literal (record { kind = kind; amount = none; span = token.span }))
    ]

  abbrev pub value_of : Token → TokenKind → M (SoqlValue X)
  value_of token (Token.string_literal value) = passing (Query.string value token.span)
  value_of token (Token.boolean_literal value) = passing (Query.boolean value token.span)
  value_of token (Token.integer_literal value) = passing (Query.integer value token.span)
  value_of token (Token.identifier name) = date_value token (soql_date_literal_kind name)
  value_of token Token.null_keyword = passing (Query.null token.span)
  value_of token Token.colon = do
    advance
    expression ← parse_expression
    span ← merge token.span (span_of expression)
    pure (Query.bind expression span)
  value_of token _ = fail (codes "expected a SOQL literal or bind expression") token.span

  unfoldable pub parse_soql_value : M (SoqlValue X)
  parse_soql_value = do token ← current; value_of token token.kind

  unfoldable pub parse_optional_value_clause : Text → M (Option (SoqlValue X))
  parse_optional_value_clause keyword =
      if_keyword keyword (do advance; value ← parse_soql_value; pure (some value)) (pure none)

  abbrev pub values_end : Span → SoqlInValues X → Span
  values_end start (Query.values vs) = last_span value_span start vs
  values_end start (Query.bound expression) = span_of expression

  unfoldable pub parse_in_values : M (SoqlInValues X)
  parse_in_values =
      if_check Token.colon
        (do advance; expression ← parse_expression; pure (Query.bound expression))
        (do
          expect_simple Token.left_paren (codes "expected `(` or bind after `IN`")
          vs ← if_check Token.right_paren (pure []) (with_fuel (comma_list parse_soql_value))
          expect_simple Token.right_paren (codes "expected `)` after `IN` values")
          pure (Query.values vs))

  unfoldable pub parse_in_predicate : FieldPath → Span → Bool → M (SoqlCondition X)
  parse_in_predicate field start negated = do
    vs ← parse_in_values
    span ← merge start (values_end start vs)
    pure (Query.in_condition field negated vs span)

  unfoldable pub parse_aggregate_predicate : SoqlAggregateFunction → M (SoqlCondition X)
  parse_aggregate_predicate function = do
    start ← advance
    advance
    field ← parse_optional_aggregate_field
    expect_simple Token.right_paren (codes "expected `)` after HAVING aggregate argument")
    operator ← parse_soql_comparison_operator
    right ← parse_soql_value
    span ← merge start.span (value_span right)
    pure (Query.aggregate_comparison function field operator right span)

  -- What comes after the field; the flag says that `not in` does.
  abbrev pub field_condition : FieldPath → Bool → M (SoqlCondition X)
  field_condition field true = do advance; advance; parse_in_predicate field field.span true
  field_condition field false =
      if_keyword (codes "in") (do advance; parse_in_predicate field field.span false)
        (do
          operator ← parse_soql_comparison_operator
          right ← parse_soql_value
          span ← merge field.span (value_span right)
          pure (Query.comparison field operator right span))

  abbrev pub predicate_of : Option SoqlAggregateFunction → M (SoqlCondition X)
  predicate_of (some function) = parse_aggregate_predicate function
  predicate_of none = do
    field ← parse_field_path
    negated ← is_not_in
    field_condition field negated

  unfoldable pub parse_soql_predicate : M (SoqlCondition X)
  parse_soql_predicate = do function ← current_aggregate_function; predicate_of function

  -- The rest of a chain of conditions under one operator.
  unfoldable pub logical_from :
      Text → SoqlLogicalOperator → M (SoqlCondition X) → SoqlCondition X → ℕ → M (SoqlCondition X)
  logical_from keyword operator operand left zero = out_of_fuel
  logical_from keyword operator operand left (suc fuel) =
      if_keyword keyword
        (do
          advance
          right ← operand
          span ← merge (condition_span left) (condition_span right)
          logical_from keyword operator operand (Query.logical left operator right span) fuel)
        (pure left)

  abbrev pub chain : Text → SoqlLogicalOperator → M (SoqlCondition X) → M (SoqlCondition X)
  chain keyword operator operand = do
    left ← operand
    with_fuel (logical_from keyword operator operand left)

  abbrev pub not_operand : M (SoqlCondition X) → M (SoqlCondition X) → M (SoqlCondition X)
  not_operand parse_or parse_not =
      if_keyword (codes "not")
        (do
          start ← advance
          condition ← parse_not
          span ← merge start.span (condition_span condition)
          pure (Query.not_condition condition span))
        (if_check Token.left_paren
          (do
            advance
            condition ← parse_or
            expect_simple Token.right_paren (codes "expected `)` after SOQL condition")
            pure condition)
          parse_soql_predicate)

  -- `parse_soql_not` and `parse_soql_or`, with fuel for as many calls in one another.
  unfoldable mutual
    pub soql_not : ℕ → M (SoqlCondition X)
    soql_not zero = out_of_fuel
    soql_not (suc fuel) = not_operand (soql_or fuel) (soql_not fuel)

    pub soql_or : ℕ → M (SoqlCondition X)
    soql_or zero = out_of_fuel
    soql_or (suc fuel) =
        chain (codes "or") Query.or_op
          (chain (codes "and") Query.and_op (not_operand (soql_or fuel) (soql_not fuel)))

  unfoldable pub parse_soql_or : M (SoqlCondition X)
  parse_soql_or = with_fuel soql_or

  unfoldable pub parse_optional_condition : Text → M (Option (SoqlCondition X))
  parse_optional_condition keyword =
      if_keyword keyword (do advance; condition ← parse_soql_or; pure (some condition)) (pure none)
