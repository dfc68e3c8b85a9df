-- ===== src/Parser/Queries.antt =====
-- src/parser/queries.rs: what queries are made of, without expressions. Loops run on one more of fuel than there are tokens.
pub mod Conditions
pub mod Bodies
pub mod Node
use apex_exec.Prelude.{
  ℕ, zero, suc, Bool, true, false, Option, none, some, List, [], ◌∷◌, ◌++◌, if◌then◌else◌,
}
use apex_exec.Prelude.Int.{ℤ, pos, negsuc}
use apex_exec.Prelude.Text.{Text, codes, lowercase, eq_ignore_case}
use apex_exec.Prelude.Map.{Map, get, text_key}
use apex_exec.Span.{Span}
use apex_exec.Lexer.Token
use apex_exec.Lexer.Token.{Token, TokenKind, same_variant}
use apex_exec.Ast.Query
use apex_exec.Ast.Query.{
  FieldPath, SoqlAggregateFunction, SoqlComparisonOperator, SoqlLogicalOperator,
  SoqlDateLiteralKind, SoqlValue, value_span, SoqlInValues, SoqlCondition, condition_span,
  SoqlOrderBy, SortDirection, NullsOrder,
}
use apex_exec.Ast.Types.{Identifier}
use apex_exec.Parser.{
  M, ◌>>=◌, ◌>>◌, pure, fail, current, peek, advance, check, check_keyword, is_keyword,
  expect_identifier, expect_simple, expect_keyword,
}
use apex_exec.Parser.Types.{merge, out_of_fuel, with_fuel}
use apex_exec.Parser.Primary.{fail_here}

-- `if self.check_keyword(keyword) { .. } else { .. }`
unfoldable pub if_keyword : {A : Type 0} → Text → M A → M A → M A
if_keyword keyword yes_branch no_branch = do
  found ← check_keyword keyword
  elim found [ true ↦ yes_branch | false ↦ no_branch ]

unfoldable pub if_check : {A : Type 0} → TokenKind → M A → M A → M A
if_check kind yes_branch no_branch = do
  found ← check kind
  elim found [ true ↦ yes_branch | false ↦ no_branch ]

-- `self.advance();` and a value.
abbrev pub passing : {A : Type 0} → A → M A
passing value = do advance; pure value

-- Items between commas, of which there is one or more.
unfoldable pub comma_list : {A : Type 0} → M A → ℕ → M (List A)
comma_list item zero = out_of_fuel
comma_list item (suc fuel) = do
  first ← item
  if_check Token.comma (do advance; rest ← comma_list item fuel; pure (first ∷ rest))
      (pure (first ∷ []))

unfoldable pub path_from : List Identifier → Span → ℕ → M FieldPath
path_from segments span zero = out_of_fuel
path_from segments span (suc fuel) =
    if_check Token.dot
      (do
        advance
        segment ← expect_identifier (codes "expected a field name after `.`")
        longer ← merge span segment.span
        path_from (segments ++ segment ∷ []) longer fuel)
      (pure (record { segments = segments; span = span }))

unfoldable pub parse_field_path : M FieldPath
parse_field_path = do
  first ← expect_identifier (codes "expected a field name")
  with_fuel (path_from (first ∷ []) first.span)

unfoldable pub parse_field_path_list : M (List FieldPath)
parse_field_path_list = with_fuel (comma_list parse_field_path)

abbrev pub aggregate_functions : Map Text SoqlAggregateFunction
aggregate_functions =
    (codes "count", Query.count)
    ∷ (codes "sum", Query.sum)
    ∷ (codes "min", Query.min)
    ∷ (codes "max", Query.max)
    ∷ []

abbrev pub aggregate_named : TokenKind → M (Option SoqlAggregateFunction)
aggregate_named (Token.identifier name) = do
  following ← peek 1
  pure (
      if same_variant following.kind Token.left_paren
      then get (lowercase name) aggregate_functions
      else none)
aggregate_named _ = pure none

unfoldable pub current_aggregate_function : M (Option SoqlAggregateFunction)
current_aggregate_function = do token ← current; aggregate_named token.kind

unfoldable pub parse_optional_aggregate_field : M (Option FieldPath)
parse_optional_aggregate_field =
    if_check Token.right_paren (pure none) (do path ← parse_field_path; pure (some path))

abbrev pub comparison_operator : TokenKind → Option SoqlComparisonOperator
comparison_operator Token.equal = some Query.equal
comparison_operator Token.bang_equal = some Query.not_equal
comparison_operator Token.less = some Query.less
comparison_operator Token.less_equal = some Query.less_equal
comparison_operator Token.greater = some Query.greater
comparison_operator Token.greater_equal = some Query.greater_equal
comparison_operator (Token.identifier spelling) =
    if eq_ignore_case spelling (codes "like") then some Query.like else none
comparison_operator _ = none

unfoldable pub parse_soql_comparison_operator : M SoqlComparisonOperator
parse_soql_comparison_operator = do
  token ← current
  elim (comparison_operator token.kind) [
    | none ↦ fail_here (codes "expected a SOQL comparison operator")
    | some operator ↦ passing operator
  ]

abbrev pub date_literal_kinds : Map Text SoqlDateLiteralKind
date_literal_kinds =
    (codes "yesterday", Query.yesterday)
    ∷ (codes "today", Query.today)
    ∷ (codes "tomorrow", Query.tomorrow)
    ∷ (codes "last_n_days", Query.last_n_days)
    ∷ (codes "next_n_days", Query.next_n_days)
    ∷ (codes "this_week", Query.this_week)
    ∷ (codes "last_week", Query.last_week)
    ∷ (codes "next_week", Query.next_week)
    ∷ (codes "this_month", Query.this_month)
    ∷ (codes "last_month", Query.last_month)
    ∷ (codes "next_month", Query.next_month)
    ∷ (codes "this_year", Query.this_year)
    ∷ (codes "last_year", Query.last_year)
    ∷ (codes "next_year", Query.next_year)
    ∷ []

abbrev pub soql_date_literal_kind : Text → Option SoqlDateLiteralKind
soql_date_literal_kind name = get (lowercase name) date_literal_kinds

abbrev pub is_relative : SoqlDateLiteralKind → Bool
is_relative Query.last_n_days = true
is_relative Query.next_n_days = true
is_relative _ = false

abbrev pub is_negative : ℤ → Bool
is_negative (pos n) = false
is_negative (negsuc n) = true

-- `self.check_keyword("not") && self.peek_keyword(1, "in")`
abbrev pub is_not_in : M Bool
is_not_in =
    if_keyword (codes "not") (do following ← peek 1; pure (is_keyword (codes "in") following.kind))
      (pure false)

unfoldable pub parse_order_by : M SoqlOrderBy
parse_order_by = do
  field ← parse_field_path
  direction ←
      if_keyword (codes "desc") (passing Query.descending)
        (if_keyword (codes "asc") (passing Query.ascending) (pure Query.ascending))
  nulls ←
      if_keyword (codes "nulls")
        (do
          advance
          if_keyword (codes "first") (passing (some Query.first)) (
              if_keyword (codes "last") (passing (some Query.last))
                (fail_here (codes "expected `FIRST` or `LAST` after `NULLS`"))))
        (pure none)
  pure (record { field = field; direction = direction; nulls = nulls; span = field.span })

unfoldable pub parse_optional_order_by : M (List SoqlOrderBy)
parse_optional_order_by =
    if_keyword (codes "order")
      (do
        advance
        expect_keyword (codes "by") (codes "expected `BY` after `ORDER`")
        with_fuel (comma_list parse_order_by))
      (pure [])

unfoldable pub parse_optional_group_by : M (List FieldPath)
parse_optional_group_by =
    if_keyword (codes "group")
      (do
        advance
        expect_keyword (codes "by") (codes "expected `BY` after `GROUP`")
        parse_field_path_list)
      (pure [])
