-- ===== src/Parser/Queries/Bodies.antt =====
-- src/parser/queries.rs: the bodies of SOQL and SOSL queries.
use apex_exec.Prelude.{
  ℕ, zero, suc, Bool, true, false, ◌&&◌, ◌||◌, not, Option, none, some, List, [], ◌∷◌,
}
use apex_exec.Prelude.Text.{Text, codes}
use apex_exec.Span.{Span}
use apex_exec.Lexer.Token
use apex_exec.Lexer.Token.{Token, TokenKind}
use apex_exec.Ast.Query
use apex_exec.Ast.Query.{
  SoqlAccess, SoqlAggregateFunction, SoqlValue, value_span, SoqlQuery, soql_query, SoqlSelectItem,
  SoqlSelectItems, no_items, select_item, SoslScope, SoslReturning, SoslQuery,
}
use apex_exec.Ast.Types.{Identifier}
use apex_exec.Parser.{
  M, ◌>>=◌, ◌>>◌, pure, fail, current, advance, is_keyword, expect_identifier, expect_simple,
  expect_keyword,
}
use apex_exec.Parser.Types.{merge, out_of_fuel, with_fuel}
use apex_exec.Parser.Primary.{fail_here}
use apex_exec.Parser.Queries.{
  if_keyword, if_check, passing, comma_list, parse_field_path, parse_field_path_list,
  current_aggregate_function, parse_optional_aggregate_field, parse_optional_order_by,
  parse_optional_group_by,
}
use apex_exec.Parser.Queries.Conditions.{
  parse_optional_value_clause, parse_optional_condition, parse_soql_value, last_span,
}

unfoldable pub parse_optional_soql_access : M SoqlAccess
parse_optional_soql_access =
    if_keyword (codes "with")
      (do
        start ← advance
        if_keyword (codes "security_enforced") (passing Query.security_enforced) (
            if_keyword (codes "user_mode") (passing Query.user_mode) (
              if_keyword (codes "system_mode") (passing Query.system_mode) (
                fail
                  (codes "expected `SECURITY_ENFORCED`, `USER_MODE`, or `SYSTEM_MODE` after `WITH`")
                  start.span))))
      (pure Query.default)

abbrev pub clause_keywords : List Text
clause_keywords =
    codes "from"
    ∷ codes "where"
    ∷ codes "with"
    ∷ codes "group"
    ∷ codes "having"
    ∷ codes "order"
    ∷ codes "limit"
    ∷ codes "offset"
    ∷ codes "asc"
    ∷ codes "desc"
    ∷ codes "nulls"
    ∷ codes "and"
    ∷ codes "or"
    ∷ []

abbrev pub is_one_of : List Text → TokenKind → Bool
is_one_of [] kind = false
is_one_of (keyword ∷ keywords) kind = is_keyword keyword kind || is_one_of keywords kind

-- `self.is_query_clause_keyword()` at a token
abbrev pub is_query_clause_keyword : TokenKind → Bool
is_query_clause_keyword = is_one_of clause_keywords

abbrev pub is_name : TokenKind → Bool
is_name (Token.identifier name) = true
is_name _ = false

unfoldable pub parse_alias : M (Option Identifier)
parse_alias = do
  token ← current
  elim (is_name token.kind && not (is_query_clause_keyword token.kind)) [
    | true ↦ do alias ← expect_identifier (codes "expected aggregate alias"); pure (some alias)
    | false ↦ pure none
  ]

abbrev pub alias_end : Span → Option Identifier → Span
alias_end close none = close
alias_end close (some alias) = alias.span

-- `Vec::push` over the items of a select list.
abbrev pub items_of : {X : Type 0} → List (SoqlSelectItem X) → SoqlSelectItems X
items_of [] = no_items
items_of (item ∷ items) = select_item item (items_of items)

-- `query.span = span`
abbrev pub spanned : {X : Type 0} → Span → SoqlQuery X → SoqlQuery X
spanned span
      (soql_query select from where_clause access group_by having order_by limit offset old) =
    soql_query select from where_clause access group_by having order_by limit offset span

-- `offset.as_ref().or(limit.as_ref()).map_or(from.span, SoqlValue::span)`
abbrev pub body_end : {X : Type 0} → Span → Option (SoqlValue X) → Option (SoqlValue X) → Span
body_end from none none = from
body_end from (some limit) none = value_span limit
body_end from limit (some offset) = value_span offset

unfoldable pub parse_sosl_scope : M SoslScope
parse_sosl_scope = if_keyword (codes "all") (passing Query.all_fields) (
    if_keyword (codes "name") (passing Query.name_fields)
      (fail_here (codes "expected `ALL` or `NAME` SOSL field scope")))

module _ {X : Type 0} (span_of : X → Span) (parse_expression : M X) where
  unfoldable pub parse_aggregate_select_item : SoqlAggregateFunction → M (SoqlSelectItem X)
  parse_aggregate_select_item function = do
    start ← advance
    advance
    field ← parse_optional_aggregate_field
    close ← expect_simple Token.right_paren (codes "expected `)` after aggregate argument")
    alias ← parse_alias
    span ← merge start.span (alias_end close.span alias)
    pure (Query.aggregate function field alias span)

  -- With the parser of the query in the parentheses.
  unfoldable pub parse_child_select_item : M (SoqlQuery X) → M (SoqlSelectItem X)
  parse_child_select_item body = do
    start ← advance
    if_keyword (codes "select")
        (do
          query ← body
          stop ← expect_simple Token.right_paren (codes "expected `)` after child SOQL subquery")
          span ← merge start.span stop.span
          pure (Query.subquery (spanned span query) span))
        (fail_here (codes "expected `SELECT` after `(` in SOQL select list"))

  abbrev pub plain_item : Option SoqlAggregateFunction → M (SoqlSelectItem X)
  plain_item (some function) = parse_aggregate_select_item function
  plain_item none = do path ← parse_field_path; pure (Query.field path)

  unfoldable pub parse_select_item : M (SoqlQuery X) → M (SoqlSelectItem X)
  parse_select_item body =
      if_keyword (codes "typeof")
        (fail_here
          (codes "`TYPEOF` polymorphic SOQL is not supported by the active compatibility profile"))
        (if_check Token.left_paren (parse_child_select_item body)
          (do function ← current_aggregate_function; plain_item function))

  -- The clauses after the object of a query.
  abbrev pub soql_clauses : List (SoqlSelectItem X) → Identifier → Token → M (SoqlQuery X)
  soql_clauses items from start = do
    where_clause ← parse_optional_condition span_of parse_expression (codes "where")
    access ← parse_optional_soql_access
    group_by ← parse_optional_group_by
    having ← parse_optional_condition span_of parse_expression (codes "having")
    order_by ← parse_optional_order_by
    limit ← parse_optional_value_clause span_of parse_expression (codes "limit")
    offset ← parse_optional_value_clause span_of parse_expression (codes "offset")
    span ← merge start.span (body_end from.span limit offset)
    pure (
        soql_query (items_of items) from where_clause access group_by having order_by limit offset
          span)

  unfoldable pub soql_body : M (SoqlQuery X) → M (SoqlQuery X)
  soql_body child = do
    start ← expect_keyword (codes "select") (codes "expected `SELECT`")
    items ← with_fuel (comma_list (parse_select_item child))
    expect_keyword (codes "from") (codes "expected `FROM` after SOQL select list")
    from ← expect_identifier (codes "expected an SObject type after `FROM`")
    soql_clauses items from start

  -- `parse_soql_body`, with fuel for as many queries in one another.
  unfoldable pub nested_body : ℕ → M (SoqlQuery X)
  nested_body zero = out_of_fuel
  nested_body (suc fuel) = soql_body (nested_body fuel)

  unfoldable pub parse_soql_body : M (SoqlQuery X)
  parse_soql_body = with_fuel nested_body

  unfoldable pub parse_sosl_returning : M (SoslReturning X)
  parse_sosl_returning = do
    object ← expect_identifier (codes "expected an SObject type in `RETURNING`")
    expect_simple Token.left_paren (codes "expected `(` after SOSL returning object")
    fields ← parse_field_path_list
    where_clause ← parse_optional_condition span_of parse_expression (codes "where")
    order_by ← parse_optional_order_by
    limit ← parse_optional_value_clause span_of parse_expression (codes "limit")
    stop ← expect_simple Token.right_paren (codes "expected `)` after SOSL returning clause")
    span ← merge object.span stop.span
    pure (record {
      object = object;
      fields = fields;
      where_clause = where_clause;
      order_by = order_by;
      limit = limit;
      span = span;
    })

  abbrev pub returning_span : SoslReturning X → Span
  returning_span clause = clause.span

  unfoldable pub parse_sosl_body : M (SoslQuery X)
  parse_sosl_body = do
    start ← expect_keyword (codes "find") (codes "expected `FIND`")
    search ← parse_soql_value span_of parse_expression
    expect_keyword (codes "in") (codes "expected `IN` after SOSL search term")
    scope ← parse_sosl_scope
    expect_keyword (codes "fields") (codes "expected `FIELDS` after SOSL scope")
    expect_keyword (codes "returning") (codes "expected `RETURNING` in SOSL query")
    returning ← with_fuel (comma_list parse_sosl_returning)
    span ← merge start.span (last_span returning_span (value_span search) returning)
    pure (record { search = search; scope = scope; returning = returning; span = span })
