-- ===== src/Parser/Operand.antt =====
-- src/parser/expressions.rs: primary expressions, what follows them, and unary operators.
use apex_exec.Prelude.{ℕ, zero, suc, Bool, true, false, ◌&&◌, ◌||◌, Option, none, some}
use apex_exec.Prelude.Text.{Text, codes}
use apex_exec.Diagnostic
use apex_exec.Lexer.Token
use apex_exec.Lexer.Token.{Token, TokenKind, same_variant}
use apex_exec.Ast.Types.{Identifier, identifier}
use apex_exec.Ast.Expression
use apex_exec.Ast.Expression.{Expression, UnaryOperator, PostfixOperator, span_of}
use apex_exec.Parser.{
  M, ◌>>=◌, ◌>>◌, pure, fail, current, peek, advance, check, check_keyword, expect_identifier,
  expect_simple,
}
use apex_exec.Parser.Types.{merge, out_of_fuel, with_fuel}
use apex_exec.Parser.TypeNames.{parse_type_name}
use apex_exec.Parser.Lookahead.{look_or, is_cast_start}
use apex_exec.Parser.Primary.{
  Recursion, Queries, parse_argument_list, parse_new_expression, fail_here,
}

pub data Suffix : Type 0 where
  bracket point step_up step_down no_more : Suffix

-- What the kind of the current token continues an expression with.
abbrev pub suffix_of : TokenKind → Suffix
suffix_of Token.left_bracket = bracket
suffix_of Token.dot = point
suffix_of Token.safe_navigation = point
suffix_of Token.plus_plus = step_up
suffix_of Token.minus_minus = step_down
suffix_of _ = no_more

abbrev pub unary_operator : TokenKind → Option UnaryOperator
unary_operator Token.plus = some Expression.positive
unary_operator Token.minus = some Expression.negate
unary_operator Token.bang = some Expression.not
unary_operator Token.tilde = some Expression.bitwise_not
unary_operator Token.plus_plus = some Expression.prefix_increment
unary_operator Token.minus_minus = some Expression.prefix_decrement
unary_operator _ = none

module _ {Q : Type 0} (queries : Queries Q) (self : Recursion Q) where
  abbrev pub query_from : Token → M Q → Text → M (Expression Q)
  query_from start body message = do
    query ← body
    stop ← expect_simple Token.right_bracket message
    span ← merge start.span stop.span
    pure (Expression.query query span)

  unfoldable pub parse_query_expression : M (Expression Q)
  unfolding expect_simple check_keyword current Diagnostic.new
  parse_query_expression = do
    start ← expect_simple Token.left_bracket (codes "expected `[`")
    select ← check_keyword (codes "select")
    elim select [
      | true ↦
          query_from start (queries.parse_soql_body self.parse_expression)
            (codes "expected `]` after SOQL query")
      | false ↦ do
        find ← check_keyword (codes "find")
        elim find [
          | true ↦
              query_from start (queries.parse_sosl_body self.parse_expression)
                (codes "expected `]` after SOSL query")
          | false ↦ fail_here (codes "expected `SELECT` or `FIND` after `[`")
        ]
    ]

  -- A type, a point and `class` are next.
  unfoldable pub is_type_literal : M Bool
  unfolding parse_type_name check peek
  is_type_literal = look_or false (do
    parse_type_name
    dot ← check Token.dot
    next ← peek 1
    pure (dot && same_variant next.kind Token.class_keyword))

  abbrev pub type_literal : M (Expression Q)
  type_literal = do
    (ty, type_span) ← parse_type_name
    advance
    stop ← advance
    span ← merge type_span stop.span
    pure (Expression.type_literal ty span)

  abbrev pub call_or_variable : Identifier → M (Expression Q)
  call_or_variable name = do
    paren ← check Token.left_paren
    elim paren [
      | false ↦ pure (Expression.variable name)
      | true ↦ do
        (args, stop) ← parse_argument_list self
        span ← merge name.span stop
        pure (Expression.function_call name args span)
    ]

  abbrev pub name_expression : Text → Token → M (Expression Q)
  unfolding identifier
  name_expression spelling token = do
    literal ← is_type_literal
    elim literal [
      | true ↦ type_literal
      | false ↦ do advance; call_or_variable (identifier spelling token.span)
    ]

  abbrev pub cast_or_group : M (Expression Q)
  cast_or_group = do
    is_cast ← is_cast_start
    elim is_cast [
      | true ↦ do
        start ← advance
        (ty, _) ← parse_type_name
        expect_simple Token.right_paren (codes "expected `)` after cast type")
        operand ← self.parse_unary
        span ← merge start.span (span_of operand)
        pure (Expression.cast ty operand span)
      | false ↦ do
        advance
        inner ← self.parse_expression
        expect_simple Token.right_paren (codes "expected `)` after expression")
        pure inner
    ]

  abbrev pub literal : Expression Q → M (Expression Q)
  literal value = do advance; pure value

  -- The match on the kind of the current token.
  abbrev pub primary_of : Token → TokenKind → M (Expression Q)
  primary_of token (Token.string_literal value) =
      literal (Expression.string_literal value token.span)
  primary_of token (Token.boolean_literal value) =
      literal (Expression.boolean_literal value token.span)
  primary_of token (Token.integer_literal value) =
      literal (Expression.integer_literal value token.span)
  primary_of token (Token.long_literal value) = literal (Expression.long_literal value token.span)
  primary_of token (Token.decimal_literal value) =
      literal (Expression.decimal_literal value token.span)
  primary_of token Token.null_keyword = literal (Expression.null_literal token.span)
  primary_of token (Token.identifier spelling) = name_expression spelling token
  primary_of token Token.new_keyword = parse_new_expression self
  primary_of token Token.left_bracket = parse_query_expression
  primary_of token Token.left_paren = cast_or_group
  primary_of token _ = fail (codes "expected an expression") token.span

  unfoldable pub parse_primary : M (Expression Q)
  unfolding parse_query_expression parse_new_expression is_type_literal is_cast_start
      parse_argument_list parse_type_name expect_simple check advance current identifier span_of
      Diagnostic.new
  parse_primary = do token ← current; primary_of token token.kind

  abbrev pub member_name : M Identifier
  unfolding identifier
  member_name = do
    is_new ← check Token.new_keyword
    elim is_new [
      | true ↦ do token ← advance; pure (identifier token.lexeme token.span)
      | false ↦ expect_identifier (codes "expected a member name after `.`")
    ]

  -- A member after a point: a call, or an access.
  abbrev pub member_of : Expression Q → Bool → Token → M (Expression Q)
  member_of receiver safe navigation = do
    member ← member_name
    paren ← check Token.left_paren
    elim paren [
      | true ↦ do
        (args, stop) ← parse_argument_list self
        span ← merge (span_of receiver) stop
        pure (Expression.method_call receiver member args safe navigation.span span)
      | false ↦ do
        span ← merge (span_of receiver) member.span
        pure (Expression.member_access receiver member safe navigation.span span)
    ]

  abbrev pub indexed : Expression Q → M (Expression Q)
  indexed collection = do
    advance
    position ← self.parse_expression
    stop ← expect_simple Token.right_bracket (codes "expected `]` after index expression")
    span ← merge (span_of collection) stop.span
    pure (Expression.index collection position span)

  abbrev pub stepped : Expression Q → PostfixOperator → M (Expression Q)
  stepped operand operator = do
    token ← advance
    span ← merge (span_of operand) token.span
    pure (Expression.postfix operand operator token.span span)

  -- An expression with its next suffix, and the rest of the chain.
  abbrev pub continued :
      (Bool → Expression Q → M (Expression Q))
      → Bool
      → Expression Q
      → Token
      → Suffix
      → M (Expression Q)
  continued rest true expression token bracket =
      fail (codes "indexed access in a safe-navigation chain is unsupported") token.span
  continued rest false expression token bracket = indexed expression >>= rest false
  continued rest chain expression token point = do
    navigation ← advance
    let safe = chain || same_variant navigation.kind Token.safe_navigation
    longer ← member_of expression safe navigation
    rest safe longer
  continued rest chain expression token step_up =
      stepped expression Expression.increment >>= rest chain
  continued rest chain expression token step_down =
      stepped expression Expression.decrement >>= rest chain
  continued rest chain expression token no_more = pure expression

  -- The loop of `parse_postfix`; the flag says that the chain navigates safely.
  unfoldable pub postfix_from : ℕ → Bool → Expression Q → M (Expression Q)
  postfix_from zero chain expression = out_of_fuel
  postfix_from (suc fuel) chain expression = do
    token ← current
    continued (postfix_from fuel) chain expression token (suffix_of token.kind)

  unfoldable pub parse_postfix : M (Expression Q)
  unfolding parse_primary postfix_from
  parse_postfix = do
    expression ← parse_primary
    with_fuel (λ fuel. postfix_from fuel false expression)

  unfoldable pub parse_unary : M (Expression Q)
  unfolding current advance parse_postfix span_of
  parse_unary = do
    token ← current
    elim (unary_operator token.kind) [
      | none ↦ parse_postfix
      | some operator ↦ do
        token ← advance
        operand ← self.parse_unary
        span ← merge token.span (span_of operand)
        pure (Expression.unary operator operand token.span span)
    ]
