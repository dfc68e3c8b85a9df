-- ===== src/Parser/Primary.antt =====
-- src/parser/expressions.rs: the primary expressions, and the lists in them. `Recursion` is the
-- parser of whole expressions and of operands, as the methods below call it, and `Queries` that of
-- the bodies of queries.
use apex_exec.Prelude.{ℕ, zero, suc, Bool, true, false}
use apex_exec.Prelude.Text.{Text, codes}
use apex_exec.Span.{Span}
use apex_exec.Diagnostic
use apex_exec.Diagnostic.{Diagnostic}
use apex_exec.Lexer.Token
use apex_exec.Lexer.Token.{Token, TokenKind, same_variant}
use apex_exec.Ast.Types
use apex_exec.Ast.Types.{TypeName, identifier, is_exception}
use apex_exec.Ast.Expression
use apex_exec.Ast.Expression.{Expression, Expressions, CollectionInitializer, MapEntries, span_of}
use apex_exec.Parser.{M, ◌>>=◌, ◌>>◌, pure, fail, current, advance, check, expect_simple}
use apex_exec.Parser.Types.{merge, out_of_fuel, with_fuel}
use apex_exec.Parser.TypeNames.{parse_type_name}

pub record Recursion (Q : Type 0) : Type 0 where
  pub parse_expression : M (Expression Q)
  pub parse_conditional : M (Expression Q)
  pub parse_unary : M (Expression Q)

-- `parse_soql_body` and `parse_sosl_body`
pub record Queries (Q : Type 0) : Type 0 where
  pub parse_soql_body : M (Expression Q) → M Q
  pub parse_sosl_body : M (Expression Q) → M Q

-- A list up to a closing token, which may be empty.
abbrev pub list_until : {A : Type 0} → TokenKind → A → (ℕ → M A) → M A
list_until close nothing list = do
  closed ← check close
  elim closed [ true ↦ pure nothing | false ↦ with_fuel list ]

abbrev pub is_map : TypeName → Bool
is_map (Types.map key value) = true
is_map _ = false

-- `Err(Diagnostic::new(message, self.current().span))`
abbrev pub fail_here : {A : Type 0} → Text → M A
fail_here message = do token ← current; fail message token.span

abbrev pub is_object : TypeName → Bool
is_object (Types.custom name) = true
is_object Types.http = true
is_object Types.http_request = true
is_object Types.http_response = true
is_object _ = false

module _ {Q : Type 0} (self : Recursion Q) where
  -- Expressions between commas.
  unfoldable pub expression_list : ℕ → M (Expressions Q)
  expression_list zero = out_of_fuel
  expression_list (suc fuel) = do
    first ← self.parse_expression
    more ← check Token.comma
    elim more [
      | false ↦ pure (Expression.expression first Expression.no_expressions)
      | true ↦ do advance; rest ← expression_list fuel; pure (Expression.expression first rest)
    ]

  unfoldable pub map_entry_list : ℕ → M (MapEntries Q)
  map_entry_list zero = out_of_fuel
  map_entry_list (suc fuel) = do
    key ← self.parse_expression
    expect_simple Token.fat_arrow (codes "expected `=>` after map key")
    value ← self.parse_expression
    span ← merge (span_of key) (span_of value)
    more ← check Token.comma
    elim more [
      | false ↦ pure (Expression.map_entry key value span Expression.no_entries)
      | true ↦ do
        advance
        rest ← map_entry_list fuel
        pure (Expression.map_entry key value span rest)
    ]

  unfoldable pub parse_argument_list : M (Expressions Q × Span)
  unfolding expression_list expect_simple check
  parse_argument_list = do
    expect_simple Token.left_paren (codes "expected `(`")
    args ← list_until Token.right_paren Expression.no_expressions expression_list
    stop ← expect_simple Token.right_paren (codes "expected `)` after arguments")
    pure (args, stop.span)

  unfoldable pub parse_collection_initializer : TypeName → M (CollectionInitializer Q × Span)
  unfolding expression_list map_entry_list expect_simple check
  parse_collection_initializer ty = do
    expect_simple Token.left_brace (codes "expected `{`")
    elim (is_map ty) [
      | true ↦ do
        entries ← list_until Token.right_brace Expression.no_entries map_entry_list
        stop ← expect_simple Token.right_brace (codes "expected `}` after map initializer")
        pure (Expression.map_entries entries, stop.span)
      | false ↦ do
        elements ← list_until Token.right_brace Expression.no_expressions expression_list
        stop ← expect_simple Token.right_brace (codes "expected `}` after collection initializer")
        pure (Expression.elements elements, stop.span)
    ]

  unfoldable pub parse_new_array_expression : Token → TypeName → M (Expression Q)
  unfolding parse_collection_initializer expect_simple check advance current Diagnostic.new span_of
  parse_new_array_expression start element_type = do
    expect_simple Token.left_bracket (codes "expected `[`")
    let ty = Types.list element_type
    sized ← check Token.right_bracket
    (initializer, stop) ← elim sized [
      | true ↦ do
        advance
        brace ← check Token.left_brace
        elim brace [
          | false ↦ fail_here (codes "expected an array initializer after `[]`")
          | true ↦ parse_collection_initializer ty
        ]
      | false ↦ do
        size ← self.parse_expression
        stop ← expect_simple Token.right_bracket (codes "expected `]` after array size")
        pure (Expression.sized_array size, stop.span)
    ]
    span ← merge start.span stop
    pure (Expression.new_collection ty initializer span)

  -- The arguments of a constructor, and what is made of them.
  abbrev pub constructed : Token → Text → (Expressions Q → Span → Expression Q) → M (Expression Q)
  constructed start message make = do
    paren ← check Token.left_paren
    elim paren [
      | false ↦ fail_here message
      | true ↦ do
        (args, stop) ← parse_argument_list
        span ← merge start.span stop
        pure (make args span)
    ]

  abbrev pub collection_initializer : TypeName → M (CollectionInitializer Q × Span)
  collection_initializer ty = do
    paren ← check Token.left_paren
    elim paren [
      | true ↦ do (args, stop) ← parse_argument_list; pure (Expression.arguments args, stop)
      | false ↦ do
        brace ← check Token.left_brace
        elim brace [
          | true ↦ parse_collection_initializer ty
          | false ↦
              fail_here
                (codes "expected constructor arguments, collection initializer, or array size")
        ]
    ]

  abbrev pub new_collection : Token → TypeName → M (Expression Q)
  new_collection start ty = do
    (initializer, stop) ← collection_initializer ty
    span ← merge start.span stop
    pure (Expression.new_collection ty initializer span)

  abbrev pub new_of_type : Token → TypeName → M (Expression Q)
  new_of_type start ty = elim (is_exception ty) [
    | true ↦
        constructed start (codes "expected `(` after exception type") (Expression.new_exception ty)
    | false ↦ elim (is_object ty) [
      | true ↦ constructed start (codes "expected `(` after class name") (Expression.new_object ty)
      | false ↦ new_collection start ty
    ]
  ]

  unfoldable pub parse_new_expression : M (Expression Q)
  unfolding parse_argument_list parse_collection_initializer parse_new_array_expression
      expect_simple check current is_exception parse_type_name Diagnostic.new span_of
  parse_new_expression = do
    start ← expect_simple Token.new_keyword (codes "expected `new`")
    (ty, _) ← parse_type_name
    bracket ← check Token.left_bracket
    elim bracket [ true ↦ parse_new_array_expression start ty | false ↦ new_of_type start ty ]
