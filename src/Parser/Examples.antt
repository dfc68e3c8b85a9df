-- ===== src/Parser/Examples.antt =====
-- Sources read by the lexer and the parser.
use apex_exec.Prelude.{
  ℕ, ◌≡◌, ◌↔◌, refl, inl, ◌==◌, ◌||◌, Bool, true, false, none, List, [], length,
}
use apex_exec.Prelude.Text.{Text, codes}
use apex_exec.Span
use apex_exec.Span.{SourceId, Span, new_in}
use apex_exec.Lexer.{Lexed, done, failed, exhausted}
use apex_exec.Lexer.Token.{Token, discriminant}
use apex_exec.Lexer.Scan.{tokenize}
use apex_exec.Runtime.Numeric.Operators
use apex_exec.Runtime.Numeric.Operators.{BinaryOperator}
use apex_exec.Ast.Types
use apex_exec.Ast.Expression.{Expression}
use apex_exec.Parser
use apex_exec.Parser.{Parser, Parsed, M, fail, validate_token_stream}
use apex_exec.Parser.Stream.{IsStream, validate_token_stream_iff}
use apex_exec.Parser.Input.{new-tokenize}
use apex_exec.Ast.Query.{SoqlQuery, soql_query}
use apex_exec.Parser.Queries
use apex_exec.Parser.Queries.Bodies
use apex_exec.Parser.Queries.Conditions
use apex_exec.Parser.Queries.Node.{QueryNode, queries_of}
use apex_exec.Parser.Expressions.{parse_expression}
use apex_exec.Parser.Reads.{Reads}
use apex_exec.Parser.Total.Lists.{HasSource}
use apex_exec.Parser.Total.Source.{parse_expression-tokenize}

abbrev white : ℕ → Bool
white c = c == b' ' || c == b'\n'

abbrev one : SourceId
one = record { id = 1 }

-- A query stands for the name of the object that it reads from.
abbrev object_of : SoqlQuery (Expression Text) → Text
object_of (soql_query select from where_clause access group_by having order_by limit offset span) =
    from.spelling

abbrev by_object : QueryNode Text
by_object = record { soql = object_of; sosl = λ query. codes "sosl" }

abbrev tokens_of : Lexed (List Token) → List Token
tokens_of (done tokens) = tokens
tokens_of (failed d) = []
tokens_of exhausted = []

abbrev product : Text
product =
    codes "a + b * (Integer) [SELECT Id FROM Account WHERE Name = :c AND NOT (Age > 3)].size() ?? d"

abbrev product_tokens : List Token
unfolding tokenize
product_tokens = tokens_of (tokenize white product one)

new-tokenize_example :
    Parser.new product_tokens ≡ inl (record { tokens = product_tokens; cursor = 0 })
unfolding tokenize
new-tokenize_example = new-tokenize white product one product_tokens refl

parse_expression-tokenize_example :
    Reads 1
      (length product_tokens)
      (HasSource 1)
      (parse_expression (queries_of by_object) (record { tokens = product_tokens; cursor = 0 }))
unfolding tokenize
parse_expression-tokenize_example =
    parse_expression-tokenize by_object white product one product_tokens refl

validate_token_stream_iff_example :
    (validate_token_stream product_tokens ≡ none)
    ↔ ((source : ℕ) × IsStream source 0 product_tokens)
validate_token_stream_iff_example = validate_token_stream_iff product_tokens

-- The shape of an expression, without its spans.
data Shape : Type 0 where
  name : Text → Shape
  operation : BinaryOperator → Shape → Shape → Shape
  coalesced : Shape → Shape → Shape
  other : Shape

abbrev shape : Expression Text → Shape
shape (Expression.variable identifier) = name identifier.spelling
shape (Expression.binary left operator right _ _) = operation operator (shape left) (shape right)
shape (Expression.null_coalesce left right _ _) = coalesced (shape left) (shape right)
shape _ = other

abbrev shape_of : Parsed (Expression Text) → Shape
shape_of (Parser.done e p) = shape e
shape_of (Parser.failed d p) = other
shape_of Parser.panicked = other
shape_of Parser.exhausted = other

abbrev read : Text → Shape
unfolding tokenize parse_expression discriminant Span.merge
read text = shape_of (
    parse_expression (queries_of by_object)
      (record { tokens = tokens_of (tokenize white text one); cursor = 0 }))

-- An operator that binds more takes its operands first, and one level associates to the left.
precedence :
    read (codes "a - b - c * d")
    ≡ operation Operators.subtract
        (operation Operators.subtract (name (codes "a")) (name (codes "b")))
        (operation Operators.multiply (name (codes "c")) (name (codes "d")))
unfolding tokenize parse_expression discriminant Span.merge
precedence = refl

-- The closers of nested type arguments come as one token.
abbrev is_map_creation : Parsed (Expression Text) → Bool
is_map_creation (Parser.done (Expression.new_collection (Types.map key value) initializer _) p) =
    true
is_map_creation _ = false

nested :
    is_map_creation (
      parse_expression (queries_of by_object) (record {
        tokens = tokens_of (tokenize white (codes "new Map<Id, List<Set<Id>>>()") one);
        cursor = 0;
      }))
    ≡ true
unfolding tokenize parse_expression discriminant Span.merge
nested = refl

-- A query with a condition and a query in its select list.
abbrev object_read : Parsed (Expression Text) → Text
object_read (Parser.done (Expression.query object span) p) = object
object_read _ = []

queried :
    object_read (
      parse_expression (queries_of by_object) (record {
        tokens = tokens_of (
            tokenize white
              (codes
                "[SELECT Id, (SELECT Name FROM Contacts) FROM Account WHERE NOT (Age > 3) LIMIT 5]")
              one);
        cursor = 0;
      }))
    ≡ codes "Account"
unfolding tokenize parse_expression discriminant Span.merge Queries.if_keyword Queries.if_check
    Queries.comma_list Queries.path_from Queries.parse_field_path Queries.parse_field_path_list
    Queries.current_aggregate_function Queries.parse_soql_comparison_operator Queries.parse_order_by
    Queries.parse_optional_order_by Queries.parse_optional_group_by Conditions.parse_soql_value
    Conditions.parse_optional_value_clause Conditions.parse_soql_predicate Conditions.logical_from
    Conditions.soql_not Conditions.parse_soql_or Conditions.parse_optional_condition
    Bodies.parse_optional_soql_access Bodies.parse_child_select_item Bodies.parse_select_item
    Bodies.soql_body Bodies.nested_body Bodies.parse_soql_body apex_exec.Prelude.Text.eq_ignore_case
    Parser.expect_keyword
queried = refl
