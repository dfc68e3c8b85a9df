-- ===== src/Parser/Queries/Node.antt =====
-- The queries in expressions: the parsers of src/parser/queries.rs, as `parse_query_expression`
-- calls them.
use apex_exec.Ast.Query.{SoqlQuery, SoslQuery}
use apex_exec.Ast.Expression.{Expression, span_of}
use apex_exec.Parser.{M, ◌>>=◌, pure}
use apex_exec.Parser.Primary.{Queries}
use apex_exec.Parser.Queries.Bodies.{parse_soql_body, parse_sosl_body}

-- What `Expression::Soql` and `Expression::Sosl` make of a query: the type that holds a query in an
-- expression is left open, since the trees would else be one mutual block.
pub record QueryNode (Q : Type 0) : Type 0 where
  pub soql : SoqlQuery (Expression Q) → Q
  pub sosl : SoslQuery (Expression Q) → Q

module _ {Q : Type 0} (node : QueryNode Q) where
  abbrev pub soql_parser : M (Expression Q) → M Q
  soql_parser expression = do body ← parse_soql_body span_of expression; pure (node.soql body)

  abbrev pub sosl_parser : M (Expression Q) → M Q
  sosl_parser expression = do body ← parse_sosl_body span_of expression; pure (node.sosl body)

  abbrev pub queries_of : Queries Q
  queries_of = record { parse_soql_body = soql_parser; parse_sosl_body = sosl_parser }
