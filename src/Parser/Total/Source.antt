-- ===== src/Parser/Total/Source.antt =====
-- The lexer of src/lexer.rs and the parser of src/parser/expressions.rs, one after the other.
use apex_exec.Prelude.{ℕ, ◌<◌, ◌≡◌, refl, ap, List, [], ◌∷◌, length, Bool, arith}
use apex_exec.Prelude.Text.{Text}
use apex_exec.Span.{SourceId, Span, new_in}
use apex_exec.Lexer.{done}
use apex_exec.Lexer.Token.{Token}
use apex_exec.Lexer.Scan.{tokenize}
use apex_exec.Lexer.Spelling.{Spells-not_eof}
use apex_exec.Lexer.Tiles.{Tiles, finish, piece}
use apex_exec.Parser.Input.{tokenize-done-Tiles}
use apex_exec.Parser.Queries.Node.{QueryNode, queries_of}
use apex_exec.Ast.Expression.{span_of}
use apex_exec.Parser.Total.Bodies.{parse_soql_body-Reads, parse_sosl_body-Reads}
use apex_exec.Parser.Expressions.{parse_expression}
use apex_exec.Parser.Reads.{IsSupply, Reads, Reads-le, returns, then_with-Reads}
use apex_exec.Parser.Total.Lists.{HasSource}
use apex_exec.Parser.Total.Operand.{QueriesRead}
use apex_exec.Parser.Total.Expressions.{parse_expression-Reads}

Tiles-IsSupply :
    (is_whitespace : ℕ → Bool) (source_id : SourceId) {start : ℕ} {text : Text}
    {tokens : List Token}
    → Tiles is_whitespace source_id start text tokens
    → IsSupply source_id.id tokens
unfolding new_in
Tiles-IsSupply w id (finish _ k l s) = (ap (λ (x : Span). x.source_id.id) s, rw k refl, l)
Tiles-IsSupply w id (piece _ _ _ _ _ _ k _ s (finish t k' l' s')) = (
  ap (λ (x : Span). x.source_id.id) s,
  Spells-not_eof _ _ k,
  Tiles-IsSupply w id (finish t k' l' s'),
)
Tiles-IsSupply w id (piece _ _ _ _ _ _ k _ s (piece a b c d e f g h i later)) = (
  ap (λ (x : Span). x.source_id.id) s,
  Spells-not_eof _ _ k,
  Tiles-IsSupply w id (piece a b c d e f g h i later),
)

IsSupply-length : (source : ℕ) (tokens : List Token) → IsSupply source tokens → 0 < length tokens
IsSupply-length source [] s = absurd s
IsSupply-length source (t ∷ tokens) s = omega arith

-- The grammar of queries keeps the promise that the parser of expressions relies on.
queries_of-QueriesRead :
    {Q : Type 0} (source : ℕ) (node : QueryNode Q) → QueriesRead source (queries_of node)
queries_of-QueriesRead source node = record {
  soql_reads = λ n expression takes p ready l.
      then_with-Reads source
        (parse_soql_body-Reads source span_of expression n takes p ready (omega arith))
        (λ query q h lq _. returns h (omega arith) tt);
  sosl_reads = λ n expression takes p ready l.
      then_with-Reads source
        (parse_sosl_body-Reads source span_of expression n takes p ready (omega arith))
        (λ query q h lq _. returns h (omega arith) tt);
}

-- On the tokens of any source that the lexer accepts, the parser of expressions, queries among
-- them, returns or reports an error: it never panics, neither on an index nor on spans of two
-- sources, and its fuel is enough. What it returns takes one or more tokens, and its span is of the
-- source.
pub parse_expression-tokenize :
    {Q : Type 0} (node : QueryNode Q) (is_whitespace : ℕ → Bool) (text : Text)
    (source_id : SourceId) (tokens : List Token)
    → tokenize is_whitespace text source_id ≡ done tokens
    → Reads source_id.id
        (length tokens)
        (HasSource source_id.id)
        (parse_expression (queries_of node) (record { tokens = tokens; cursor = 0 }))
parse_expression-tokenize node w text id tokens h =
    let supply = Tiles-IsSupply w id (tokenize-done-Tiles w text id tokens h) in
    Reads-le id.id (omega arith) (
      parse_expression-Reads id.id (queries_of node) (queries_of-QueriesRead id.id node)
        (record { tokens = tokens; cursor = 0 })
        (record { within = IsSupply-length id.id tokens supply; supply = supply }))
