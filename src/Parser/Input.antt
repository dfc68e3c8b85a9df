-- ===== src/Parser/Input.antt =====
-- The tokens of the lexer as the input of the parser.
use apex_exec.Prelude.{ℕ, ◌≤◌, ◌≡◌, refl, ap, inl, Bool, List, arith}
use apex_exec.Prelude.Text.{Text}
use apex_exec.Span.{SourceId, Span, new_in}
use apex_exec.Lexer.{done}
use apex_exec.Lexer.Token.{Token}
use apex_exec.Lexer.Scan.{tokenize}
use apex_exec.Lexer.Spelling.{Spells-not_eof}
use apex_exec.Lexer.Tiles.{Tiles, finish, piece, tokenize-Tiles}
use apex_exec.Parser
use apex_exec.Parser.{Parser, validate_token_stream}
use apex_exec.Parser.Stream.{IsStream, end, next, validate_token_stream_iff}

Tiles-IsStream :
    (is_whitespace : ℕ → Bool) (source_id : SourceId) {start : ℕ} {text : Text} (from : ℕ)
    {tokens : List Token}
    → from ≤ start
    → Tiles is_whitespace source_id start text tokens
    → IsStream source_id.id from tokens
unfolding new_in
Tiles-IsStream w id from h (finish _ k _ s) =
    end (ap (λ (x : Span). x.source_id.id) s) (ground arith) (ground arith) (rw k refl)
Tiles-IsStream w id from h (piece _ _ _ _ _ _ k _ s later) =
    next (ap (λ (x : Span). x.source_id.id) s) (ground arith) (ground arith) (Spells-not_eof _ _ k)
      (Tiles-IsStream w id _ (ground arith) later)

pub tokenize-done-Tiles :
    (is_whitespace : ℕ → Bool) (source : Text) (source_id : SourceId) (tokens : List Token)
    → tokenize is_whitespace source source_id ≡ done tokens
    → Tiles is_whitespace source_id 0 source tokens
tokenize-done-Tiles w source id tokens h = rw h at (tokenize-Tiles w id source)

-- The parser accepts the tokens of every source that the lexer accepts, and starts at the first.
pub new-tokenize :
    (is_whitespace : ℕ → Bool) (source : Text) (source_id : SourceId) (tokens : List Token)
    → tokenize is_whitespace source source_id ≡ done tokens
    → Parser.new tokens ≡ inl (record { tokens = tokens; cursor = 0 })
unfolding Parser.new
new-tokenize w source id tokens h =
    let tiles = tokenize-done-Tiles w source id tokens h in
    rw ((validate_token_stream_iff tokens).1 (id.id, Tiles-IsStream w id 0 (omega arith) tiles))
      refl
