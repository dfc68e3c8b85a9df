-- ===== src/Parser.antt =====
-- src/parser.rs: the stream of tokens that the parser reads. The nested types that a class
-- declaration leaves for later are left out.
pub mod Stream
pub mod Input
pub mod Types
pub mod TypeNames
pub mod Lookahead
pub mod Primary
pub mod Queries
pub mod Operand
pub mod Expressions
pub mod Total
mod Examples
pub mod Reads
use apex_exec.Prelude.{
  ℕ, zero, suc, ◌+◌, ◌-◌, min, ◌⊎◌, inl, inr, Bool, true, false, not, ◌&&◌, ◌||◌, Option, none,
  some, List, [], ◌∷◌, length, get_elem?, ltb, ◌==◌, if◌then◌else◌,
}
use apex_exec.Prelude.Text.{Text, eq_ignore_case, lowercase}
use apex_exec.Span.{SourceId, Span}
use apex_exec.Diagnostic
use apex_exec.Diagnostic.{Diagnostic}
use apex_exec.Ast.Types.{Identifier, identifier}
use apex_exec.Lexer.Token
use apex_exec.Lexer.Token.{Token, TokenKind, is_eof, same_variant}

pub data TokenStreamErrorKind : Type 0 where
  empty missing_eof interior_eof mixed_source reversed_span non_monotonic_span overlapping_span :
      TokenStreamErrorKind

pub record TokenStreamError : Type 0 where
  pub kind : TokenStreamErrorKind
  pub offending_span : Option Span

abbrev pub rejected : TokenStreamErrorKind → Span → Option TokenStreamError
rejected kind span = some (record { kind = kind; offending_span = some span })

-- `if let Some(previous_span) = previous { … }`
abbrev pub check_order : Option Span → Span → Option TokenStreamError
check_order none span = none
check_order (some previous) span =
    if ltb span.start previous.start
    then rejected non_monotonic_span span
    else if ltb span.start previous.stop
    then rejected overlapping_span span
    else none

abbrev pub or_else : Option TokenStreamError → Option TokenStreamError → Option TokenStreamError
or_else none later = later
or_else (some e) later = some e

-- The loop over the tokens.
unfoldable pub check_spans : SourceId → Option Span → List Token → Option TokenStreamError
check_spans source previous [] = none
check_spans source previous (token ∷ tokens) =
    let rest = check_spans source (some token.span) tokens in
    if not (token.span.source_id.id == source.id)
    then rejected mixed_source token.span
    else if ltb token.span.stop token.span.start
    then rejected reversed_span token.span
    else or_else (check_order previous token.span) rest

-- The first end among the tokens.
unfoldable pub find_eof : List Token → Option Span
find_eof [] = none
find_eof (token ∷ tokens) = if is_eof token.kind then some token.span else find_eof tokens

abbrev pub last_of : Token → List Token → Token
last_of token [] = token
last_of token (next ∷ tokens) = last_of next tokens

-- All but the last.
abbrev pub before_last : Token → List Token → List Token
before_last token [] = []
before_last token (next ∷ tokens) = token ∷ before_last next tokens

abbrev pub interior_or : Option Span → Option TokenStreamError → Option TokenStreamError
interior_or none other = other
interior_or (some span) other = rejected interior_eof span

unfoldable pub check_end : Token → List Token → Option TokenStreamError
unfolding find_eof
check_end first rest =
    let last = last_of first rest in
    if is_eof last.kind
    then interior_or (find_eof (before_last first rest)) none
    else interior_or (find_eof (first ∷ rest)) (rejected missing_eof last.span)

-- `none` is `Ok(())`.
unfoldable pub validate_token_stream : List Token → Option TokenStreamError
unfolding check_spans check_end
validate_token_stream [] = some (record { kind = empty; offending_span = none })
validate_token_stream (first ∷ rest) =
    or_else (check_spans first.span.source_id none (first ∷ rest)) (check_end first rest)

pub record Parser : Type 0 where
  pub tokens : List Token
  pub cursor : ℕ

abbrev pub accept : List Token → Option TokenStreamError → Parser ⊎ TokenStreamError
accept tokens none = inl (record { tokens = tokens; cursor = 0 })
accept tokens (some e) = inr e

-- `Parser::new`: the parser, or the error.
unfoldable pub new : List Token → Parser ⊎ TokenStreamError
unfolding validate_token_stream
new tokens = accept tokens (validate_token_stream tokens)

-- What a method of the parser does: `Result<A, Diagnostic>` with the parser after it, a panic, or
-- fuel that ran out.
pub data Parsed (A : Type 0) : Type 0 where
  done : A → Parser → Parsed A
  failed : Diagnostic → Parser → Parsed A
  panicked : Parsed A
  exhausted : Parsed A

abbrev pub M : Type 0 → Type 0
M A = Parser → Parsed A

abbrev pub then_with : {A B : Type 0} → Parsed A → (A → M B) → Parsed B
then_with (done a p) f = f a p
then_with (failed d p) f = failed d p
then_with panicked f = panicked
then_with exhausted f = exhausted

infixl 5 ◌>>=◌ ◌>>◌
abbrev pub ◌>>=◌ : {A B : Type 0} → M A → (A → M B) → M B
◌>>=◌ m f p = then_with (m p) f

abbrev pub ◌>>◌ : {A B : Type 0} → M A → M B → M B
m >> k = m >>= λ _. k

abbrev pub pure : {A : Type 0} → A → M A
pure a p = done a p

abbrev pub fail : {A : Type 0} → Text → Span → M A
fail message span p = failed (Diagnostic.new message span) p

-- A value that is there, or a panic.
abbrev pub expect : {A : Type 0} → Option A → M A
expect none p = panicked
expect (some a) p = done a p

-- `self.tokens[index.min(self.tokens.len() - 1)]`; there is none of an empty list.
unfoldable pub token_at : ℕ → M Token
token_at index p = expect (get_elem? p.tokens (min index (length p.tokens - 1))) p

unfoldable pub peek : ℕ → M Token
unfolding token_at
peek offset p = token_at (p.cursor + offset) p

unfoldable pub current : M Token
unfolding peek
current = peek 0

-- The step of the cursor, which stays at the last token.
abbrev pub step : M (Unit {0})
step p =
    done tt (if ltb (p.cursor + 1) (length p.tokens) then record p { cursor = p.cursor + 1 } else p)

unfoldable pub advance : M Token
unfolding current
advance = do token ← current; step; pure token

unfoldable pub check : TokenKind → M Bool
unfolding current
check expected = do token ← current; pure (same_variant token.kind expected)

abbrev pub is_keyword : Text → TokenKind → Bool
is_keyword expected (Token.identifier spelling) = eq_ignore_case spelling expected
is_keyword expected _ = false

unfoldable pub check_keyword : Text → M Bool
unfolding current
check_keyword expected = do token ← current; pure (is_keyword expected token.kind)

abbrev pub identifier_of : Text → Span → TokenKind → M Identifier
identifier_of message span (Token.identifier spelling) = do advance; pure (identifier spelling span)
identifier_of message span _ = fail message span

unfoldable pub expect_identifier : Text → M Identifier
unfolding current advance identifier Diagnostic.new
expect_identifier message = do token ← current; identifier_of message token.span token.kind

abbrev pub advance_if : Bool → Text → M Token
advance_if true message = advance
advance_if false message = do token ← current; fail message token.span

unfoldable pub expect_simple : TokenKind → Text → M Token
unfolding check current advance
expect_simple expected message = do found ← check expected; advance_if found message

unfoldable pub expect_keyword : Text → Text → M Token
unfolding check_keyword current advance
expect_keyword expected message = do found ← check_keyword expected; advance_if found message
