-- ===== src/Lexer.antt =====
-- src/lexer.rs. A source is the list of its characters; a lexer is at the characters that remain,
-- and its cursor counts the UTF-8 bytes before them. `char::is_whitespace` is a parameter.
pub mod Token
pub mod Symbols
pub mod Scan
mod Advance
pub mod Spelling
mod Moves
mod Trivia
mod Gaps
mod Strings
mod Lexemes
pub mod Tiles
mod Examples
use apex_exec.Prelude.{
  ℕ, zero, suc, ◌+◌, ◌-◌, ◌*◌, Bool, true, false, not, ◌&&◌, ◌||◌, Option, none, some, List, [],
  ◌∷◌, ◌++◌, length, take, drop, ltb, leb, ◌==◌, if◌then◌else◌,
}
use apex_exec.Prelude.Text.{Text}
use apex_exec.Span.{SourceId, Span, new_in}
use apex_exec.Diagnostic.{Diagnostic}

pub record Lexer : Type 0 where
  pub source_id : SourceId
  pub remaining : Text
  pub cursor : ℕ

-- `Result<A, Diagnostic>`, and fuel that ran out.
pub data Lexed (A : Type 0) : Type 0 where
  done : A → Lexed A
  failed : Diagnostic → Lexed A
  exhausted : Lexed A

infixl 5 ◌>>=◌
abbrev pub ◌>>=◌ : {A B : Type 0} → Lexed A → (A → Lexed B) → Lexed B
done a >>= f = f a
failed d >>= f = failed d
exhausted >>= f = exhausted

-- `char::len_utf8`
abbrev pub len_utf8 : ℕ → ℕ
len_utf8 c = if ltb c 128 then 1 else if ltb c 2048 then 2 else if ltb c 65536 then 3 else 4

-- The length of a text in bytes.
unfoldable pub bytes : Text → ℕ
bytes [] = 0
bytes (c ∷ cs) = len_utf8 c + bytes cs

unfoldable pub with_source : Text → SourceId → Lexer
with_source source source_id = record { source_id = source_id; remaining = source; cursor = 0 }

-- The lexer after a character, of which others remain.
abbrev pub after : ℕ → Text → Lexer → Lexer
after c cs s = record s { remaining = cs; cursor = s.cursor + len_utf8 c }

-- `span` from a lexer to a later one.
abbrev pub span_to : Lexer → Lexer → Span
span_to s t = new_in s.source_id s.cursor t.cursor

-- `&self.source[start..self.cursor]`
abbrev pub lexeme_to : Lexer → Lexer → Text
lexeme_to s t = take (length s.remaining - length t.remaining) s.remaining

-- `while self.peek().is_some_and(test) { self.bump(); }`, at the characters that remain.
unfoldable pub bump_while : (ℕ → Bool) → Text → Lexer → Lexer
bump_while test [] s = record s { remaining = [] }
bump_while test (c ∷ cs) s =
    if test c then bump_while test cs (after c cs s) else record s { remaining = c ∷ cs }

-- `take`: the lexer after the expected character, if it is next.
abbrev pub take_char : ℕ → Text → Lexer → Option Lexer
take_char expected [] s = none
take_char expected (c ∷ cs) s = if c == expected then some (after c cs s) else none

abbrev pub is_identifier_start : ℕ → Bool
is_identifier_start c = c == b'_' || (leb b'a' c && leb c b'z') || (leb b'A' c && leb c b'Z')

abbrev pub is_ascii_digit : ℕ → Bool
is_ascii_digit c = leb b'0' c && leb c b'9'

abbrev pub is_identifier_continue : ℕ → Bool
is_identifier_continue c = is_identifier_start c || is_ascii_digit c
