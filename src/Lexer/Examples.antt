-- ===== src/Lexer/Examples.antt =====
-- Sources and their tokens.
use apex_exec.Prelude.{ℕ, ◌≡◌, refl, Bool, ◌||◌, ◌==◌, List, [], ◌∷◌}
use apex_exec.Prelude.Text.{Text, codes}
use apex_exec.Prelude.Int.{pos}
use apex_exec.Span.{SourceId, new_in}
use apex_exec.Diagnostic
use apex_exec.Lexer.{Lexed, done, failed, exhausted}
use apex_exec.Lexer.Token
use apex_exec.Lexer.Token.{Token, TokenKind}
use apex_exec.Lexer.Scan.{tokenize}
use apex_exec.Lexer.Tiles.{TilesFrom, tokenize-Tiles}

abbrev white : ℕ → Bool
white c = c == b' ' || c == b'\n'

abbrev one : SourceId
one = record { id = 1 }

abbrev sum : Text
sum = codes "IF (a /* b */ <<= 2L) // end"

tokenize-Tiles_example : TilesFrom white one 0 sum (tokenize white sum one)
tokenize-Tiles_example = tokenize-Tiles white one sum

abbrev kinds : Lexed (List Token) → List TokenKind
kinds (done []) = []
kinds (done (token ∷ tokens)) = token.kind ∷ kinds (done tokens)
kinds (failed d) = []
kinds exhausted = []

kinds-sum :
    kinds (tokenize white sum one)
    ≡ Token.if_keyword
      ∷ Token.left_paren
      ∷ Token.identifier (codes "a")
      ∷ Token.shift_left_equal
      ∷ Token.long_literal (pos 2)
      ∷ Token.right_paren
      ∷ Token.eof
      ∷ []
unfolding tokenize
kinds-sum = refl

-- A string that a line ends.
broken_string :
    tokenize white (codes "x 'y\n'") one
    ≡ failed (Diagnostic.new (codes "unterminated string literal") (new_in one 2 5))
unfolding tokenize Diagnostic.new new_in
broken_string = refl

-- The largest integer literal, and the next number.
largest :
    kinds (tokenize white (codes "9223372036854775807") one)
    ≡ Token.integer_literal (pos 9223372036854775807) ∷ Token.eof ∷ []
unfolding tokenize
largest = refl

too_large :
    tokenize white (codes "9223372036854775808") one
    ≡ failed (Diagnostic.new (codes "integer literal is out of range") (new_in one 0 19))
unfolding tokenize Diagnostic.new new_in
too_large = refl
