-- ===== src/Lexer/Scan.antt =====
-- The loops and the tokens of src/lexer.rs. The two loops that go on from where an inner one stops
-- run on fuel.
use apex_exec.Prelude.{
  ℕ, zero, suc, ◌+◌, ◌-◌, ◌*◌, Bool, true, false, not, ◌&&◌, ◌||◌, Option, none, some, List, [],
  ◌∷◌, ◌++◌, length, drop, leb, ◌==◌, if◌then◌else◌,
}
use apex_exec.Prelude.Int.{ℤ, pos}
use apex_exec.Prelude.Text.{Text, codes, lowercase}
use apex_exec.Prelude.Map.{get}
use apex_exec.Span.{SourceId, new_in}
use apex_exec.Diagnostic
use apex_exec.Diagnostic.{Diagnostic}
use apex_exec.Lexer.{
  Lexer, Lexed, done, failed, exhausted, ◌>>=◌, after, bytes, span_to, lexeme_to, bump_while,
  is_identifier_start, is_identifier_continue, is_ascii_digit, with_source,
}
use apex_exec.Lexer.Token
use apex_exec.Lexer.Token.{Token, TokenKind}
use apex_exec.Lexer.Symbols.{word_kind, symbol_kind}

-- `remaining().starts_with` of two characters
abbrev pub starts_with : ℕ → ℕ → Text → Bool
starts_with a b [] = false
starts_with a b (c ∷ []) = false
starts_with a b (c ∷ d ∷ cs) = c == a && d == b

-- The lexer past the two ASCII characters of a comment's sign.
abbrev pub past_sign : Lexer → Lexer
past_sign s = record s { remaining = drop 2 s.remaining; cursor = s.cursor + 2 }

-- `while !starts_with("*/") { bump }`; `none` is the end of the source.
unfoldable pub find_comment_end : Text → Lexer → Option Lexer
find_comment_end [] s = none
find_comment_end (c ∷ cs) s =
    if starts_with b'*' b'/' (c ∷ cs)
    then some (record s { remaining = c ∷ cs })
    else find_comment_end cs (after c cs s)

abbrev pub unterminated_comment : Lexer → Diagnostic
unterminated_comment s =
    Diagnostic.new (codes "unterminated block comment")
      (new_in s.source_id s.cursor (s.cursor + bytes s.remaining))

module _ (is_whitespace : ℕ → Bool) where
  unfoldable pub skip_trivia : ℕ → Lexer → Lexed Lexer
  unfolding Diagnostic.new new_in
  skip_trivia zero s = exhausted
  skip_trivia (suc fuel) s =
      let s1 = bump_while is_whitespace s.remaining s in
      elim (starts_with b'/' b'/' s1.remaining) [
        | true ↦ skip_trivia fuel (bump_while (λ c. not (c == b'\n')) s1.remaining s1)
        | false ↦ elim (starts_with b'/' b'*' s1.remaining) [
          | true ↦ elim (find_comment_end (drop 2 s1.remaining) (past_sign s1)) [
            | none ↦ failed (unterminated_comment s1)
            | some s2 ↦ skip_trivia fuel (past_sign s2)
          ]
          | false ↦ done s1
        ]
      ]

-- `token`, from the lexer before its first character to the one after its last.
abbrev pub token_to : Lexer → Lexer → TokenKind → Token × Lexer
token_to s t kind = (record { kind = kind; span = span_to s t; lexeme = lexeme_to s t }, t)

abbrev pub unescape : ℕ → Text
unescape c =
    if c == b'n'
    then b'\n' ∷ []
    else if c == b'r'
    then b'\r' ∷ []
    else if c == b't'
    then b'\t' ∷ []
    else if c == b'\''
    then b'\'' ∷ []
    else if c == b'\\'
    then b'\\' ∷ []
    else b'\\' ∷ c ∷ []

abbrev pub unterminated_string : Lexer → Lexer → Diagnostic
unterminated_string start s = Diagnostic.new (codes "unterminated string literal") (span_to start s)

-- The value grown by a character, which a backslash may stand before.
abbrev pub grown : Bool → ℕ → Text → Text
grown true c value = value ++ unescape c
grown false c value = if c == b'\\' then value else value ++ c ∷ []

-- The loop of `string_token`; the flag says that a backslash was read.
unfoldable pub string_from : Lexer → Bool → Text → Text → Lexer → Lexed (Text × Lexer)
unfolding Diagnostic.new new_in
string_from start escaped value [] s =
    failed (unterminated_string start (record s { remaining = [] }))
string_from start escaped value (c ∷ cs) s =
    if not escaped && c == b'\''
    then done (value, after c cs s)
    else if not escaped && (c == b'\n' || c == b'\r')
    then failed (unterminated_string start (after c cs s))
    else string_from start (not escaped && c == b'\\') (grown escaped c value) cs (after c cs s)

-- `str::parse` on digits
unfoldable pub digits_value : ℕ → Text → ℕ
digits_value n [] = n
digits_value n (c ∷ cs) = digits_value (n * 10 + (c - b'0')) cs

abbrev pub i64_max : ℕ
i64_max = 9223372036854775807

abbrev pub i128_max : ℕ
i128_max = 170141183460469231731687303715884105727

abbrev pub literal_in : ℕ → ℕ → Diagnostic → Lexed ℤ
literal_in n limit d = if leb n limit then done (pos n) else failed d

-- A point with a digit after it.
abbrev pub starts_fraction : Text → Bool
starts_fraction [] = false
starts_fraction (c ∷ []) = false
starts_fraction (c ∷ d ∷ cs) = c == b'.' && is_ascii_digit d

abbrev pub starts_long : Text → Bool
starts_long [] = false
starts_long (c ∷ cs) = c == b'l' || c == b'L'

-- `self.bump()` where a character is known to be next.
abbrev pub bump : Text → Lexer → Lexer
bump [] s = s
bump (c ∷ cs) s = after c cs s

-- The arm for digits: `s` is past the first.
unfoldable pub number_token : Lexer → Lexer → Lexed (Token × Lexer)
unfolding digits_value Diagnostic.new new_in
number_token start s =
    let s1 = bump_while is_ascii_digit s.remaining s in
    let text = lexeme_to start s1 in
    if starts_fraction s1.remaining
    then (let dot = bump s1.remaining s1 in
        let s2 = bump_while is_ascii_digit dot.remaining dot in
        done (token_to start s2 (Token.decimal_literal (lexeme_to start s2))))
    else if starts_long s1.remaining
    then (let s2 = bump s1.remaining s1 in
        do
          value ←
              literal_in (digits_value 0 text) i128_max
                (Diagnostic.new (codes "Long literal is out of range") (span_to start s2))
          done (token_to start s2 (Token.long_literal value)))
    else do
      value ←
          literal_in (digits_value 0 text) i64_max
            (Diagnostic.new (codes "integer literal is out of range") (span_to start s1))
      done (token_to start s1 (Token.integer_literal value))

-- The arms for what starts no symbol.
unfoldable pub other_token : ℕ → Lexer → Lexer → Lexed (Token × Lexer)
unfolding string_from number_token word_kind Diagnostic.new new_in
other_token c start s =
    if c == b'\''
    then (do
      (value, t) ← string_from start false [] s.remaining s
      done (token_to start t (Token.string_literal value)))
    else if is_identifier_start c
    then (let t = bump_while is_identifier_continue s.remaining s in
        done (token_to start t (word_kind (lexeme_to start t))))
    else if is_ascii_digit c
    then number_token start s
    else if c == b'"'
    then failed
        (Diagnostic.new (codes "Apex string literals must use single quotes") (span_to start s))
    else failed (Diagnostic.new (codes "unexpected character `" ++ c ∷ codes "`") (span_to start s))

abbrev pub or_other :
    Lexer → Option (TokenKind × Lexer) → Lexed (Token × Lexer) → Lexed (Token × Lexer)
or_other start none other = other
or_other start (some (kind, t)) other = done (token_to start t kind)

-- `next_token` of a lexer whose next character is `c`.
unfoldable pub next_token : ℕ → Text → Lexer → Lexed (Token × Lexer)
unfolding symbol_kind other_token
next_token c cs start =
    or_other start (symbol_kind c (after c cs start)) (other_token c start (after c cs start))

abbrev pub eof_token : Lexer → Token
eof_token s = record { kind = Token.eof; span = span_to s s; lexeme = [] }

-- The end, or a token and what comes later.
abbrev pub token_or_end : (Lexer → Lexed (List Token)) → Text → Lexer → Lexed (List Token)
token_or_end later [] s = done (eof_token s ∷ [])
token_or_end later (c ∷ cs) s = do
  (token, t) ← next_token c cs s
  rest ← later t
  done (token ∷ rest)

module _ (is_whitespace : ℕ → Bool) where
  -- The loop of `tokenize`.
  unfoldable pub tokens_from : ℕ → Lexer → Lexed (List Token)
  tokens_from zero s = exhausted
  tokens_from (suc fuel) s = do
    t ← skip_trivia is_whitespace (suc (length s.remaining)) s
    token_or_end (tokens_from fuel) t.remaining t

  unfoldable pub tokenize : Text → SourceId → Lexed (List Token)
  unfolding tokens_from skip_trivia bump_while find_comment_end next_token with_source get lowercase
      bytes
  tokenize source source_id = tokens_from (suc (length source)) (with_source source source_id)
