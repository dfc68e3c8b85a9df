-- ===== src/Lexer/Lexemes.antt =====
-- `next_token` of src/lexer.rs reads a lexeme.
use apex_exec.Prelude.{
  ℕ, ◌≡◌, refl, ap, sym, inl, inr, true, false, Option, none, some, [], ◌∷◌, ◌++◌, leb, ◌==◌,
  ==_iff, Bool-cases, and_parts, OfSome,
}
use apex_exec.Prelude.Text.{Text}
use apex_exec.Prelude.Int.{ℤ, pos}
use apex_exec.Diagnostic.{Diagnostic}
use apex_exec.Lexer.{
  Lexer, Lexed, done, failed, exhausted, ◌>>=◌, after, bump_while, is_identifier_start,
  is_identifier_continue, is_ascii_digit, span_to, lexeme_to,
}
use apex_exec.Lexer.Token
use apex_exec.Lexer.Token.{Token, TokenKind}
use apex_exec.Lexer.Scan.{
  token_to, number_token, other_token, or_other, next_token, literal_in, bump, starts_fraction,
  starts_long, i64_max, i128_max, digits_value,
}
use apex_exec.Lexer.Advance.{
  Consumes, Consumes-append, Consumes-cons, Consumes-after, lexeme_to-Consumes, bump_while-Consumes,
}
use apex_exec.Lexer.Spelling.{Spells, Unescapes}
use mathlib.Core.Path.{subst}
use apex_exec.Lexer.Symbols.{word_kind}
use apex_exec.Lexer.Moves.{Moves, symbol_kind-Moves, word_kind-Spells}
use apex_exec.Lexer.Strings.{ReadsString, string_from-ReadsString}

-- A token that is not the end, and is the text between two positions.
pub record IsLexeme (s : Lexer) (token : Token) (t : Lexer) : Type 0 where
  pub first : ℕ
  pub others : Text
  pub consumes : Consumes s.remaining (first ∷ others) s t
  pub lexeme : token.lexeme ≡ first ∷ others
  pub span : token.span ≡ span_to s t
  pub spells : Spells token.kind (first ∷ others)

abbrev pub Lexes : Lexer → Lexed (Token × Lexer) → Type 0
Lexes s (done (token, t)) = IsLexeme s token t
Lexes s (failed d) = Unit
Lexes s exhausted = ⊥

token_to-IsLexeme :
    (c : ℕ) (p : Text) (s t : Lexer) (kind : TokenKind)
    → Consumes s.remaining (c ∷ p) s t
    → Spells kind (c ∷ p)
    → Lexes s (done (token_to s t kind))
token_to-IsLexeme c p s t kind a h = record {
  first = c;
  others = p;
  consumes = a;
  lexeme = lexeme_to-Consumes a;
  span = refl;
  spells = h;
}

string_token-Lexes :
    (c : ℕ) (start : Lexer) (cs : Text) (r : Lexed (Text × Lexer))
    → start.remaining ≡ c ∷ cs
    → c ≡ b'\''
    → ReadsString false [] cs (after c cs start) r
    → Lexes start (r >>= λ (value, t). done (token_to start t (Token.string_literal value)))
string_token-Lexes c start cs (done (value, t)) e q h =
    token_to-IsLexeme c (h.body ++ b'\'' ∷ []) start t (Token.string_literal value)
      (rw e (Consumes-cons h.consumes))
      (
        h.body,
        ap (λ (d : ℕ). d ∷ h.body ++ b'\'' ∷ []) q,
        subst (Unescapes h.body) (sym h.grows) h.meaning,
      )
string_token-Lexes c start cs (failed d) e q h = tt
string_token-Lexes c start cs exhausted e q h = absurd h

literal-Lexes :
    (n limit : ℕ) (d : Diagnostic) (kind : ℤ → TokenKind) (c : ℕ) (p : Text) (start t : Lexer)
    → Consumes start.remaining (c ∷ p) start t
    → Spells (kind (pos n)) (c ∷ p)
    → Lexes start (literal_in n limit d >>= λ z. done (token_to start t (kind z)))
literal-Lexes n limit d kind c p start t a h = elim (Bool-cases (leb n limit)) [
  | inl within ↦ rw within (token_to-IsLexeme c p start t (kind (pos n)) a h)
  | inr beyond ↦ rw beyond tt
]

starts_fraction-bump :
    (text : Text) (s : Lexer)
    → starts_fraction text ≡ true
    → Consumes text (b'.' ∷ []) s (bump text s)
starts_fraction-bump [] s h = cc
starts_fraction-bump (c ∷ []) s h = cc
starts_fraction-bump (c ∷ d ∷ cs) s h =
    let (p, q) = and_parts (c == b'.') (is_ascii_digit d) h in
    rw ((==_iff c b'.').0 p) (Consumes-after b'.' (d ∷ cs) s)

starts_long-bump :
    (text : Text) (s : Lexer)
    → starts_long text ≡ true
    → (c : ℕ) × Consumes text (c ∷ []) s (bump text s)
starts_long-bump [] s h = cc
starts_long-bump (c ∷ cs) s h = (c, Consumes-after c cs s)

number_token-Lexes :
    (c : ℕ) (cs : Text) (start : Lexer)
    → start.remaining ≡ c ∷ cs
    → is_ascii_digit c ≡ true
    → Lexes start (number_token start (after c cs start))
unfolding number_token
number_token-Lexes c cs start e digit =
    let s = after c cs start in
    let s1 = bump_while is_ascii_digit cs s in
    let (p, a, pass, _) = bump_while-Consumes is_ascii_digit cs s in
    let digits : Consumes start.remaining (c ∷ p) start s1 = rw e (Consumes-cons a) in
    let value : pos (digits_value 0 (lexeme_to start s1)) ≡ pos (digits_value 0 (c ∷ p)) =
      ap (λ text. pos (digits_value 0 text)) (lexeme_to-Consumes digits) in
    elim (Bool-cases (starts_fraction s1.remaining)) [
      | inl point ↦
          let dot = bump s1.remaining s1 in
          let s2 = bump_while is_ascii_digit dot.remaining dot in
          let (q, b, _, _) = bump_while-Consumes is_ascii_digit dot.remaining dot in
          let all : Consumes start.remaining (c ∷ (p ++ b'.' ∷ q)) start s2 =
            Consumes-append digits
              (Consumes-append (starts_fraction-bump s1.remaining s1 point) b) in
          rw (number_token, point)
            (token_to-IsLexeme c (p ++ b'.' ∷ q) start s2 _ all (lexeme_to-Consumes all))
      | inr whole ↦ elim (Bool-cases (starts_long s1.remaining)) [
        | inl long ↦
            let (l, b) = starts_long-bump s1.remaining s1 long in
            rw (number_token, whole, long)
              (literal-Lexes _ i128_max _ Token.long_literal c (p ++ l ∷ []) start _
                (Consumes-append digits b) (c ∷ p, l, refl, (digit, pass), value))
        | inr short ↦
            rw (number_token, whole, short)
              (literal-Lexes _ i64_max _ Token.integer_literal c p start s1 digits
                ((digit, pass), value))
      ]
    ]

other_token-Lexes :
    (c : ℕ) (cs : Text) (start : Lexer)
    → start.remaining ≡ c ∷ cs
    → Lexes start (other_token c start (after c cs start))
unfolding other_token
other_token-Lexes c cs start e =
    let s = after c cs start in
    elim (Bool-cases (c == b'\'')) [
      | inl quote ↦
          rw (other_token, quote)
            (string_token-Lexes c start cs _ e ((==_iff c b'\'').0 quote)
              (string_from-ReadsString start false [] cs s))
      | inr a ↦ elim (Bool-cases (is_identifier_start c)) [
        | inl letter ↦
            let (p, w, _, _) = bump_while-Consumes is_identifier_continue cs s in
            let t = bump_while is_identifier_continue cs s in
            let word : Consumes start.remaining (c ∷ p) start t = rw e (Consumes-cons w) in
            rw (other_token, a, letter)
              (token_to-IsLexeme c p start t _ word (
                subst (λ text. Spells (word_kind text) (c ∷ p)) (sym (lexeme_to-Consumes word))
                  (word_kind-Spells (c ∷ p))))
        | inr b ↦ elim (Bool-cases (is_ascii_digit c)) [
          | inl digit ↦ rw (other_token, a, b, digit) (number_token-Lexes c cs start e digit)
          | inr d ↦ elim (Bool-cases (c == b'"')) [
            | inl double ↦ rw (other_token, a, b, d, double) tt
            | inr unknown ↦ rw (other_token, a, b, d, unknown) tt
          ]
        ]
      ]
    ]

symbol-Lexes :
    (c : ℕ) (cs : Text) (start : Lexer) (o : Option (TokenKind × Lexer))
    → start.remaining ≡ c ∷ cs
    → OfSome (Moves (c ∷ []) (after c cs start)) o
    → (r : Lexed (Token × Lexer)) → Lexes start r
    → Lexes start (or_other start o r)
symbol-Lexes c cs start none e m r h = h
symbol-Lexes c cs start (some (kind, t)) e m r h =
    token_to-IsLexeme c m.prefix start t kind (rw e (Consumes-cons m.consumes)) m.spells

pub next_token-Lexes :
    (c : ℕ) (cs : Text) (start : Lexer)
    → start.remaining ≡ c ∷ cs
    → Lexes start (next_token c cs start)
unfolding next_token
next_token-Lexes c cs start e =
    symbol-Lexes c cs start _ e (symbol_kind-Moves c (after c cs start)) _
      (other_token-Lexes c cs start e)
