-- ===== src/Lexer/Moves.antt =====
-- The symbols and keywords of src/lexer.rs: what they consume, and that it spells their kind.
use apex_exec.Prelude.{
  ℕ, ◌≡◌, refl, sym, inl, inr, Option, none, some, [], ◌∷◌, ◌++◌, All, ◌==◌, arith, ==_iff,
  Bool-cases, Option-cases, OfSome,
}
use mathlib.Core.List.{append_assoc}
use mathlib.Core.Path.{subst}
use apex_exec.Prelude.Text.{Text, lowercase}
use apex_exec.Prelude.Map.{get, get-OfSome, text_key}
use apex_exec.Lexer.{Lexer, take_char}
use apex_exec.Lexer.Token.{TokenKind}
use apex_exec.Lexer.Token
use apex_exec.Lexer.Symbols.{
  Extensions, char_key, take_extension, or_take, less_token_kind, greater_token_kind,
  extension_kind, or_single, symbol_kind, word_kind, or_identifier, keywords, single_symbols,
  extended_symbols,
}
use apex_exec.Lexer.Advance.{Consumes, Consumes-nil, Consumes-append, take_char-Consumes}
use apex_exec.Lexer.Spelling.{Spells}

-- The characters that a kind takes after those that were read, all of which spell it.
pub record Moves (before : Text) (s : Lexer) (r : TokenKind × Lexer) : Type 0 where
  pub prefix : Text
  pub consumes : Consumes s.remaining prefix s r.1
  pub spells : Spells r.0 (before ++ prefix)

Moves-stay :
    (before : Text) (kind : TokenKind) (s : Lexer)
    → Spells kind (before ++ [])
    → Moves before s (kind, s)
Moves-stay before kind s h = record {
  prefix = [];
  consumes = Consumes-nil s.remaining s;
  spells = h;
}

AllSpell : Text → Extensions → Type 0
AllSpell before = All (λ e. Spells e.1 (before ++ e.0 ∷ []))

take_extension-Moves :
    (before : Text) (extensions : Extensions) (kind : TokenKind) (s : Lexer)
    → AllSpell before extensions
    → Spells kind (before ++ [])
    → Moves before s (take_extension extensions kind s)
unfolding take_extension AllSpell
take_extension-Moves before [] kind s h k = Moves-stay before kind s k
take_extension-Moves before ((c, extended) ∷ more) kind s (h, hs) k =
    elim (Option-cases (take_char c s.remaining s)) [
      | inl stays ↦ rw (take_extension, stays) (take_extension-Moves before more kind s hs k)
      | inr (t, moves) ↦
          rw (take_extension, moves)
            (record {
              prefix = c ∷ [];
              consumes = take_char-Consumes c s.remaining s t moves;
              spells = h;
            })
    ]

or_take-Moves :
    (before : Text) (c : ℕ) (f g : Lexer → TokenKind × Lexer)
    → ((s : Lexer) → Moves (before ++ c ∷ []) s (f s))
    → ((s : Lexer) → Moves before s (g s))
    → (s : Lexer) → Moves before s (or_take c f g s)
or_take-Moves before c f g hf hg s = elim (Option-cases (take_char c s.remaining s)) [
  | inl stays ↦ rw (or_take, stays) (hg s)
  | inr (t, moves) ↦
      let m = hf t in
      rw (or_take, moves)
        (record {
          prefix = c ∷ m.prefix;
          consumes = Consumes-append (take_char-Consumes c s.remaining s t moves) m.consumes;
          spells = subst (Spells (f t).0) (append_assoc before (c ∷ []) m.prefix) m.spells;
        })
]

one_extension-Moves :
    (before : Text) (c : ℕ) (extended kind : TokenKind)
    → Spells extended (before ++ c ∷ [])
    → Spells kind (before ++ [])
    → (s : Lexer) → Moves before s (take_extension ((c, extended) ∷ []) kind s)
unfolding AllSpell
one_extension-Moves before c extended kind h k s =
    take_extension-Moves before ((c, extended) ∷ []) kind s (h, tt) k

less_token_kind-Moves : (s : Lexer) → Moves (b'<' ∷ []) s (less_token_kind s)
unfolding less_token_kind
less_token_kind-Moves =
    or_take-Moves (b'<' ∷ []) b'<' _ _
      (one_extension-Moves (b'<' ∷ b'<' ∷ []) b'=' Token.shift_left_equal Token.shift_left refl
        refl)
      (one_extension-Moves (b'<' ∷ []) b'=' Token.less_equal Token.less refl refl)

greater_token_kind-Moves : (s : Lexer) → Moves (b'>' ∷ []) s (greater_token_kind s)
unfolding greater_token_kind
greater_token_kind-Moves =
    or_take-Moves (b'>' ∷ []) b'>' _ _
      (or_take-Moves (b'>' ∷ b'>' ∷ []) b'>' _ _
        (one_extension-Moves (b'>' ∷ b'>' ∷ b'>' ∷ []) b'=' Token.unsigned_shift_right_equal
          Token.unsigned_shift_right refl refl)
        (one_extension-Moves (b'>' ∷ b'>' ∷ []) b'=' Token.shift_right_equal Token.shift_right refl
          refl))
      (one_extension-Moves (b'>' ∷ []) b'=' Token.greater_equal Token.greater refl refl)

-- A kind that every text in a word's letters spells, in any case of them.
KeySpells : Text → TokenKind → Type 0
KeySpells key kind = (text : Text) → lowercase text ≡ key → Spells kind text

or_identifier-Spells :
    (text : Text) (o : Option TokenKind)
    → OfSome (KeySpells (lowercase text)) o
    → Spells (or_identifier text o) text
unfolding KeySpells
or_identifier-Spells text none h = refl
or_identifier-Spells text (some kind) h = h text refl

keywords-Spell : All (λ entry. KeySpells entry.0 entry.1) keywords
unfolding KeySpells
keywords-Spell = search

pub word_kind-Spells : (text : Text) → Spells (word_kind text) text
unfolding word_kind
word_kind-Spells text =
    or_identifier-Spells text (get (lowercase text) keywords)
      (get-OfSome KeySpells (lowercase text) keywords keywords-Spell)

ExtensionsSpell : ℕ → Extensions × TokenKind → Type 0
ExtensionsSpell c e = AllSpell (c ∷ []) e.0 × Spells e.1 (c ∷ [])

extension_kind-Moves :
    (c : ℕ) (o : Option (Extensions × TokenKind)) (s : Lexer)
    → OfSome (ExtensionsSpell c) o
    → OfSome (Moves (c ∷ []) s) (extension_kind o s)
unfolding ExtensionsSpell
extension_kind-Moves c none s h = tt
extension_kind-Moves c (some (extensions, kind)) s (h, k) =
    take_extension-Moves (c ∷ []) extensions kind s h k

or_single-Moves :
    (c : ℕ) (o : Option TokenKind) (s : Lexer) (rest : Option (TokenKind × Lexer))
    → OfSome (λ kind. Spells kind (c ∷ [])) o
    → OfSome (Moves (c ∷ []) s) rest
    → OfSome (Moves (c ∷ []) s) (or_single o s rest)
or_single-Moves c none s rest h k = k
or_single-Moves c (some kind) s rest h k = Moves-stay (c ∷ []) kind s h

pub symbol_kind-Moves : (c : ℕ) (s : Lexer) → OfSome (Moves (c ∷ []) s) (symbol_kind c s)
unfolding symbol_kind AllSpell ExtensionsSpell
symbol_kind-Moves c s = elim (Bool-cases (c == b'<')) [
  | inl less ↦ rw less (
      subst (λ d. Moves (d ∷ []) s (less_token_kind s)) (sym ((==_iff c b'<').0 less))
        (less_token_kind-Moves s))
  | inr other ↦ elim (Bool-cases (c == b'>')) [
    | inl greater ↦
        rw (other, greater)
          (subst (λ d. Moves (d ∷ []) s (greater_token_kind s)) (sym ((==_iff c b'>').0 greater))
            (greater_token_kind-Moves s))
    | inr neither ↦
        rw (other, neither)
          (or_single-Moves c _ s _
            (get-OfSome (λ d kind. Spells kind (d ∷ [])) c single_symbols (ground arith))
            (extension_kind-Moves c _ s
              (get-OfSome ExtensionsSpell c extended_symbols (ground arith))))
  ]
]
