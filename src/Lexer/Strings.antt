-- ===== src/Lexer/Strings.antt =====
-- The loop of `string_token` in src/lexer.rs.
use apex_exec.Prelude.{
  ℕ, ◌≡◌, refl, sym, ◌∙◌, inl, inr, Bool, true, false, ◌||◌, [], ◌∷◌, ◌++◌, ◌==◌, ==_iff,
  Bool-cases,
}
use apex_exec.Prelude.Text.{Text}
use apex_exec.Lexer.{Lexer, Lexed, done, failed, exhausted, after}
use apex_exec.Lexer.Scan.{string_from, unescape}
use apex_exec.Lexer.Advance.{Consumes, Consumes-cons, Consumes-after}
use apex_exec.Lexer.Spelling.{Unescapes, nothing, plain, escape}
use mathlib.Core.Path.{subst}
use mathlib.Core.List.{append_assoc, append-nil}

-- The value of the text between quotes, a backslash before which may have been read.
abbrev pub After : Bool → Text → Text → Type 0
After false body value = Unescapes body value
After true [] value = ⊥
After true (c ∷ body) value = (rest : Text) × (value ≡ unescape c ++ rest) × Unescapes body rest

-- The text up to the closing quote was read, and its value added.
pub record StringRead (escaped : Bool) (value text : Text) (s : Lexer) (value' : Text) (t : Lexer)
    : Type 0 where
  pub body : Text
  pub added : Text
  pub consumes : Consumes text (body ++ b'\'' ∷ []) s t
  pub grows : value' ≡ value ++ added
  pub meaning : After escaped body added

abbrev pub ReadsString : Bool → Text → Text → Lexer → Lexed (Text × Lexer) → Type 0
ReadsString escaped value text s (done (value', t)) = StringRead escaped value text s value' t
ReadsString escaped value text s (failed d) = Unit
ReadsString escaped value text s exhausted = ⊥

After-escape : (body value : Text) → After true body value → Unescapes (b'\\' ∷ body) value
After-escape [] value h = absurd h
After-escape (c ∷ body) value (rest, e, u) =
    subst (Unescapes (b'\\' ∷ c ∷ body)) (sym e) (escape c u)

-- A character more: its part of the value is one piece, before what the rest adds.
module _ (c : ℕ) (cs : Text) (s : Lexer) where
  escaped-cons :
      (value : Text) (r : Lexed (Text × Lexer))
      → ReadsString false (value ++ unescape c) cs (after c cs s) r
      → ReadsString true value (c ∷ cs) s r
  escaped-cons value (done (v, t)) h = record {
    body = c ∷ h.body;
    added = unescape c ++ h.added;
    consumes = Consumes-cons h.consumes;
    grows = h.grows ∙ append_assoc value (unescape c) h.added;
    meaning = (h.added, refl, h.meaning);
  }
  escaped-cons value (failed d) h = tt
  escaped-cons value exhausted h = absurd h

  backslash-cons :
      (value : Text) (r : Lexed (Text × Lexer))
      → c ≡ b'\\'
      → ReadsString true value cs (after c cs s) r
      → ReadsString false value (c ∷ cs) s r
  backslash-cons value (done (v, t)) e h = record {
    body = c ∷ h.body;
    added = h.added;
    consumes = Consumes-cons h.consumes;
    grows = h.grows;
    meaning =
        subst (λ d. Unescapes (d ∷ h.body) h.added) (sym e) (After-escape h.body h.added h.meaning);
  }
  backslash-cons value (failed d) e h = tt
  backslash-cons value exhausted e h = absurd h

  plain-cons :
      (value : Text) (r : Lexed (Text × Lexer))
      → (c == b'\'') ≡ false
      → (c == b'\n' || c == b'\r') ≡ false
      → (c == b'\\') ≡ false
      → ReadsString false (value ++ c ∷ []) cs (after c cs s) r
      → ReadsString false value (c ∷ cs) s r
  plain-cons value (done (v, t)) q l b h = record {
    body = c ∷ h.body;
    added = c ∷ h.added;
    consumes = Consumes-cons h.consumes;
    grows = h.grows ∙ append_assoc value (c ∷ []) h.added;
    meaning = plain c q b l h.meaning;
  }
  plain-cons value (failed d) q l b h = tt
  plain-cons value exhausted q l b h = absurd h

-- With the value read so far, the loop adds what the text up to the closing quote stands for.
pub string_from-ReadsString :
    (start : Lexer) (escaped : Bool) (value text : Text) (s : Lexer)
    → ReadsString escaped value text s (string_from start escaped value text s)
unfolding string_from
string_from-ReadsString start escaped value [] s = tt
string_from-ReadsString start true value (c ∷ cs) s =
    escaped-cons c cs s value _
      (string_from-ReadsString start false (value ++ unescape c) cs (after c cs s))
string_from-ReadsString start false value (c ∷ cs) s = elim (Bool-cases (c == b'\'')) [
  | inl quote ↦
      rw (string_from, quote)
        (record {
          body = [];
          added = [];
          consumes =
              subst (λ d. Consumes (d ∷ cs) (b'\'' ∷ []) s (after d cs s))
                (sym ((==_iff c b'\'').0 quote)) (Consumes-after b'\'' cs s);
          grows = sym (append-nil value);
          meaning = nothing;
        })
  | inr other ↦ elim (Bool-cases (c == b'\n' || c == b'\r')) [
    | inl line_end ↦ rw (string_from, other, line_end) tt
    | inr inside ↦ elim (Bool-cases (c == b'\\')) [
      | inl backslash ↦
          rw (string_from, other, inside, backslash)
            (backslash-cons c cs s value _ ((==_iff c b'\\').0 backslash)
              (string_from-ReadsString start true value cs (after c cs s)))
      | inr ordinary ↦
          rw (string_from, other, inside, ordinary)
            (plain-cons c cs s value _ other inside ordinary
              (string_from-ReadsString start false (value ++ c ∷ []) cs (after c cs s)))
    ]
  ]
]
