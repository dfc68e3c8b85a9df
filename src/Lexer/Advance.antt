-- ===== src/Lexer/Advance.antt =====
-- What a lexer of src/lexer.rs consumes: the characters between two of its positions.
use apex_exec.Prelude.{
  ℕ, ◌+◌, ◌-◌, ◌≡◌, refl, sym, ap, ◌∙◌, inl, inr, Bool, true, false, some, [], ◌∷◌, ◌++◌, length,
  arith, Bool-cases, length-append, take-append,
}
use mathlib.Core.List.{append_assoc}
use apex_exec.Prelude.Text.{Text}
use apex_exec.Lexer.{Lexer, bytes, after, lexeme_to, bump_while, take_char}

pub bytes-append : (p q : Text) → bytes (p ++ q) ≡ bytes p + bytes q
unfolding bytes
bytes-append [] q = omega arith
bytes-append (c ∷ p) q = omega (arith, bytes-append p q)

-- From a lexer at a text to another, past a prefix of the text.
pub record Consumes (text p : Text) (s t : Lexer) : Type 0 where
  pub split : text ≡ p ++ t.remaining
  pub moved : t.cursor ≡ s.cursor + bytes p
  pub same_source : t.source_id ≡ s.source_id

module _ {text p q : Text} {s t u : Lexer} where
  pub Consumes-append :
      Consumes text p s t → Consumes t.remaining q t u → Consumes text (p ++ q) s u
  Consumes-append a b = record {
    split = a.split ∙ ap (λ (r : Text). p ++ r) b.split ∙ sym (append_assoc p q u.remaining);
    moved = omega (arith, a.moved, b.moved, bytes-append p q);
    same_source = b.same_source ∙ a.same_source;
  }

-- The lexeme between two positions is what was consumed.
pub lexeme_to-Consumes : {p : Text} {s t : Lexer} → Consumes s.remaining p s t → lexeme_to s t ≡ p
lexeme_to-Consumes {p} {s} {t} a =
    rw (a.split, length-append p t.remaining)
      (take-append (length p + length t.remaining - length t.remaining) p t.remaining (omega arith))

pub Consumes-nil : (text : Text) (s : Lexer) → Consumes text [] s (record s { remaining = text })
unfolding bytes
Consumes-nil text s = record { split = refl; moved = omega arith; same_source = refl }

pub Consumes-after : (c : ℕ) (cs : Text) (s : Lexer) → Consumes (c ∷ cs) (c ∷ []) s (after c cs s)
unfolding bytes
Consumes-after c cs s = record { split = refl; moved = omega arith; same_source = refl }

pub Consumes-cons :
    {c : ℕ} {cs p : Text} {s t : Lexer}
    → Consumes cs p (after c cs s) t
    → Consumes (c ∷ cs) (c ∷ p) s t
Consumes-cons {c} {cs} {p} {s} {t} a = Consumes-append (Consumes-after c cs s) a

pub length-Consumes :
    {text p : Text} {s t : Lexer}
    → Consumes text p s t
    → length text ≡ length p + length t.remaining
length-Consumes {p = p} {t = t} a = rw a.split (length-append p t.remaining)

abbrev pub AllPass : (ℕ → Bool) → Text → Type 0
AllPass test [] = Unit
AllPass test (c ∷ cs) = (test c ≡ true) × AllPass test cs

abbrev pub Stops : (ℕ → Bool) → Text → Type 0
Stops test [] = Unit
Stops test (c ∷ cs) = test c ≡ false

-- A loop consumes the characters that pass its test, up to the first that does not.
pub bump_while-Consumes :
    (test : ℕ → Bool) (text : Text) (s : Lexer)
    → (p : Text) × Consumes text p s (bump_while test text s)
      × AllPass test p
      × Stops test (bump_while test text s).remaining
unfolding bump_while
bump_while-Consumes test [] s = ([], Consumes-nil [] s, tt, tt)
bump_while-Consumes test (c ∷ cs) s =
    let (p, a, h, k) = bump_while-Consumes test cs (after c cs s) in
    elim (Bool-cases (test c)) [
      | inl pass ↦ (c ∷ p, rw pass (Consumes-cons a), (pass, h), rw pass k)
      | inr stop ↦ ([], rw stop (Consumes-nil (c ∷ cs) s), tt, rw stop stop)
    ]

pub take_char-Consumes :
    (c : ℕ) (text : Text) (s t : Lexer) → take_char c text s ≡ some t → Consumes text (c ∷ []) s t
take_char-Consumes c [] s t h = cc
take_char-Consumes c (d ∷ cs) s t h = ground (arith, Consumes-after d cs s)
