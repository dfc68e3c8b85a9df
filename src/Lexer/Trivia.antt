-- ===== src/Lexer/Trivia.antt =====
-- The trivia of src/lexer.rs: a grammar of white space and comments, and that the loop reads it.
use apex_exec.Prelude.{
  ℕ, ◌≡◌, refl, inl, inr, Bool, true, false, not, ◌||◌, Option, none, some, [], ◌∷◌, ◌++◌, drop,
  ◌==◌, arith, ==_iff, Bool-cases, and_parts, OfSome,
}
use apex_exec.Prelude.Text.{Text}
use apex_exec.Lexer.{Lexer, bytes, after, bump_while}
use apex_exec.Lexer.Scan.{starts_with, past_sign, find_comment_end}
use apex_exec.Lexer.Advance.{
  Consumes, Consumes-nil, Consumes-cons, AllPass, Stops, bump_while-Consumes,
}

starts_with-split :
    (a b : ℕ) (text : Text) → starts_with a b text ≡ true → text ≡ a ∷ b ∷ drop 2 text
starts_with-split a b [] h = cc
starts_with-split a b (c ∷ []) h = cc
starts_with-split a b (c ∷ d ∷ cs) h =
    let (p, q) = and_parts (c == a) (d == b) h in rw ((==_iff c a).0 p, (==_iff d b).0 q)

abbrev pub not_newline : ℕ → Bool
not_newline c = not (c == b'\n')

-- No sign `*/` stands in the body of a comment, the text after it in view.
abbrev pub IsBody : Text → Text → Type 0
IsBody [] rest = Unit
IsBody (c ∷ body) rest = (starts_with b'*' b'/' (c ∷ body ++ rest) ≡ false) × IsBody body rest

pub line_comment-Consumes :
    (text : Text) (s : Lexer)
    → starts_with b'/' b'/' text ≡ true
    → (body : Text) × Consumes text (b'/' ∷ b'/' ∷ body) s (bump_while not_newline text s)
      × AllPass not_newline body
      × Stops not_newline (bump_while not_newline text s).remaining
unfolding bump_while
line_comment-Consumes text s h =
    let cs = drop 2 text in
    let (body, a, pass, stops) =
      bump_while-Consumes not_newline cs (after b'/' cs (after b'/' (b'/' ∷ cs) s)) in
    rw (starts_with-split b'/' b'/' text h) (body, Consumes-cons (Consumes-cons a), pass, stops)

pub past_sign-Consumes :
    (a b : ℕ) (s : Lexer)
    → starts_with a b s.remaining ≡ true
    → bytes (a ∷ b ∷ []) ≡ 2
    → Consumes s.remaining (a ∷ b ∷ []) s (past_sign s)
past_sign-Consumes a b s h two = record {
  split = starts_with-split a b s.remaining h;
  moved = omega (arith, two);
  same_source = refl;
}

-- The body of a comment that ends.
pub record Ends (text : Text) (s t : Lexer) : Type 0 where
  pub body : Text
  pub consumes : Consumes text body s t
  pub is_body : IsBody body t.remaining
  pub at_sign : starts_with b'*' b'/' t.remaining ≡ true

Ends-cons :
    (c : ℕ) (cs : Text) (s : Lexer) (o : Option Lexer)
    → starts_with b'*' b'/' (c ∷ cs) ≡ false
    → OfSome (Ends cs (after c cs s)) o
    → OfSome (Ends (c ∷ cs) s) o
Ends-cons c cs s none h e = tt
Ends-cons c cs s (some t) h e = record {
  body = c ∷ e.body;
  consumes = Consumes-cons e.consumes;
  is_body = (rw (← e.consumes.split) h, e.is_body);
  at_sign = e.at_sign;
}

pub find_comment_end-Ends :
    (text : Text) (s : Lexer) → OfSome (Ends text s) (find_comment_end text s)
unfolding find_comment_end
find_comment_end-Ends [] s = tt
find_comment_end-Ends (c ∷ cs) s = elim (Bool-cases (starts_with b'*' b'/' (c ∷ cs))) [
  | inl close ↦
      rw close
        (record { body = []; consumes = Consumes-nil (c ∷ cs) s; is_body = tt; at_sign = close })
  | inr inside ↦ rw inside (
      Ends-cons c cs s (find_comment_end cs (after c cs s)) inside
        (find_comment_end-Ends cs (after c cs s)))
]

module _ (is_whitespace : ℕ → Bool) where
  -- White space or a comment is next.
  abbrev pub starts_trivia : Text → Bool
  starts_trivia [] = false
  starts_trivia (c ∷ cs) =
      is_whitespace c || starts_with b'/' b'/' (c ∷ cs) || starts_with b'/' b'*' (c ∷ cs)

  -- The trivia before a text at which a token starts, or the source ends.
  pub data IsTrivia : Text → Text → Type 0 where
    nothing : {rest : Text} → starts_trivia rest ≡ false → IsTrivia [] rest
    white_space :
        {c : ℕ} {gap rest : Text}
        → is_whitespace c ≡ true
        → IsTrivia gap rest
        → IsTrivia (c ∷ gap) rest
    line_comment :
        (body : Text) {gap rest : Text}
        → AllPass not_newline body
        → Stops not_newline (gap ++ rest)
        → IsTrivia gap rest
        → IsTrivia (b'/' ∷ b'/' ∷ body ++ gap) rest
    block_comment :
        (body : Text) {gap rest : Text}
        → IsBody body (b'*' ∷ b'/' ∷ gap ++ rest)
        → IsTrivia gap rest
        → IsTrivia (b'/' ∷ b'*' ∷ body ++ b'*' ∷ b'/' ∷ gap) rest
