-- ===== src/Lexer/Gaps.antt =====
-- `skip_trivia` of src/lexer.rs reads the grammar of trivia, and ends.
use apex_exec.Prelude.{
  ℕ, zero, suc, ◌<◌, ◌≡◌, refl, sym, ap, ◌∙◌, inl, inr, Bool, true, false, Option, none, some, [],
  ◌∷◌, ◌++◌, length, drop, arith, Bool-cases, OfSome,
}
use mathlib.Core.List.{append_assoc}
use apex_exec.Prelude.Text.{Text}
use apex_exec.Lexer.{Lexer, Lexed, done, failed, exhausted, bytes, bump_while}
use apex_exec.Lexer.Scan.{
  starts_with, past_sign, find_comment_end, unterminated_comment, skip_trivia,
}
use apex_exec.Lexer.Advance.{
  Consumes, Consumes-nil, Consumes-append, length-Consumes, AllPass, Stops, bump_while-Consumes,
}
use apex_exec.Lexer.Trivia.{
  not_newline, line_comment-Consumes, past_sign-Consumes, Ends, find_comment_end-Ends,
  starts_trivia, IsTrivia, nothing, white_space, line_comment, block_comment,
}

module _ (is_whitespace : ℕ → Bool) where
  -- What a run of the loop did: it reached the end of the trivia.
  pub record Skipped (s t : Lexer) : Type 0 where
    pub gap : Text
    pub consumes : Consumes s.remaining gap s t
    pub is_trivia : IsTrivia is_whitespace gap t.remaining

  abbrev pub Skips : Lexer → Lexed Lexer → Type 0
  Skips s (done t) = Skipped s t
  Skips s (failed d) = Unit
  Skips s exhausted = ⊥

  -- A piece of trivia before what another run skips.
  Skips-append :
      {p : Text} {s t : Lexer}
      → Consumes s.remaining p s t
      → ((gap rest : Text)
          → t.remaining ≡ gap ++ rest
          → IsTrivia is_whitespace gap rest
          → IsTrivia is_whitespace (p ++ gap) rest)
      → (r : Lexed Lexer) → Skips t r
      → Skips s r
  Skips-append {p} a grow (done u) k = record {
    gap = p ++ k.gap;
    consumes = Consumes-append a k.consumes;
    is_trivia = grow k.gap u.remaining k.consumes.split k.is_trivia;
  }
  Skips-append a grow (failed d) k = tt
  Skips-append a grow exhausted k = absurd k

  white_run :
      (p : Text) {gap rest : Text}
      → AllPass is_whitespace p
      → IsTrivia is_whitespace gap rest
      → IsTrivia is_whitespace (p ++ gap) rest
  white_run [] h k = k
  white_run (c ∷ p) (h, hs) k = white_space h (white_run p hs k)

  Stops-starts_trivia :
      (text : Text)
      → Stops is_whitespace text
      → starts_with b'/' b'/' text ≡ false
      → starts_with b'/' b'*' text ≡ false
      → starts_trivia is_whitespace text ≡ false
  Stops-starts_trivia [] w l b = refl
  Stops-starts_trivia (c ∷ cs) w l b = rw (w, l, b)

  at_stop :
      (s : Lexer)
      → Stops is_whitespace s.remaining
      → starts_with b'/' b'/' s.remaining ≡ false
      → starts_with b'/' b'*' s.remaining ≡ false
      → Skipped s s
  at_stop s w l b = record {
    gap = [];
    consumes = Consumes-nil s.remaining s;
    is_trivia = nothing (Stops-starts_trivia s.remaining w l b);
  }

  after_line :
      (s : Lexer) (r : Lexed Lexer)
      → starts_with b'/' b'/' s.remaining ≡ true
      → Skips (bump_while not_newline s.remaining s) r
      → Skips s r
  after_line s r h k =
      let (body, a, pass, stops) = line_comment-Consumes s.remaining s h in
      Skips-append a (λ gap rest e g. line_comment body pass (rw (← e) stops) g) r k

  after_block :
      (s t : Lexer) (r : Lexed Lexer)
      → starts_with b'/' b'*' s.remaining ≡ true
      → Ends (drop 2 s.remaining) (past_sign s) t
      → Skips (past_sign t) r
      → Skips s r
  unfolding bytes
  after_block s t r h e k =
      let sign = past_sign-Consumes b'/' b'*' s h refl in
      let close = past_sign-Consumes b'*' b'/' t e.at_sign refl in
      Skips-append (Consumes-append (Consumes-append sign e.consumes) close)
        (λ gap rest q g.
          let closing : b'*' ∷ b'/' ∷ gap ++ rest ≡ t.remaining =
            sym (close.split ∙ ap (λ (cs : Text). b'*' ∷ b'/' ∷ cs) q) in
          rw (append_assoc e.body (b'*' ∷ b'/' ∷ []) gap)
            (block_comment e.body (rw closing e.is_body) g))
        r k

  after_comment :
      (fuel : ℕ) (s : Lexer) (o : Option Lexer)
      → starts_with b'/' b'*' s.remaining ≡ true
      → OfSome (Ends (drop 2 s.remaining) (past_sign s)) o
      → ((t : Lexer)
          → length t.remaining < length s.remaining
          → Skips t (skip_trivia is_whitespace fuel t))
      → Skips s (elim o [
        | none ↦ failed (unterminated_comment s)
        | some t ↦ skip_trivia is_whitespace fuel (past_sign t)
      ])
  unfolding bytes
  after_comment fuel s none h e ih = tt
  after_comment fuel s (some t) h e ih = after_block s t _ h e (
      ih (past_sign t) (
        omega (
          arith,
          length-Consumes (past_sign-Consumes b'/' b'*' s h refl),
          length-Consumes e.consumes,
          length-Consumes (past_sign-Consumes b'*' b'/' t e.at_sign refl),
        )))

  pub skip_trivia-Skips :
      (fuel : ℕ) (s : Lexer)
      → length s.remaining < fuel
      → Skips s (skip_trivia is_whitespace fuel s)
  unfolding skip_trivia
  skip_trivia-Skips zero s h = absurd (omega arith)
  skip_trivia-Skips (suc fuel) s h =
      let (w, a, pass, stops) = bump_while-Consumes is_whitespace s.remaining s in
      let s1 = bump_while is_whitespace s.remaining s in
      Skips-append a (λ gap rest e g. white_run w pass g) _
        (elim (Bool-cases (starts_with b'/' b'/' s1.remaining)) [
          | inl line ↦
              rw (skip_trivia, line)
                (after_line s1 _ line (
                  skip_trivia-Skips fuel _ (
                    omega (
                      arith,
                      length-Consumes a,
                      length-Consumes (line_comment-Consumes s1.remaining s1 line).1,
                    ))))
          | inr other ↦ elim (Bool-cases (starts_with b'/' b'*' s1.remaining)) [
            | inl block ↦
                rw (skip_trivia, other, block)
                  (after_comment fuel s1 (find_comment_end (drop 2 s1.remaining) (past_sign s1))
                    block (find_comment_end-Ends _ _)
                    (λ t k. skip_trivia-Skips fuel t (omega (arith, length-Consumes a))))
            | inr neither ↦ rw (skip_trivia, other, neither) (at_stop s1 stops other neither)
          ]
        ])
