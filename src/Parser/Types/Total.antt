-- ===== src/Parser/Types/Total.antt =====
-- The loops of src/parser/types.rs end, without a panic.
use apex_exec.Prelude.{
  ℕ, zero, suc, ◌+◌, ◌≤◌, ◌<◌, ◌≡◌, refl, sym, ◌∙◌, inl, inr, false, Option, none, some, List, [],
  ◌∷◌, ◌++◌, length, length-set, ◌==◌, ==_iff, arith, Bool-cases, OfSome,
}
use apex_exec.Prelude.Text.{Text}
use apex_exec.Prelude.Map.{get, get-OfSome, text_key}
use apex_exec.Span
use apex_exec.Span.{Span, new_in}
use apex_exec.Lexer.Token
use apex_exec.Lexer.Token.{Token, TokenKind, is_eof, same_variant}
use apex_exec.Ast.Types.{Identifier, TypeRef, ref_span}
use apex_exec.Parser.{Parser, M, then_with}
use apex_exec.Parser.Types.{
  merge, is_identifier, more_segments, closers, closer_left, leave_closer, take_closer,
  expect_type_greater, array_suffixes, type_arguments, generic_part, type_ref_with, type_ref_from,
  parse_type_ref,
}
use apex_exec.Parser.Reads.{
  OfSource, IsReady, IsAt, remaining, Reads, returns, fails, set-IsSupply, then_with-Reads,
  peek-Reads, current-Reads, check-Reads, advance-any, advance-Reads, expect_identifier-Reads,
}

module _ (source : ℕ) where
  pub merge-Reads :
      {B : Type 0} {Q : B → Type 0} {m : ℕ} (p : Parser) (a b : Span) (f : Span → M B)
      → OfSource source a
      → OfSource source b
      → ((s : Span) → OfSource source s → Reads source m Q (f s p))
      → Reads source m Q (then_with (merge a b p) f)
  unfolding Span.merge
  merge-Reads p a b f h k next =
      rw ((==_iff a.source_id.id b.source_id.id).1 (h ∙ sym k))
        (next (new_in a.source_id a.start b.stop) h)

  more_segments-Reads :
      (fuel : ℕ) (segments : List Identifier) (span : Span) (p : Parser) (bound : ℕ)
      → IsReady source p
      → remaining source p < fuel
      → remaining source p < bound
      → OfSource source span
      → Reads source bound (λ r. OfSource source r.1) (more_segments fuel segments span p)
  unfolding more_segments
  more_segments-Reads zero segments span p bound ready l b o = absurd (omega arith)
  more_segments-Reads (suc fuel) segments span p bound ready l b o =
      check-Reads source p ready Token.dot _ refl
        (λ more. peek-Reads source p ready 1 _ (λ next _.
          elim (Bool-cases (is_identifier next.kind)) [
            | inl found ↦ rw found (
                then_with-Reads source (advance-Reads source p ready more) (λ _ q h lq _.
                  then_with-Reads source (expect_identifier-Reads source q h _)
                    (λ segment r k lr os. merge-Reads r span segment.span _ o os (λ span' o'.
                      more_segments-Reads fuel (segments ++ segment ∷ []) span' r bound k
                        (omega arith) (omega arith) o'))))
            | inr other ↦ rw other (returns ready b o)
          ]))
        (peek-Reads source p ready 1 _ (λ next _. returns ready b o))

  array_suffixes-Reads :
      (fuel : ℕ) (suffixes : List Span) (span : Span) (p : Parser) (bound : ℕ)
      → IsReady source p
      → remaining source p < fuel
      → remaining source p < bound
      → OfSource source span
      → Reads source bound (λ r. OfSource source r.1) (array_suffixes fuel suffixes span p)
  unfolding array_suffixes
  array_suffixes-Reads zero suffixes span p bound ready l b o = absurd (omega arith)
  array_suffixes-Reads (suc fuel) suffixes span p bound ready l b o =
      check-Reads source p ready Token.left_bracket _ refl
        (λ more. peek-Reads source p ready 1 _ (λ next _.
          elim (Bool-cases (same_variant next.kind Token.right_bracket)) [
            | inl found ↦ rw found (
                then_with-Reads source (advance-Reads source p ready more) (λ start q h lq os.
                  then_with-Reads source (advance-any source q h) (λ stop r k lr ot.
                    merge-Reads r start.span stop.span _ os ot (λ suffix ou.
                      merge-Reads r span suffix _ o ou (λ span' o'.
                        array_suffixes-Reads fuel (suffixes ++ suffix ∷ []) span' r bound k
                          (omega arith) (omega arith) o')))))
            | inr other ↦ rw other (returns ready b o)
          ]))
        (peek-Reads source p ready 1 _ (λ next _. returns ready b o))

  -- The closer replaced by what is left of it, or passed.
  closer_left-Reads :
      (remainder : Text) (token : Token) (o : Option TokenKind) (p : Parser)
      → IsReady source p
      → p.cursor + 1 < length p.tokens
      → OfSource source token.span
      → OfSome (λ kind. is_eof kind ≡ false) o
      → Reads source (suc (remaining source p)) (λ _. Unit {0}) (closer_left remainder token o p)
  unfolding new_in
  closer_left-Reads remainder token none p ready more os h = fails ready
  closer_left-Reads remainder token (some kind) p ready more os h =
      let token' : Token = record {
        kind = kind;
        span = new_in token.span.source_id (token.span.start + 1) token.span.stop;
        lexeme = remainder;
      } in
      let same = length-set p.tokens p.cursor token' in
      returns
        (record {
          within = omega (arith, same, more);
          supply = set-IsSupply source p.tokens p.cursor token' ready.supply more os h;
        })
        (omega (arith, same)) tt

  not_eof-lexeme :
      {p : Parser} (token : Token) (c : ℕ) (cs : Text)
      → IsAt source p.tokens p.cursor token
      → token.lexeme ≡ c ∷ cs
      → p.cursor + 1 < length p.tokens
  not_eof-lexeme token c cs at e = elim (Bool-cases (is_eof token.kind)) [
    | inl is_end ↦ absurd (ground (arith, at.at_end is_end))
    | inr inside ↦ at.before_end inside
  ]

  leave_closer-Reads :
      (token : Token) (remainder : Text) (p : Parser)
      → IsReady source p
      → p.cursor + 1 < length p.tokens
      → OfSource source token.span
      → Reads source (suc (remaining source p)) (λ _. Unit {0}) (leave_closer token remainder p)
  leave_closer-Reads token [] p ready more os =
      then_with-Reads source (advance-Reads source p ready more)
        (λ _ q h l _. returns h (omega arith) tt)
  leave_closer-Reads token (c ∷ cs) p ready more os =
      closer_left-Reads (c ∷ cs) token (get (c ∷ cs) closers) p ready more os
        (get-OfSome (λ _ kind. is_eof kind ≡ false) (c ∷ cs) closers (ground arith))

  take_closer-Reads :
      (message : Text) (token : Token) (lexeme : Text) (p : Parser)
      → IsReady source p
      → IsAt source p.tokens p.cursor token
      → token.lexeme ≡ lexeme
      → Reads source
          (suc (remaining source p))
          (λ t. OfSource source t.span)
          (take_closer message token lexeme p)
  unfolding new_in
  take_closer-Reads message token [] p ready at e = fails ready
  take_closer-Reads message token (c ∷ remainder) p ready at e = elim (Bool-cases (c == b'>')) [
    | inr other ↦ rw (take_closer, other) (fails ready)
    | inl closer ↦
        rw (take_closer, closer)
          (then_with-Reads source
            (leave_closer-Reads token remainder p ready
              (not_eof-lexeme {p = p} token c remainder at e) at.of_source)
            (λ _ q h l _. returns h l at.of_source))
  ]

  expect_type_greater-Reads :
      (message : Text) (p : Parser)
      → IsReady source p
      → Reads source
          (suc (remaining source p))
          (λ t. OfSource source t.span)
          (expect_type_greater message p)
  unfolding expect_type_greater
  expect_type_greater-Reads message p ready =
      current-Reads source p ready _
        (λ token at. take_closer-Reads message token token.lexeme p ready at refl)

  -- What the callback of a type reads, where fewer tokens than a number are left.
  Recurs : ℕ → M TypeRef → Type 0
  Recurs n recur =
      (p : Parser)
      → IsReady source p
      → remaining source p < n
      → Reads source (remaining source p) (λ t. OfSource source (ref_span t)) (recur p)

  module _ (recur : M TypeRef) (n : ℕ) (recurs : Recurs n recur) where
    type_arguments-Reads :
        (fuel : ℕ) (p : Parser) (bound : ℕ)
        → IsReady source p
        → remaining source p < fuel
        → remaining source p < n
        → remaining source p ≤ bound
        → Reads source bound (λ _. Unit {0}) (type_arguments recur fuel p)
    unfolding type_arguments Recurs
    type_arguments-Reads zero p bound ready f l b = absurd (omega arith)
    type_arguments-Reads (suc fuel) p bound ready f l b =
        then_with-Reads source (recurs p ready l) (λ argument q h lq _.
          check-Reads source q h Token.comma _ refl
            (λ more. then_with-Reads source (advance-Reads source q h more) (λ _ r k lr _.
              then_with-Reads source
                (type_arguments-Reads fuel r bound k (omega arith) (omega arith) (omega arith))
                (λ _ s m ls _. returns m ls tt)))
            (returns h (omega arith) tt))

    generic_part-Reads :
        (span : Span) (p : Parser)
        → IsReady source p
        → remaining source p < n + 1
        → OfSource source span
        → Reads source
            (suc (remaining source p))
            (λ r. OfSource source r.1)
            (generic_part recur span p)
    unfolding generic_part
    generic_part-Reads span p ready l o =
        check-Reads source p ready Token.less _ refl
          (λ more. then_with-Reads source (advance-Reads source p ready more) (λ _ q h lq _.
            then_with-Reads source
              (type_arguments-Reads (suc (length q.tokens)) q (remaining source q) h (omega arith)
                (omega arith) (omega arith))
              (λ _ r k lr _.
                then_with-Reads source (expect_type_greater-Reads _ r k) (λ stop s m ls os.
                  merge-Reads s span stop.span _ o os (λ span' o'. returns m (omega arith) o')))))
          (returns ready (omega arith) o)

    type_ref_with-Reads :
        (p : Parser)
        → IsReady source p
        → remaining source p < n + 1
        → Reads source
            (remaining source p)
            (λ t. OfSource source (ref_span t))
            (type_ref_with recur p)
    unfolding type_ref_with
    type_ref_with-Reads p ready l =
        then_with-Reads source (expect_identifier-Reads source p ready _) (λ first q h lq oq.
          then_with-Reads source
            (more_segments-Reads (suc (length q.tokens)) (first ∷ []) first.span q
              (suc (remaining source q)) h (omega arith) (omega arith) oq)
            (λ segments r k lr or.
              then_with-Reads source (generic_part-Reads segments.1 r k (omega arith) or)
                (λ arguments s m ls os.
                  then_with-Reads source
                    (array_suffixes-Reads (suc (length s.tokens)) [] arguments.1 s
                      (suc (remaining source s)) m (omega arith) (omega arith) os)
                    (λ suffixes t u lt ot. returns u (omega arith) ot))))

  type_ref_from-Recurs : (fuel : ℕ) → Recurs fuel (type_ref_from fuel)
  unfolding type_ref_from Recurs
  type_ref_from-Recurs zero p ready l = absurd (omega arith)
  type_ref_from-Recurs (suc fuel) p ready l =
      type_ref_with-Reads (type_ref_from fuel) fuel (type_ref_from-Recurs fuel) p ready
        (omega arith)

  pub parse_type_ref-Reads :
      (p : Parser)
      → IsReady source p
      → Reads source (remaining source p) (λ t. OfSource source (ref_span t)) (parse_type_ref p)
  unfolding parse_type_ref Recurs
  parse_type_ref-Reads p ready = type_ref_from-Recurs (suc (length p.tokens)) p ready (omega arith)
