-- ===== src/Lexer/Tiles.antt =====
-- `tokenize` of src/lexer.rs: its tokens are the source, cut into trivia and lexemes.
use apex_exec.Prelude.{
  ℕ, zero, suc, ◌+◌, ◌<◌, ◌≡◌, refl, ap, ◌∙◌, Bool, List, [], ◌∷◌, ◌++◌, length, arith,
}
use mathlib.Core.List.{append-nil}
use apex_exec.Prelude.Text.{Text}
use apex_exec.Span.{SourceId, new_in}
use apex_exec.Lexer.{Lexer, Lexed, done, failed, exhausted, ◌>>=◌, bytes, with_source}
use apex_exec.Lexer.Token.{Token}
use apex_exec.Lexer.Token
use apex_exec.Lexer.Scan.{next_token, eof_token, token_or_end, tokens_from, tokenize}
use apex_exec.Lexer.Advance.{length-Consumes}
use apex_exec.Lexer.Trivia.{IsTrivia}
use apex_exec.Lexer.Gaps.{Skipped, Skips, skip_trivia-Skips}
use apex_exec.Lexer.Spelling.{Spells}
use apex_exec.Lexer.Lexemes.{IsLexeme, Lexes, next_token-Lexes}

module _ (is_whitespace : ℕ → Bool) (source_id : SourceId) where
  -- The text from a byte on, as trivia and the tokens between it.
  pub data Tiles : ℕ → Text → List Token → Type 0 where
    finish :
        {start : ℕ} {text : Text} {token : Token}
        → IsTrivia is_whitespace text []
        → token.kind ≡ Token.eof
        → token.lexeme ≡ []
        → token.span ≡ new_in source_id (start + bytes text) (start + bytes text)
        → Tiles start text (token ∷ [])
    piece :
        (gap : Text) (first : ℕ) (others rest : Text) {start : ℕ} {text : Text} {token : Token}
        {tokens : List Token}
        → text ≡ gap ++ (first ∷ others ++ rest)
        → IsTrivia is_whitespace gap (first ∷ others ++ rest)
        → Spells token.kind (first ∷ others)
        → token.lexeme ≡ first ∷ others
        → token.span
          ≡ new_in source_id (start + bytes gap) (start + bytes gap + bytes (first ∷ others))
        → Tiles (start + bytes gap + bytes (first ∷ others)) rest tokens
        → Tiles start text (token ∷ tokens)

  abbrev pub TilesFrom : ℕ → Text → Lexed (List Token) → Type 0
  TilesFrom start text (done tokens) = Tiles start text tokens
  TilesFrom start text (failed d) = Unit
  TilesFrom start text exhausted = ⊥

  Tiles-eof :
      (s t : Lexer)
      → s.source_id ≡ source_id
      → Skipped is_whitespace s t
      → t.remaining ≡ []
      → Tiles s.cursor s.remaining (eof_token t ∷ [])
  unfolding new_in
  Tiles-eof s t h k e =
      let all : s.remaining ≡ k.gap =
        k.consumes.split ∙ ap (λ (r : Text). k.gap ++ r) e ∙ append-nil k.gap in
      finish (rw (all, ← e) k.is_trivia) refl refl
        (rw (all, k.consumes.moved, k.consumes.same_source, h))

  Tiles-piece :
      (s t u : Lexer) (token : Token) (tokens : List Token)
      → s.source_id ≡ source_id
      → Skipped is_whitespace s t
      → IsLexeme t token u
      → Tiles u.cursor u.remaining tokens
      → Tiles s.cursor s.remaining (token ∷ tokens)
  unfolding new_in
  Tiles-piece s t u token tokens h k l rest =
      piece k.gap l.first l.others u.remaining
        (k.consumes.split ∙ ap (λ (r : Text). k.gap ++ r) l.consumes.split)
        (rw (← l.consumes.split) k.is_trivia) l.spells l.lexeme
        (rw (l.span, l.consumes.moved, k.consumes.moved, k.consumes.same_source, h))
        (rw (← k.consumes.moved, ← l.consumes.moved) rest)

  Tiles-later :
      (s t u : Lexer) (token : Token) (later : Lexed (List Token))
      → s.source_id ≡ source_id
      → Skipped is_whitespace s t
      → IsLexeme t token u
      → TilesFrom u.cursor u.remaining later
      → TilesFrom s.cursor s.remaining (do rest ← later; done (token ∷ rest))
  Tiles-later s t u token (done tokens) h k l rest = Tiles-piece s t u token tokens h k l rest
  Tiles-later s t u token (failed d) h k l rest = tt
  Tiles-later s t u token exhausted h k l rest = absurd rest

  -- What the rest of the loop does with the lexers further on.
  Continues : ℕ → (Lexer → Lexed (List Token)) → Type 0
  Continues size later =
      (u : Lexer)
      → length u.remaining < size
      → u.source_id ≡ source_id
      → TilesFrom u.cursor u.remaining (later u)

  Tiles-token :
      (s t : Lexer) (token : Lexed (Token × Lexer)) (later : Lexer → Lexed (List Token))
      → s.source_id ≡ source_id
      → Skipped is_whitespace s t
      → Lexes t token
      → Continues (length s.remaining) later
      → TilesFrom s.cursor s.remaining (do (token, u) ← token; rest ← later u; done (token ∷ rest))
  unfolding Continues
  Tiles-token s t (done (token, u)) later h k l ih = Tiles-later s t u token (later u) h k l (
      ih u (omega (arith, length-Consumes k.consumes, length-Consumes l.consumes))
        (l.consumes.same_source ∙ k.consumes.same_source ∙ h))
  Tiles-token s t (failed d) later h k l ih = tt
  Tiles-token s t exhausted later h k l ih = absurd l

  Tiles-token_or_end :
      (text : Text) (s t : Lexer) (later : Lexer → Lexed (List Token))
      → t.remaining ≡ text
      → s.source_id ≡ source_id
      → Skipped is_whitespace s t
      → Continues (length s.remaining) later
      → TilesFrom s.cursor s.remaining (token_or_end later text t)
  Tiles-token_or_end [] s t later e h k ih = Tiles-eof s t h k e
  Tiles-token_or_end (c ∷ cs) s t later e h k ih =
      Tiles-token s t (next_token c cs t) later h k (next_token-Lexes c cs t e) ih

  Tiles-skipped :
      (s : Lexer) (skipped : Lexed Lexer) (later : Lexer → Lexed (List Token))
      → s.source_id ≡ source_id
      → Skips is_whitespace s skipped
      → Continues (length s.remaining) later
      → TilesFrom s.cursor s.remaining (do t ← skipped; token_or_end later t.remaining t)
  Tiles-skipped s (done t) later h k ih = Tiles-token_or_end t.remaining s t later refl h k ih
  Tiles-skipped s (failed d) later h k ih = tt
  Tiles-skipped s exhausted later h k ih = absurd k

  tokens_from-Tiles :
      (fuel : ℕ) (s : Lexer)
      → length s.remaining < fuel
      → s.source_id ≡ source_id
      → TilesFrom s.cursor s.remaining (tokens_from is_whitespace fuel s)
  unfolding tokens_from Continues
  tokens_from-Tiles zero s f h = absurd (omega arith)
  tokens_from-Tiles (suc fuel) s f h =
      Tiles-skipped s _ (tokens_from is_whitespace fuel) h
        (skip_trivia-Skips is_whitespace (suc (length s.remaining)) s (omega arith))
        (λ u smaller same. tokens_from-Tiles fuel u (omega arith) same)

  -- Either an error of the source is found, or the tokens are the source: trivia and lexemes in
  -- turn, each lexeme one that its token's kind spells, each span the bytes of its lexeme, and one
  -- end at the end. The fuel is enough.
  pub tokenize-Tiles :
      (source : Text) → TilesFrom 0 source (tokenize is_whitespace source source_id)
  unfolding tokenize with_source
  tokenize-Tiles source =
      tokens_from-Tiles (suc (length source)) (with_source source source_id) (omega arith) refl
