-- ===== src/Parser/Stream.antt =====
-- The check of src/parser.rs on a stream of tokens, and a description of the streams that pass it.
use apex_exec.Prelude.{
  ℕ, ◌≤◌, ◌≡◌, ◌↔◌, refl, sym, inl, inr, true, false, Option, none, some, List, [], ◌∷◌, arith,
  Bool-cases,
}
use mathlib.Core.Path.{subst}
use apex_exec.Span.{SourceId, Span}
use apex_exec.Lexer.Token.{Token, is_eof}
use apex_exec.Parser
use apex_exec.Parser.{
  TokenStreamError, Parser, check_order, or_else, check_spans, find_eof, last_of, before_last,
  interior_or, check_end, validate_token_stream,
}

-- Tokens of one source from a byte on, none over another, with one end at the end.
pub data IsStream (source : ℕ) : ℕ → List Token → Type 0 where
  end :
      {from : ℕ} {token : Token}
      → token.span.source_id.id ≡ source
      → from ≤ token.span.start
      → token.span.start ≤ token.span.stop
      → is_eof token.kind ≡ true
      → IsStream source from (token ∷ [])
  next :
      {from : ℕ} {token : Token} {tokens : List Token}
      → token.span.source_id.id ≡ source
      → from ≤ token.span.start
      → token.span.start ≤ token.span.stop
      → is_eof token.kind ≡ false
      → IsStream source token.span.stop tokens
      → IsStream source from (token ∷ tokens)

-- The byte from which the next token may start.
abbrev bound : Option Span → ℕ
bound none = 0
bound (some span) = span.stop

abbrev IsProper : Option Span → Type 0
IsProper none = Unit
IsProper (some span) = span.start ≤ span.stop

check_order-none :
    (previous : Option Span) (span : Span)
    → IsProper previous
    → (check_order previous span ≡ none) ↔ (bound previous ≤ span.start)
check_order-none none span h = ground arith
check_order-none (some previous) span h = ground arith

-- One token passes the checks on its span, and the rest too.
check_spans-cons :
    (source : SourceId) (previous : Option Span) (token : Token) (tokens : List Token)
    → IsProper previous
    → (check_spans source previous (token ∷ tokens) ≡ none) ↔ (
        (token.span.source_id.id ≡ source.id)
        × (token.span.start ≤ token.span.stop)
        × (bound previous ≤ token.span.start)
        × (check_spans source (some token.span) tokens ≡ none))
unfolding check_spans
check_spans-cons source none token tokens h = ground arith
check_spans-cons source (some previous) token tokens h = ground arith

EndsOnce : Token → List Token → Type 0
EndsOnce first [] = is_eof first.kind ≡ true
EndsOnce first (token ∷ tokens) = (is_eof first.kind ≡ false) × EndsOnce token tokens

interior_or-none :
    (o : Option Span) (e : Option TokenStreamError)
    → (interior_or o e ≡ none) ↔ ((o ≡ none) × (e ≡ none))
interior_or-none none e = ground arith
interior_or-none (some span) e = ground arith

check_end-parts :
    (first : Token) (rest : List Token)
    → (check_end first rest ≡ none)
      ↔ ((is_eof (last_of first rest).kind ≡ true) × (find_eof (before_last first rest) ≡ none))
unfolding check_end
check_end-parts first rest = elim (Bool-cases (is_eof (last_of first rest).kind)) [
  | inl yes_end ↦ ground (arith, interior_or-none (find_eof (before_last first rest)) none)
  | inr no_end ↦ ground (
    arith,
    interior_or-none (find_eof (first ∷ rest)) (
        some
          (record { kind = Parser.missing_eof; offending_span = some (last_of first rest).span })),
  )
]

parts-EndsOnce :
    (first : Token) (rest : List Token)
    → ((is_eof (last_of first rest).kind ≡ true) × (find_eof (before_last first rest) ≡ none))
      ↔ EndsOnce first rest
unfolding EndsOnce find_eof
parts-EndsOnce first [] = ground arith
parts-EndsOnce first (token ∷ tokens) = ground (arith, parts-EndsOnce token tokens)

IsStream-parts :
    (source : SourceId) (previous : Option Span) (first : Token) (rest : List Token)
    → IsProper previous
    → check_spans source previous (first ∷ rest) ≡ none
    → EndsOnce first rest
    → IsStream source.id (bound previous) (first ∷ rest)
unfolding EndsOnce
IsStream-parts source previous first [] h spans ends =
    let (s, p, b, _) = (check_spans-cons source previous first [] h).0 spans in end s b p ends
IsStream-parts source previous first (token ∷ tokens) h spans (inside, ends) =
    let (s, p, b, later) = (check_spans-cons source previous first (token ∷ tokens) h).0 spans in
    next s b p inside (IsStream-parts source (some first.span) token tokens p later ends)

parts-IsStream :
    (source : SourceId) (previous : Option Span) (first : Token) (rest : List Token)
    → IsProper previous
    → IsStream source.id (bound previous) (first ∷ rest)
    → (check_spans source previous (first ∷ rest) ≡ none) × EndsOnce first rest
unfolding EndsOnce check_spans
parts-IsStream source previous first [] h (end s b p e) =
    ((check_spans-cons source previous first [] h).1 (s, p, b, refl), e)
parts-IsStream source previous first [] h (next s b p e later) = elim later [ ]
parts-IsStream source previous first (token ∷ tokens) h (next s b p e later) =
    let (spans, ends) = parts-IsStream source (some first.span) token tokens p later in
    ((check_spans-cons source previous first (token ∷ tokens) h).1 (s, p, b, spans), (e, ends))

IsStream-source :
    (source from : ℕ) (first : Token) (rest : List Token)
    → IsStream source from (first ∷ rest)
    → first.span.source_id.id ≡ source
IsStream-source source from first _ (end s b p e) = s
IsStream-source source from first _ (next s b p e later) = s

or_else-none : (a b : Option TokenStreamError) → (or_else a b ≡ none) ↔ ((a ≡ none) × (b ≡ none))
or_else-none none b = ground arith
or_else-none (some e) b = ground arith

-- The streams that the check accepts are these: not empty, of the source of their first token, each
-- span after the one before it and not reversed, and exactly one end, which is the last token.
pub validate_token_stream_iff :
    (tokens : List Token)
    → (validate_token_stream tokens ≡ none) ↔ ((source : ℕ) × IsStream source 0 tokens)
unfolding validate_token_stream
validate_token_stream_iff [] = (λ h. absurd (ground arith), λ (_, s). elim s [ ])
validate_token_stream_iff (first ∷ rest) =
    let spans = check_spans first.span.source_id none (first ∷ rest) in
    (
      λ h.
          let (a, b) = (or_else-none spans (check_end first rest)).0 h in
          (
            first.span.source_id.id,
            IsStream-parts first.span.source_id none first rest tt a
                ((parts-EndsOnce first rest).0 ((check_end-parts first rest).0 b)),
          ),
      λ (source, stream).
          let (a, b) = parts-IsStream first.span.source_id none first rest tt (
            subst (λ id. IsStream id 0 (first ∷ rest))
              (sym (IsStream-source source 0 first rest stream)) stream) in
          (or_else-none spans (check_end first rest)).1
            (a, (check_end-parts first rest).1 ((parts-EndsOnce first rest).1 b)),
    )
