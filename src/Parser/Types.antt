-- ===== src/Parser/Types.antt =====
-- src/parser/types.rs: the types in a source. A loop runs on fuel, of which one more than the number
-- of the tokens is given.
pub mod Total
use apex_exec.Prelude.{
  ℕ, zero, suc, ◌+◌, ◌⊎◌, inl, inr, Bool, true, false, ◌&&◌, Option, none, some, List, [], ◌∷◌,
  ◌++◌, length, set, leb, ltb, ◌==◌, if◌then◌else◌,
}
use apex_exec.Prelude.Text.{Text, codes, text_eq}
use apex_exec.Prelude.Map.{Map, get, text_key}
use apex_exec.Span
use apex_exec.Span.{Span, new_in}
use apex_exec.Diagnostic
use apex_exec.Diagnostic.{Diagnostic}
use apex_exec.Lexer.Token
use apex_exec.Lexer.Token.{Token, TokenKind}
use apex_exec.Ast.Types
use apex_exec.Ast.Types.{
  Identifier, TypeRef, TypeRefs, type_ref, no_refs, ref, ref_span, TypeName, NamedType, named_type,
  TypeArguments, no_arguments, type_argument, spelling, canonical, from_apex_name,
}
use apex_exec.Parser
use apex_exec.Parser.{
  Parser, Parsed, done, failed, exhausted, M, ◌>>=◌, ◌>>◌, pure, fail, expect, current, peek,
  advance, check, expect_identifier, expect_simple,
}

abbrev pub merge : Span → Span → M Span
unfolding Span.merge
merge a b = expect (Span.merge a b)

abbrev pub out_of_fuel : {A : Type 0} → M A
out_of_fuel p = exhausted

-- A loop with one more of fuel than there are tokens.
abbrev pub with_fuel : {A : Type 0} → (ℕ → M A) → M A
with_fuel loop p = loop (suc (length p.tokens)) p

abbrev pub is_identifier : TokenKind → Bool
is_identifier (Token.identifier spelling) = true
is_identifier _ = false

unfoldable pub more_segments : ℕ → List Identifier → Span → M (List Identifier × Span)
more_segments zero segments span = out_of_fuel
more_segments (suc fuel) segments span = do
  dot ← check Token.dot
  next ← peek 1
  elim (dot && is_identifier next.kind) [
    | false ↦ pure (segments, span)
    | true ↦ do
      advance
      segment ← expect_identifier (codes "expected a type name after `.`")
      span' ← merge span segment.span
      more_segments fuel (segments ++ segment ∷ []) span'
  ]

-- The match on what is left of a token's lexeme after its first character.
abbrev closers : Map Text TokenKind
closers =
    (codes ">", Token.greater)
    ∷ (codes ">>", Token.shift_right)
    ∷ (codes "=", Token.equal)
    ∷ (codes ">=", Token.greater_equal)
    ∷ (codes ">>=", Token.shift_right_equal)
    ∷ []

-- `self.tokens[self.cursor] = token`
abbrev pub replace_current : Token → M (Unit {0})
replace_current token p = done tt (record p { tokens = set p.tokens p.cursor token })

abbrev pub closer_left : Text → Token → Option TokenKind → M (Unit {0})
closer_left remainder token none = fail (codes "invalid token after generic type closer") token.span
closer_left remainder token (some kind) = replace_current (record {
  kind = kind;
  span = new_in token.span.source_id (token.span.start + 1) token.span.stop;
  lexeme = remainder;
})

abbrev pub leave_closer : Token → Text → M (Unit {0})
leave_closer token [] = do advance; pure tt
leave_closer token (c ∷ cs) = closer_left (c ∷ cs) token (get (c ∷ cs) closers)

abbrev pub take_closer : Text → Token → Text → M Token
take_closer message token [] = fail message token.span
take_closer message token (c ∷ remainder) = elim (c == b'>') [
  | false ↦ fail message token.span
  | true ↦ do
    leave_closer token remainder
    pure (record {
      kind = Token.greater;
      span = new_in token.span.source_id token.span.start (token.span.start + 1);
      lexeme = codes ">";
    })
]

unfoldable pub expect_type_greater : Text → M Token
unfolding current advance get new_in Diagnostic.new
expect_type_greater message = do token ← current; take_closer message token token.lexeme

unfoldable pub array_suffixes : ℕ → List Span → Span → M (List Span × Span)
array_suffixes zero suffixes span = out_of_fuel
array_suffixes (suc fuel) suffixes span = do
  left ← check Token.left_bracket
  next ← peek 1
  elim (left && Token.same_variant next.kind Token.right_bracket) [
    | false ↦ pure (suffixes, span)
    | true ↦ do
      start ← advance
      stop ← advance
      suffix ← merge start.span stop.span
      span' ← merge span suffix
      array_suffixes fuel (suffixes ++ suffix ∷ []) span'
  ]

module _ (recur : M TypeRef) where
  unfoldable pub type_arguments : ℕ → M TypeRefs
  type_arguments zero = out_of_fuel
  type_arguments (suc fuel) = do
    argument ← recur
    more ← check Token.comma
    elim more [
      | false ↦ pure (ref argument no_refs)
      | true ↦ do advance; arguments ← type_arguments fuel; pure (ref argument arguments)
    ]

  -- The part in angle brackets, if there is one.
  unfoldable pub generic_part : Span → M (TypeRefs × Span)
  unfolding type_arguments check advance expect_type_greater
  generic_part span = do
    less ← check Token.less
    elim less [
      | false ↦ pure (no_refs, span)
      | true ↦ do
        advance
        arguments ← with_fuel type_arguments
        stop ← expect_type_greater (codes "expected `>` after type argument")
        span' ← merge span stop.span
        pure (arguments, span')
    ]

  unfoldable pub type_ref_with : M TypeRef
  unfolding generic_part more_segments array_suffixes expect_identifier
  type_ref_with = do
    first ← expect_identifier (codes "expected a type name")
    (segments, span) ← with_fuel (λ fuel. more_segments fuel (first ∷ []) first.span)
    (arguments, span') ← generic_part span
    (suffixes, span'') ← with_fuel (λ fuel. array_suffixes fuel [] span')
    pure (type_ref segments arguments suffixes span'')

unfoldable pub type_ref_from : ℕ → M TypeRef
type_ref_from zero = out_of_fuel
type_ref_from (suc fuel) = type_ref_with (type_ref_from fuel)

unfoldable pub parse_type_ref : M TypeRef
unfolding type_ref_from type_ref_with
parse_type_ref = with_fuel type_ref_from
