-- ===== src/Parser/Lookahead.antt =====
-- src/parser/types.rs: the looks ahead. A method that looks with a clone of the parser leaves the
-- parser itself where it was, and takes an error for a no.
use apex_exec.Prelude.{ℕ, zero, suc, Bool, true, false, ◌&&◌, ◌||◌}
use apex_exec.Prelude.Text.{codes, text_eq}
use apex_exec.Diagnostic.{Diagnostic}
use apex_exec.Lexer.Token
use apex_exec.Lexer.Token.{Token, TokenKind, same_variant}
use apex_exec.Ast.Types
use apex_exec.Ast.Types.{TypeName}
use apex_exec.Parser.{
  Parsed, done, failed, panicked, exhausted, M, ◌>>=◌, ◌>>◌, pure, current, peek, advance, check,
  is_keyword,
}
use apex_exec.Parser.Types.{is_identifier, out_of_fuel, with_fuel}
use apex_exec.Parser.TypeNames.{parse_type_name, parse_return_type}

-- What a clone of the parser finds, at the parser itself.
abbrev pub back : {A : Type 0} → Parsed A → M A
back (done a q) p = done a p
back (failed d q) p = failed d p
back panicked p = panicked
back exhausted p = exhausted

-- The same where an error of the clone is a value too.
abbrev pub look_at : {A : Type 0} → Parsed A → (Diagnostic → M A) → M A
look_at (done a q) f p = done a p
look_at (failed d q) f p = back (f d q) p
look_at panicked f p = panicked
look_at exhausted f p = exhausted

abbrev pub look : {A : Type 0} → M A → (Diagnostic → M A) → M A
look m f p = look_at (m p) f p

abbrev pub look_or : {A : Type 0} → A → M A → M A
look_or otherwise m = look m (λ _. pure otherwise)

unfoldable pub is_unary_expression_start : TokenKind → Bool
is_unary_expression_start (Token.identifier spelling) = true
is_unary_expression_start (Token.string_literal value) = true
is_unary_expression_start (Token.boolean_literal value) = true
is_unary_expression_start (Token.integer_literal value) = true
is_unary_expression_start (Token.long_literal value) = true
is_unary_expression_start (Token.decimal_literal value) = true
is_unary_expression_start Token.null_keyword = true
is_unary_expression_start Token.new_keyword = true
is_unary_expression_start Token.left_bracket = true
is_unary_expression_start Token.left_paren = true
is_unary_expression_start Token.plus = true
is_unary_expression_start Token.plus_plus = true
is_unary_expression_start Token.minus = true
is_unary_expression_start Token.minus_minus = true
is_unary_expression_start Token.bang = true
is_unary_expression_start Token.tilde = true
is_unary_expression_start _ = false

-- `is_query_expression_start_at` of the cursor
unfoldable pub is_query_expression_start : M Bool
is_query_expression_start = do
  next ← peek 1
  pure (is_keyword (codes "select") next.kind || is_keyword (codes "find") next.kind)

abbrev pub is_numeric : TypeName → Bool
is_numeric Types.integer = true
is_numeric Types.long = true
is_numeric Types.decimal = true
is_numeric _ = false

-- The match on the token after the closing parenthesis.
abbrev pub is_operand : Bool → TokenKind → M Bool
is_operand numeric Token.plus = pure numeric
is_operand numeric Token.minus = pure numeric
is_operand numeric Token.plus_plus = do
  next ← peek 1
  pure (numeric && is_unary_expression_start next.kind)
is_operand numeric Token.minus_minus = do
  next ← peek 1
  pure (numeric && is_unary_expression_start next.kind)
is_operand numeric Token.left_bracket = is_query_expression_start
is_operand numeric kind = pure (is_unary_expression_start kind)

abbrev pub cast_operand : TypeName → M Bool
cast_operand candidate = do
  token ← current
  elim (same_variant token.kind Token.right_paren) [
    | false ↦ pure false
    | true ↦ do advance; operand ← current; is_operand (is_numeric candidate) operand.kind
  ]

unfoldable pub is_cast_start : M Bool
unfolding check advance parse_type_name current is_query_expression_start is_unary_expression_start
is_cast_start = do
  found ← check Token.left_paren
  elim found [
    | false ↦ pure false
    | true ↦ look_or false (do advance; (candidate, _) ← parse_type_name; cast_operand candidate)
  ]

unfoldable pub is_method_declaration_start : M Bool
unfolding parse_return_type current peek
is_method_declaration_start = look_or false (do
  parse_return_type
  token ← current
  next ← peek 1
  pure (is_identifier token.kind && same_variant next.kind Token.left_paren))

unfoldable pub is_for_each_start : M Bool
unfolding parse_type_name current peek
is_for_each_start = look_or false (do
  parse_type_name
  token ← current
  next ← peek 1
  pure (is_identifier token.kind && same_variant next.kind Token.colon))

abbrev pub is_local_modifier : TokenKind → Bool
is_local_modifier Token.final_keyword = true
is_local_modifier Token.transient_keyword = true
is_local_modifier _ = false

unfoldable pub skip_modifiers : ℕ → M (Unit {0})
skip_modifiers zero = out_of_fuel
skip_modifiers (suc fuel) = do
  token ← current
  elim (is_local_modifier token.kind) [ false ↦ pure tt | true ↦ do advance; skip_modifiers fuel ]

-- An array of arrays is a declaration all the same, so that it is reported as one.
unfoldable pub is_declaration_start : M Bool
unfolding skip_modifiers parse_type_name current
is_declaration_start =
    look
      (do
        with_fuel skip_modifiers
        parse_type_name
        token ← current
        pure (is_identifier token.kind))
      (λ error. do
        token ← current
        pure (
            text_eq error.message (codes "only one array suffix is supported")
            && is_identifier token.kind))
