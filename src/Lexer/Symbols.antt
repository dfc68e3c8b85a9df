-- ===== src/Lexer/Symbols.antt =====
-- The keywords and the symbols of src/lexer.rs.
use apex_exec.Prelude.{
  ℕ, true, false, Option, none, some, List, [], ◌∷◌, ◌==◌, if◌then◌else◌, ==_iff,
}
use apex_exec.Prelude.Text.{Text, codes, lowercase}
use apex_exec.Prelude.Map.{Eq, Map, get, text_key}
use apex_exec.Lexer.{Lexer, take_char}
use apex_exec.Lexer.Token
use apex_exec.Lexer.Token.{TokenKind}

instance abbrev pub char_key : Eq ℕ
char_key = record { beq = ◌==◌; beq_iff = ==_iff }

abbrev pub keywords : Map Text TokenKind
keywords =
    (codes "true", Token.boolean_literal true)
    ∷ (codes "false", Token.boolean_literal false)
    ∷ (codes "null", Token.null_keyword)
    ∷ (codes "if", Token.if_keyword)
    ∷ (codes "else", Token.else_keyword)
    ∷ (codes "for", Token.for_keyword)
    ∷ (codes "while", Token.while_keyword)
    ∷ (codes "do", Token.do_keyword)
    ∷ (codes "switch", Token.switch_keyword)
    ∷ (codes "when", Token.when_keyword)
    ∷ (codes "break", Token.break_keyword)
    ∷ (codes "continue", Token.continue_keyword)
    ∷ (codes "return", Token.return_keyword)
    ∷ (codes "void", Token.void_keyword)
    ∷ (codes "try", Token.try_keyword)
    ∷ (codes "catch", Token.catch_keyword)
    ∷ (codes "finally", Token.finally_keyword)
    ∷ (codes "throw", Token.throw_keyword)
    ∷ (codes "new", Token.new_keyword)
    ∷ (codes "instanceof", Token.instanceof_keyword)
    ∷ (codes "class", Token.class_keyword)
    ∷ (codes "interface", Token.interface_keyword)
    ∷ (codes "extends", Token.extends_keyword)
    ∷ (codes "implements", Token.implements_keyword)
    ∷ (codes "public", Token.public_keyword)
    ∷ (codes "private", Token.private_keyword)
    ∷ (codes "protected", Token.protected_keyword)
    ∷ (codes "global", Token.global_keyword)
    ∷ (codes "static", Token.static_keyword)
    ∷ (codes "virtual", Token.virtual_keyword)
    ∷ (codes "abstract", Token.abstract_keyword)
    ∷ (codes "override", Token.override_keyword)
    ∷ (codes "final", Token.final_keyword)
    ∷ (codes "transient", Token.transient_keyword)
    ∷ []

abbrev pub or_identifier : Text → Option TokenKind → TokenKind
or_identifier text none = Token.identifier text
or_identifier text (some kind) = kind

unfoldable pub word_kind : Text → TokenKind
word_kind text = or_identifier text (get (lowercase text) keywords)

-- The characters that stand for themselves, and those that a second one may extend: the seconds in
-- the order that the code tries them, and the kind without.
abbrev pub single_symbols : Map ℕ TokenKind
single_symbols =
    (b'.', Token.dot)
    ∷ (b',', Token.comma)
    ∷ (b':', Token.colon)
    ∷ (b'~', Token.tilde)
    ∷ (b'@', Token.at)
    ∷ (b'(', Token.left_paren)
    ∷ (b')', Token.right_paren)
    ∷ (b'{', Token.left_brace)
    ∷ (b'}', Token.right_brace)
    ∷ (b'[', Token.left_bracket)
    ∷ (b']', Token.right_bracket)
    ∷ (b';', Token.semicolon)
    ∷ []

abbrev pub Extensions : Type 0
Extensions = List (ℕ × TokenKind)

abbrev pub extended_symbols : Map ℕ (Extensions × TokenKind)
extended_symbols =
    (b'?', ((b'?', Token.null_coalesce) ∷ (b'.', Token.safe_navigation) ∷ [], Token.question))
    ∷ (b'=', ((b'=', Token.equal_equal) ∷ (b'>', Token.fat_arrow) ∷ [], Token.equal))
    ∷ (b'!', ((b'=', Token.bang_equal) ∷ [], Token.bang))
    ∷ (b'+', ((b'+', Token.plus_plus) ∷ (b'=', Token.plus_equal) ∷ [], Token.plus))
    ∷ (b'-', ((b'-', Token.minus_minus) ∷ (b'=', Token.minus_equal) ∷ [], Token.minus))
    ∷ (b'*', ((b'=', Token.star_equal) ∷ [], Token.star))
    ∷ (b'/', ((b'=', Token.slash_equal) ∷ [], Token.slash))
    ∷ (b'%', ((b'=', Token.percent_equal) ∷ [], Token.percent))
    ∷ (b'&', ((b'&', Token.and_and) ∷ (b'=', Token.ampersand_equal) ∷ [], Token.ampersand))
    ∷ (b'|', ((b'|', Token.or_or) ∷ (b'=', Token.pipe_equal) ∷ [], Token.pipe))
    ∷ (b'^', ((b'=', Token.caret_equal) ∷ [], Token.caret))
    ∷ []

-- `if self.take(c) { kind } else …`
unfoldable pub take_extension : Extensions → TokenKind → Lexer → TokenKind × Lexer
take_extension [] kind s = (kind, s)
take_extension ((c, extended) ∷ more) kind s = elim (take_char c s.remaining s) [
  | none ↦ take_extension more kind s
  | some t ↦ (extended, t)
]

-- One character more, then a function of the lexer after it.
abbrev pub or_take :
    ℕ → (Lexer → TokenKind × Lexer) → (Lexer → TokenKind × Lexer) → Lexer → TokenKind × Lexer
or_take c then_kind else_kind s = elim (take_char c s.remaining s) [
  | none ↦ else_kind s
  | some t ↦ then_kind t
]

unfoldable pub less_token_kind : Lexer → TokenKind × Lexer
unfolding take_extension
less_token_kind =
    or_take b'<' (take_extension ((b'=', Token.shift_left_equal) ∷ []) Token.shift_left)
      (take_extension ((b'=', Token.less_equal) ∷ []) Token.less)

unfoldable pub greater_token_kind : Lexer → TokenKind × Lexer
unfolding take_extension
greater_token_kind =
    or_take b'>'
      (or_take b'>'
        (take_extension ((b'=', Token.unsigned_shift_right_equal) ∷ []) Token.unsigned_shift_right)
        (take_extension ((b'=', Token.shift_right_equal) ∷ []) Token.shift_right))
      (take_extension ((b'=', Token.greater_equal) ∷ []) Token.greater)

abbrev pub extension_kind : Option (Extensions × TokenKind) → Lexer → Option (TokenKind × Lexer)
extension_kind none s = none
extension_kind (some (extensions, kind)) s = some (take_extension extensions kind s)

abbrev pub or_single :
    Option TokenKind → Lexer → Option (TokenKind × Lexer) → Option (TokenKind × Lexer)
or_single none s rest = rest
or_single (some kind) s rest = some (kind, s)

-- The arms of `next_token` for symbols, after the first character.
unfoldable pub symbol_kind : ℕ → Lexer → Option (TokenKind × Lexer)
unfolding take_extension less_token_kind greater_token_kind
symbol_kind c s =
    if c == b'<'
    then some (less_token_kind s)
    else if c == b'>'
    then some (greater_token_kind s)
    else or_single (get c single_symbols) s (extension_kind (get c extended_symbols) s)
