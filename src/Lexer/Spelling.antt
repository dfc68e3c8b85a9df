-- ===== src/Lexer/Spelling.antt =====
-- The texts of the tokens of src/token.rs: what a kind says of its lexeme.
use apex_exec.Prelude.{ℕ, ◌≡◌, refl, true, false, ◌||◌, [], ◌∷◌, ◌++◌, ◌==◌}
use apex_exec.Prelude.Int.{pos}
use apex_exec.Prelude.Text.{Text, codes, lowercase}
use apex_exec.Lexer.{is_ascii_digit}
use apex_exec.Lexer.Token
use apex_exec.Lexer.Token.{TokenKind, is_eof}
use apex_exec.Lexer.Scan.{unescape, digits_value}
use apex_exec.Lexer.Advance.{AllPass}

-- The value of the text between the quotes.
pub data Unescapes : Text → Text → Type 0 where
  nothing : Unescapes [] []
  plain :
      {body value : Text} (c : ℕ)
      → (c == b'\'') ≡ false
      → (c == b'\\') ≡ false
      → (c == b'\n' || c == b'\r') ≡ false
      → Unescapes body value
      → Unescapes (c ∷ body) (c ∷ value)
  escape :
      {body value : Text} (c : ℕ)
      → Unescapes body value
      → Unescapes (b'\\' ∷ c ∷ body) (unescape c ++ value)

abbrev pub Spells : TokenKind → Text → Type 0
Spells (Token.identifier name) text = name ≡ text
Spells (Token.string_literal value) text =
    (body : Text) × (text ≡ b'\'' ∷ body ++ b'\'' ∷ []) × Unescapes body value
Spells (Token.decimal_literal number) text = number ≡ text
Spells (Token.integer_literal n) text =
    AllPass is_ascii_digit text × (n ≡ pos (digits_value 0 text))
Spells (Token.long_literal n) text =
    (digits : Text) × (suffix : ℕ) × (text ≡ digits ++ suffix ∷ [])
    × AllPass is_ascii_digit digits
    × (n ≡ pos (digits_value 0 digits))
Spells (Token.boolean_literal true) text = lowercase text ≡ codes "true"
Spells (Token.boolean_literal false) text = lowercase text ≡ codes "false"
Spells Token.null_keyword text = lowercase text ≡ codes "null"
Spells Token.if_keyword text = lowercase text ≡ codes "if"
Spells Token.else_keyword text = lowercase text ≡ codes "else"
Spells Token.for_keyword text = lowercase text ≡ codes "for"
Spells Token.while_keyword text = lowercase text ≡ codes "while"
Spells Token.do_keyword text = lowercase text ≡ codes "do"
Spells Token.switch_keyword text = lowercase text ≡ codes "switch"
Spells Token.when_keyword text = lowercase text ≡ codes "when"
Spells Token.break_keyword text = lowercase text ≡ codes "break"
Spells Token.continue_keyword text = lowercase text ≡ codes "continue"
Spells Token.return_keyword text = lowercase text ≡ codes "return"
Spells Token.void_keyword text = lowercase text ≡ codes "void"
Spells Token.try_keyword text = lowercase text ≡ codes "try"
Spells Token.catch_keyword text = lowercase text ≡ codes "catch"
Spells Token.finally_keyword text = lowercase text ≡ codes "finally"
Spells Token.throw_keyword text = lowercase text ≡ codes "throw"
Spells Token.new_keyword text = lowercase text ≡ codes "new"
Spells Token.instanceof_keyword text = lowercase text ≡ codes "instanceof"
Spells Token.class_keyword text = lowercase text ≡ codes "class"
Spells Token.interface_keyword text = lowercase text ≡ codes "interface"
Spells Token.extends_keyword text = lowercase text ≡ codes "extends"
Spells Token.implements_keyword text = lowercase text ≡ codes "implements"
Spells Token.public_keyword text = lowercase text ≡ codes "public"
Spells Token.private_keyword text = lowercase text ≡ codes "private"
Spells Token.protected_keyword text = lowercase text ≡ codes "protected"
Spells Token.global_keyword text = lowercase text ≡ codes "global"
Spells Token.static_keyword text = lowercase text ≡ codes "static"
Spells Token.virtual_keyword text = lowercase text ≡ codes "virtual"
Spells Token.abstract_keyword text = lowercase text ≡ codes "abstract"
Spells Token.override_keyword text = lowercase text ≡ codes "override"
Spells Token.final_keyword text = lowercase text ≡ codes "final"
Spells Token.transient_keyword text = lowercase text ≡ codes "transient"
Spells Token.dot text = text ≡ codes "."
Spells Token.comma text = text ≡ codes ","
Spells Token.colon text = text ≡ codes ":"
Spells Token.tilde text = text ≡ codes "~"
Spells Token.at text = text ≡ codes "@"
Spells Token.left_paren text = text ≡ codes "("
Spells Token.right_paren text = text ≡ codes ")"
Spells Token.left_brace text = text ≡ codes "{"
Spells Token.right_brace text = text ≡ codes "}"
Spells Token.left_bracket text = text ≡ codes "["
Spells Token.right_bracket text = text ≡ codes "]"
Spells Token.semicolon text = text ≡ codes ";"
Spells Token.question text = text ≡ codes "?"
Spells Token.null_coalesce text = text ≡ codes "??"
Spells Token.safe_navigation text = text ≡ codes "?."
Spells Token.equal text = text ≡ codes "="
Spells Token.equal_equal text = text ≡ codes "=="
Spells Token.fat_arrow text = text ≡ codes "=>"
Spells Token.bang text = text ≡ codes "!"
Spells Token.bang_equal text = text ≡ codes "!="
Spells Token.plus text = text ≡ codes "+"
Spells Token.plus_plus text = text ≡ codes "++"
Spells Token.plus_equal text = text ≡ codes "+="
Spells Token.minus text = text ≡ codes "-"
Spells Token.minus_minus text = text ≡ codes "--"
Spells Token.minus_equal text = text ≡ codes "-="
Spells Token.star text = text ≡ codes "*"
Spells Token.star_equal text = text ≡ codes "*="
Spells Token.slash text = text ≡ codes "/"
Spells Token.slash_equal text = text ≡ codes "/="
Spells Token.percent text = text ≡ codes "%"
Spells Token.percent_equal text = text ≡ codes "%="
Spells Token.ampersand text = text ≡ codes "&"
Spells Token.and_and text = text ≡ codes "&&"
Spells Token.ampersand_equal text = text ≡ codes "&="
Spells Token.pipe text = text ≡ codes "|"
Spells Token.or_or text = text ≡ codes "||"
Spells Token.pipe_equal text = text ≡ codes "|="
Spells Token.caret text = text ≡ codes "^"
Spells Token.caret_equal text = text ≡ codes "^="
Spells Token.less text = text ≡ codes "<"
Spells Token.less_equal text = text ≡ codes "<="
Spells Token.shift_left text = text ≡ codes "<<"
Spells Token.shift_left_equal text = text ≡ codes "<<="
Spells Token.greater text = text ≡ codes ">"
Spells Token.greater_equal text = text ≡ codes ">="
Spells Token.shift_right text = text ≡ codes ">>"
Spells Token.shift_right_equal text = text ≡ codes ">>="
Spells Token.unsigned_shift_right text = text ≡ codes ">>>"
Spells Token.unsigned_shift_right_equal text = text ≡ codes ">>>="
Spells Token.eof text = ⊥

pub Spells-not_eof : (kind : TokenKind) (text : Text) → Spells kind text → is_eof kind ≡ false
Spells-not_eof Token.eof text h = absurd h
Spells-not_eof _ text h = refl
