-- ===== src/Lexer/Token.antt =====
-- `Token` and `TokenKind` of src/token.rs. A keyword's kind is spelled with `_keyword`.
use apex_exec.Prelude.{ℕ, Bool, true, false, ◌==◌, ==_iff, ◌≡◌, refl, sym, ap, ◌∙◌}
use apex_exec.Prelude.Int.{ℤ}
use apex_exec.Prelude.Text.{Text}
use apex_exec.Span.{Span}

pub data TokenKind : Type 0 where
  identifier string_literal decimal_literal : Text → TokenKind
  integer_literal long_literal : ℤ → TokenKind
  boolean_literal : Bool → TokenKind
  null_keyword if_keyword else_keyword for_keyword while_keyword do_keyword : TokenKind
  switch_keyword when_keyword break_keyword continue_keyword return_keyword : TokenKind
  void_keyword try_keyword catch_keyword finally_keyword throw_keyword : TokenKind
  new_keyword instanceof_keyword class_keyword interface_keyword extends_keyword : TokenKind
  implements_keyword public_keyword private_keyword protected_keyword : TokenKind
  global_keyword static_keyword virtual_keyword abstract_keyword : TokenKind
  override_keyword final_keyword transient_keyword : TokenKind
  at dot comma colon question null_coalesce safe_navigation equal plus_equal : TokenKind
  minus_equal star_equal slash_equal percent_equal ampersand_equal pipe_equal : TokenKind
  caret_equal shift_left_equal shift_right_equal unsigned_shift_right_equal : TokenKind
  equal_equal fat_arrow bang bang_equal less less_equal greater greater_equal : TokenKind
  shift_left shift_right unsigned_shift_right plus plus_plus minus minus_minus : TokenKind
  star slash percent tilde ampersand pipe caret and_and or_or left_paren : TokenKind
  right_paren left_brace right_brace left_bracket right_bracket semicolon eof : TokenKind

pub record Token : Type 0 where
  pub kind : TokenKind
  pub span : Span
  pub lexeme : Text

-- `mem::discriminant`: the place of a constructor in the enumeration.
unfoldable pub discriminant : TokenKind → ℕ
discriminant (identifier x) = 0
discriminant (string_literal x) = 1
discriminant (decimal_literal x) = 2
discriminant (integer_literal x) = 3
discriminant (long_literal x) = 4
discriminant (boolean_literal x) = 5
discriminant null_keyword = 6
discriminant if_keyword = 7
discriminant else_keyword = 8
discriminant for_keyword = 9
discriminant while_keyword = 10
discriminant do_keyword = 11
discriminant switch_keyword = 12
discriminant when_keyword = 13
discriminant break_keyword = 14
discriminant continue_keyword = 15
discriminant return_keyword = 16
discriminant void_keyword = 17
discriminant try_keyword = 18
discriminant catch_keyword = 19
discriminant finally_keyword = 20
discriminant throw_keyword = 21
discriminant new_keyword = 22
discriminant instanceof_keyword = 23
discriminant class_keyword = 24
discriminant interface_keyword = 25
discriminant extends_keyword = 26
discriminant implements_keyword = 27
discriminant public_keyword = 28
discriminant private_keyword = 29
discriminant protected_keyword = 30
discriminant global_keyword = 31
discriminant static_keyword = 32
discriminant virtual_keyword = 33
discriminant abstract_keyword = 34
discriminant override_keyword = 35
discriminant final_keyword = 36
discriminant transient_keyword = 37
discriminant at = 38
discriminant dot = 39
discriminant comma = 40
discriminant colon = 41
discriminant question = 42
discriminant null_coalesce = 43
discriminant safe_navigation = 44
discriminant equal = 45
discriminant plus_equal = 46
discriminant minus_equal = 47
discriminant star_equal = 48
discriminant slash_equal = 49
discriminant percent_equal = 50
discriminant ampersand_equal = 51
discriminant pipe_equal = 52
discriminant caret_equal = 53
discriminant shift_left_equal = 54
discriminant shift_right_equal = 55
discriminant unsigned_shift_right_equal = 56
discriminant equal_equal = 57
discriminant fat_arrow = 58
discriminant bang = 59
discriminant bang_equal = 60
discriminant less = 61
discriminant less_equal = 62
discriminant greater = 63
discriminant greater_equal = 64
discriminant shift_left = 65
discriminant shift_right = 66
discriminant unsigned_shift_right = 67
discriminant plus = 68
discriminant plus_plus = 69
discriminant minus = 70
discriminant minus_minus = 71
discriminant star = 72
discriminant slash = 73
discriminant percent = 74
discriminant tilde = 75
discriminant ampersand = 76
discriminant pipe = 77
discriminant caret = 78
discriminant and_and = 79
discriminant or_or = 80
discriminant left_paren = 81
discriminant right_paren = 82
discriminant left_brace = 83
discriminant right_brace = 84
discriminant left_bracket = 85
discriminant right_bracket = 86
discriminant semicolon = 87
discriminant eof = 88

-- `matches!(kind, TokenKind::Eof)`
abbrev pub is_eof : TokenKind → Bool
is_eof eof = true
is_eof _ = false

abbrev pub same_variant : TokenKind → TokenKind → Bool
unfolding discriminant
same_variant a b = discriminant a == discriminant b

pub is_eof-discriminant : (kind : TokenKind) → is_eof kind ≡ (discriminant kind == 88)
unfolding discriminant
is_eof-discriminant eof = refl
is_eof-discriminant _ = refl

pub same_variant-is_eof : (a b : TokenKind) → same_variant a b ≡ true → is_eof a ≡ is_eof b
unfolding discriminant
same_variant-is_eof a b h =
    is_eof-discriminant a
    ∙ ap (λ n. n == 88) ((==_iff (discriminant a) (discriminant b)).0 h)
    ∙ sym (is_eof-discriminant b)
