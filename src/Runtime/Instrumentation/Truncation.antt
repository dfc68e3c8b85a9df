-- ===== src/Runtime/Instrumentation/Truncation.antt =====
-- `truncate_utf8` of src/runtime/instrumentation.rs, on the bytes of a text.
use apex_exec.Prelude.{
  ℕ, zero, suc, ◌-◌, Bool, false, not, ◌&&◌, ◌||◌, Option, none, some, [], ◌∷◌, ◌++◌, length, take,
  get_elem?, leb, ltb, ◌==◌, if◌then◌else◌,
}
use apex_exec.Prelude.Text.{Text}

-- "…" in UTF-8
abbrev pub truncation_marker : Text
truncation_marker = 226 ∷ 128 ∷ 166 ∷ []

-- A byte that goes on with a character.
abbrev pub is_continuation : ℕ → Bool
is_continuation b = leb 128 b && ltb b 192

abbrev starts_character : Option ℕ → Bool
starts_character none = false
starts_character (some b) = not (is_continuation b)

-- `str::is_char_boundary`
abbrev pub is_char_boundary : Text → ℕ → Bool
is_char_boundary text i = i == 0 || i == length text || starts_character (get_elem? text i)

-- `while !text.is_char_boundary(end) { end -= 1; }`; 0 is a boundary.
unfoldable pub floor_boundary : Text → ℕ → ℕ
floor_boundary text zero = 0
floor_boundary text (suc n) = if is_char_boundary text (suc n) then suc n else floor_boundary text n

unfoldable pub truncate_utf8 : Text → ℕ → Text
truncate_utf8 text max_bytes =
    if leb (length text) max_bytes
    then text
    else if ltb max_bytes (length truncation_marker)
    then take (floor_boundary text max_bytes) text
    else take (floor_boundary text (max_bytes - length truncation_marker)) text ++ truncation_marker
