-- ===== src/Platform/RecordId.antt =====
-- `RecordId` of src/platform/storage.rs: identifiers of 15 or 18 ASCII characters, the last three
-- of 18 a checksum of the case of the others.
pub mod Digits
pub mod RoundTrip
pub mod Accepts
mod Examples
use apex_exec.Prelude.{
  ℕ, zero, suc, ◌+◌, ◌*◌, ◌/◌, ◌%◌, Bool, true, false, not, ◌&&◌, ◌||◌, List, [], ◌∷◌, ◌++◌, length,
  take, drop, ◌==◌, if◌then◌else◌, ltb,
}
use apex_exec.Prelude.Text.{Text, codes, text_eq, is_upper, is_lower, is_digit}

pub data RecordIdError : Type 0 where
  invalid_length : ℕ → RecordIdError
  invalid_character : ℕ → ℕ → RecordIdError
  invalid_checksum : Text → Text → RecordIdError
  invalid_key_prefix : Text → RecordIdError

pub data IdResult (A : Type 0) : Type 0 where
  ok : A → IdResult A
  err : RecordIdError → IdResult A

infixl 5 ◌>>=◌
abbrev pub ◌>>=◌ : {A B : Type 0} → IdResult A → (A → IdResult B) → IdResult B
ok a >>= f = f a
err e >>= f = err e

-- `u8::is_ascii_alphanumeric`
abbrev pub is_alphanumeric : ℕ → Bool
is_alphanumeric c = is_digit c || is_upper c || is_lower c

unfoldable pub all_alphanumeric : Text → Bool
all_alphanumeric [] = true
all_alphanumeric (c ∷ s) = is_alphanumeric c && all_alphanumeric s

-- Indexing of a constant table; the program never leaves it.
unfoldable pub nth : Text → ℕ → ℕ
nth [] i = 0
nth (c ∷ s) zero = c
nth (c ∷ s) (suc i) = nth s i

abbrev pub alphabet : Text
alphabet = codes "0123456789ABCDEFGHIJKLMNOPQRSTUVWXYZabcdefghijklmnopqrstuvwxyz"

abbrev pub checksum_table : Text
checksum_table = codes "ABCDEFGHIJKLMNOPQRSTUVWXYZ012345"

-- `bits` of one chunk: a bit for each upper-case character, the first the lowest.
unfoldable pub chunk_bits : ℕ → Text → ℕ
chunk_bits weight [] = 0
chunk_bits weight (c ∷ s) = (if is_upper c then weight else 0) + chunk_bits (weight * 2) s

unfoldable pub checksum_suffix : Text → Text
checksum_suffix id15 =
    nth checksum_table (chunk_bits 1 (take 5 id15))
    ∷ nth checksum_table (chunk_bits 1 (take 5 (drop 5 id15)))
    ∷ nth checksum_table (chunk_bits 1 (take 5 (drop 10 id15)))
    ∷ []

-- The loop over the bytes: the first that is not alphanumeric, and where it stands.
unfoldable pub check_characters : ℕ → Text → IdResult (Unit {0})
check_characters index [] = ok tt
check_characters index (c ∷ s) =
    let rest = check_characters (index + 1) s in
    if is_alphanumeric c then rest else err (invalid_character index c)

unfoldable pub check_checksum : Text → IdResult (Unit {0})
check_checksum value =
    let expected = checksum_suffix (take 15 value) in
    let actual = drop 15 value in
    if text_eq expected actual then ok tt else err (invalid_checksum expected actual)

unfoldable pub validate_record_id : Text → IdResult (Unit {0})
validate_record_id value =
    let length = length value in
    if not (length == 15) && not (length == 18)
    then err (invalid_length length)
    else do _ ← check_characters 0 value; if length == 18 then check_checksum value else ok tt

unfoldable pub parse : Text → IdResult Text
parse value = do _ ← validate_record_id value; ok value

-- The digits of `value`, filled in from the last place on.
unfoldable pub body_digits : ℕ → ℕ → Text → Text
body_digits zero value body = body
body_digits (suc places) value body =
    body_digits places (value / 62) (nth alphabet (value % 62) ∷ body)

unfoldable pub generate : Text → ℕ → IdResult Text
generate key_prefix sequence =
    if not (length key_prefix == 3) || not (all_alphanumeric key_prefix)
    then err (invalid_key_prefix key_prefix)
    else let id15 = key_prefix ++ body_digits 12 sequence [] in ok (id15 ++ checksum_suffix id15)
