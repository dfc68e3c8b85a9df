-- ===== src/Platform/RecordId/Digits.antt =====
-- The base-62 digits of a sequence number.
use native.Mathlib.Nat.{pow-suc}
use apex_exec.Prelude.{
  ℕ, zero, suc, ◌+◌, ◌-◌, ◌*◌, ◌/◌, ◌%◌, ◌^◌, ◌<◌, ◌≡◌, refl, ap, ◌∙◌, inl, inr, Bool, true, false,
  [], ◌∷◌, length, arith, ◌==◌, leb, Bool-cases, if◌then◌else◌, ==_iff,
}
use apex_exec.Prelude.Text.{Text, is_digit, is_upper}
use apex_exec.Platform.RecordId.{nth, alphabet, body_digits, is_alphanumeric, all_alphanumeric}

-- The places of an alphabet, checked one by one.
unfoldable pub checks_up_to : (ℕ → Bool) → ℕ → Bool
checks_up_to check zero = true
checks_up_to check (suc top) =
    let lower = checks_up_to check top in if lower then check top else false

pub checks_up_to-at :
    (check : ℕ → Bool) (top place : ℕ)
    → place < top
    → checks_up_to check top ≡ true
    → check place ≡ true
unfolding checks_up_to
checks_up_to-at check zero place under all = absurd (omega arith)
checks_up_to-at check (suc top) place under all = elim (Bool-cases (checks_up_to check top)) [
  | inl lower ↦ elim (Bool-cases (leb top place)) [
    | inl high ↦ let last : place ≡ top = ground arith in rw last (ground arith)
    | inr low ↦ checks_up_to-at check top place (ground arith) lower
  ]
  | inr stopped ↦ ground arith
]

-- The place of a character in the alphabet.
abbrev digit_value : ℕ → ℕ
digit_value c = if is_digit c then c - 48 else if is_upper c then c - 55 else c - 61

alphabet_table : checks_up_to (λ d. digit_value (nth alphabet d) == d) 62 ≡ true
unfolding checks_up_to nth
alphabet_table = refl

alphanumeric_table : checks_up_to (λ d. is_alphanumeric (nth alphabet d)) 62 ≡ true
unfolding checks_up_to nth
alphanumeric_table = refl

digit_value-nth : (d : ℕ) → d < 62 → digit_value (nth alphabet d) ≡ d
digit_value-nth d h =
    (==_iff (digit_value (nth alphabet d)) d).0
      (checks_up_to-at (λ d. digit_value (nth alphabet d) == d) 62 d h alphabet_table)

alphanumeric-nth : (d : ℕ) → d < 62 → is_alphanumeric (nth alphabet d) ≡ true
alphanumeric-nth d h =
    checks_up_to-at (λ d. is_alphanumeric (nth alphabet d)) 62 d h alphanumeric_table

unfoldable pub read : ℕ → Text → ℕ
read n [] = n
read n (c ∷ s) = read (n * 62 + digit_value c) s

next_place :
    (places n value : ℕ)
    → (n * 62 ^ places + value / 62) * 62 + digit_value (nth alphabet (value % 62))
      ≡ n * 62 ^ suc places + value
next_place places n value = rw (digit_value-nth (value % 62) (omega arith), pow-suc) (grind arith)

-- Reading the digits back.
pub read-body_digits :
    (places n value : ℕ) (body : Text)
    → value < 62 ^ places
    → read n (body_digits places value body) ≡ read (n * 62 ^ places + value) body
unfolding read body_digits
read-body_digits zero n value body h = ap (λ (m : ℕ). read m body) (omega arith)
read-body_digits (suc places) n value body h =
    read-body_digits places n (value / 62) (nth alphabet (value % 62) ∷ body)
      (omega (arith, pow-suc 62 places))
    ∙ ap (λ (m : ℕ). read m body) (next_place places n value)

pub length-body_digits :
    (places value : ℕ) (body : Text) → length (body_digits places value body) ≡ places + length body
unfolding body_digits
length-body_digits zero value body = omega arith
length-body_digits (suc places) value body =
    omega (arith, length-body_digits places (value / 62) (nth alphabet (value % 62) ∷ body))

pub all_alphanumeric-body_digits :
    (places value : ℕ) (body : Text)
    → all_alphanumeric body ≡ true
    → all_alphanumeric (body_digits places value body) ≡ true
unfolding body_digits all_alphanumeric
all_alphanumeric-body_digits zero value body h = h
all_alphanumeric-body_digits (suc places) value body h =
    all_alphanumeric-body_digits places (value / 62) (nth alphabet (value % 62) ∷ body)
      (rw (alphanumeric-nth (value % 62) (omega arith)) h)
