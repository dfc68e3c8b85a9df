-- ===== src/Platform/RecordId/Accepts.antt =====
-- Which texts the validation accepts.
use native.Mathlib.Nat.{pow-suc}
use apex_exec.Prelude.{
  ℕ, zero, suc, ◌+◌, ◌*◌, ◌^◌, ◌≤◌, ◌<◌, ◌≡◌, refl, Bool, true, false, [], ◌∷◌, ◌++◌, length, take,
  drop, length-take-le, arith, if◌then◌else◌, and_parts, and_intro,
}
use apex_exec.Prelude.Text.{Text, is_upper}
use apex_exec.Platform.RecordId.{
  IdResult, RecordIdError, invalid_character, ok, err, nth, checksum_table, is_alphanumeric,
  all_alphanumeric, chunk_bits, checksum_suffix, check_characters,
}
use apex_exec.Platform.RecordId.Digits.{checks_up_to, checks_up_to-at}

pub check_characters-ok :
    (i : ℕ) (s : Text) → all_alphanumeric s ≡ true → check_characters i s ≡ ok tt
unfolding check_characters all_alphanumeric
check_characters-ok i [] h = refl
check_characters-ok i (c ∷ s) h =
    let both = and_parts (is_alphanumeric c) (all_alphanumeric s) h in
    rw both.0 (check_characters-ok (i + 1) s both.1)

pub passed :
    (test : Bool) (rest : IdResult (Unit {0})) (e : RecordIdError)
    → (if test then rest else err e) ≡ ok tt
    → (test ≡ true) × (rest ≡ ok tt)
passed true rest e h = (refl, h)
passed false rest e h = cc

pub all_alphanumeric_of_check :
    (i : ℕ) (s : Text) → check_characters i s ≡ ok tt → all_alphanumeric s ≡ true
unfolding check_characters all_alphanumeric
all_alphanumeric_of_check i [] h = refl
all_alphanumeric_of_check i (c ∷ s) h =
    let both = passed (is_alphanumeric c) (check_characters (i + 1) s) (invalid_character i c) h in
    and_intro (is_alphanumeric c) (all_alphanumeric s) both.0
      (all_alphanumeric_of_check (i + 1) s both.1)

pow_pos : (k : ℕ) → 1 ≤ 2 ^ k
pow_pos zero = omega arith
pow_pos (suc k) = omega (arith, pow-suc 2 k, pow_pos k)

first_bit :
    (upper : Bool) (weight rest p q : ℕ)
    → q ≡ p * 2
    → rest + weight * 2 ≤ weight * 2 * p
    → (if upper then weight else 0) + rest + weight ≤ weight * q
first_bit true weight rest p q e h = grind arith
first_bit false weight rest p q e h = grind arith

chunk_bits-le :
    (weight k : ℕ) (s : Text) → length s ≤ k → chunk_bits weight s + weight ≤ weight * 2 ^ k
unfolding chunk_bits
chunk_bits-le weight k [] h = grind (arith, pow_pos k)
chunk_bits-le weight zero (c ∷ s) h = absurd (omega arith)
chunk_bits-le weight (suc k) (c ∷ s) h =
    first_bit (is_upper c) weight (chunk_bits (weight * 2) s) (2 ^ k) (2 ^ suc k) (pow-suc 2 k)
      (chunk_bits-le (weight * 2) k s (omega arith))

-- A chunk indexes the checksum table, whose entries are alphanumeric.
chunk_bits-lt : (s : Text) → length s ≤ 5 → chunk_bits 1 s < 32
chunk_bits-lt s h = omega (arith, chunk_bits-le 1 5 s h)

table_alphanumeric : checks_up_to (λ d. is_alphanumeric (nth checksum_table d)) 32 ≡ true
unfolding checks_up_to nth
table_alphanumeric = refl

entry_alphanumeric :
    (s : Text) → length s ≤ 5 → is_alphanumeric (nth checksum_table (chunk_bits 1 s)) ≡ true
entry_alphanumeric s h =
    checks_up_to-at (λ d. is_alphanumeric (nth checksum_table d)) 32 (chunk_bits 1 s)
      (chunk_bits-lt s h) table_alphanumeric

pub all_alphanumeric-checksum_suffix : (s : Text) → all_alphanumeric (checksum_suffix s) ≡ true
unfolding checksum_suffix all_alphanumeric
all_alphanumeric-checksum_suffix s = rw (entry_alphanumeric (take 5 s) (length-take-le 5 s)) (
    rw (entry_alphanumeric (take 5 (drop 5 s)) (length-take-le 5 (drop 5 s)))
      (rw (entry_alphanumeric (take 5 (drop 10 s)) (length-take-le 5 (drop 10 s)))))

pub all_alphanumeric-append :
    (s t : Text)
    → all_alphanumeric s ≡ true
    → all_alphanumeric t ≡ true
    → all_alphanumeric (s ++ t) ≡ true
unfolding all_alphanumeric
all_alphanumeric-append [] t h k = k
all_alphanumeric-append (c ∷ s) t h k =
    let both = and_parts (is_alphanumeric c) (all_alphanumeric s) h in
    and_intro (is_alphanumeric c) (all_alphanumeric (s ++ t)) both.0
      (all_alphanumeric-append s t both.1 k)
