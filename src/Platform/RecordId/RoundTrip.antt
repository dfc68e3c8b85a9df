-- ===== src/Platform/RecordId/RoundTrip.antt =====
-- Generated identifiers parse, and name their sequence number; what parses is well formed.
use apex_exec.Prelude.{
  ℕ, ◌+◌, ◌*◌, ◌^◌, ◌<◌, ◌≡◌, refl, sym, ◌∙◌, ap, ◌⊎◌, inl, inr, ◌↔◌, Bool, true, false, not, ◌&&◌,
  ◌||◌, [], ◌++◌, length, take, drop, take-append, drop-append, length-append, arith, ◌==◌, ==_iff,
  if◌then◌else◌,
}
use mathlib.Core.List.{append_assoc}
use apex_exec.Prelude.Text.{Text, text_eq_refl, eq_of_text_eq}
use apex_exec.Platform.RecordId.{
  IdResult, RecordIdError, ok, err, ◌>>=◌, invalid_key_prefix, all_alphanumeric, body_digits,
  checksum_suffix, check_characters, check_checksum, validate_record_id, parse, generate,
}
use apex_exec.Platform.RecordId.Digits.{
  read, read-body_digits, length-body_digits, all_alphanumeric-body_digits,
}
use apex_exec.Platform.RecordId.Accepts.{
  check_characters-ok, passed, all_alphanumeric_of_check, all_alphanumeric-checksum_suffix,
  all_alphanumeric-append,
}

-- The 15 characters before the checksum.
abbrev pub id15 : Text → ℕ → Text
id15 key_prefix sequence = key_prefix ++ body_digits 12 sequence []

abbrev pub id18 : Text → ℕ → Text
id18 key_prefix sequence = id15 key_prefix sequence ++ checksum_suffix (id15 key_prefix sequence)

module _ (key_prefix : Text) (sequence : ℕ) (three : length key_prefix ≡ 3) where
  length-id15 : length (id15 key_prefix sequence) ≡ 15
  length-id15 = omega (
    arith,
    length-append {0} key_prefix (body_digits 12 sequence []),
    length-body_digits 12 sequence [],
  )

  length-id18 : length (id18 key_prefix sequence) ≡ 18
  unfolding checksum_suffix
  length-id18 = omega (
    arith,
    length-append {0} (id15 key_prefix sequence) (checksum_suffix (id15 key_prefix sequence)),
    length-id15,
  )

  module _ (valid : all_alphanumeric key_prefix ≡ true) where
    generate-eq : generate key_prefix sequence ≡ ok (id18 key_prefix sequence)
    unfolding generate
    generate-eq = rw (three, valid)

    id18-alphanumeric : all_alphanumeric (id18 key_prefix sequence) ≡ true
    id18-alphanumeric =
        let start =
          all_alphanumeric-append key_prefix (body_digits 12 sequence []) valid
            (all_alphanumeric-body_digits 12 sequence [] (unfold all_alphanumeric in refl)) in
        all_alphanumeric-append (id15 key_prefix sequence) _ start
          (all_alphanumeric-checksum_suffix (id15 key_prefix sequence))

    checksum-id18 : check_checksum (id18 key_prefix sequence) ≡ ok tt
    unfolding check_checksum
    checksum-id18 =
        let body = id15 key_prefix sequence in
        rw (
          take-append 15 body (checksum_suffix body) length-id15,
          drop-append 15 body (checksum_suffix body) length-id15,
          text_eq_refl (checksum_suffix body),
        )

    parse-id18 : parse (id18 key_prefix sequence) ≡ ok (id18 key_prefix sequence)
    unfolding parse validate_record_id
    parse-id18 = rw (
      length-id18,
      check_characters-ok 0 (id18 key_prefix sequence) id18-alphanumeric,
      checksum-id18,
    )

prefix-id18 :
    (key_prefix : Text) (sequence : ℕ)
    → length key_prefix ≡ 3
    → take 3 (id18 key_prefix sequence) ≡ key_prefix
prefix-id18 key_prefix sequence three =
    let body = body_digits 12 sequence [] in
    let suffix = checksum_suffix (id15 key_prefix sequence) in
    rw (append_assoc key_prefix body suffix) (take-append 3 key_prefix (body ++ suffix) three)

-- From a key prefix of three ASCII alphanumeric characters and any sequence number, `generate`
-- returns an identifier of 18 characters that starts with the prefix, and `parse` accepts it and
-- returns it unchanged.
pub generate_parses :
    (key_prefix : Text) (sequence : ℕ)
    → length key_prefix ≡ 3
    → all_alphanumeric key_prefix ≡ true
    → (id : Text) × (generate key_prefix sequence ≡ ok id)
      × (parse id ≡ ok id)
      × (length id ≡ 18)
      × (take 3 id ≡ key_prefix)
generate_parses key_prefix sequence three valid = (
  id18 key_prefix sequence,
  generate-eq key_prefix sequence three valid,
  parse-id18 key_prefix sequence three valid,
  length-id18 key_prefix sequence three,
  prefix-id18 key_prefix sequence three,
)

picked :
    (a b : Bool) (e : RecordIdError) (v : Text) {id : Text}
    → (if not a || not b then err e else ok v) ≡ ok id
    → (a ≡ true) × (id ≡ v)
picked true true e v h = (refl, ground arith)
picked true false e v h = cc
picked false b e v h = cc

generated_parts :
    (key_prefix : Text) (sequence : ℕ) {id : Text}
    → generate key_prefix sequence ≡ ok id
    → (length key_prefix ≡ 3) × (id ≡ id18 key_prefix sequence)
unfolding generate
generated_parts key_prefix sequence h =
    let parts =
      picked (length key_prefix == 3) (all_alphanumeric key_prefix) (invalid_key_prefix key_prefix)
        (id18 key_prefix sequence) h in
    ((==_iff (length key_prefix) 3).0 parts.0, parts.1)

read_end : (n : ℕ) → read (0 * 62 ^ 12 + n) [] ≡ n
unfolding read
read_end n = omega arith

-- The places of the sequence number, read back.
read-id18 :
    (key_prefix : Text) (sequence : ℕ)
    → length key_prefix ≡ 3
    → sequence < 62 ^ 12
    → read 0 (take 12 (drop 3 (id18 key_prefix sequence))) ≡ sequence
unfolding read
read-id18 key_prefix sequence three small =
    let body = body_digits 12 sequence [] in
    let suffix = checksum_suffix (id15 key_prefix sequence) in
    rw
      (
        append_assoc key_prefix body suffix,
        drop-append 3 key_prefix (body ++ suffix) three,
        take-append 12 body suffix (length-body_digits 12 sequence []),
      )
      (read-body_digits 12 0 sequence [] small ∙ read_end sequence)

-- Two identifiers that `generate` returns for sequence numbers of 64 bits are equal only if their
-- prefixes and their sequence numbers are.
pub generate_injective :
    (key_prefix other : Text) (m n : ℕ) {id : Text}
    → m < 2 ^ 64
    → n < 2 ^ 64
    → generate key_prefix m ≡ ok id
    → generate other n ≡ ok id
    → (key_prefix ≡ other) × (m ≡ n)
generate_injective key_prefix other m n hm hn e f =
    let a = generated_parts key_prefix m e in
    let b = generated_parts other n f in
    let same = sym a.1 ∙ b.1 in
    let front = λ (k : Text) (s : ℕ) (three : length k ≡ 3). prefix-id18 k s three in
    (
      sym (front key_prefix m a.0) ∙ ap (λ (t : Text). take 3 t) same ∙ front other n b.0,
      sym (read-id18 key_prefix m a.0 (omega arith))
          ∙ ap (λ (t : Text). read 0 (take 12 (drop 3 t))) same
          ∙ read-id18 other n b.0 (omega arith),
    )

checked_steps :
    {A : Type 0} (m : IdResult (Unit {0})) (k : IdResult A) {v : A}
    → (m >>= λ _. k) ≡ ok v
    → (m ≡ ok tt) × (k ≡ ok v)
checked_steps (ok u) k h = (refl, h)
checked_steps (err e) k h = cc

abbrev pub IsWellFormed : Text → Type 0
IsWellFormed value =
    ((length value ≡ 15)
      ⊎ ((length value ≡ 18) × (checksum_suffix (take 15 value) ≡ drop 15 value)))
    × (all_alphanumeric value ≡ true)

length_cases :
    (n : ℕ) (e : RecordIdError) (rest : IdResult (Unit {0}))
    → (if not (n == 15) && not (n == 18) then err e else rest) ≡ ok tt
    → ((n ≡ 15) ⊎ (n ≡ 18)) × (rest ≡ ok tt)
length_cases n e rest h = ground arith

parse_forth : (value : Text) → parse value ≡ ok value → IsWellFormed value
unfolding parse validate_record_id check_checksum
parse_forth value h =
    let valid = checked_steps (validate_record_id value) (ok value) h in
    let steps = length_cases (length value) _ _ valid.0 in
    let checks = checked_steps (check_characters 0 value) _ steps.1 in
    (
      elim steps.0 [
        | inl e ↦ inl e
        | inr e ↦ inr (e, eq_of_text_eq _ _ (passed _ _ _ (rw e at checks.1)).0)
      ],
      all_alphanumeric_of_check 0 value checks.0,
    )

parse_back : (value : Text) → IsWellFormed value → parse value ≡ ok value
unfolding parse validate_record_id check_checksum
parse_back value (inl e, h) = rw (e, check_characters-ok 0 value h)
parse_back value (inr (e, c), h) =
    rw (e, check_characters-ok 0 value h, c, text_eq_refl (drop 15 value))

-- `parse` accepts exactly the texts of 15 or 18 characters that are all ASCII alphanumeric and,
-- where there are 18, end in the checksum of the first 15; it returns the text unchanged.
pub parse_iff : (value : Text) → (parse value ≡ ok value) ↔ IsWellFormed value
parse_iff value = (parse_forth value, parse_back value)
