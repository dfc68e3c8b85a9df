-- ===== src/Platform/RecordId/Examples.antt =====
-- Identifiers of the tests of src/platform/storage.rs.
use apex_exec.Prelude.{true, ◌/◌, ◌≡◌, refl, ◌↔◌, arith, length, take}
use apex_exec.Prelude.Text.{Text, codes}
use apex_exec.Platform.RecordId.{
  ok, err, invalid_length, invalid_checksum, parse, generate, validate_record_id, check_characters,
  check_checksum, checksum_suffix, chunk_bits, nth, body_digits, all_alphanumeric,
}
use apex_exec.Platform.RecordId.RoundTrip.{
  IsWellFormed, generate_parses, generate_injective, parse_iff,
}

generate_runs : generate (codes "a01") 42 ≡ ok (codes "a0100000000000gAAA")
unfolding generate checksum_suffix chunk_bits nth body_digits all_alphanumeric
generate_runs = refl

parse_runs :
    (parse (codes "001000000000001AAB") ≡ err (invalid_checksum (codes "AAA") (codes "AAB")))
    × (parse (codes "bad") ≡ err (invalid_length 3))
unfolding parse validate_record_id check_characters check_checksum checksum_suffix chunk_bits nth
parse_runs = (refl, refl)

valid_prefix : all_alphanumeric (codes "a01") ≡ true
unfolding all_alphanumeric
valid_prefix = refl

generate_parses_example :
    (id : Text) × (generate (codes "a01") 42 ≡ ok id)
    × (parse id ≡ ok id)
    × (length id ≡ 18)
    × (take 3 id ≡ codes "a01")
generate_parses_example = generate_parses (codes "a01") 42 refl valid_prefix

generate_injective_example : (codes "a01" ≡ codes "a01") × (42 ≡ 84 / 2)
generate_injective_example =
    generate_injective (codes "a01") (codes "a01") 42 (84 / 2) (omega arith) (omega arith)
      generate_runs generate_runs

parse_iff_example :
    (parse (codes "a0100000000000gAAA") ≡ ok (codes "a0100000000000gAAA"))
    ↔ IsWellFormed (codes "a0100000000000gAAA")
parse_iff_example = parse_iff (codes "a0100000000000gAAA")
