-- ===== src/Runtime/Instrumentation/Cuts.antt =====
-- Where src/runtime/instrumentation.rs cuts a text.
use apex_exec.Prelude.{
  ℕ, zero, suc, ◌-◌, ◌≤◌, ◌<◌, ◌≡◌, refl, inl, inr, true, false, ◌++◌, length, take, leb, arith,
  length-append, length-take-le, Bool-cases,
}
use apex_exec.Prelude.Text.{Text}
use apex_exec.Runtime.Instrumentation.Truncation.{
  truncation_marker, is_char_boundary, floor_boundary, truncate_utf8,
}

floor_boundary-le : (text : Text) (n : ℕ) → floor_boundary text n ≤ n
unfolding floor_boundary
floor_boundary-le text zero = omega arith
floor_boundary-le text (suc n) = ground (arith, floor_boundary-le text n)

floor_boundary-is : (text : Text) (n : ℕ) → is_char_boundary text (floor_boundary text n) ≡ true
unfolding floor_boundary
floor_boundary-is text zero = refl
floor_boundary-is text (suc n) = elim (Bool-cases (is_char_boundary text (suc n))) [
  | inl e ↦ rw e e
  | inr e ↦ rw e (floor_boundary-is text n)
]

floor-hit :
    (text : Text) (n : ℕ)
    → is_char_boundary text (suc n) ≡ true
    → floor_boundary text (suc n) ≡ suc n
unfolding floor_boundary
floor-hit text n e = rw e refl

floor-miss :
    (text : Text) (n : ℕ)
    → is_char_boundary text (suc n) ≡ false
    → floor_boundary text (suc n) ≡ floor_boundary text n
unfolding floor_boundary
floor-miss text n e = rw e refl

floor_boundary-last :
    (text : Text) (n k : ℕ) → floor_boundary text n < k → k ≤ n → is_char_boundary text k ≡ false
floor_boundary-last text zero k lt le = absurd (omega arith)
floor_boundary-last text (suc n) k lt le = elim (Bool-cases (is_char_boundary text (suc n))) [
  | inl e ↦ absurd (omega (arith, floor-hit text n e))
  | inr e ↦ elim (Bool-cases (leb k n)) [
    | inl small ↦ floor_boundary-last text n k (omega (arith, floor-miss text n e)) (ground arith)
    | inr large ↦ let last : k ≡ suc n = ground arith in rw last e
  ]
]

-- What a cut keeps: the bytes up to the last character boundary that is at most `room`.
abbrev pub CutAt : Text → ℕ → ℕ → Type 0
CutAt text room n =
    (n ≤ room)
    × (is_char_boundary text n ≡ true)
    × ((k : ℕ) → n < k → k ≤ room → is_char_boundary text k ≡ false)

floor_boundary-CutAt : (text : Text) (room : ℕ) → CutAt text room (floor_boundary text room)
floor_boundary-CutAt text room = (
  floor_boundary-le text room,
  floor_boundary-is text room,
  λ k lt le. floor_boundary-last text room k lt le,
)

-- Shortening a text to a byte limit gives at most that many bytes. A text that fits is unchanged;
-- one that does not is cut at the last character boundary that leaves room for the marker, which
-- is appended; and where the limit is under the marker's own length, at the last boundary within
-- the limit, with no marker.
pub truncate_utf8_cut :
    (text : Text) (max_bytes : ℕ)
    → (length (truncate_utf8 text max_bytes) ≤ max_bytes)
      × ((length text ≤ max_bytes → truncate_utf8 text max_bytes ≡ text)
          × ((max_bytes < length text
                → max_bytes < 3
                → (n : ℕ) × (CutAt text max_bytes n × (truncate_utf8 text max_bytes ≡ take n text)))
              × (max_bytes < length text
                  → 3 ≤ max_bytes
                  → (n : ℕ) × (CutAt text (max_bytes - 3) n
                      × (truncate_utf8 text max_bytes ≡ take n text ++ truncation_marker)))))
unfolding truncate_utf8
truncate_utf8_cut text m = (
  ground (
    arith,
    length-take-le (floor_boundary text m) text,
    length-take-le (floor_boundary text (m - 3)) text,
    length-append (take (floor_boundary text (m - 3)) text) truncation_marker,
    floor_boundary-le text m,
    floor_boundary-le text (m - 3),
  ),
  (
    λ le. ground arith,
    (
      λ lt small. (floor_boundary text m, (floor_boundary-CutAt text m, ground arith)),
      λ lt big. (floor_boundary text (m - 3), (floor_boundary-CutAt text (m - 3), ground arith)),
    ),
  ),
)
