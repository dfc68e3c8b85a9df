-- ===== src/Prelude/Map.antt =====
-- Maps with decidable keys as association lists. The program's `BTreeMap` and `HashMap` are read
-- and written through these; the order of keys is observed nowhere that is modelled.
use mathlib.Core.Logic.{◌↔◌}
use mathlib.Core.Path.{subst}
use apex_exec.Prelude.{
  ◌≡◌, refl, Bool, true, false, ◌&&◌, ◌||◌, Option, none, some, List, [], ◌∷◌, arith, if◌then◌else◌,
  and_parts, All, OfSome, Bool-cases, inl, inr,
}
use apex_exec.Prelude.Text.{Text, text_eq, text_eq_iff}

pub record Eq {ℓ} (K : Type ℓ) : Type ℓ where
  pub beq : K → K → Bool
  pub beq_iff : (a b : K) → (beq a b ≡ true) ↔ (a ≡ b)

instance abbrev pub text_key : Eq Text
text_key = record { beq = text_eq; beq_iff = text_eq_iff }

module _ {ℓ κ} {A : Type ℓ} {B : Type κ} ⦃a : Eq A⦄ ⦃b : Eq B⦄ where
  abbrev pub pair_beq : A × B → A × B → Bool
  pair_beq x y = a.beq x.0 y.0 && b.beq x.1 y.1

  pub pair_beq_iff : (x y : A × B) → (pair_beq x y ≡ true) ↔ (x ≡ y)
  pair_beq_iff x y = (
    λ h.
        let both = and_parts (a.beq x.0 y.0) (b.beq x.1 y.1) h in
        λ i. ((a.beq_iff x.0 y.0).0 both.0 i, (b.beq_iff x.1 y.1).0 both.1 i),
    λ e. rw e (rw ((a.beq_iff y.0 y.0).1 refl) ((b.beq_iff y.1 y.1).1 refl)),
  )

  instance abbrev pub pair_key : Eq (A × B)
  pair_key = record { beq = pair_beq; beq_iff = pair_beq_iff }

abbrev pub Map {ℓ κ} : Type ℓ → Type κ → Type (ℓ ⊔ κ)
Map K V = List (K × V)

module _ {ℓ} {K : Type ℓ} ⦃e : Eq K⦄ where
  unfoldable pub contains : K → List K → Bool
  contains k [] = false
  contains k (j ∷ s) = e.beq j k || contains k s

  pub beq_refl : (k : K) → e.beq k k ≡ true
  beq_refl k = (e.beq_iff k k).1 refl

module _ {ℓ κ} {K : Type ℓ} {V : Type κ} ⦃e : Eq K⦄ where
  unfoldable pub get : K → Map K V → Option V
  get k [] = none
  get k ((j, v) ∷ m) = if e.beq j k then some v else get k m

  unfoldable pub insert : K → V → Map K V → Map K V
  insert k v [] = (k, v) ∷ []
  insert k v ((j, w) ∷ m) = if e.beq j k then (k, v) ∷ m else (j, w) ∷ insert k v m

  unfoldable pub remove : K → Map K V → Map K V
  remove k [] = []
  remove k ((j, w) ∷ m) = let rest = remove k m in if e.beq j k then rest else (j, w) ∷ rest

  pub get-insert :
      (k j : K) (v : V) (m : Map K V)
      → get j (insert k v m) ≡ (if e.beq k j then some v else get j m)
  unfolding get insert
  get-insert k j v [] = refl
  get-insert k j v ((i, w) ∷ m) =
      ground (arith, e.beq_iff k j, e.beq_iff i k, e.beq_iff i j, get-insert k j v m)

  pub get-remove :
      (k j : K) (m : Map K V) → get j (remove k m) ≡ (if e.beq k j then none else get j m)
  unfolding get remove
  get-remove k j [] = ground arith
  get-remove k j ((i, w) ∷ m) =
      ground (arith, e.beq_iff k j, e.beq_iff i k, e.beq_iff i j, get-remove k j m)

-- What a table gives for a key has what each entry has.
pub get-OfSome :
    {K V : Type 0} ⦃e : Eq K⦄ (P : K → V → Type 0) (k : K) (m : Map K V)
    → All (λ entry. P entry.0 entry.1) m
    → OfSome (P k) (get k m)
unfolding get
get-OfSome P k [] h = tt
get-OfSome ⦃e⦄ P k ((j, w) ∷ m) (h, hs) = elim (Bool-cases (e.beq j k)) [
  | inl same ↦ rw same (subst (λ i. P i w) ((e.beq_iff j k).0 same) h)
  | inr other ↦ rw other (get-OfSome P k m hs)
]
