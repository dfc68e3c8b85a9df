-- ===== src/Semantic/Overload/Unique.antt =====
-- The loop of src/semantic/overload.rs against the list of undominated candidates.
use apex_exec.Prelude.{
  ℕ, zero, suc, ◌+◌, ◌≡◌, ◌↔◌, true, false, arith, get_elem?, refl, ap, sym, ◌∙◌, inl, inr, Bool,
  Option, none, some, List, [], ◌∷◌, if◌then◌else◌, Bool-cases,
}
use apex_exec.Semantic.Overload.{
  selected, ambiguous, dominated, select_from, final_selection, unique_most_specific,
}

abbrev pub only : List ℕ → Option ℕ
only [] = none
only (i ∷ []) = some i
only (i ∷ j ∷ rest) = none

module _ {T : Type 0} (same more : T → T → Bool) (candidates : List T) where
  -- The indexes of the candidates that no other is more specific than, from an index on.
  unfoldable pub undominated_from : ℕ → List T → List ℕ
  undominated_from index [] = []
  undominated_from index (c ∷ cs) =
      let rest = undominated_from (index + 1) cs in
      if dominated same more c candidates then rest else index ∷ rest

  select-ambiguous :
      (index : ℕ) (cs : List T) → select_from same more candidates index cs ambiguous ≡ ambiguous
  unfolding select_from
  select-ambiguous index [] = refl
  select-ambiguous index (c ∷ cs) = elim (Bool-cases (dominated same more c candidates)) [
    | inl e ↦ rw e (select-ambiguous (index + 1) cs)
    | inr e ↦ rw e (select-ambiguous (index + 1) cs)
  ]

  select-some :
      (index k : ℕ) (cs : List T)
      → final_selection (select_from same more candidates index cs (selected (some k)))
        ≡ only (k ∷ undominated_from index cs)
  unfolding select_from undominated_from
  select-some index k [] = refl
  select-some index k (c ∷ cs) = elim (Bool-cases (dominated same more c candidates)) [
    | inl e ↦ rw e (select-some (index + 1) k cs)
    | inr e ↦ rw e (rw (select-ambiguous (index + 1) cs) refl)
  ]

  select-none :
      (index : ℕ) (cs : List T)
      → final_selection (select_from same more candidates index cs (selected none))
        ≡ only (undominated_from index cs)
  unfolding select_from undominated_from
  select-none index [] = refl
  select-none index (c ∷ cs) = elim (Bool-cases (dominated same more c candidates)) [
    | inl e ↦ rw e (select-none (index + 1) cs)
    | inr e ↦ rw e (select-some (index + 1) index cs)
  ]

-- The candidate of an index, if no other candidate is more specific than it: any that is more
-- specific counts as the same candidate.
unfoldable pub IsUndominated : {T : Type 0} → (T → T → Bool) → (T → T → Bool) → List T → ℕ → Type 0
IsUndominated {T} same more candidates index =
    (c : T) × (get_elem? candidates index ≡ some c)
    × ((j : ℕ) (d : T) → get_elem? candidates j ≡ some d → more d c ≡ true → same d c ≡ true)

module _ {T : Type 0} (same more : T → T → Bool) where
  -- The loop over the other candidates finds one exactly if there is one.
  dominated-none :
      (c : T) (others : List T)
      → dominated same more c others ≡ false
      → (j : ℕ) (d : T) → get_elem? others j ≡ some d
      → more d c ≡ true
      → same d c ≡ true
  unfolding dominated
  dominated-none c [] h j d e m = cc
  dominated-none c (other ∷ others) h zero d e m = ground arith
  dominated-none c (other ∷ others) h (suc j) d e m = dominated-none c others (ground arith) j d e m

  none-dominated :
      (c : T) (others : List T)
      → ((j : ℕ) (d : T) → get_elem? others j ≡ some d → more d c ≡ true → same d c ≡ true)
      → dominated same more c others ≡ false
  unfolding dominated
  none-dominated c [] h = refl
  none-dominated c (other ∷ others) h =
      let later = none-dominated c others (λ j. h (suc j)) in
      let first = h zero other refl in
      elim (Bool-cases (more other c)) [
        | inl so ↦ rw (so, first so, later) refl
        | inr not_so ↦ ground (arith, later)
      ]

  module _ (candidates : List T) where
    -- Of a part of the candidates, by the index in the part.
    abbrev Found : List T → ℕ → Type 0
    Found cs j = (c : T) × (get_elem? cs j ≡ some c) × (dominated same more c candidates ≡ false)

    only-cons : (a i : ℕ) (rest : List ℕ) → only (a ∷ rest) ≡ some i → (i ≡ a) × (rest ≡ [])
    only-cons a i [] h = (cc, refl)
    only-cons a i (b ∷ rest) h = cc

    undominated-taken :
        (index : ℕ) (x : T) (cs : List T)
        → dominated same more x candidates ≡ true
        → undominated_from same more candidates index (x ∷ cs)
          ≡ undominated_from same more candidates (index + 1) cs
    unfolding undominated_from
    undominated-taken index x cs h = rw h refl

    undominated-kept :
        (index : ℕ) (x : T) (cs : List T)
        → dominated same more x candidates ≡ false
        → undominated_from same more candidates index (x ∷ cs)
          ≡ index ∷ undominated_from same more candidates (index + 1) cs
    unfolding undominated_from
    undominated-kept index x cs h = rw h refl

    none-Found :
        (index : ℕ) (cs : List T) (j : ℕ)
        → undominated_from same more candidates index cs ≡ []
        → ¬ Found cs j
    none-Found index [] j h (c, e, u) = cc
    none-Found index (x ∷ cs) zero h (c, e, u) =
        let kept : dominated same more x candidates ≡ false = cc in
        cc (undominated-kept index x cs kept)
    none-Found index (x ∷ cs) (suc j) h f = elim (Bool-cases (dominated same more x candidates)) [
      | inl taken ↦ none-Found (index + 1) cs j (sym (undominated-taken index x cs taken) ∙ h) f
      | inr kept ↦ cc (undominated-kept index x cs kept)
    ]

    Found-none :
        (index : ℕ) (cs : List T)
        → ((j : ℕ) → ¬ Found cs j)
        → undominated_from same more candidates index cs ≡ []
    unfolding undominated_from
    Found-none index [] h = refl
    Found-none index (x ∷ cs) h = elim (Bool-cases (dominated same more x candidates)) [
      | inl taken ↦ rw taken (Found-none (index + 1) cs (λ j. h (suc j)))
      | inr kept ↦ absurd (h zero (x, refl, kept))
    ]

    later :
        (x : T) (cs : List T) (j k : ℕ)
        → dominated same more x candidates ≡ true
        → ((k : ℕ) → Found cs k → k ≡ j)
        → Found (x ∷ cs) k
        → k ≡ suc j
    later x cs j zero taken u (c, e, n) = cc
    later x cs j (suc k) taken u g = ap suc (u k g)

    first :
        (x : T) (index : ℕ) (cs : List T) (k : ℕ)
        → undominated_from same more candidates (index + 1) cs ≡ []
        → Found (x ∷ cs) k
        → k ≡ zero
    first x index cs zero rest g = refl
    first x index cs (suc k) rest g = absurd (none-Found (index + 1) cs k rest g)

    only-Found :
        (index i : ℕ) (cs : List T)
        → only (undominated_from same more candidates index cs) ≡ some i
        → (j : ℕ) × (i ≡ index + j) × Found cs j × ((k : ℕ) → Found cs k → k ≡ j)
    unfolding undominated_from
    only-Found index i [] h = cc
    only-Found index i (x ∷ cs) h = elim (Bool-cases (dominated same more x candidates)) [
      | inl taken ↦
          let (j, e, f, u) = only-Found (index + 1) i cs (rw taken at h) in
          (suc j, omega (arith, e), f, λ k g. later x cs j k taken u g)
      | inr kept ↦
          let (e, rest) =
            only-cons index i (undominated_from same more candidates (index + 1) cs)
              (rw kept at h) in
          (zero, omega (arith, e), (x, refl, kept), λ k g. first x index cs k rest g)
    ]

    Found-only :
        (index j : ℕ) (cs : List T)
        → Found cs j
        → ((k : ℕ) → Found cs k → k ≡ j)
        → only (undominated_from same more candidates index cs) ≡ some (index + j)
    Found-only index j [] (c, e, u) v = cc
    Found-only index zero (x ∷ cs) (c, e, u) v =
        let kept : dominated same more x candidates ≡ false = cc in
        rw
          (
            undominated-kept index x cs kept,
            Found-none (index + 1) cs (λ k g. absurd (omega (arith, v (suc k) g))),
          )
          (ap some (omega arith))
    Found-only index (suc j) (x ∷ cs) f v = elim (Bool-cases (dominated same more x candidates)) [
      | inl taken ↦ rw (undominated-taken index x cs taken) (
          Found-only (index + 1) j cs f (λ k g. omega (arith, v (suc k) g)) ∙ ap some (omega arith))
      | inr kept ↦ absurd (omega (arith, v zero (x, refl, kept)))
    ]

    Found-IsUndominated : (i : ℕ) → Found candidates i ↔ IsUndominated same more candidates i
    unfolding IsUndominated
    Found-IsUndominated i = (
      λ (c, e, u). (c, e, dominated-none c candidates u),
      λ (c, e, u). (c, e, none-dominated c candidates u),
    )

-- Overload selection returns an index exactly if the candidate of that index is undominated and no
-- candidate of another index is, whatever the two orderings are.
pub unique_most_specific_iff :
    {T : Type 0} (same more : T → T → Bool) (candidates : List T) (i : ℕ)
    → (unique_most_specific same more candidates ≡ some i) ↔ (
        IsUndominated same more candidates i
        × ((k : ℕ) → IsUndominated same more candidates k → k ≡ i))
unfolding unique_most_specific
unique_most_specific_iff same more candidates i =
    let loop = select-none same more candidates 0 candidates in
    (
      λ h.
          let (j, e, f, u) = only-Found same more candidates 0 i candidates (sym loop ∙ h) in
          let here : i ≡ j = omega (arith, e) in
          rw here (
            (Found-IsUndominated same more candidates j).0 f,
            λ k g. u k ((Found-IsUndominated same more candidates k).1 g),
          ),
      λ (f, u).
          loop
          ∙ Found-only same more candidates 0 i candidates
              ((Found-IsUndominated same more candidates i).1 f)
              (λ k g. u k ((Found-IsUndominated same more candidates k).0 g))
          ∙ ap some (omega arith),
    )
