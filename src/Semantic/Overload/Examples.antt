-- ===== src/Semantic/Overload/Examples.antt =====
-- Candidates that are numbers, of which a larger one is more specific.
use apex_exec.Prelude.{ℕ, ◌≡◌, ◌↔◌, refl, none, some, List, [], ◌∷◌, ltb, ◌==◌}
use apex_exec.Semantic.Overload.{dominated, select_from, unique_most_specific}
use apex_exec.Semantic.Overload.Unique.{IsUndominated, unique_most_specific_iff}

abbrev three : List ℕ
three = 4 ∷ 9 ∷ 2 ∷ []

unique_most_specific_iff_example :
    (unique_most_specific (λ a b. a == b) (λ a b. ltb b a) three ≡ some 1) ↔ (
      IsUndominated (λ a b. a == b) (λ a b. ltb b a) three 1
      × ((k : ℕ) → IsUndominated (λ a b. a == b) (λ a b. ltb b a) three k → k ≡ 1))
unique_most_specific_iff_example = unique_most_specific_iff (λ a b. a == b) (λ a b. ltb b a) three 1

selects_second : unique_most_specific (λ a b. a == b) (λ a b. ltb b a) three ≡ some 1
unfolding unique_most_specific select_from dominated
selects_second = refl

-- Two that are not compared are ambiguous.
selects_none : unique_most_specific (λ a b. a == b) (λ a b. ltb b a) (7 ∷ 7 ∷ []) ≡ none
unfolding unique_most_specific select_from dominated
selects_none = refl
