-- ===== src/Semantic/Overload.antt =====
-- src/semantic/overload.rs: the single undominated candidate.
pub mod Unique
mod Examples
use apex_exec.Prelude.{
  ℕ, ◌+◌, Bool, true, false, not, ◌&&◌, ◌||◌, Option, none, some, List, [], ◌∷◌, if◌then◌else◌,
}

-- The loop's `selected`, or its early return.
pub data Selection : Type 0 where
  selected : Option ℕ → Selection
  ambiguous : Selection

module _ {T : Type 0} (same_candidate more_specific : T → T → Bool) where
  unfoldable pub dominated : T → List T → Bool
  dominated candidate [] = false
  dominated candidate (other ∷ others) =
      (not (same_candidate other candidate) && more_specific other candidate)
      || dominated candidate others

-- `selected.replace(candidate_index)`
abbrev pub replace : ℕ → Selection → Selection
replace index (selected none) = selected (some index)
replace index (selected (some other)) = ambiguous
replace index ambiguous = ambiguous

abbrev pub final_selection : Selection → Option ℕ
final_selection (selected s) = s
final_selection ambiguous = none

module _ {T : Type 0} (same_candidate more_specific : T → T → Bool) (candidates : List T) where
  -- The rest of the loop, from an index on.
  unfoldable pub select_from : ℕ → List T → Selection → Selection
  select_from index [] s = s
  select_from index (c ∷ cs) s =
      select_from (index + 1) cs
        (if dominated same_candidate more_specific c candidates then s else replace index s)

  unfoldable pub unique_most_specific : Option ℕ
  unique_most_specific = final_selection (select_from 0 candidates (selected none))
