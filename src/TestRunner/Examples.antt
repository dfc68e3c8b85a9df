-- ===== src/TestRunner/Examples.antt =====
-- A schedule of two threads and two of three cases of src/test_runner.rs: the second ends first.
use apex_exec.Prelude.{
  ℕ, ◌+◌, ◌*◌, ◌≤◌, ◌⊎◌, refl, true, none, some, List, [], ◌∷◌, map, length, min, String, ◌++◌,
}
use apex_exec.Prelude.Text.{Text, codes}
use mathlib.Core.List.{Perm}
use apex_exec.TestRunner.{
  ready, running, stopped, Pool, initial, Step, fetch, push, Runs, begin, move, TestCase, retained,
  prepare,
}
use apex_exec.TestRunner.Completes.{prepare-Runs}

abbrev case_of : String → ℕ → TestCase
case_of method member = record {
  name = codes "T." ++ codes method;
  class_name = codes "T";
  method_name = codes method;
  target = record { class_id = 0; member_id = member };
  setup_methods = [];
}

abbrev member_of : TestCase → ℕ
member_of case = case.target.member_id

abbrev discovered : List TestCase
discovered = case_of "a" 7 ∷ case_of "b" 8 ∷ case_of "c" 9 ∷ []

abbrev selected : List Text
selected = codes "T.a" ∷ codes "T.c" ∷ []

abbrev two_cases : List TestCase
two_cases = case_of "a" 7 ∷ case_of "c" 9 ∷ []

abbrev all_stopped : Pool TestCase ℕ
all_stopped = record { next = 4; executed = 9 ∷ 7 ∷ []; workers = stopped ∷ stopped ∷ [] }

schedule : Runs member_of two_cases 6 (initial member_of two_cases 3) all_stopped
schedule =
    move
      (move
        (move
          (move
            (move (move (begin _) (fetch 0 [] [] (ready ∷ [])))
              (fetch 1 [] (running (case_of "a" 7) ∷ []) []))
            (push 2 [] (running (case_of "a" 7) ∷ []) [] (case_of "c" 9)))
          (push 2 (9 ∷ []) [] (ready ∷ []) (case_of "a" 7)))
        (fetch 2 (9 ∷ 7 ∷ []) [] (ready ∷ [])))
      (fetch 3 (9 ∷ 7 ∷ []) (stopped ∷ []) [])

prepare-Runs_example :
    (6 ≤ 2 * length two_cases + min 3 (length two_cases))
    × (((q : Pool TestCase ℕ) × Step member_of two_cases all_stopped q)
        ⊎ Perm (9 ∷ 7 ∷ []) (map member_of (retained (some selected) discovered)))
unfolding prepare
prepare-Runs_example =
    prepare-Runs member_of 3 none (some selected) true discovered two_cases refl schedule
