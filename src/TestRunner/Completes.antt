-- ===== src/TestRunner/Completes.antt =====
-- `run_internal` of src/test_runner.rs: the cases that it selects, and its threads.
use apex_exec.Prelude.{
  ℕ, zero, suc, ◌+◌, ◌*◌, ◌≤◌, ◌<◌, ◌≡◌, ◌⊎◌, Option, List, [], ◌∷◌, map, length, min, arith, Bool,
  true, false,
}
use mathlib.Core.List.{Perm}
use apex_exec.TestRunner.{
  Pool, initial, Step, Runs, TestCase, to_run, unless_empty, retained, prepare,
}
use apex_exec.Prelude.Text.{Text}
use apex_exec.TestRunner.Schedule.{run-Completes}

unless_empty-to_run :
    (filter : Option Text) (allow_empty : Bool) (all cases : List TestCase)
    → unless_empty filter allow_empty all ≡ to_run cases
    → all ≡ cases
unless_empty-to_run filter true [] cases h = cc
unless_empty-to_run filter false [] cases h = cc
unless_empty-to_run filter _ (case ∷ all) cases h = cc

prepare-to_run :
    (jobs : ℕ) (filter : Option Text) (selected : Option (List Text)) (allow_empty : Bool)
    (discovered cases : List TestCase)
    → prepare jobs filter selected allow_empty discovered ≡ to_run cases
    → (0 < jobs) × (retained selected discovered ≡ cases)
unfolding prepare
prepare-to_run zero filter selected allow_empty discovered cases h = cc
prepare-to_run (suc jobs) filter selected allow_empty discovered cases h =
    (omega arith, unless_empty-to_run filter allow_empty (retained selected discovered) cases h)

-- Where the run is not refused and has cases, a schedule of its threads has at most two moves for
-- each case and one for each thread. Where it has come to, some thread can move, or what was
-- executed is each discovered case of the selection once, in some order.
pub prepare-Runs :
    {E : Type 0} (execute : TestCase → E) (jobs : ℕ) (filter : Option Text)
    (selected : Option (List Text)) (allow_empty : Bool) (discovered cases : List TestCase) {n : ℕ}
    {p : Pool TestCase E}
    → prepare jobs filter selected allow_empty discovered ≡ to_run cases
    → Runs execute cases n (initial execute cases jobs) p
    → (n ≤ 2 * length cases + min jobs (length cases))
      × (((q : Pool TestCase E) × Step execute cases p q)
          ⊎ Perm p.executed (map execute (retained selected discovered)))
prepare-Runs execute jobs filter selected allow_empty discovered cases h r =
    let (j, e) = prepare-to_run jobs filter selected allow_empty discovered cases h in
    rw e (run-Completes execute cases jobs j r)
