-- ===== src/TestRunner.antt =====
-- `run_internal` of src/test_runner.rs: worker threads claim cases from a shared counter and push
-- what they executed to a shared list. What executing a case gives is a parameter. The counter does
-- not wrap: it stays below twice the length of a vector.
mod Workers
mod Schedule
pub mod Completes
mod Examples
use apex_exec.Prelude.{
  ℕ, zero, suc, Bool, true, false, Option, none, some, List, [], ◌∷◌, ◌++◌, length, get_elem?, min,
  if◌then◌else◌,
}
use apex_exec.Prelude.Text.{Text, codes}
use apex_exec.Prelude.Map.{contains, text_key}

-- A class and its member, by their indices.
pub record ClassMemberId : Type 0 where
  pub class_id : ℕ
  pub member_id : ℕ

pub record TestCase : Type 0 where
  pub name : Text
  pub class_name : Text
  pub method_name : Text
  pub target : ClassMemberId
  pub setup_methods : List ClassMemberId

-- How `run_internal` goes on: an error, the report of no tests, or the cases to run.
pub data Prepared : Type 0 where
  refused : Text → Prepared
  nothing_to_run : Prepared
  to_run : List TestCase → Prepared

unfoldable pub keep : List Text → List TestCase → List TestCase
unfolding contains
keep selected [] = []
keep selected (case ∷ cases) =
    if contains case.name selected then case ∷ keep selected cases else keep selected cases

-- `if let Some(selected) = selected { cases.retain(..) }`
abbrev pub retained : Option (List Text) → List TestCase → List TestCase
retained none cases = cases
retained (some selected) cases = keep selected cases

abbrev pub no_tests : Option Text → Text
no_tests (some filter) = codes "no Apex tests matched filter `" ++ filter ++ codes "`"
no_tests none = codes "no Apex tests were discovered"

abbrev pub unless_empty : Option Text → Bool → List TestCase → Prepared
unless_empty filter true [] = nothing_to_run
unless_empty filter false [] = refused (no_tests filter)
unless_empty filter allow_empty (case ∷ cases) = to_run (case ∷ cases)

-- `run_internal` up to its threads: `cases` is what `discover_tests` found.
unfoldable pub prepare : ℕ → Option Text → Option (List Text) → Bool → List TestCase → Prepared
unfolding keep
prepare zero filter selected allow_empty cases = refused (codes "test jobs must be at least 1")
prepare (suc jobs) filter selected allow_empty cases =
    unless_empty filter allow_empty (retained selected cases)

-- Where a thread is: at the head of its loop, with the case that it claimed, or past its `break`.
pub data Worker (C : Type 0) : Type 0 where
  ready : Worker C
  running : C → Worker C
  stopped : Worker C

-- `next`, `executed` and the threads.
pub record Pool (C E : Type 0) : Type 0 where
  pub next : ℕ
  pub executed : List E
  pub workers : List (Worker C)

-- `let Some(case) = cases.get(index) else { break }`
abbrev pub claimed : {C : Type 0} → Option C → Worker C
claimed none = stopped
claimed (some case) = running case

abbrev pub spawned : {C : Type 0} → ℕ → List (Worker C)
spawned zero = []
spawned (suc jobs) = ready ∷ spawned jobs

module _ {C E : Type 0} (execute : C → E) (cases : List C) where
  -- `options.jobs.min(cases.len())` threads, before any has run.
  abbrev pub initial : ℕ → Pool C E
  initial jobs = record { next = 0; executed = []; workers = spawned (min jobs (length cases)) }

  -- One thread's move: `fetch_add` and the look-up, or the execution and the push.
  pub data Step : Pool C E → Pool C E → Type 0 where
    fetch :
        (index : ℕ) (executed : List E) (before after : List (Worker C))
        → Step
            (record { next = index; executed = executed; workers = before ++ ready ∷ after })
            (record {
              next = suc index;
              executed = executed;
              workers = before ++ claimed (get_elem? cases index) ∷ after;
            })
    push :
        (index : ℕ) (executed : List E) (before after : List (Worker C)) (case : C)
        → Step
            (record { next = index; executed = executed; workers = before ++ running case ∷ after })
            (record {
              next = index;
              executed = executed ++ execute case ∷ [];
              workers = before ++ ready ∷ after;
            })

  -- A schedule: that many moves of any threads, one after the other.
  pub data Runs : ℕ → Pool C E → Pool C E → Type 0 where
    begin : (p : Pool C E) → Runs 0 p p
    move : {n : ℕ} {p q r : Pool C E} → Runs n p q → Step q r → Runs (suc n) p r
