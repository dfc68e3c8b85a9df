-- ===== src/Debugger/Examples.antt =====
-- A concrete session.
use apex_exec.Prelude.{
  false, ℕ, ◌≡◌, refl, true, none, some, List, [], ◌∷◌, length, leb, ltb, map, All,
}
use apex_exec.Prelude.Text.{Text, codes}
use apex_exec.Prelude.Map.{text_key, get}
use apex_exec.Runtime.Instrumentation.Builder.{DebugSnapshot}
use apex_exec.Debugger.{
  Paths, SourcePosition, Breakpoint, DebuggerSession, depth_of, current_snapshot, step_in,
  step_over, step_out, continue_execution, hits_line, has_line, set_breakpoints, executable_lines,
  same_path, find_index, from_execution, stop_at, finish_stop,
}
use apex_exec.Debugger.Stepping.{IsFirst, steps-IsFirst}
use apex_exec.Debugger.Validity.{IsValid, continuing, going_in, perform_all, perform_all-IsValid}
use apex_exec.Debugger.Breakpoints.{IsPlaced, set_breakpoints-IsPlaced}

-- Every path is a relative file name.
abbrev names : Paths Text
names = record { file_name = λ p. some p; is_relative = λ p. true; unknown = codes "<unknown>" }

abbrev snapshot : DebugSnapshot
snapshot = record {
  span = record { source_id = record { id = 0 }; start = 0; stop = 1 };
  frames = [];
  variables = [];
  transaction_event_count = 0;
}

abbrev at_line : ℕ → SourcePosition Text
at_line n = record { path = codes "a"; line = n; column = 1 }

abbrev session : DebuggerSession Text ℕ
session = record {
  execution = record {
    output = [];
    diagnostic = none;
    snapshots = snapshot ∷ snapshot ∷ snapshot ∷ [];
    timeline = [];
    trace_status = record { retained_bytes = 0; truncated = false };
  };
  locations = at_line 1 ∷ at_line 2 ∷ at_line 3 ∷ [];
  frame_locations = [] ∷ [] ∷ [] ∷ [];
  breakpoints = (codes "a", 3 ∷ []) ∷ [];
  cursor = some 0;
}

steps-IsFirst_example :
    let depth = depth_of (current_snapshot session) in
    IsFirst (λ d. true) 1 session.execution.snapshots (step_in session).1.cursor
    × IsFirst
        (λ d. leb (length d.frames) depth)
        1
        session.execution.snapshots
        (step_over session).1.cursor
    × IsFirst
        (λ d. ltb (length d.frames) depth)
        1
        session.execution.snapshots
        (step_out session).1.cursor
steps-IsFirst_example = steps-IsFirst session

-- It runs over line 2 to line 3.
continues_to_third : (continue_execution names session).1.cursor ≡ some 2
unfolding continue_execution find_index hits_line same_path stop_at finish_stop
continues_to_third = refl

set_breakpoints-IsPlaced_example :
    let executable = executable_lines names (codes "a") session.locations in
    let (answers, after) = set_breakpoints names (codes "a") (2 ∷ 99 ∷ []) session in
    (map (λ (b : Breakpoint). b.line) answers ≡ 2 ∷ 99 ∷ [])
    × All (IsPlaced executable) answers
    × ((accepted : List ℕ) × ((get (codes "a") after.breakpoints ≡ some accepted)
          × ((l : ℕ) → has_line l accepted ≡ true → has_line l executable ≡ true)))
set_breakpoints-IsPlaced_example = set_breakpoints-IsPlaced names (codes "a") (2 ∷ 99 ∷ []) session

perform_all-IsValid_example : IsValid (
    perform_all names
      (going_in ∷ continuing ∷ [])
      (from_execution names session.execution (λ span. some (at_line span.start))))
perform_all-IsValid_example =
    perform_all-IsValid names session.execution (λ span. some (at_line span.start))
      (going_in ∷ continuing ∷ [])
