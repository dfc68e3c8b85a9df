-- ===== src/Debugger.antt =====
-- src/debugger.rs: a session that moves over the recorded trace of an execution. The paths of the
-- host's library are a type with its own equality, `file_name` and `is_relative`.
pub mod Stepping
pub mod Breakpoints
pub mod Validity
mod Examples
use apex_exec.Prelude.{
  ℕ, zero, suc, ◌+◌, ◌-◌, Bool, true, false, not, ◌&&◌, ◌||◌, Option, none, some, List, [], ◌∷◌,
  ◌++◌, length, get_elem?, take, drop, min, leb, ltb, ◌==◌, if◌then◌else◌, map,
}
use apex_exec.Prelude.Text.{Text, text_eq, codes}
use apex_exec.Prelude.Map.{Map, Eq, insert, get}
use apex_exec.Span.{Span}
use apex_exec.Diagnostic.{Diagnostic}
use apex_exec.Runtime.Instrumentation.State.{DebugTraceStatus}
use apex_exec.Runtime.Instrumentation.Builder.{DebugSnapshot, DebugFrame, DebugVariable}

pub data StopReason : Type 0 where
  entry breakpoint step exception complete : StopReason

pub record Breakpoint : Type 0 where
  pub line : ℕ
  pub verified : Bool
  pub actual_line : Option ℕ

-- A line on which a breakpoint stands: the first executable one at or after it.
abbrev pub at_or_after : ℕ → Option ℕ → ℕ → Option ℕ
at_or_after line none l = if leb line l then some l else none
at_or_after line (some best) l = if leb line l then some (min best l) else some best

-- `executable.range(line..).next()`
unfoldable pub first_from : ℕ → List ℕ → Option ℕ
first_from line [] = none
first_from line (l ∷ ls) = at_or_after line (first_from line ls) l

-- The first index at or after `index` whose item passes; the list begins at `index`.
unfoldable pub find_index : {A : Type 0} → (A → Bool) → ℕ → List A → Option ℕ
find_index pass index [] = none
find_index pass index (x ∷ xs) = if pass x then some index else find_index pass (index + 1) xs

abbrev pub has_line : ℕ → List ℕ → Bool
has_line line [] = false
has_line line (l ∷ ls) = l == line || has_line line ls

-- The events of the timeline are the host's.
pub record DebugExecution (V : Type 0) : Type 0 where
  pub output : List Text
  pub diagnostic : Option Diagnostic
  pub snapshots : List DebugSnapshot
  pub timeline : List V
  pub trace_status : DebugTraceStatus

abbrev option_text_eq : Option Text → Option Text → Bool
option_text_eq none none = true
option_text_eq (some a) (some b) = text_eq a b
option_text_eq _ _ = false

abbrev is_some : Option Text → Bool
is_some none = false
is_some (some v) = true

abbrev pub has_value : Option ℕ → Bool
has_value none = false
has_value (some n) = true

pub record SourcePosition (P : Type 0) : Type 0 where
  pub path : P
  pub line : ℕ
  pub column : ℕ

pub record Stop (P : Type 0) : Type 0 where
  pub reason : StopReason
  pub position : Option (SourcePosition P)
  pub description : Option Text

pub record DebuggerSession (P V : Type 0) : Type 0 where
  pub execution : DebugExecution V
  pub locations : List (SourcePosition P)
  pub frame_locations : List (List (SourcePosition P))
  pub breakpoints : Map P (List ℕ)
  pub cursor : Option ℕ

-- The host's library for paths.
pub record Paths (P : Type 0) : Type 0 where
  pub file_name : P → Option Text
  pub is_relative : P → Bool
  pub unknown : P

abbrev or_else {ℓ} : {A : Type ℓ} → A → Option A → A
or_else d none = d
or_else d (some a) = a

unfoldable pub unknown_position : {P : Type 0} → Paths P → SourcePosition P
unknown_position paths = record { path = paths.unknown; line = 1; column = 1 }

-- `from_execution`; `locate` is the caller's.
unfoldable pub from_execution :
    {P V : Type 0}
    → Paths P
    → DebugExecution V
    → (Span → Option (SourcePosition P))
    → DebuggerSession P V
from_execution paths execution locate = record {
  execution = execution;
  locations =
      map (λ (s : DebugSnapshot). or_else (unknown_position paths) (locate s.span))
        execution.snapshots;
  frame_locations =
      map
        (λ (s : DebugSnapshot).
          map (λ (f : DebugFrame). or_else (unknown_position paths) (locate f.span)) s.frames)
        execution.snapshots;
  breakpoints = [];
  cursor = none;
}

-- `self.cursor.map_or(0, |cursor| cursor + 1)`
abbrev pub next_index : Option ℕ → ℕ
next_index none = 0
next_index (some c) = c + 1

abbrev pub snapshot_at : Option ℕ → List DebugSnapshot → Option DebugSnapshot
snapshot_at none snapshots = none
snapshot_at (some c) snapshots = get_elem? snapshots c

unfoldable pub current_snapshot : {P V : Type 0} → DebuggerSession P V → Option DebugSnapshot
current_snapshot s = snapshot_at s.cursor s.execution.snapshots

abbrev position_at : {P : Type 0} → Option ℕ → List (SourcePosition P) → Option (SourcePosition P)
position_at none locations = none
position_at (some c) locations = get_elem? locations c

unfoldable pub stop : {P V : Type 0} → StopReason → DebuggerSession P V → Stop P
stop reason s = record {
  reason = reason;
  position = position_at s.cursor s.locations;
  description = none;
}

abbrev final_stop : {P : Type 0} → Option Diagnostic → Stop P
final_stop (some d) = record { reason = exception; position = none; description = some d.message }
final_stop none = record { reason = complete; position = none; description = none }

unfoldable pub finish_stop : {P V : Type 0} → DebuggerSession P V → Stop P × DebuggerSession P V
finish_stop s = (final_stop s.execution.diagnostic, record s { cursor = none })

-- The stop at an index that a search found, or the end.
unfoldable pub stop_at :
    {P V : Type 0} → StopReason → Option ℕ → DebuggerSession P V → Stop P × DebuggerSession P V
unfolding stop
stop_at reason none s = finish_stop s
stop_at reason (some index) s =
    (stop reason (record s { cursor = some index }), record s { cursor = some index })

unfoldable pub move_to_next :
    {P V : Type 0} → (DebugSnapshot → Bool) → DebuggerSession P V → Stop P × DebuggerSession P V
move_to_next predicate s =
    stop_at step
      (find_index predicate (next_index s.cursor)
        (drop (next_index s.cursor) s.execution.snapshots))
      s

unfoldable pub step_in : {P V : Type 0} → DebuggerSession P V → Stop P × DebuggerSession P V
step_in s = move_to_next (λ snapshot. true) s

abbrev pub depth_of : Option DebugSnapshot → ℕ
depth_of none = 0
depth_of (some snapshot) = length snapshot.frames

unfoldable pub step_over : {P V : Type 0} → DebuggerSession P V → Stop P × DebuggerSession P V
step_over s =
    move_to_next (λ snapshot. leb (length snapshot.frames) (depth_of (current_snapshot s))) s

unfoldable pub step_out : {P V : Type 0} → DebuggerSession P V → Stop P × DebuggerSession P V
step_out s =
    move_to_next (λ snapshot. ltb (length snapshot.frames) (depth_of (current_snapshot s))) s

abbrev pub accept : Option ℕ → List ℕ → List ℕ
accept none lines = lines
accept (some l) lines = l ∷ lines

-- The breakpoints of the request in order, and the lines accepted.
unfoldable pub place : List ℕ → List ℕ → List Breakpoint × List ℕ
place executable [] = ([], [])
place executable (line ∷ lines) =
    let actual = first_from line executable in
    let (rest, accepted) = place executable lines in
    (
      record { line = line; verified = has_value actual; actual_line = actual } ∷ rest,
      accept actual accepted,
    )

module _ {P : Type 0} ⦃e : Eq P⦄ (paths : Paths P) where
  unfoldable pub same_path : P → P → Bool
  same_path left right =
      e.beq left right
      || (is_some (paths.file_name left)
          && option_text_eq (paths.file_name left) (paths.file_name right)
          && (paths.is_relative left || paths.is_relative right))

  -- The lines of the trace in a file.
  unfoldable pub executable_lines : P → List (SourcePosition P) → List ℕ
  executable_lines path [] = []
  executable_lines path (l ∷ ls) =
      let rest = executable_lines path ls in if same_path l.path path then l.line ∷ rest else rest

  unfoldable pub set_breakpoints :
      {V : Type 0} → P → List ℕ → DebuggerSession P V → List Breakpoint × DebuggerSession P V
  set_breakpoints path requested_lines s =
      let (placed, accepted) = place (executable_lines path s.locations) requested_lines in
      (placed, record s { breakpoints = insert path accepted s.breakpoints })

  unfoldable pub hits_line : SourcePosition P → Map P (List ℕ) → Bool
  hits_line location [] = false
  hits_line location ((path, lines) ∷ rest) =
      (same_path path location.path && has_line location.line lines) || hits_line location rest

  unfoldable pub continue_execution :
      {V : Type 0} → DebuggerSession P V → Stop P × DebuggerSession P V
  continue_execution s =
      stop_at breakpoint
        (find_index (λ location. hits_line location s.breakpoints) (next_index s.cursor)
          (drop (next_index s.cursor) s.locations))
        s

  unfoldable pub start : {V : Type 0} → Bool → DebuggerSession P V → Stop P × DebuggerSession P V
  unfolding stop
  start stop_on_entry s = elim s.execution.snapshots [
    | [] ↦ finish_stop s
    | snapshot ∷ rest ↦
        if stop_on_entry
        then (stop entry (record s { cursor = some 0 }), record s { cursor = some 0 })
        else continue_execution s
  ]
