-- ===== src/Debugger/Validity.antt =====
-- The cursor of a session of src/debugger.rs stays within its trace.
use apex_exec.Prelude.{
  ℕ, zero, suc, ◌<◌, ◌≡◌, refl, sym, Bool, true, false, Option, none, some, List, [], ◌∷◌, length,
  get_elem?, drop, map, arith, leb, ltb,
}
use apex_exec.Prelude.Map.{Eq}
use apex_exec.Span.{Span}
use apex_exec.Runtime.Instrumentation.Builder.{DebugSnapshot}
use apex_exec.Debugger
use apex_exec.Debugger.{
  Paths, SourcePosition, StopReason, step, breakpoint, DebuggerSession, DebugExecution, find_index,
  next_index, depth_of, current_snapshot, stop_at, finish_stop, move_to_next, step_in, step_over,
  step_out, continue_execution, hits_line, set_breakpoints, from_execution,
}
use apex_exec.Debugger.Stepping.{IsFirst, find_index-IsFirst}

abbrev pub Within : Option ℕ → ℕ → Type 0
Within none n = Unit
Within (some c) n = c < n

-- A position and the frames' positions for each snapshot, and a cursor that names one of them.
abbrev pub IsValid : {P V : Type 0} → DebuggerSession P V → Type 0
IsValid s =
    (length s.locations ≡ length s.execution.snapshots)
    × (length s.frame_locations ≡ length s.execution.snapshots)
    × Within s.cursor (length s.execution.snapshots)

length-map : {A B : Type 0} (f : A → B) (xs : List A) → length (map f xs) ≡ length xs
length-map f [] = refl
length-map f (x ∷ xs) = omega (arith, length-map f xs)

get_elem?-lt : {A : Type 0} (xs : List A) (k : ℕ) (x : A) → get_elem? xs k ≡ some x → k < length xs
get_elem?-lt [] k x h = cc
get_elem?-lt (y ∷ xs) zero x h = omega arith
get_elem?-lt (y ∷ xs) (suc k) x h = omega (arith, get_elem?-lt xs k x h)

IsFirst-Within :
    {A : Type 0} (pass : A → Bool) (n : ℕ) (xs : List A) (r : Option ℕ)
    → IsFirst pass n xs r
    → Within r (length xs)
IsFirst-Within pass n xs none h = tt
IsFirst-Within pass n xs (some k) (le, (x, (e, p)), before) = get_elem?-lt xs k x e

find_index-Within :
    {A : Type 0} (pass : A → Bool) (n : ℕ) (xs : List A)
    → Within (find_index pass n (drop n xs)) (length xs)
find_index-Within pass n xs =
    IsFirst-Within pass n xs (find_index pass n (drop n xs)) (find_index-IsFirst pass n xs)

stop_at-IsValid :
    {P V : Type 0} (reason : StopReason) (r : Option ℕ) (s : DebuggerSession P V)
    → IsValid s
    → Within r (length s.execution.snapshots)
    → IsValid (stop_at reason r s).1
unfolding stop_at finish_stop
stop_at-IsValid reason none s (a, b, c) h = (a, b, tt)
stop_at-IsValid reason (some k) s (a, b, c) h = (a, b, h)

move_to_next-IsValid :
    {P V : Type 0} (pass : DebugSnapshot → Bool) (s : DebuggerSession P V)
    → IsValid s
    → IsValid (move_to_next pass s).1
unfolding move_to_next
move_to_next-IsValid pass s v =
    stop_at-IsValid step _ s v (find_index-Within pass (next_index s.cursor) s.execution.snapshots)

Within-eq : (r : Option ℕ) (m n : ℕ) → m ≡ n → Within r m → Within r n
Within-eq r m n h w = rw (sym h) w

continue_execution-IsValid :
    {P V : Type 0} ⦃e : Eq P⦄ (paths : Paths P) (s : DebuggerSession P V)
    → IsValid s
    → IsValid (continue_execution paths s).1
unfolding continue_execution
continue_execution-IsValid paths s v = stop_at-IsValid breakpoint _ s v (
    Within-eq _ _ _ v.0 (
      find_index-Within (λ location. hits_line paths location s.breakpoints) (next_index s.cursor)
        s.locations))

abbrev with_snapshots :
    {P V : Type 0} → List DebugSnapshot → DebuggerSession P V → DebuggerSession P V
with_snapshots ds s = record s { execution = record s.execution { snapshots = ds } }

-- By whether the trace has a snapshot.
start-IsValid :
    {P V : Type 0} ⦃e : Eq P⦄ (paths : Paths P) (b : Bool) (ds : List DebugSnapshot)
    (s : DebuggerSession P V)
    → IsValid (with_snapshots ds s)
    → IsValid (Debugger.start paths b (with_snapshots ds s)).1
unfolding Debugger.start finish_stop
start-IsValid paths b [] s (l, f, c) = (l, f, tt)
start-IsValid paths true (d ∷ ds) s (l, f, c) = (l, f, omega arith)
start-IsValid paths false (d ∷ ds) s v =
    continue_execution-IsValid paths (with_snapshots (d ∷ ds) s) v

set_breakpoints-IsValid :
    {P V : Type 0} ⦃e : Eq P⦄ (paths : Paths P) (path : P) (lines : List ℕ)
    (s : DebuggerSession P V)
    → IsValid s
    → IsValid (set_breakpoints paths path lines s).1
unfolding set_breakpoints
set_breakpoints-IsValid paths path lines s v = v

from_execution-IsValid :
    {P V : Type 0} (paths : Paths P) (execution : DebugExecution V)
    (locate : Span → Option (SourcePosition P))
    → IsValid (from_execution paths execution locate)
unfolding from_execution
from_execution-IsValid paths execution locate =
    (length-map _ execution.snapshots, length-map _ execution.snapshots, tt)

-- What a client asks of a session.
pub data Command (P : Type 0) : Type 0 where
  breakpoints_at : P → List ℕ → Command P
  starting : Bool → Command P
  continuing going_in going_over going_out : Command P

module _ {P V : Type 0} ⦃e : Eq P⦄ (paths : Paths P) where
  abbrev pub perform : Command P → DebuggerSession P V → DebuggerSession P V
  perform (breakpoints_at path lines) s = (set_breakpoints paths path lines s).1
  perform (starting b) s = (Debugger.start paths b s).1
  perform continuing s = (continue_execution paths s).1
  perform going_in s = (step_in s).1
  perform going_over s = (step_over s).1
  perform going_out s = (step_out s).1

  abbrev pub perform_all : List (Command P) → DebuggerSession P V → DebuggerSession P V
  perform_all [] s = s
  perform_all (c ∷ cs) s = perform_all cs (perform c s)

perform-IsValid :
    {P V : Type 0} ⦃e : Eq P⦄ (paths : Paths P) (c : Command P) (s : DebuggerSession P V)
    → IsValid s
    → IsValid (perform paths c s)
unfolding step_in step_over step_out
perform-IsValid paths (breakpoints_at path lines) s v = set_breakpoints-IsValid paths path lines s v
perform-IsValid paths (starting b) s v = start-IsValid paths b s.execution.snapshots s v
perform-IsValid paths continuing s v = continue_execution-IsValid paths s v
perform-IsValid paths going_in s v = move_to_next-IsValid (λ d. true) s v
perform-IsValid paths going_over s v =
    move_to_next-IsValid (λ d. leb (length d.frames) (depth_of (current_snapshot s))) s v
perform-IsValid paths going_out s v =
    move_to_next-IsValid (λ d. ltb (length d.frames) (depth_of (current_snapshot s))) s v

perform_all-keeps :
    {P V : Type 0} ⦃e : Eq P⦄ (paths : Paths P) (cs : List (Command P)) (s : DebuggerSession P V)
    → IsValid s
    → IsValid (perform_all paths cs s)
perform_all-keeps paths [] s v = v
perform_all-keeps paths (c ∷ cs) s v =
    perform_all-keeps paths cs (perform paths c s) (perform-IsValid paths c s v)

-- Whatever commands a client gives a new session, its cursor names a snapshot of the trace, or none,
-- and there are as many positions and lists of frame positions as snapshots: the session's
-- unchecked indexing by the cursor is always in range.
pub perform_all-IsValid :
    {P V : Type 0} ⦃e : Eq P⦄ (paths : Paths P) (execution : DebugExecution V)
    (locate : Span → Option (SourcePosition P)) (cs : List (Command P))
    → IsValid (perform_all paths cs (from_execution paths execution locate))
perform_all-IsValid paths execution locate cs =
    perform_all-keeps paths cs (from_execution paths execution locate)
      (from_execution-IsValid paths execution locate)
