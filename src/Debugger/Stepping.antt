-- ===== src/Debugger/Stepping.antt =====
-- Where the moves of src/debugger.rs stop.
use apex_exec.Prelude.{
  ℕ, zero, suc, ◌+◌, ◌-◌, ◌≤◌, ◌<◌, ◌≡◌, refl, sym, ◌∙◌, inl, inr, Bool, true, false, Option, none,
  some, List, [], ◌∷◌, length, get_elem?, drop, arith, leb, ltb, Bool-cases,
}
use apex_exec.Runtime.Instrumentation.Builder.{DebugSnapshot}
use apex_exec.Debugger.{
  StopReason, step, DebuggerSession, find_index, next_index, depth_of, current_snapshot, stop_at,
  finish_stop, move_to_next, step_in, step_over, step_out,
}

-- The first index from `first` on whose item passes.
abbrev pub IsFirst : {A : Type 0} → (A → Bool) → ℕ → List A → Option ℕ → Type 0
IsFirst {A} pass first xs none =
    (j : ℕ) (x : A) → first ≤ j → get_elem? xs j ≡ some x → pass x ≡ false
IsFirst {A} pass first xs (some k) =
    (first ≤ k)
    × ((x : A) × ((get_elem? xs k ≡ some x) × (pass x ≡ true)))
    × ((j : ℕ) (x : A) → first ≤ j → j < k → get_elem? xs j ≡ some x → pass x ≡ false)

-- The items of a list that begins at index i.
abbrev at_index : {A : Type 0} → ℕ → List A → ℕ → Option A
at_index i xs j = get_elem? xs (j - i)

abbrev FirstFrom : {A : Type 0} → (A → Bool) → ℕ → List A → Option ℕ → Type 0
FirstFrom {A} pass i xs none = (j : ℕ) (x : A) → i ≤ j → at_index i xs j ≡ some x → pass x ≡ false
FirstFrom {A} pass i xs (some k) =
    (i ≤ k)
    × ((x : A) × ((at_index i xs k ≡ some x) × (pass x ≡ true)))
    × ((j : ℕ) (x : A) → i ≤ j → j < k → at_index i xs j ≡ some x → pass x ≡ false)

at_index-cons :
    {A : Type 0} (i j : ℕ) (x : A) (xs : List A)
    → i < j
    → at_index i (x ∷ xs) j ≡ at_index (i + 1) xs j
at_index-cons i j x xs lt = let back : j - i ≡ suc (j - (i + 1)) = omega arith in rw back refl

at_index-head : {A : Type 0} (i : ℕ) (x : A) (xs : List A) → at_index i (x ∷ xs) i ≡ some x
at_index-head i x xs = let none_left : i - i ≡ zero = omega arith in rw none_left refl

-- An item at or after i is the head or comes after it.
miss_head :
    {A : Type 0} (pass : A → Bool) (i : ℕ) (x : A) (xs : List A) (j : ℕ) (y : A)
    → pass x ≡ false
    → i ≤ j
    → at_index i (x ∷ xs) j ≡ some y
    → (i + 1 ≤ j → at_index (i + 1) xs j ≡ some y → pass y ≡ false)
    → pass y ≡ false
miss_head pass i x xs j y miss le e later = elim (Bool-cases (leb j i)) [
  | inl small ↦
      let same : j ≡ i = ground arith in
      let head : at_index i (x ∷ xs) j ≡ some x = rw same (at_index-head i x xs) in
      let equal : x ≡ y = cc in rw (sym equal) miss
  | inr large ↦ later (ground arith) (sym (at_index-cons i j x xs (ground arith)) ∙ e)
]

-- One item that does not pass, before.
first-skip :
    {A : Type 0} (pass : A → Bool) (i : ℕ) (x : A) (xs : List A) (r : Option ℕ)
    → pass x ≡ false
    → FirstFrom pass (i + 1) xs r
    → FirstFrom pass i (x ∷ xs) r
first-skip pass i x xs none miss all =
    λ j y le e. miss_head pass i x xs j y miss le e (λ le' e'. all j y le' e')
first-skip pass i x xs (some k) miss (le, (y, (e, p)), before) = (
  omega arith,
  (y, (at_index-cons i k x xs (omega arith) ∙ e, p)),
  λ j z lej lt ez. miss_head pass i x xs j z miss lej ez (λ le' e'. before j z le' lt e'),
)

find_index-FirstFrom :
    {A : Type 0} (pass : A → Bool) (i : ℕ) (xs : List A)
    → FirstFrom pass i xs (find_index pass i xs)
unfolding find_index
find_index-FirstFrom pass i [] = λ j x le e. cc
find_index-FirstFrom pass i (x ∷ xs) = elim (Bool-cases (pass x)) [
  | inl hit ↦
      rw hit (omega arith, (x, (at_index-head i x xs, hit)), λ j z le lt e. absurd (omega arith))
  | inr miss ↦ rw miss (
      first-skip pass i x xs (find_index pass (i + 1) xs) miss
        (find_index-FirstFrom pass (i + 1) xs))
]

drop-at : {A : Type 0} (n j : ℕ) (xs : List A) → n ≤ j → at_index n (drop n xs) j ≡ get_elem? xs j
drop-at zero j xs le = let same : j - zero ≡ j = omega arith in rw same refl
drop-at (suc n) zero xs le = absurd (omega arith)
drop-at (suc n) (suc j) [] le = refl
drop-at (suc n) (suc j) (x ∷ xs) le =
    let same : suc j - suc n ≡ j - n = omega arith in rw same (drop-at n j xs (omega arith))

IsFirst-of_drop :
    {A : Type 0} (pass : A → Bool) (n : ℕ) (xs : List A) (r : Option ℕ)
    → FirstFrom pass n (drop n xs) r
    → IsFirst pass n xs r
IsFirst-of_drop pass n xs none all = λ j x le e. all j x le (drop-at n j xs le ∙ e)
IsFirst-of_drop pass n xs (some k) (le, (x, (e, p)), before) = (
  le,
  (x, (sym (drop-at n k xs le) ∙ e, p)),
  λ j z lej lt ez. before j z lej lt (drop-at n j xs lej ∙ ez),
)

pub find_index-IsFirst :
    {A : Type 0} (pass : A → Bool) (n : ℕ) (xs : List A)
    → IsFirst pass n xs (find_index pass n (drop n xs))
find_index-IsFirst pass n xs =
    IsFirst-of_drop pass n xs (find_index pass n (drop n xs))
      (find_index-FirstFrom pass n (drop n xs))

stop_at-cursor :
    {P V : Type 0} (reason : StopReason) (r : Option ℕ) (s : DebuggerSession P V)
    → (stop_at reason r s).1.cursor ≡ r
unfolding stop_at finish_stop
stop_at-cursor reason none s = refl
stop_at-cursor reason (some k) s = refl

moved :
    {P V : Type 0} (pass : DebugSnapshot → Bool) (s : DebuggerSession P V)
    → IsFirst pass (next_index s.cursor) s.execution.snapshots (move_to_next pass s).1.cursor
unfolding move_to_next
moved pass s =
    rw
      (stop_at-cursor step
        (find_index pass (next_index s.cursor) (drop (next_index s.cursor) s.execution.snapshots))
        s)
      (find_index-IsFirst pass (next_index s.cursor) s.execution.snapshots)

-- A step moves the cursor forward to the first later snapshot of its kind, and to no snapshot only
-- when none is left: stepping in takes any snapshot; stepping over takes one with no more frames
-- than the current one, so that every snapshot passed by is deeper; stepping out takes one with
-- fewer frames.
pub steps-IsFirst :
    {P V : Type 0} (s : DebuggerSession P V)
    → let depth = depth_of (current_snapshot s) in
      IsFirst (λ d. true) (next_index s.cursor) s.execution.snapshots (step_in s).1.cursor
      × IsFirst
          (λ d. leb (length d.frames) depth)
          (next_index s.cursor)
          s.execution.snapshots
          (step_over s).1.cursor
      × IsFirst
          (λ d. ltb (length d.frames) depth)
          (next_index s.cursor)
          s.execution.snapshots
          (step_out s).1.cursor
unfolding step_in step_over step_out
steps-IsFirst s = (
  moved (λ d. true) s,
  moved (λ d. leb (length d.frames) (depth_of (current_snapshot s))) s,
  moved (λ d. ltb (length d.frames) (depth_of (current_snapshot s))) s,
)
