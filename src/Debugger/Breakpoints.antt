-- ===== src/Debugger/Breakpoints.antt =====
-- Where src/debugger.rs places breakpoints.
use apex_exec.Prelude.{
  ℕ, ◌≤◌, ◌<◌, ◌≡◌, refl, sym, ◌∙◌, ap, inl, inr, true, Option, none, some, List, [], ◌∷◌, min, map,
  arith, leb, ◌==◌, Bool-cases, All,
}
use apex_exec.Prelude.Map.{Eq, get, get-insert, beq_refl}
use apex_exec.Debugger.{
  Paths, Breakpoint, DebuggerSession, first_from, at_or_after, has_line, has_value,
  executable_lines, place, set_breakpoints, accept,
}

-- The least line of the list that is at least `line`.
abbrev pub IsNext : ℕ → List ℕ → Option ℕ → Type 0
IsNext line lines none = (l : ℕ) → has_line l lines ≡ true → l < line
IsNext line lines (some a) =
    (line ≤ a) × (has_line a lines ≡ true) × ((l : ℕ) → has_line l lines ≡ true → line ≤ l → a ≤ l)

min-has_line : (a l : ℕ) (ls : List ℕ) → has_line a ls ≡ true → has_line (min a l) (l ∷ ls) ≡ true
min-has_line a l ls there = elim (Bool-cases (leb a l)) [
  | inl le ↦
      let least : min a l ≡ a = ground arith in
      let kept : has_line (min a l) ls ≡ true = rw least there in ground arith
  | inr gt ↦ ground arith
]

IsNext-cons :
    (line l : ℕ) (ls : List ℕ) (r : Option ℕ)
    → IsNext line ls r
    → IsNext line (l ∷ ls) (at_or_after line r l)
IsNext-cons line l ls none h = elim (Bool-cases (leb line l)) [
  | inl le ↦ rw le (ground arith, ground arith, λ k hk lk. ground (arith, h k))
  | inr gt ↦ rw gt (λ k hk. ground (arith, h k))
]
IsNext-cons line l ls (some a) (le, there, least) = elim (Bool-cases (leb line l)) [
  | inl le_l ↦ rw le_l (ground arith, min-has_line a l ls there, λ k hk lk. ground (arith, least k))
  | inr gt ↦ rw gt (le, ground arith, λ k hk lk. ground (arith, least k))
]

first_from-IsNext : (line : ℕ) (ls : List ℕ) → IsNext line ls (first_from line ls)
unfolding first_from
first_from-IsNext line [] = λ l h. cc
first_from-IsNext line (l ∷ ls) =
    IsNext-cons line l ls (first_from line ls) (first_from-IsNext line ls)

-- What a request comes to, in the executable lines of its file.
abbrev pub IsPlaced : List ℕ → Breakpoint → Type 0
IsPlaced executable b =
    (b.verified ≡ has_value b.actual_line) × IsNext b.line executable b.actual_line

place-IsPlaced : (executable lines : List ℕ) → All (IsPlaced executable) (place executable lines).0
unfolding place
place-IsPlaced executable [] = tt
place-IsPlaced executable (line ∷ lines) =
    ((refl, first_from-IsNext line executable), place-IsPlaced executable lines)

place-lines :
    (executable lines : List ℕ)
    → map (λ (b : Breakpoint). b.line) (place executable lines).0 ≡ lines
unfolding place
place-lines executable [] = refl
place-lines executable (line ∷ lines) = ap (λ ls. line ∷ ls) (place-lines executable lines)

accept-has_line :
    (executable : List ℕ) (line : ℕ) (r : Option ℕ) (accepted : List ℕ)
    → IsNext line executable r
    → ((l : ℕ) → has_line l accepted ≡ true → has_line l executable ≡ true)
    → (l : ℕ) → has_line l (accept r accepted) ≡ true
    → has_line l executable ≡ true
accept-has_line executable line none accepted next all l h = all l h
accept-has_line executable line (some a) accepted (le, there, least) all l h =
    elim (Bool-cases (a == l)) [
      | inl same ↦ let equal : a ≡ l = ground arith in rw (sym equal) there
      | inr other ↦ all l (ground arith)
    ]

place-has_line :
    (executable lines : List ℕ) (l : ℕ)
    → has_line l (place executable lines).1 ≡ true
    → has_line l executable ≡ true
unfolding place
place-has_line executable [] l h = cc
place-has_line executable (line ∷ lines) l h =
    accept-has_line executable line (first_from line executable) (place executable lines).1
      (first_from-IsNext line executable) (place-has_line executable lines) l h

-- Setting the breakpoints of a file answers the requested lines in order: each is verified exactly
-- when the trace has a line of that file at or after it, and then stands on the least such line.
-- The session's lines for the file are all lines of the trace in it, and replace those of before.
pub set_breakpoints-IsPlaced :
    {P V : Type 0} ⦃e : Eq P⦄ (paths : Paths P) (path : P) (lines : List ℕ)
    (s : DebuggerSession P V)
    → let executable = executable_lines paths path s.locations in
      let (answers, after) = set_breakpoints paths path lines s in
      (map (λ (b : Breakpoint). b.line) answers ≡ lines)
      × All (IsPlaced executable) answers
      × ((accepted : List ℕ) × ((get path after.breakpoints ≡ some accepted)
            × ((l : ℕ) → has_line l accepted ≡ true → has_line l executable ≡ true)))
unfolding set_breakpoints
set_breakpoints-IsPlaced ⦃e⦄ paths path lines s =
    let executable = executable_lines paths path s.locations in
    (
      place-lines executable lines,
      place-IsPlaced executable lines,
      (
        (place executable lines).1,
        (
          get-insert path path (place executable lines).1 s.breakpoints ∙ rw (beq_refl path) refl,
          place-has_line executable lines,
        ),
      ),
    )
