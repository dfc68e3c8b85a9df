-- ===== src/Semantic/Flow/Exhaustive.antt =====
-- The analysis always gives a statement some way to complete.
use apex_exec.Prelude.{◌≡◌, refl, inl, inr, Bool, true, not, ◌&&◌, ◌||◌, arith, Bool-cases}
use apex_exec.Semantic.Statement.{
  TypeName, Statement, Statements, OptStatement, Catches, sequence, block, if_else, do_while, try,
  end, next, absent, present, no_catches, catch,
}
use apex_exec.Semantic.Flow.{
  Completions, normal, union, and_then, without_throw, do_while_completions, pending_completions,
  finally_completions, catches_exception, statement_completions, list_completions,
  branch_completions, catches_completions, finish_completions,
  statement_definitely_returns_or_throws,
}

abbrev completes : Completions → Bool
completes c = c.normal || c.returns || c.throws || c.breaks || c.continues

completes-left : (a b : Completions) → completes a ≡ true → completes (union a b) ≡ true
unfolding union
completes-left a b h = ground arith

completes-right : (a b : Completions) → completes b ≡ true → completes (union a b) ≡ true
unfolding union
completes-right a b h = ground arith

completes-and_then :
    (a b : Completions) → completes a ≡ true → completes b ≡ true → completes (and_then a b) ≡ true
unfolding and_then
completes-and_then a b h k = ground arith

completes-do_while :
    (c : Completions) → completes c ≡ true → completes (do_while_completions c) ≡ true
unfolding do_while_completions
completes-do_while c h = ground arith

completes-finally :
    (p c : Completions)
    → completes p ≡ true
    → completes c ≡ true
    → completes (finally_completions p c) ≡ true
unfolding finally_completions
completes-finally p c h k = ground arith

completes-pending_none :
    (E : Type 0) (c handled : Completions)
    → completes c ≡ true
    → completes (pending_completions {E = E} c handled no_catches) ≡ true
unfolding pending_completions without_throw
completes-pending_none E c handled h = ground arith

module _ {E : Type 0} where
  completes-pending_some :
      (c handled : Completions) (ty : TypeName) (s : Statement E) (rest : Catches E)
      → completes handled ≡ true
      → completes (pending_completions c handled (catch ty s rest)) ≡ true
  unfolding pending_completions
  completes-pending_some c handled ty s rest h =
      elim (Bool-cases (catches_exception (catch ty s rest))) [
        | inl e ↦ rw e h
        | inr e ↦ rw e (ground arith)
      ]

mutual
  unfolding statement_completions

  completes-statement : {E : Type 0} (s : Statement E) → completes (statement_completions s) ≡ true
  completes-statement (Statement.return value) = refl
  completes-statement (Statement.throw value) = refl
  completes-statement Statement.break = refl
  completes-statement Statement.continue = refl
  completes-statement (block body) = completes-list normal body refl
  completes-statement (sequence body) = completes-list normal body refl
  completes-statement (if_else e s t) =
      completes-left (statement_completions s) (branch_completions t) (completes-statement s)
  completes-statement (do_while s e) =
      completes-do_while (statement_completions s) (completes-statement s)
  completes-statement (try s cs f) =
      completes-finish
        (pending_completions (statement_completions s)
          (catches_completions (without_throw (statement_completions s)) cs) cs)
        f (completes-pending (statement_completions s) cs (completes-statement s))
  completes-statement _ = refl

  completes-list :
      {E : Type 0} (current : Completions) (ss : Statements E)
      → completes current ≡ true
      → completes (list_completions current ss) ≡ true
  completes-list current end h = h
  completes-list current (next s rest) h =
      completes-list (and_then current (statement_completions s)) rest
        (completes-and_then current (statement_completions s) h (completes-statement s))

  completes-pending :
      {E : Type 0} (c : Completions) (cs : Catches E)
      → completes c ≡ true
      → completes (pending_completions c (catches_completions (without_throw c) cs) cs) ≡ true
  completes-pending {E} c no_catches h = completes-pending_none E c (without_throw c) h
  completes-pending c (catch ty s rest) h =
      completes-pending_some c (catches_completions (without_throw c) (catch ty s rest)) ty s rest (
        completes-catches (union (without_throw c) (statement_completions s)) rest
          (completes-right (without_throw c) (statement_completions s) (completes-statement s)))

  completes-catches :
      {E : Type 0} (current : Completions) (cs : Catches E)
      → completes current ≡ true
      → completes (catches_completions current cs) ≡ true
  completes-catches current no_catches h = h
  completes-catches current (catch ty s rest) h =
      completes-catches (union current (statement_completions s)) rest
        (completes-left current (statement_completions s) h)

  completes-finish :
      {E : Type 0} (p : Completions) (f : OptStatement E)
      → completes p ≡ true
      → completes (finish_completions p f) ≡ true
  completes-finish p absent h = h
  completes-finish p (present f) h =
      completes-finally p (statement_completions f) h (completes-statement f)

redundant_flags :
    (c : Completions)
    → completes c ≡ true
    → (not c.normal && not c.breaks && not c.continues && (c.returns || c.throws))
      ≡ (not c.normal && not c.breaks && not c.continues)
redundant_flags c h = ground arith

-- The test accepts exactly the statements that the analysis sees neither complete normally nor
-- break nor continue: its last conjunct, "returns or throws", never decides.
pub definite_iff_no_exit :
    {E : Type 0} (s : Statement E)
    → statement_definitely_returns_or_throws s ≡ (
        not (statement_completions s).normal
        && not (statement_completions s).breaks
        && not (statement_completions s).continues)
unfolding statement_definitely_returns_or_throws
definite_iff_no_exit s = redundant_flags (statement_completions s) (completes-statement s)
