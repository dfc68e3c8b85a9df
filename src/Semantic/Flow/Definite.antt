-- ===== src/Semantic/Flow/Definite.antt =====
-- What the checker's "must return a value on every path" test is worth.
use apex_exec.Prelude.{◌≡◌, refl, ◌⊎◌, inl, inr, Bool, true, not, ◌&&◌, ◌||◌, arith}
use apex_exec.Semantic.Statement.{Statement, block, do_while, run_as, end, next}
use apex_exec.Semantic.Flow.{
  Completions, statement_completions, statement_definitely_returns_or_throws,
}
use apex_exec.Semantic.Flow.Exec.{
  Flow, Outcome, ok, err, run, Exec, do_leave, block_run, seq_stop, run_as_run, break_run, on_break,
}
use apex_exec.Semantic.Flow.Laws.{Permits}
use apex_exec.Semantic.Flow.Soundness.{IsContained, Exec-Permits}

-- The flags of the loop that `run_as_break_escapes` is about.
escape_flags :
    (n b c r : Bool)
    → (not n && not b && not c && r) ≡ true
    → (not (n || b || c) && true && true && r) ≡ true
escape_flags n b c r h = ground arith

definite_outcome :
    (c : Completions) (o : Outcome)
    → (not c.normal && not c.breaks && not c.continues && (c.returns || c.throws)) ≡ true
    → Permits c o
    → (o ≡ ok Flow.return) ⊎ (o ≡ err)
definite_outcome c (ok Flow.normal) h p = ground arith
definite_outcome c (ok Flow.break) h p = ground arith
definite_outcome c (ok Flow.continue) h p = ground arith
definite_outcome c (ok Flow.return) h p = inl refl
definite_outcome c err h p = inr refl

-- If no run of the body of a `System.runAs`, of the initializer of a for loop or of its update leaves
-- by a break or a continue, then every run of an accepted statement that ends returns or fails: it
-- neither completes normally nor breaks nor continues.
pub definite_return :
    {E : Type 0} (s : Statement E) {o : Outcome}
    → IsContained s
    → statement_definitely_returns_or_throws s ≡ true
    → Exec (run s) o
    → (o ≡ ok Flow.return) ⊎ (o ≡ err)
unfolding statement_definitely_returns_or_throws
definite_return s {o} contained accepted x =
    definite_outcome (statement_completions s) o accepted (Exec-Permits x contained)

-- The analysis takes a `System.runAs` for a statement that completes normally. So a do-while loop
-- whose body breaks out of a run-as and then returns is accepted, whatever the returning statement
-- is, and still has a run that completes normally.
pub run_as_break_escapes :
    {E : Type 0} (user test : E) (rest : Statement E)
    → statement_definitely_returns_or_throws rest ≡ true
    → let loop = do_while (block (next (run_as user Statement.break) (next rest end))) test in
      (statement_definitely_returns_or_throws loop ≡ true) × Exec (run loop) (ok Flow.normal)
unfolding statement_definitely_returns_or_throws
run_as_break_escapes user test rest accepted =
    let c = statement_completions rest in
    (
      escape_flags c.normal c.breaks c.continues (c.returns || c.throws) accepted,
      do_leave (block_run (seq_stop (run_as_run break_run) (cc))) on_break,
    )
