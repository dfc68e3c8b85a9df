-- ===== src/Semantic/Flow/Examples.antt =====
-- Runs of the analysis on small bodies.
use apex_exec.Prelude.{ℕ, ◌≡◌, refl, ◌⊎◌, true, false, not, ◌&&◌, some}
use apex_exec.Semantic.Statement.{
  Statement, block, do_while, try, run_as, end, next, present, catch, no_catches, exception,
}
use apex_exec.Semantic.Flow.{statement_completions, statement_definitely_returns_or_throws}
use apex_exec.Semantic.Flow.Exec.{
  Flow, ok, err, run, Exec, return_run, throw_run, try_finally, attempt_caught, handle_first,
  simple_ok, simple_expression, block_run, seq_next, seq_stop, run_as_run,
}
use apex_exec.Semantic.Flow.Soundness.{Stays, IsContained}
use apex_exec.Semantic.Flow.Definite.{definite_return, run_as_break_escapes}
use apex_exec.Semantic.Flow.Exhaustive.{definite_iff_no_exit}

-- `try { throw e; } catch (Exception x) { return 1; } finally { f(); }`
abbrev guarded : Statement ℕ
guarded =
    try (Statement.throw 0) (catch exception (Statement.return (some 1)) no_catches)
      (present (Statement.expression 2))

guarded_accepted : statement_definitely_returns_or_throws guarded ≡ true
unfolding statement_definitely_returns_or_throws
guarded_accepted = refl

-- `do { continue; } while (t);` may end normally.
abbrev spinning : Statement ℕ
spinning = do_while Statement.continue 0

loop_rejected : statement_definitely_returns_or_throws spinning ≡ false
unfolding statement_definitely_returns_or_throws
loop_rejected = refl

-- A body of a `System.runAs` that only evaluates an expression.
expression-Stays : (e : ℕ) → Stays (Statement.expression e)
expression-Stays e = (λ x. elim x [ ], λ x. elim x [ ])

abbrev as_another : Statement ℕ
as_another = block (next (run_as 5 (Statement.expression 6)) (next guarded end))

definite_return_example : (ok Flow.return ≡ ok Flow.return) ⊎ (ok Flow.return ≡ err)
unfolding statement_definitely_returns_or_throws IsContained
definite_return_example =
    definite_return as_another (expression-Stays 6, ((tt, (tt, tt), tt), tt)) refl
      (block_run (
        seq_next (run_as_run (simple_ok (simple_expression 6))) (
          seq_stop
            (try_finally (attempt_caught throw_run (handle_first return_run))
              (simple_ok (simple_expression 2)))
            (cc))))

abbrev escaping : Statement ℕ
escaping =
    do_while (block (next (run_as 0 Statement.break) (next (Statement.return (some 1)) end))) 2

run_as_break_escapes_example :
    (statement_definitely_returns_or_throws escaping ≡ true) × Exec (run escaping) (ok Flow.normal)
unfolding statement_definitely_returns_or_throws
run_as_break_escapes_example = run_as_break_escapes 0 2 (Statement.return (some 1)) refl

definite_iff_no_exit_example : statement_definitely_returns_or_throws guarded ≡ (
    not (statement_completions guarded).normal
    && not (statement_completions guarded).breaks
    && not (statement_completions guarded).continues)
definite_iff_no_exit_example = definite_iff_no_exit guarded
