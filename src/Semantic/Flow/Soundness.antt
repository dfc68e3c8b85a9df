-- ===== src/Semantic/Flow/Soundness.antt =====
-- The analysis of flow.rs against the control flow of the interpreter.
use apex_exec.Prelude.{◌≡◌, refl, ◌≢◌, true}
use apex_exec.Semantic.Statement.{
  Statement, Statements, OptStatement, Catches, sequence, block, if_else, while, do_while, for,
  for_each, try, run_as, end, next, absent, present, no_catches, catch,
}
use apex_exec.Semantic.Flow.{
  Completions, nothing, normal, without_throw, loop_completions, pending_completions,
  statement_completions, list_completions, catches_completions, branch_completions,
}
use apex_exec.Semantic.Flow.Exec.{
  Flow, Outcome, ok, err, Code, run, seq, each, attempt, handle, Exec, simple_ok, simple_err,
  seq_end, seq_next, seq_stop, sequence_run, block_run, if_true, if_false, if_none, while_leave,
  while_again, do_leave, do_false, do_again, for_stop, for_init, for_leave, for_update_stop,
  for_update, for_again, each_run, each_done, each_leave, each_again, break_run, continue_run,
  run_as_run, attempt_ok, attempt_caught, handle_first, handle_later, try_run, try_finally,
  try_override, simple_declaration, simple_local, simple_expression, simple_dml, if_err, while_err,
  while_false, do_err, switch_err, for_err, for_false, each_err, return_run, return_err, throw_run,
  run_as_err, attempt_uncaught,
}
use apex_exec.Semantic.Flow.Laws.{Permits, list_completions-next, catches_completions-catch}
use apex_exec.Semantic.Flow.Permits.{
  Permits-left, Permits-right, Permits-stop, Permits-next, Permits-loop, Permits-do_leave,
  Permits-do_again, Permits-tried, Permits-handled, Permits-finally, Permits-override,
}

-- No run of the statement leaves by a break or a continue.
abbrev pub Stays : {E : Type 0} → Statement E → Type 0
Stays s = ¬ (Exec (run s) (ok Flow.break)) × ¬ (Exec (run s) (ok Flow.continue))

abbrev pub OptStays : {E : Type 0} → OptStatement E → Type 0
OptStays absent = Unit
OptStays (present s) = Stays s

-- No run of the body of a `System.runAs` in a statement, or of the initializer or the update of a
-- for loop in it, leaves by a break or a continue.
unfoldable mutual
  pub IsContained : {E : Type 0} → Statement E → Type 0
  IsContained (sequence ss) = AreContained ss
  IsContained (block ss) = AreContained ss
  IsContained (if_else e s t) = IsContained s × OptContained t
  IsContained (while e s) = IsContained s
  IsContained (do_while s e) = IsContained s
  IsContained (for i c u s) = OptStays i × OptStays u × IsContained s
  IsContained (for_each e s) = IsContained s
  IsContained (try s cs f) = IsContained s × CatchesContained cs × OptContained f
  IsContained (run_as e s) = Stays s
  IsContained _ = Unit

  pub AreContained : {E : Type 0} → Statements E → Type 0
  AreContained end = Unit
  AreContained (next s rest) = IsContained s × AreContained rest

  pub OptContained : {E : Type 0} → OptStatement E → Type 0
  OptContained absent = Unit
  OptContained (present s) = IsContained s

  pub CatchesContained : {E : Type 0} → Catches E → Type 0
  CatchesContained no_catches = Unit
  CatchesContained (catch ty s rest) = IsContained s × CatchesContained rest

abbrev CodeContained : {E : Type 0} → Code E → Type 0
CodeContained (run s) = IsContained s
CodeContained (seq ss) = AreContained ss
CodeContained (each s) = IsContained s
CodeContained (attempt s cs) = IsContained s × CatchesContained cs
CodeContained (handle cs) = CatchesContained cs

-- The analysis of a piece of code that the interpreter is in.
abbrev code_completions : {E : Type 0} → Code E → Completions
code_completions (run s) = statement_completions s
code_completions (seq ss) = list_completions normal ss
code_completions (each s) = loop_completions (statement_completions s)
code_completions (attempt s cs) =
    let tried = statement_completions s in
    pending_completions tried (catches_completions (without_throw tried) cs) cs
code_completions (handle cs) = catches_completions nothing cs

-- What such a statement leaves by otherwise is permitted by every analysis result.
Stays-Permits :
    {E : Type 0} (s : Statement E) (c : Completions) (o : Outcome)
    → Exec (run s) o
    → Stays s
    → (o ≡ ok Flow.normal → c.normal ≡ true)
    → Permits c o
Stays-Permits s c (ok Flow.normal) x h n = n refl
Stays-Permits s c (ok Flow.break) x h n = absurd (h.0 x)
Stays-Permits s c (ok Flow.continue) x h n = absurd (h.1 x)
Stays-Permits s c (ok Flow.return) x h n = tt
Stays-Permits s c err x h n = tt

module _ {E : Type 0} (s : Statement E) (rest : Statements E) (o : Outcome) where
  Permits-list_next :
      Permits (statement_completions s) (ok Flow.normal)
      → Permits (list_completions normal rest) o
      → Permits (list_completions normal (next s rest)) o
  Permits-list_next h k =
      rw (list_completions-next s rest)
        (Permits-next (statement_completions s) (list_completions normal rest) o h k)

  Permits-list_stop :
      Permits (statement_completions s) o
      → o ≢ ok Flow.normal
      → Permits (list_completions normal (next s rest)) o
  Permits-list_stop h n =
      rw (list_completions-next s rest)
        (Permits-stop (statement_completions s) (list_completions normal rest) o h n)

-- Every run of the interpreter that ends has an outcome that the analysis permits.
pub Exec-Permits :
    {E : Type 0} {c : Code E} {o : Outcome}
    → Exec c o
    → CodeContained c
    → Permits (code_completions c) o
unfolding statement_completions IsContained
Exec-Permits (simple_ok (simple_declaration e)) h = refl
Exec-Permits (simple_ok (simple_local e)) h = refl
Exec-Permits (simple_ok (simple_expression e)) h = refl
Exec-Permits (simple_ok (simple_dml e)) h = refl
Exec-Permits (simple_err s) h = tt
Exec-Permits seq_end h = refl
Exec-Permits (seq_next {s = s} {rest = r} {o = o} x y) h =
    Permits-list_next s r o (Exec-Permits x h.0) (Exec-Permits y h.1)
Exec-Permits (seq_stop {s = s} {rest = r} {o = o} x n) h =
    Permits-list_stop s r o (Exec-Permits x h.0) n
Exec-Permits (sequence_run x) h = Exec-Permits x h
Exec-Permits (block_run x) h = Exec-Permits x h
Exec-Permits if_err h = tt
Exec-Permits (if_true {e = e} {s = s} {t = t} {o = o} x) h =
    Permits-left (statement_completions s) (branch_completions t) o (Exec-Permits x h.0)
Exec-Permits (if_false {e = e} {s = s} {t = t} {o = o} x) h =
    Permits-right (statement_completions s) (statement_completions t) o (Exec-Permits x h.1)
Exec-Permits (if_none {s = s}) h =
    Permits-right (statement_completions s) normal (ok Flow.normal) refl
Exec-Permits while_err h = tt
Exec-Permits while_false h = refl
Exec-Permits (while_leave {s = s} x l) h = Permits-loop (statement_completions s) l
Exec-Permits (while_again x g y) h = Exec-Permits y h
Exec-Permits (do_leave {s = s} x l) h =
    Permits-do_leave (statement_completions s) l (Exec-Permits x h)
Exec-Permits (do_err x g) h = tt
Exec-Permits (do_false {s = s} x g) h =
    Permits-do_again (statement_completions s) g (Exec-Permits x h)
Exec-Permits (do_again x g y) h = Exec-Permits y h
Exec-Permits switch_err h = tt
Exec-Permits (for_stop {i = i} {s = s} {u = u} x n) h =
    Stays-Permits i (loop_completions (statement_completions s)) _ x h.0 (λ e. absurd (n e))
Exec-Permits (for_init {i = i} {s = s} {u = u} x y) h = Exec-Permits y (tt, h.1, h.2)
Exec-Permits for_err h = tt
Exec-Permits for_false h = refl
Exec-Permits (for_leave {s = s} x l) h = Permits-loop (statement_completions s) l
Exec-Permits (for_update_stop {s = s} {u = u} x g y n) h =
    Stays-Permits u (loop_completions (statement_completions s)) _ y h.1 (λ e. absurd (n e))
Exec-Permits (for_update x g y z) h = Exec-Permits z h
Exec-Permits (for_again x g y) h = Exec-Permits y h
Exec-Permits each_err h = tt
Exec-Permits (each_run x) h = Exec-Permits x h
Exec-Permits each_done h = refl
Exec-Permits (each_leave {s = s} x l) h = Permits-loop (statement_completions s) l
Exec-Permits (each_again x g y) h = Exec-Permits y h
Exec-Permits break_run h = refl
Exec-Permits continue_run h = refl
Exec-Permits return_run h = tt
Exec-Permits return_err h = tt
Exec-Permits throw_run h = tt
Exec-Permits run_as_err h = tt
Exec-Permits (run_as_run {s = s} {o = o} x) h = Stays-Permits s normal o x h (λ e. refl)
Exec-Permits (attempt_ok {s = s} {cs = cs} {f = f} x) h =
    Permits-tried (statement_completions s) cs (ok f) (Exec-Permits x h.0)
Exec-Permits (attempt_uncaught x) h = tt
Exec-Permits (attempt_caught {s = s} {cs = cs} {o = o} x y) h =
    Permits-handled (statement_completions s) cs o (Exec-Permits y h.1)
Exec-Permits (handle_first {ty = ty} {s = s} {cs = cs} {o = o} x) h =
    rw (catches_completions-catch ty s cs) (
      Permits-left (statement_completions s) (catches_completions nothing cs) o
        (Exec-Permits x h.0))
Exec-Permits (handle_later {ty = ty} {s = s} {cs = cs} {o = o} x) h =
    rw (catches_completions-catch ty s cs) (
      Permits-right (statement_completions s) (catches_completions nothing cs) o
        (Exec-Permits x h.1))
Exec-Permits (try_run {s = s} x) h = Exec-Permits x (h.0, h.1)
Exec-Permits (try_finally {s = s} {f = f} {cs = cs} {o = o} x y) h =
    Permits-finally (code_completions (attempt s cs)) (statement_completions f) o
      (Exec-Permits y h.2) (Exec-Permits x (h.0, h.1))
Exec-Permits (try_override {s = s} {f = f} {cs = cs} {o = o} x y n) h =
    Permits-override (code_completions (attempt s cs)) (statement_completions f) o n
      (Exec-Permits y h.2)
