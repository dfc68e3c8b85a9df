-- ===== src/Semantic/Flow/Exec.antt =====
-- src/runtime.rs: the control flow of `execute_statement` and of what it calls, as a relation.
-- Values and effects are left out: an expression may evaluate or fail, a test may go either way,
-- and an exception may be caught by any of the clauses or by none. So each run of the interpreter
-- that ends is a derivation here.
use apex_exec.Prelude.{◌≢◌, Option, some, List}
use apex_exec.Semantic.Statement.{
  TypeName, Statement, Statements, OptStatement, Catches, sequence, block, if_else, while, do_while,
  switch, for, for_each, try, throw, run_as, end, next, absent, present, catch,
}

-- `Flow`, without the value of a return.
pub data Flow : Type 0 where
  normal break continue return : Flow

-- `Result<Flow, Diagnostic>`
pub data Outcome : Type 0 where
  ok : Flow → Outcome
  err : Outcome

-- What the interpreter is executing: a statement; the rest of a list; the rounds left of a
-- for-each loop; a try statement without its finally block; a handler of the list.
pub data Code (E : Type 0) : Type 0 where
  run : Statement E → Code E
  seq : Statements E → Code E
  each : Statement E → Code E
  attempt : Statement E → Catches E → Code E
  handle : Catches E → Code E

-- A statement that only evaluates an expression.
pub data IsSimple {E : Type 0} : Statement E → Type 0 where
  simple_declaration : (e : E) → IsSimple (Statement.variable_declaration e)
  simple_local : (es : List (Option E)) → IsSimple (Statement.local_declaration es)
  simple_expression : (e : E) → IsSimple (Statement.expression e)
  simple_dml : (e : E) → IsSimple (Statement.dml e)

-- `Flow::Normal | Flow::Continue`: the loop goes on.
pub data GoesOn : Outcome → Type 0 where
  on_normal : GoesOn (ok normal)
  on_continue : GoesOn (ok continue)

-- What a loop makes of the outcome of a body that ends it.
pub data Leaves : Outcome → Outcome → Type 0 where
  on_break : Leaves (ok break) (ok normal)
  on_return : Leaves (ok return) (ok return)
  on_err : Leaves err err

pub data Exec {E : Type 0} : Code E → Outcome → Type 0 where
  simple_ok : {s : Statement E} → IsSimple s → Exec (run s) (ok normal)
  simple_err : {s : Statement E} → IsSimple s → Exec (run s) err
  seq_end : Exec (seq end) (ok normal)
  seq_next :
      {s : Statement E} {rest : Statements E} {o : Outcome}
      → Exec (run s) (ok normal)
      → Exec (seq rest) o
      → Exec (seq (next s rest)) o
  seq_stop :
      {s : Statement E} {rest : Statements E} {o : Outcome}
      → Exec (run s) o
      → o ≢ ok normal
      → Exec (seq (next s rest)) o
  sequence_run : {b : Statements E} {o : Outcome} → Exec (seq b) o → Exec (run (sequence b)) o
  block_run : {b : Statements E} {o : Outcome} → Exec (seq b) o → Exec (run (block b)) o
  if_err : {e : E} {s : Statement E} {t : OptStatement E} → Exec (run (if_else e s t)) err
  if_true :
      {e : E} {s : Statement E} {t : OptStatement E} {o : Outcome}
      → Exec (run s) o
      → Exec (run (if_else e s t)) o
  if_false :
      {e : E} {s t : Statement E} {o : Outcome}
      → Exec (run t) o
      → Exec (run (if_else e s (present t))) o
  if_none : {e : E} {s : Statement E} → Exec (run (if_else e s absent)) (ok normal)
  while_err : {e : E} {s : Statement E} → Exec (run (while e s)) err
  while_false : {e : E} {s : Statement E} → Exec (run (while e s)) (ok normal)
  while_leave :
      {e : E} {s : Statement E} {b o : Outcome}
      → Exec (run s) b
      → Leaves b o
      → Exec (run (while e s)) o
  while_again :
      {e : E} {s : Statement E} {b o : Outcome}
      → Exec (run s) b
      → GoesOn b
      → Exec (run (while e s)) o
      → Exec (run (while e s)) o
  do_leave :
      {e : E} {s : Statement E} {b o : Outcome}
      → Exec (run s) b
      → Leaves b o
      → Exec (run (do_while s e)) o
  do_err :
      {e : E} {s : Statement E} {b : Outcome}
      → Exec (run s) b
      → GoesOn b
      → Exec (run (do_while s e)) err
  do_false :
      {e : E} {s : Statement E} {b : Outcome}
      → Exec (run s) b
      → GoesOn b
      → Exec (run (do_while s e)) (ok normal)
  do_again :
      {e : E} {s : Statement E} {b o : Outcome}
      → Exec (run s) b
      → GoesOn b
      → Exec (run (do_while s e)) o
      → Exec (run (do_while s e)) o
  switch_err : {e : E} {arms : Statements E} → Exec (run (switch e arms)) err
  -- The initializer ends the statement, or the loop runs as one without it.
  for_stop :
      {i s : Statement E} {c : Option E} {u : OptStatement E} {o : Outcome}
      → Exec (run i) o
      → o ≢ ok normal
      → Exec (run (for (present i) c u s)) o
  for_init :
      {i s : Statement E} {c : Option E} {u : OptStatement E} {o : Outcome}
      → Exec (run i) (ok normal)
      → Exec (run (for absent c u s)) o
      → Exec (run (for (present i) c u s)) o
  for_err :
      {e : E} {s : Statement E} {u : OptStatement E} → Exec (run (for absent (some e) u s)) err
  for_false :
      {e : E} {s : Statement E} {u : OptStatement E}
      → Exec (run (for absent (some e) u s)) (ok normal)
  for_leave :
      {s : Statement E} {c : Option E} {u : OptStatement E} {b o : Outcome}
      → Exec (run s) b
      → Leaves b o
      → Exec (run (for absent c u s)) o
  for_update_stop :
      {s u : Statement E} {c : Option E} {b o : Outcome}
      → Exec (run s) b
      → GoesOn b
      → Exec (run u) o
      → o ≢ ok normal
      → Exec (run (for absent c (present u) s)) o
  for_update :
      {s u : Statement E} {c : Option E} {b o : Outcome}
      → Exec (run s) b
      → GoesOn b
      → Exec (run u) (ok normal)
      → Exec (run (for absent c (present u) s)) o
      → Exec (run (for absent c (present u) s)) o
  for_again :
      {s : Statement E} {c : Option E} {b o : Outcome}
      → Exec (run s) b
      → GoesOn b
      → Exec (run (for absent c absent s)) o
      → Exec (run (for absent c absent s)) o
  each_err : {e : E} {s : Statement E} → Exec (run (for_each e s)) err
  each_run : {e : E} {s : Statement E} {o : Outcome} → Exec (each s) o → Exec (run (for_each e s)) o
  each_done : {s : Statement E} → Exec (each s) (ok normal)
  each_leave : {s : Statement E} {b o : Outcome} → Exec (run s) b → Leaves b o → Exec (each s) o
  each_again :
      {s : Statement E} {b o : Outcome}
      → Exec (run s) b
      → GoesOn b
      → Exec (each s) o
      → Exec (each s) o
  break_run : Exec (run Statement.break) (ok Flow.break)
  continue_run : Exec (run Statement.continue) (ok Flow.continue)
  return_run : {v : Option E} → Exec (run (Statement.return v)) (ok return)
  return_err : {e : E} → Exec (run (Statement.return (some e))) err
  throw_run : {e : E} → Exec (run (throw e)) err
  run_as_err : {e : E} {s : Statement E} → Exec (run (run_as e s)) err
  run_as_run : {e : E} {s : Statement E} {o : Outcome} → Exec (run s) o → Exec (run (run_as e s)) o
  -- `outcome` of `execute_try` before its finally block.
  attempt_ok :
      {s : Statement E} {cs : Catches E} {f : Flow}
      → Exec (run s) (ok f)
      → Exec (attempt s cs) (ok f)
  attempt_uncaught : {s : Statement E} {cs : Catches E} → Exec (run s) err → Exec (attempt s cs) err
  attempt_caught :
      {s : Statement E} {cs : Catches E} {o : Outcome}
      → Exec (run s) err
      → Exec (handle cs) o
      → Exec (attempt s cs) o
  handle_first :
      {ty : TypeName} {s : Statement E} {cs : Catches E} {o : Outcome}
      → Exec (run s) o
      → Exec (handle (catch ty s cs)) o
  handle_later :
      {ty : TypeName} {s : Statement E} {cs : Catches E} {o : Outcome}
      → Exec (handle cs) o
      → Exec (handle (catch ty s cs)) o
  try_run :
      {s : Statement E} {cs : Catches E} {o : Outcome}
      → Exec (attempt s cs) o
      → Exec (run (try s cs absent)) o
  try_finally :
      {s f : Statement E} {cs : Catches E} {o : Outcome}
      → Exec (attempt s cs) o
      → Exec (run f) (ok normal)
      → Exec (run (try s cs (present f))) o
  try_override :
      {s f : Statement E} {cs : Catches E} {b o : Outcome}
      → Exec (attempt s cs) b
      → Exec (run f) o
      → o ≢ ok normal
      → Exec (run (try s cs (present f))) o
