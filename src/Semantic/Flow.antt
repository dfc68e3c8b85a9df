-- ===== src/Semantic/Flow.antt =====
-- src/semantic/flow.rs: which ways a statement can complete, and the test that a method body
-- must pass when the method returns a value.
pub mod Exec
pub mod Laws
pub mod Permits
pub mod Soundness
pub mod Definite
pub mod Exhaustive
mod Examples
use apex_exec.Prelude.{Bool, true, false, not, ◌&&◌, ◌||◌, if◌then◌else◌}
use apex_exec.Semantic.Statement.{
  TypeName, Statement, Statements, OptStatement, Catches, exception, named, sequence, block,
  if_else, while, do_while, for, for_each, break, continue, try, throw, return, end, next, absent,
  present, no_catches, catch,
}

pub record Completions : Type 0 where
  pub normal : Bool
  pub returns : Bool
  pub throws : Bool
  pub breaks : Bool
  pub continues : Bool

abbrev pub nothing : Completions
nothing = record {
  normal = false;
  returns = false;
  throws = false;
  breaks = false;
  continues = false;
}

abbrev pub normal : Completions
normal = record nothing { normal = true }

pub union : Completions → Completions → Completions
union a b = record {
  normal = a.normal || b.normal;
  returns = a.returns || b.returns;
  throws = a.throws || b.throws;
  breaks = a.breaks || b.breaks;
  continues = a.continues || b.continues;
}

pub and_then : Completions → Completions → Completions
and_then a b = record {
  normal = a.normal && b.normal;
  returns = a.returns || (a.normal && b.returns);
  throws = a.throws || (a.normal && b.throws);
  breaks = a.breaks || (a.normal && b.breaks);
  continues = a.continues || (a.normal && b.continues);
}

pub without_throw : Completions → Completions
without_throw a = record a { throws = false }

-- A loop whose condition is tested first.
pub loop_completions : Completions → Completions
loop_completions body = record {
  normal = true;
  returns = body.returns;
  throws = body.throws;
  breaks = false;
  continues = false;
}

pub do_while_completions : Completions → Completions
do_while_completions body = record {
  normal = body.normal || body.breaks || body.continues;
  returns = body.returns;
  throws = body.throws;
  breaks = false;
  continues = false;
}

-- `catches.iter().any(|catch| catch.exception_type == TypeName::Exception)`
pub catches_exception : {E : Type 0} → Catches E → Bool
catches_exception no_catches = false
catches_exception (catch exception body rest) = true
catches_exception (catch (named name) body rest) = catches_exception rest

-- `pending` of a try statement whose block and catch bodies complete as given.
pub pending_completions : {E : Type 0} → Completions → Completions → Catches E → Completions
unfolding without_throw catches_exception
pending_completions body handled no_catches = record (without_throw body) { throws = body.throws }
pending_completions body handled (catch ty handler rest) =
    if catches_exception (catch ty handler rest) then handled else record handled { throws = true }

-- A try statement with a finally block.
pub finally_completions : Completions → Completions → Completions
unfolding union
finally_completions pending finally =
    let result = record finally { normal = false } in
    if finally.normal then union result pending else result

unfoldable mutual
  unfolding union and_then loop_completions do_while_completions pending_completions
      finally_completions without_throw

  pub statement_completions : {E : Type 0} → Statement E → Completions
  statement_completions (return value) = record nothing { returns = true }
  statement_completions (throw value) = record nothing { throws = true }
  statement_completions break = record nothing { breaks = true }
  statement_completions continue = record nothing { continues = true }
  statement_completions (block body) = list_completions normal body
  statement_completions (sequence body) = list_completions normal body
  statement_completions (if_else test yes_branch no_branch) =
      union (statement_completions yes_branch) (branch_completions no_branch)
  statement_completions (while test body) = loop_completions (statement_completions body)
  statement_completions (for init test update body) = loop_completions (statement_completions body)
  statement_completions (for_each items body) = loop_completions (statement_completions body)
  statement_completions (do_while body test) = do_while_completions (statement_completions body)
  statement_completions (try body catches finally) =
      let tried = statement_completions body in
      let pending =
        pending_completions tried (catches_completions (without_throw tried) catches) catches in
      finish_completions pending finally
  statement_completions _ = normal

  -- The fold over the statements of a block.
  pub list_completions : {E : Type 0} → Completions → Statements E → Completions
  list_completions current end = current
  list_completions current (next s rest) =
      list_completions (and_then current (statement_completions s)) rest

  -- `else_branch.map_or_else(Completions::normal, statement_completions)`
  pub branch_completions : {E : Type 0} → OptStatement E → Completions
  branch_completions absent = normal
  branch_completions (present s) = statement_completions s

  pub catches_completions : {E : Type 0} → Completions → Catches E → Completions
  catches_completions current no_catches = current
  catches_completions current (catch ty handler rest) =
      catches_completions (union current (statement_completions handler)) rest

  pub finish_completions : {E : Type 0} → Completions → OptStatement E → Completions
  finish_completions pending absent = pending
  finish_completions pending (present s) = finally_completions pending (statement_completions s)

unfoldable pub statement_definitely_returns_or_throws : {E : Type 0} → Statement E → Bool
unfolding statement_completions
statement_definitely_returns_or_throws s =
    let c = statement_completions s in
    not c.normal && not c.breaks && not c.continues && (c.returns || c.throws)
