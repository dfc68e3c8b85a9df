-- ===== src/Semantic/Flow/Laws.antt =====
-- The algebra of completions: folds as compositions, and what a completion permits.
use apex_exec.Prelude.{◌≡◌, sym, true, arith}
use apex_exec.Semantic.Statement.{
  TypeName, Statement, Statements, Catches, end, next, no_catches, catch,
}
use apex_exec.Semantic.Flow.{
  Completions, nothing, normal, union, and_then, statement_completions, list_completions,
  catches_completions,
}
use apex_exec.Semantic.Flow.Exec.{Outcome, ok, err, Flow}

-- An analysis result permits an outcome. Failures and returns are always permitted: an expression
-- may fail, and the analysis does not track it.
abbrev pub Permits : Completions → Outcome → Type 0
Permits c (ok Flow.normal) = c.normal ≡ true
Permits c (ok Flow.break) = c.breaks ≡ true
Permits c (ok Flow.continue) = c.continues ≡ true
Permits c (ok Flow.return) = Unit
Permits c err = Unit

pub and_then_assoc : (a b c : Completions) → and_then (and_then a b) c ≡ and_then a (and_then b c)
unfolding and_then
and_then_assoc a b c = ground arith

pub and_then-normal : (a : Completions) → and_then a normal ≡ a
unfolding and_then
and_then-normal a = ground arith

pub normal-and_then : (a : Completions) → and_then normal a ≡ a
unfolding and_then
normal-and_then a = ground arith

pub union_assoc : (a b c : Completions) → union (union a b) c ≡ union a (union b c)
unfolding union
union_assoc a b c = ground arith

pub union-nothing : (a : Completions) → union a nothing ≡ a
unfolding union
union-nothing a = ground arith

pub nothing-union : (a : Completions) → union nothing a ≡ a
unfolding union
nothing-union a = ground arith

module _ {E : Type 0} where
  -- The fold over a list is a composition.
  pub list_completions-eq :
      (cur : Completions) (ss : Statements E)
      → list_completions cur ss ≡ and_then cur (list_completions normal ss)
  unfolding list_completions
  list_completions-eq cur end = sym (and_then-normal cur)
  list_completions-eq cur (next s rest) =
      let c = statement_completions s in
      cc (
        list_completions-eq (and_then cur c) rest,
        list_completions-eq (and_then normal c) rest,
        normal-and_then c,
        and_then_assoc cur c (list_completions normal rest),
      )

  pub list_completions-next :
      (s : Statement E) (rest : Statements E)
      → list_completions normal (next s rest)
        ≡ and_then (statement_completions s) (list_completions normal rest)
  unfolding list_completions
  list_completions-next s rest = cc (
    list_completions-eq (and_then normal (statement_completions s)) rest,
    normal-and_then (statement_completions s),
  )

  pub catches_completions-eq :
      (cur : Completions) (cs : Catches E)
      → catches_completions cur cs ≡ union cur (catches_completions nothing cs)
  unfolding catches_completions
  catches_completions-eq cur no_catches = sym (union-nothing cur)
  catches_completions-eq cur (catch ty s rest) =
      let c = statement_completions s in
      cc (
        catches_completions-eq (union cur c) rest,
        catches_completions-eq (union nothing c) rest,
        nothing-union c,
        union_assoc cur c (catches_completions nothing rest),
      )

  pub catches_completions-catch :
      (ty : TypeName) (s : Statement E) (rest : Catches E)
      → catches_completions nothing (catch ty s rest)
        ≡ union (statement_completions s) (catches_completions nothing rest)
  unfolding catches_completions
  catches_completions-catch ty s rest = cc (
    catches_completions-eq (union nothing (statement_completions s)) rest,
    nothing-union (statement_completions s),
  )
