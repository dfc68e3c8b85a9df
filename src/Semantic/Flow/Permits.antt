-- ===== src/Semantic/Flow/Permits.antt =====
-- One rule for each way in which the analysis combines completions: what the parts permit, the
-- whole permits.
use apex_exec.Prelude.{◌≡◌, ◌≢◌, refl, Bool, true, false, inl, inr, arith, Bool-cases}
use apex_exec.Semantic.Statement.{TypeName, Statement, Catches, no_catches, catch}
use apex_exec.Semantic.Flow.{
  Completions, nothing, union, and_then, without_throw, loop_completions, do_while_completions,
  pending_completions, finally_completions, catches_exception, catches_completions,
}
use apex_exec.Semantic.Flow.Exec.{
  Flow, Outcome, ok, err, Leaves, GoesOn, on_break, on_return, on_err, on_normal, on_continue,
}
use apex_exec.Semantic.Flow.Laws.{Permits, catches_completions-eq}

pub Permits-left : (a b : Completions) (o : Outcome) → Permits a o → Permits (union a b) o
unfolding union
Permits-left a b (ok Flow.normal) h = ground arith
Permits-left a b (ok Flow.break) h = ground arith
Permits-left a b (ok Flow.continue) h = ground arith
Permits-left a b (ok Flow.return) h = tt
Permits-left a b err h = tt

pub Permits-right : (a b : Completions) (o : Outcome) → Permits b o → Permits (union a b) o
unfolding union
Permits-right a b (ok Flow.normal) h = ground arith
Permits-right a b (ok Flow.break) h = ground arith
Permits-right a b (ok Flow.continue) h = ground arith
Permits-right a b (ok Flow.return) h = tt
Permits-right a b err h = tt

-- The first of two statements ends the pair.
pub Permits-stop :
    (a b : Completions) (o : Outcome) → Permits a o → o ≢ ok Flow.normal → Permits (and_then a b) o
unfolding and_then
Permits-stop a b (ok Flow.normal) h n = absurd (n refl)
Permits-stop a b (ok Flow.break) h n = ground arith
Permits-stop a b (ok Flow.continue) h n = ground arith
Permits-stop a b (ok Flow.return) h n = tt
Permits-stop a b err h n = tt

pub Permits-next :
    (a b : Completions) (o : Outcome) → a.normal ≡ true → Permits b o → Permits (and_then a b) o
unfolding and_then
Permits-next a b (ok Flow.normal) h k = ground arith
Permits-next a b (ok Flow.break) h k = ground arith
Permits-next a b (ok Flow.continue) h k = ground arith
Permits-next a b (ok Flow.return) h k = tt
Permits-next a b err h k = tt

pub Permits-loop : (c : Completions) {b o : Outcome} → Leaves b o → Permits (loop_completions c) o
unfolding loop_completions
Permits-loop c on_break = refl
Permits-loop c on_return = tt
Permits-loop c on_err = tt

pub Permits-do_leave :
    (c : Completions) {b o : Outcome}
    → Leaves b o
    → Permits c b
    → Permits (do_while_completions c) o
unfolding do_while_completions
Permits-do_leave c on_break h = ground arith
Permits-do_leave c on_return h = tt
Permits-do_leave c on_err h = tt

pub Permits-do_again :
    (c : Completions) {b : Outcome}
    → GoesOn b
    → Permits c b
    → Permits (do_while_completions c) (ok Flow.normal)
unfolding do_while_completions
Permits-do_again c on_normal h = ground arith
Permits-do_again c on_continue h = ground arith

-- Whether the analysis sees a throw does not matter to what is permitted.
Permits-throws :
    (c : Completions) (b : Bool) (o : Outcome) → Permits c o → Permits (record c { throws = b }) o
Permits-throws c b (ok Flow.normal) h = h
Permits-throws c b (ok Flow.break) h = h
Permits-throws c b (ok Flow.continue) h = h
Permits-throws c b (ok Flow.return) h = tt
Permits-throws c b err h = tt

Permits-nothing : (c : Completions) (o : Outcome) → Permits nothing o → Permits c o
Permits-nothing c (ok Flow.normal) h = cc
Permits-nothing c (ok Flow.break) h = cc
Permits-nothing c (ok Flow.continue) h = cc
Permits-nothing c (ok Flow.return) h = tt
Permits-nothing c err h = tt

module _ {E : Type 0} where
  Permits-pending :
      (c handled : Completions) (cs : Catches E) (o : Outcome)
      → Permits c o
      → Permits handled o
      → Permits (pending_completions c handled cs) o
  unfolding pending_completions
  Permits-pending c handled no_catches o h k = Permits-throws c c.throws o h
  Permits-pending c handled (catch ty s rest) o h k =
      elim (Bool-cases (catches_exception (catch ty s rest))) [
        | inl e ↦ rw e k
        | inr e ↦ rw e (Permits-throws handled true o k)
      ]

  Permits-pending_handled :
      (c handled : Completions) (ty : TypeName) (s : Statement E) (rest : Catches E) (o : Outcome)
      → Permits handled o
      → Permits (pending_completions c handled (catch ty s rest)) o
  unfolding pending_completions
  Permits-pending_handled c handled ty s rest o k =
      elim (Bool-cases (catches_exception (catch ty s rest))) [
        | inl e ↦ rw e k
        | inr e ↦ rw e (Permits-throws handled true o k)
      ]

  -- The block of a try statement.
  pub Permits-tried :
      (c : Completions) (cs : Catches E) (o : Outcome)
      → Permits c o
      → Permits (pending_completions c (catches_completions (without_throw c) cs) cs) o
  unfolding without_throw
  Permits-tried c cs o h =
      let kept = Permits-throws c false o h in
      Permits-pending c _ cs o h (
        rw catches_completions-eq
          (Permits-left (without_throw c) (catches_completions nothing cs) o kept))

  -- A handler of a try statement.
  pub Permits-handled :
      (c : Completions) (cs : Catches E) (o : Outcome)
      → Permits (catches_completions nothing cs) o
      → Permits (pending_completions c (catches_completions (without_throw c) cs) cs) o
  unfolding catches_completions
  Permits-handled c no_catches o h =
      Permits-nothing
        (pending_completions c (without_throw c)
          (let none_left : Catches E = no_catches in none_left))
        o h
  Permits-handled c (catch ty s rest) o h = Permits-pending_handled c _ ty s rest o (
      rw (catches_completions-eq (without_throw c) (catch ty s rest))
        (Permits-right (without_throw c) (catches_completions nothing (catch ty s rest)) o h))

pub Permits-finally :
    (pending c : Completions) (o : Outcome)
    → c.normal ≡ true
    → Permits pending o
    → Permits (finally_completions pending c) o
unfolding finally_completions
Permits-finally pending c o n h = rw n (Permits-right (record c { normal = false }) pending o h)

pub Permits-override :
    (pending c : Completions) (o : Outcome)
    → o ≢ ok Flow.normal
    → Permits c o
    → Permits (finally_completions pending c) o
unfolding finally_completions
Permits-override pending c (ok Flow.normal) n h = absurd (n refl)
Permits-override pending c (ok Flow.break) n h = ground arith
Permits-override pending c (ok Flow.continue) n h = ground arith
Permits-override pending c (ok Flow.return) n h = tt
Permits-override pending c err n h = tt
