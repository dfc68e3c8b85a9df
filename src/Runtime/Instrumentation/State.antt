-- ===== src/Runtime/Instrumentation/State.antt =====
-- `InstrumentationState` of src/runtime/instrumentation.rs. The debug assertions, which a release
-- build leaves out, are no part of the operations.
use mathlib.Core.Logic.{◌↔◌}
use apex_exec.Prelude.{
  ℕ, ◌+◌, ◌-◌, ◌≡◌, Bool, true, false, ◌&&◌, ◌||◌, Option, none, some, List, [], ◌∷◌, ◌++◌, length,
  arith, leb, ltb, ◌==◌, if◌then◌else◌,
}
use apex_exec.Prelude.Map.{Map, Eq, get, insert, contains}
use apex_exec.Span.{Span}
use apex_exec.Runtime.Instrumentation.Builder.{
  Sizes, DebugSnapshot, max_debug_snapshots, max_debug_retained_bytes, saturating_add,
}

-- Spans as keys of the trace.
abbrev pub span_eq : Span → Span → Bool
span_eq a b = a.source_id.id == b.source_id.id && a.start == b.start && a.stop == b.stop

span_path :
    (a b : Span) → a.source_id.id ≡ b.source_id.id → a.start ≡ b.start → a.stop ≡ b.stop → a ≡ b
span_path a b p q r = λ i. record { source_id = record { id = p i }; start = q i; stop = r i }

pub span_eq_iff : (a b : Span) → (span_eq a b ≡ true) ↔ (a ≡ b)
span_eq_iff a b =
    (λ h. span_path a b (ground arith) (ground arith) (ground arith), λ e. rw e (ground arith))

instance abbrev pub span_key : Eq Span
span_key = record { beq = span_eq; beq_iff = span_eq_iff }

pub record DebugTraceStatus : Type 0 where
  pub retained_bytes : ℕ
  pub truncated : Bool

pub record BranchHits : Type 0 where
  pub true_hits : ℕ
  pub false_hits : ℕ

pub record ExecutionTrace : Type 0 where
  pub executed_statements : List Span
  pub branches : Map Span BranchHits

abbrev pub empty_trace : ExecutionTrace
empty_trace = record { executed_statements = []; branches = [] }

pub data InstrumentationPolicy : Type 0 where
  off coverage debugger : InstrumentationPolicy

pub data StatementInstrumentation : Type 0 where
  skip : StatementInstrumentation
  capture_debugger : ℕ → StatementInstrumentation

pub record InstrumentationState : Type 0 where
  pub policy : InstrumentationPolicy
  pub trace : ExecutionTrace
  pub snapshots : List DebugSnapshot
  pub retained_debug_bytes : ℕ
  pub debug_trace_truncated : Bool

unfoldable pub new : InstrumentationPolicy → InstrumentationState
new policy = record {
  policy = policy;
  trace = empty_trace;
  snapshots = [];
  retained_debug_bytes = 0;
  debug_trace_truncated = false;
}

unfoldable pub configure : InstrumentationPolicy → InstrumentationState → InstrumentationState
unfolding new
configure policy s = new policy

-- A set: a span that is there is not added again.
abbrev insert_span : Span → List Span → List Span
insert_span span spans = if contains span spans then spans else span ∷ spans

-- The debugger's budget, or no snapshot where the trace is full.
abbrev pub budget_left : InstrumentationState → ℕ
budget_left s = max_debug_retained_bytes - s.retained_debug_bytes

unfoldable pub before_statement :
    Sizes → Span → Bool → InstrumentationState → StatementInstrumentation × InstrumentationState
before_statement z span capture s = elim s.policy [
  | off ↦ (skip, s)
  | coverage ↦ (
    skip,
    record s {
      trace = record s.trace { executed_statements = insert_span span s.trace.executed_statements };
    },
  )
  | debugger ↦
      if capture
      then (if leb max_debug_snapshots (length s.snapshots) || ltb (budget_left s) z.snapshot_size
          then (skip, record s { debug_trace_truncated = true })
          else (capture_debugger (budget_left s), s))
      else (skip, s)
]

abbrev pub hits_of : Option BranchHits → BranchHits
hits_of none = record { true_hits = 0; false_hits = 0 }
hits_of (some h) = h

abbrev pub count_hit : Bool → BranchHits → BranchHits
count_hit true h = record h { true_hits = h.true_hits + 1 }
count_hit false h = record h { false_hits = h.false_hits + 1 }

unfoldable pub record_branch : Span → Bool → InstrumentationState → InstrumentationState
record_branch span outcome s = elim s.policy [
  | coverage ↦ record s {
    trace = record s.trace {
      branches =
          insert span (count_hit outcome (hits_of (get span s.trace.branches))) s.trace.branches;
    };
  }
  | _ ↦ s
]

unfoldable pub record_debug_snapshot :
    DebugSnapshot → ℕ → Bool → InstrumentationState → InstrumentationState
record_debug_snapshot snapshot retained_bytes truncated s =
    let kept = saturating_add s.retained_debug_bytes retained_bytes in
    if ltb max_debug_retained_bytes kept
    then record s { debug_trace_truncated = true }
    else record s {
      retained_debug_bytes = kept;
      debug_trace_truncated = s.debug_trace_truncated || truncated;
      snapshots = s.snapshots ++ snapshot ∷ [];
    }

abbrev is_debugger : InstrumentationPolicy → Bool
is_debugger debugger = true
is_debugger _ = false

unfoldable pub record_render_truncation : Bool → InstrumentationState → InstrumentationState
record_render_truncation truncated s =
    if truncated && is_debugger s.policy then record s { debug_trace_truncated = true } else s

unfoldable pub take_trace : InstrumentationState → ExecutionTrace × InstrumentationState
take_trace s = (s.trace, record s { trace = empty_trace })

-- The byte count and the flag stay with the state.
unfoldable pub take_debug_trace :
    InstrumentationState → (List DebugSnapshot × DebugTraceStatus) × InstrumentationState
take_debug_trace s = (
  (
    s.snapshots,
    record { retained_bytes = s.retained_debug_bytes; truncated = s.debug_trace_truncated },
  ),
  record s { snapshots = [] },
)
