-- ===== src/Runtime/Instrumentation/Retention.antt =====
-- What a debugger trace of src/runtime/instrumentation.rs retains.
use apex_exec.Prelude.{
  ℕ, ◌+◌, ◌≤◌, ◌<◌, ◌≡◌, refl, ◌⊎◌, inl, inr, Bool, true, false, ◌||◌, List, [], ◌∷◌, ◌++◌, length,
  leb, ltb, arith, Bool-cases, All, All-append, length-append,
}
use apex_exec.Span.{Span}
use apex_exec.Runtime.Instrumentation.Builder.{
  Sizes, DebugSnapshot, max_debug_retained_bytes, max_debug_snapshots, saturating_add, finish,
}
use apex_exec.Runtime.Instrumentation.State
use apex_exec.Runtime.Instrumentation.State.{
  InstrumentationState, InstrumentationPolicy, off, coverage, debugger, skip, capture_debugger,
  budget_left, before_statement, record_debug_snapshot, record_branch, record_render_truncation,
  take_trace, take_debug_trace,
}
use apex_exec.Runtime.Instrumentation.Bounds.{IsBounded, snapshot_weight, sum_of, sum_of-append}
use apex_exec.Runtime.Instrumentation.Pushes.{
  new-IsKept, mark_if-IsKept, capture_debug_frames-IsKept, capture_variables-IsKept,
}
use apex_exec.Runtime.Instrumentation.Capture.{
  Visibility, build_debug_snapshot, capture_asked, instrument_statement,
}

abbrev pub IsRetained : Sizes → InstrumentationState → Type 0
IsRetained z s =
    (s.retained_debug_bytes ≡ sum_of (snapshot_weight z) s.snapshots)
    × (s.retained_debug_bytes ≤ max_debug_retained_bytes)
    × (length s.snapshots ≤ max_debug_snapshots)
    × All IsBounded s.snapshots

module _ (z : Sizes) where
  build-IsBounded :
      (span : Span) (v : Visibility) (budget : ℕ)
      → budget ≤ max_debug_retained_bytes
      → z.snapshot_size ≤ budget
      → ((build_debug_snapshot z span v budget).1.0 ≤ budget)
        × ((build_debug_snapshot z span v budget).1.0
            ≡ snapshot_weight z (build_debug_snapshot z span v budget).0)
        × IsBounded (build_debug_snapshot z span v budget).0
  unfolding build_debug_snapshot finish
  build-IsBounded span v budget small fits =
      let (same, under, counted, bounded) = capture_variables-IsKept z budget small v.variables _ (
        mark_if-IsKept z budget small v.variables_truncated _ (
          capture_debug_frames-IsKept z budget small v.call_stack span _
            (new-IsKept z span v.transaction_event_count budget fits))) in
      (under, counted, bounded)

  -- A snapshot that is within the budget is not refused.
  record-within :
      (d : DebugSnapshot) (bytes : ℕ) (t : Bool) (s : InstrumentationState)
      → bytes ≤ budget_left s
      → s.retained_debug_bytes ≤ max_debug_retained_bytes
      → record_debug_snapshot d bytes t s ≡ record s {
        retained_debug_bytes = s.retained_debug_bytes + bytes;
        debug_trace_truncated = s.debug_trace_truncated || t;
        snapshots = s.snapshots ++ d ∷ [];
      }
  unfolding record_debug_snapshot
  record-within d bytes t s fits small =
      let exact : saturating_add s.retained_debug_bytes bytes ≡ s.retained_debug_bytes + bytes =
        ground arith in
      let under : ltb max_debug_retained_bytes (s.retained_debug_bytes + bytes) ≡ false =
        ground arith in
      rw exact (rw under refl)

  record-IsRetained :
      (d : DebugSnapshot) (bytes : ℕ) (t : Bool) (s : InstrumentationState)
      → bytes ≤ budget_left s
      → bytes ≡ snapshot_weight z d
      → IsBounded d
      → length s.snapshots < max_debug_snapshots
      → IsRetained z s
      → IsRetained z (record_debug_snapshot d bytes t s)
  record-IsRetained d bytes t s fits counted bounded few (sum, small, number, all) =
      rw (record-within d bytes t s fits small) (
        omega (arith, sum_of-append (snapshot_weight z) s.snapshots (d ∷ [])),
        omega arith,
        omega (arith, length-append s.snapshots (d ∷ [])),
        All-append IsBounded s.snapshots (d ∷ []) all (bounded, tt),
      )

  -- `before_statement` asks for nothing and keeps the bounds, or it has room and asks.
  abbrev Asked : Span → Bool → InstrumentationState → Type 0
  Asked span c s =
      ((t : InstrumentationState) × ((before_statement z span c s ≡ (skip, t))
          × (IsRetained z s → IsRetained z t)))
      ⊎ ((before_statement z span c s ≡ (capture_debugger (budget_left s), s))
          × (length s.snapshots < max_debug_snapshots)
          × (z.snapshot_size ≤ budget_left s))

  Asked-by_policy :
      (span : Span) (c : Bool) (p : InstrumentationPolicy) (s : InstrumentationState)
      → Asked span c (record s { policy = p })
  unfolding before_statement
  Asked-by_policy span c off s = inl (_, (refl, λ h. h))
  Asked-by_policy span c coverage s = inl (_, (refl, λ h. h))
  Asked-by_policy span false debugger s = inl (_, (refl, λ h. h))
  Asked-by_policy span true debugger s =
      elim (Bool-cases
        (leb max_debug_snapshots (length s.snapshots) || ltb (budget_left s) z.snapshot_size)) [
          | inl full ↦
              inl (
                record s { policy = debugger; debug_trace_truncated = true },
                (rw full refl, λ h. h),
              )
          | inr room ↦ inr (rw room refl, ground arith, ground arith)
        ]

  asked : (span : Span) (c : Bool) (s : InstrumentationState) → Asked span c s
  asked span c s = Asked-by_policy span c s.policy s

  pub instrument_statement-IsRetained :
      (span : Span) (c : Bool) (v : Visibility) (s : InstrumentationState)
      → IsRetained z s
      → IsRetained z (instrument_statement z span c v s)
  unfolding instrument_statement capture_asked
  instrument_statement-IsRetained span c v s h = elim (asked span c s) [
    | inl (t, (e, keeps)) ↦ rw e (keeps h)
    | inr (e, few, fits) ↦
        let (under, counted, bounded) = build-IsBounded span v (budget_left s) (omega arith) fits in
        rw e (record-IsRetained _ _ _ s under counted bounded few h)
  ]

-- The calls that the interpreter makes of its instrumentation while it runs.
pub data Event : Type 0 where
  statement : Span → Bool → Visibility → Event
  branch : Span → Bool → Event
  rendered : Bool → Event
  traced : Event

abbrev pub observe : Sizes → Event → InstrumentationState → InstrumentationState
observe z (statement span c v) s = instrument_statement z span c v s
observe z (branch span b) s = record_branch span b s
observe z (rendered t) s = record_render_truncation t s
observe z traced s = (take_trace s).1

abbrev pub observe_all : Sizes → List Event → InstrumentationState → InstrumentationState
observe_all z [] s = s
observe_all z (e ∷ es) s = observe_all z es (observe z e s)

branch-by_policy :
    (z : Sizes) (span : Span) (b : Bool) (p : InstrumentationPolicy) (s : InstrumentationState)
    → IsRetained z s
    → IsRetained z (record_branch span b (record s { policy = p }))
unfolding record_branch
branch-by_policy z span b off s h = h
branch-by_policy z span b coverage s h = h
branch-by_policy z span b debugger s h = h

rendered-by_policy :
    (z : Sizes) (t : Bool) (p : InstrumentationPolicy) (s : InstrumentationState)
    → IsRetained z s
    → IsRetained z (record_render_truncation t (record s { policy = p }))
unfolding record_render_truncation
rendered-by_policy z true off s h = h
rendered-by_policy z true coverage s h = h
rendered-by_policy z true debugger s h = h
rendered-by_policy z false p s h = h

observe-IsRetained :
    (z : Sizes) (e : Event) (s : InstrumentationState)
    → IsRetained z s
    → IsRetained z (observe z e s)
unfolding take_trace
observe-IsRetained z (statement span c v) s h = instrument_statement-IsRetained z span c v s h
observe-IsRetained z (branch span b) s h = branch-by_policy z span b s.policy s h
observe-IsRetained z (rendered t) s h = rendered-by_policy z t s.policy s h
observe-IsRetained z traced s h = h

observe_all-IsRetained :
    (z : Sizes) (es : List Event) (s : InstrumentationState)
    → IsRetained z s
    → IsRetained z (observe_all z es s)
observe_all-IsRetained z [] s h = h
observe_all-IsRetained z (e ∷ es) s h =
    observe_all-IsRetained z es (observe z e s) (observe-IsRetained z e s h)

new-IsRetained : (z : Sizes) (p : InstrumentationPolicy) → IsRetained z (State.new p)
unfolding State.new
new-IsRetained z p = (refl, omega arith, omega arith, tt)

-- However an execution runs, the debugger trace that is taken at its end holds at most 4,096
-- snapshots, each of at most 128 frames and 256 variables whose texts are within their limits, and
-- the byte count that it reports is exactly what the snapshots hold and at most 16 MiB.
pub trace-IsBounded :
    (z : Sizes) (p : InstrumentationPolicy) (es : List Event)
    → let ((snapshots, status), after) = take_debug_trace (observe_all z es (State.new p)) in
      (length snapshots ≤ max_debug_snapshots)
      × All IsBounded snapshots
      × (status.retained_bytes ≡ sum_of (snapshot_weight z) snapshots)
      × (status.retained_bytes ≤ max_debug_retained_bytes)
unfolding take_debug_trace
trace-IsBounded z p es =
    let (sum, small, number, all) =
      observe_all-IsRetained z es (State.new p) (new-IsRetained z p) in
    (number, all, sum, small)

before-room :
    (z : Sizes) (span : Span) (p : InstrumentationPolicy) (s : InstrumentationState)
    → p ≡ debugger
    → length s.snapshots < max_debug_snapshots
    → z.snapshot_size ≤ budget_left s
    → before_statement z span true (record s { policy = p })
      ≡ (capture_debugger (budget_left s), record s { policy = p })
unfolding before_statement
before-room z span off s on few fits = cc
before-room z span coverage s on few fits = cc
before-room z span debugger s on few fits =
    let room : (leb max_debug_snapshots (length s.snapshots) || ltb (budget_left s) z.snapshot_size)
        ≡ false =
      ground arith in
    rw room refl

-- Under the debugger policy, a captured statement that finds fewer than 4,096 snapshots and room
-- for a snapshot's structure adds exactly its own snapshot at the end of the trace: the capture
-- keeps within the budget it is given, so nothing captured is dropped.
pub capture_recorded :
    (z : Sizes) (span : Span) (v : Visibility) (s : InstrumentationState)
    → s.policy ≡ debugger
    → s.retained_debug_bytes ≤ max_debug_retained_bytes
    → length s.snapshots < max_debug_snapshots
    → z.snapshot_size ≤ budget_left s
    → (instrument_statement z span true v s).snapshots
      ≡ s.snapshots ++ (build_debug_snapshot z span v (budget_left s)).0 ∷ []
unfolding instrument_statement capture_asked
capture_recorded z span v s on small few fits =
    let asks : before_statement z span true s ≡ (capture_debugger (budget_left s), s) =
      before-room z span s.policy s on few fits in
    let (under, counted, bounded) = build-IsBounded z span v (budget_left s) (omega arith) fits in
    rw asks (rw (record-within z _ _ _ s under small) refl)
