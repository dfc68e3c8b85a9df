-- ===== src/Runtime/Instrumentation/Capture.antt =====
-- `instrument_statement` and the capture of a snapshot in src/runtime.rs.
use apex_exec.Prelude.{ℕ, Bool, true, false, List, [], ◌∷◌, if◌then◌else◌}
use apex_exec.Prelude.Text.{Text, codes}
use apex_exec.Span.{Span}
use apex_exec.Runtime.Instrumentation.Builder.{
  Sizes, DebugSnapshot, DebugSnapshotBuilder, new, finish, mark_truncated, can_push_frame,
  can_push_variable, push_frame, push_variable,
}
use apex_exec.Runtime.Instrumentation.State.{
  InstrumentationState, StatementInstrumentation, skip, capture_debugger, before_statement,
  record_debug_snapshot,
}

-- What the capture reads of a call.
pub record Call : Type 0 where
  pub method : Text
  pub call_span : Span

-- A variable that is visible, with the type's name and the value as `render_value` gave it.
pub record Visible : Type 0 where
  pub canonical : Text
  pub type_name : Text
  pub text : Text
  pub truncated : Bool

-- What the interpreter shows at a statement: the call stack with the innermost call first, the
-- variables that `visible_debug_names` selects, whether it left some out, and the events so far.
pub record Visibility : Type 0 where
  pub call_stack : List Call
  pub variables : List Visible
  pub variables_truncated : Bool
  pub transaction_event_count : ℕ

abbrev pub mark_if : Bool → DebugSnapshotBuilder → DebugSnapshotBuilder
mark_if true b = mark_truncated b
mark_if false b = b

module _ (z : Sizes) where
  -- The loop over the callers; `inner` is the call span of the frame below.
  unfoldable pub capture_callers : Span → List Call → DebugSnapshotBuilder → DebugSnapshotBuilder
  capture_callers inner [] b = b
  capture_callers inner (c ∷ cs) b =
      if can_push_frame z b
      then (let (pushed, b1) = push_frame z c.method inner b in
          if pushed then capture_callers c.call_span cs b1 else b1)
      else mark_truncated b

  -- The span of the outermost call.
  abbrev outermost : Call → List Call → Span
  outermost c [] = c.call_span
  outermost c (d ∷ cs) = outermost d cs

  -- The frame of the code that no method holds.
  unfoldable pub capture_entry : Span → DebugSnapshotBuilder → DebugSnapshotBuilder
  capture_entry span b =
      if can_push_frame z b then (push_frame z (codes "<anonymous>") span b).1 else mark_truncated b

  abbrev leaf_name : List Call → Text
  leaf_name [] = codes "<anonymous>"
  leaf_name (c ∷ cs) = c.method

  -- What follows the leaf's frame.
  unfoldable pub capture_outer : List Call → DebugSnapshotBuilder → DebugSnapshotBuilder
  capture_outer [] b = b
  capture_outer (c ∷ cs) b = capture_entry (outermost c cs) (capture_callers c.call_span cs b)

  unfoldable pub capture_debug_frames :
      List Call → Span → DebugSnapshotBuilder → DebugSnapshotBuilder
  capture_debug_frames calls span b =
      if can_push_frame z b
      then (let (pushed, b1) = push_frame z (leaf_name calls) span b in
          if pushed then capture_outer calls b1 else b1)
      else mark_truncated b

  unfoldable pub capture_variables : List Visible → DebugSnapshotBuilder → DebugSnapshotBuilder
  capture_variables [] b = b
  capture_variables (v ∷ vs) b =
      if can_push_variable z b
      then (let (pushed, b1) =
            push_variable z v.canonical v.type_name v.text (mark_if v.truncated b) in
          if pushed then capture_variables vs b1 else b1)
      else mark_truncated b

  unfoldable pub build_debug_snapshot : Span → Visibility → ℕ → DebugSnapshot × (ℕ × Bool)
  build_debug_snapshot span v retained_byte_budget = finish (
      capture_variables v.variables (
        mark_if v.variables_truncated (
          capture_debug_frames v.call_stack span
            (new z span v.transaction_event_count retained_byte_budget))))

  -- `let CaptureDebugger { … } = … else { return }`, and what follows it.
  unfoldable pub capture_asked :
      Span → Visibility → StatementInstrumentation × InstrumentationState → InstrumentationState
  capture_asked span v (skip, s) = s
  capture_asked span v (capture_debugger budget, s) =
      let (snapshot, (retained_bytes, truncated)) = build_debug_snapshot span v budget in
      record_debug_snapshot snapshot retained_bytes truncated s

  unfoldable pub instrument_statement :
      Span → Bool → Visibility → InstrumentationState → InstrumentationState
  instrument_statement span capture v s = capture_asked span v (before_statement z span capture s)
