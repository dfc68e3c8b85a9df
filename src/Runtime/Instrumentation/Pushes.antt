-- ===== src/Runtime/Instrumentation/Pushes.antt =====
-- The pushes and the capture loops of src/runtime/instrumentation.rs and src/runtime.rs within the
-- bounds.
use apex_exec.Prelude.{
  ℕ, ◌≤◌, refl, inl, inr, Bool, true, false, List, [], ◌∷◌, length, leb, arith, if◌then◌else◌,
  Bool-cases,
}
use apex_exec.Prelude.Text.{Text}
use apex_exec.Span.{Span}
use apex_exec.Runtime.Instrumentation.Builder.{
  Sizes, DebugSnapshotBuilder, max_debug_retained_bytes, new, push_variable, push_frame,
  max_debug_variables_per_snapshot, max_debug_frames_per_snapshot, can_push_frame,
  can_push_variable,
}
use apex_exec.Runtime.Instrumentation.Bounds.{
  IsKept, reserve-cases, mark_truncated-IsKept, add_frame-IsKept, add_variable-IsKept,
}
use apex_exec.Runtime.Instrumentation.Capture.{
  Call, Visible, mark_if, capture_callers, capture_entry, capture_outer, capture_debug_frames,
  capture_variables,
}

-- A snapshot begun within its budget.
pub new-IsKept :
    (z : Sizes) (span : Span) (events budget : ℕ)
    → z.snapshot_size ≤ budget
    → IsKept z budget (new z span events budget)
unfolding new
new-IsKept z span events budget fits =
    (refl, fits, omega arith, (omega arith, omega arith, (tt, tt)))

module _ (z : Sizes) (budget : ℕ) (small : budget ≤ max_debug_retained_bytes) where
  pub push_frame-IsKept :
      (name : Text) (span : Span) (b : DebugSnapshotBuilder)
      → IsKept z budget b
      → IsKept z budget (push_frame z name span b).1
  unfolding push_frame
  push_frame-IsKept name span b k =
      let (same, under, counted, bounded) = k in
      elim (Bool-cases (leb max_debug_frames_per_snapshot (length b.snapshot.frames))) [
        | inl full ↦ rw full (mark_truncated-IsKept z budget b k)
        | inr room ↦ elim (reserve-cases z.frame_size b (omega arith, omega arith)) [
          | inl e ↦ rw room (rw e (mark_truncated-IsKept z budget b k))
          | inr (e, fits) ↦ rw room (
              rw e (
                add_frame-IsKept z budget name span _ small same (omega arith) (omega arith) bounded
                  (ground arith)))
        ]
      ]

  pub push_variable-IsKept :
      (n t v : Text) (b : DebugSnapshotBuilder)
      → IsKept z budget b
      → IsKept z budget (push_variable z n t v b).1
  unfolding push_variable
  push_variable-IsKept n t v b k =
      let (same, under, counted, bounded) = k in
      elim (Bool-cases (leb max_debug_variables_per_snapshot (length b.snapshot.variables))) [
        | inl full ↦ rw full (mark_truncated-IsKept z budget b k)
        | inr room ↦ elim (reserve-cases z.variable_size b (omega arith, omega arith)) [
          | inl e ↦ rw room (rw e (mark_truncated-IsKept z budget b k))
          | inr (e, fits) ↦ rw room (
              rw e (
                add_variable-IsKept z budget n t v _ small same (omega arith) (omega arith) bounded
                  (ground arith)))
        ]
      ]

  pub mark_if-IsKept :
      (c : Bool) (b : DebugSnapshotBuilder) → IsKept z budget b → IsKept z budget (mark_if c b)
  mark_if-IsKept true b k = mark_truncated-IsKept z budget b k
  mark_if-IsKept false b k = k

  -- Both ways of a choice.
  if-IsKept :
      (c : Bool) (b d : DebugSnapshotBuilder)
      → IsKept z budget b
      → IsKept z budget d
      → IsKept z budget (if c then b else d)
  if-IsKept true b d k l = k
  if-IsKept false b d k l = l

  capture_callers-IsKept :
      (inner : Span) (cs : List Call) (b : DebugSnapshotBuilder)
      → IsKept z budget b
      → IsKept z budget (capture_callers z inner cs b)
  unfolding capture_callers
  capture_callers-IsKept inner [] b k = k
  capture_callers-IsKept inner (c ∷ cs) b k =
      let pushed = push_frame-IsKept c.method inner b k in
      if-IsKept (can_push_frame z b) _ _
        (if-IsKept (push_frame z c.method inner b).0 _ _
          (capture_callers-IsKept c.call_span cs _ pushed) pushed)
        (mark_truncated-IsKept z budget b k)

  capture_entry-IsKept :
      (span : Span) (b : DebugSnapshotBuilder)
      → IsKept z budget b
      → IsKept z budget (capture_entry z span b)
  unfolding capture_entry
  capture_entry-IsKept span b k =
      if-IsKept (can_push_frame z b) _ _ (push_frame-IsKept _ span b k)
        (mark_truncated-IsKept z budget b k)

  capture_outer-IsKept :
      (cs : List Call) (b : DebugSnapshotBuilder)
      → IsKept z budget b
      → IsKept z budget (capture_outer z cs b)
  unfolding capture_outer
  capture_outer-IsKept [] b k = k
  capture_outer-IsKept (c ∷ cs) b k =
      capture_entry-IsKept _ _ (capture_callers-IsKept c.call_span cs b k)

  pub capture_debug_frames-IsKept :
      (calls : List Call) (span : Span) (b : DebugSnapshotBuilder)
      → IsKept z budget b
      → IsKept z budget (capture_debug_frames z calls span b)
  unfolding capture_debug_frames
  capture_debug_frames-IsKept calls span b k =
      let pushed = push_frame-IsKept _ span b k in
      if-IsKept (can_push_frame z b) _ _
        (if-IsKept _ _ _ (capture_outer-IsKept calls _ pushed) pushed)
        (mark_truncated-IsKept z budget b k)

  pub capture_variables-IsKept :
      (vs : List Visible) (b : DebugSnapshotBuilder)
      → IsKept z budget b
      → IsKept z budget (capture_variables z vs b)
  unfolding capture_variables
  capture_variables-IsKept [] b k = k
  capture_variables-IsKept (v ∷ vs) b k =
      let pushed =
        push_variable-IsKept v.canonical v.type_name v.text _ (mark_if-IsKept v.truncated b k) in
      if-IsKept (can_push_variable z b) _ _
        (if-IsKept _ _ _ (capture_variables-IsKept vs _ pushed) pushed)
        (mark_truncated-IsKept z budget b k)
