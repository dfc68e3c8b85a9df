-- ===== src/Runtime/Instrumentation/Builder.antt =====
-- `DebugSnapshotBuilder` of src/runtime/instrumentation.rs. The sizes of the three structures are
-- the compiler's.
use apex_exec.Prelude.{
  ℕ, ◌+◌, ◌-◌, min, Bool, true, false, ◌&&◌, ◌||◌, List, [], ◌∷◌, ◌++◌, length, leb, ltb,
  if◌then◌else◌,
}
use apex_exec.Prelude.Text.{Text}
use apex_exec.Span.{Span}
use apex_exec.Runtime.Instrumentation.Truncation.{truncate_utf8}

abbrev pub max_debug_snapshots : ℕ
max_debug_snapshots = 4096

abbrev pub max_debug_retained_bytes : ℕ
max_debug_retained_bytes = 16777216

abbrev pub max_debug_variables_per_snapshot : ℕ
max_debug_variables_per_snapshot = 256

abbrev pub max_debug_frames_per_snapshot : ℕ
max_debug_frames_per_snapshot = 128

abbrev pub max_debug_rendered_value_bytes : ℕ
max_debug_rendered_value_bytes = 16384

abbrev pub max_debug_metadata_bytes : ℕ
max_debug_metadata_bytes = 1024

-- `size_of` of the structures
pub record Sizes : Type 0 where
  pub snapshot_size : ℕ
  pub variable_size : ℕ
  pub frame_size : ℕ

pub record DebugVariable : Type 0 where
  pub name : Text
  pub type_name : Text
  pub value : Text

pub record DebugFrame : Type 0 where
  pub name : Text
  pub span : Span

pub record DebugSnapshot : Type 0 where
  pub span : Span
  pub frames : List DebugFrame
  pub variables : List DebugVariable
  pub transaction_event_count : ℕ

pub record DebugSnapshotBuilder : Type 0 where
  pub snapshot : DebugSnapshot
  pub retained_byte_budget : ℕ
  pub retained_bytes : ℕ
  pub truncated : Bool

abbrev pub usize_max : ℕ
usize_max = 18446744073709551615

-- `usize::saturating_add`; `-` on ℕ is `saturating_sub`.
abbrev pub saturating_add : ℕ → ℕ → ℕ
saturating_add a b = if leb (a + b) usize_max then a + b else usize_max

unfoldable pub mark_truncated : DebugSnapshotBuilder → DebugSnapshotBuilder
mark_truncated b = record b { truncated = true }

unfoldable pub remaining_variable_slots : DebugSnapshotBuilder → ℕ
remaining_variable_slots b = max_debug_variables_per_snapshot - length b.snapshot.variables

-- `reserve_structure` for a structure of the size: whether it fits, and the builder after.
unfoldable pub reserve_structure : ℕ → DebugSnapshotBuilder → Bool × DebugSnapshotBuilder
reserve_structure bytes b =
    let kept = saturating_add b.retained_bytes bytes in
    if ltb b.retained_byte_budget kept
    then (false, b)
    else (true, record b { retained_bytes = kept })

unfoldable pub retain_text : Text → ℕ → DebugSnapshotBuilder → Text × DebugSnapshotBuilder
retain_text text per_text_limit b =
    let limit = min (b.retained_byte_budget - b.retained_bytes) per_text_limit in
    let over = ltb limit (length text) in
    let kept = if over then truncate_utf8 text limit else text in
    (
      kept,
      record b {
        truncated = b.truncated || over;
        retained_bytes = saturating_add b.retained_bytes (length kept);
      },
    )

-- The texts of a variable whose structure is reserved, and the variable.
abbrev pub add_variable : Text → Text → Text → DebugSnapshotBuilder → DebugSnapshotBuilder
add_variable name type_name value b =
    let (n, b1) = retain_text name max_debug_metadata_bytes b in
    let (t, b2) = retain_text type_name max_debug_metadata_bytes b1 in
    let (v, b3) = retain_text value max_debug_rendered_value_bytes b2 in
    record b3 {
      snapshot = record b3.snapshot {
        variables = b3.snapshot.variables ++ record { name = n; type_name = t; value = v } ∷ [];
      };
    }

abbrev pub add_frame : Text → Span → DebugSnapshotBuilder → DebugSnapshotBuilder
add_frame name span b =
    let (n, b1) = retain_text name max_debug_metadata_bytes b in
    record b1 {
      snapshot = record b1.snapshot {
        frames = b1.snapshot.frames ++ record { name = n; span = span } ∷ [];
      };
    }

module _ (z : Sizes) where
  unfoldable pub new : Span → ℕ → ℕ → DebugSnapshotBuilder
  new span transaction_event_count retained_byte_budget = record {
    snapshot = record {
      span = span;
      frames = [];
      variables = [];
      transaction_event_count = transaction_event_count;
    };
    retained_byte_budget = retained_byte_budget;
    retained_bytes = z.snapshot_size;
    truncated = false;
  }

  unfoldable pub can_push_variable : DebugSnapshotBuilder → Bool
  can_push_variable b =
      ltb (length b.snapshot.variables) max_debug_variables_per_snapshot
      && leb (saturating_add b.retained_bytes z.variable_size) b.retained_byte_budget

  unfoldable pub can_push_frame : DebugSnapshotBuilder → Bool
  can_push_frame b =
      ltb (length b.snapshot.frames) max_debug_frames_per_snapshot
      && leb (saturating_add b.retained_bytes z.frame_size) b.retained_byte_budget

  unfoldable pub push_variable :
      Text → Text → Text → DebugSnapshotBuilder → Bool × DebugSnapshotBuilder
  push_variable name type_name value b =
      if leb max_debug_variables_per_snapshot (length b.snapshot.variables)
      then (false, mark_truncated b)
      else let (fits, b1) = reserve_structure z.variable_size b in
        if fits then (true, add_variable name type_name value b1) else (false, mark_truncated b1)

  unfoldable pub push_frame : Text → Span → DebugSnapshotBuilder → Bool × DebugSnapshotBuilder
  push_frame name span b =
      if leb max_debug_frames_per_snapshot (length b.snapshot.frames)
      then (false, mark_truncated b)
      else let (fits, b1) = reserve_structure z.frame_size b in
        if fits then (true, add_frame name span b1) else (false, mark_truncated b1)

unfoldable pub finish : DebugSnapshotBuilder → DebugSnapshot × (ℕ × Bool)
finish b = (b.snapshot, (b.retained_bytes, b.truncated))
