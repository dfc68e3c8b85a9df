-- ===== src/Span.antt =====
-- src/span.rs: a half-open byte range of one source unit.
use apex_exec.Prelude.{ℕ, Option, none, some, ◌==◌, if◌then◌else◌}

pub record SourceId : Type 0 where
  pub id : ℕ

abbrev pub anonymous : SourceId
anonymous = record { id = 0 }

pub record Span : Type 0 where
  pub source_id : SourceId
  pub start : ℕ
  pub stop : ℕ

unfoldable pub new_in : SourceId → ℕ → ℕ → Span
new_in source start stop = record { source_id = source; start = start; stop = stop }

unfoldable pub new : ℕ → ℕ → Span
unfolding new_in
new start stop = new_in anonymous start stop

-- `none` is the panic on spans of different sources.
unfoldable pub merge : Span → Span → Option Span
unfolding new_in
merge a b =
    if a.source_id.id == b.source_id.id then some (new_in a.source_id a.start b.stop) else none
