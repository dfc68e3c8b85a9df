-- ===== src/Runtime/Instrumentation/Examples.antt =====
-- Concrete captures and cuts.
use apex_exec.Prelude.{
  ℕ, ◌≡◌, ◌≤◌, ◌<◌, refl, true, false, List, [], ◌∷◌, ◌++◌, length, take, arith, All,
}
use apex_exec.Prelude.Text.{Text, codes}
use apex_exec.Span.{Span}
use apex_exec.Runtime.Instrumentation.Truncation.{truncate_utf8, truncation_marker, floor_boundary}
use apex_exec.Runtime.Instrumentation.Cuts.{CutAt, truncate_utf8_cut}
use apex_exec.Runtime.Instrumentation.Builder.{Sizes, max_debug_snapshots, max_debug_retained_bytes}
use apex_exec.Runtime.Instrumentation.State
use apex_exec.Runtime.Instrumentation.State.{
  InstrumentationState, debugger, budget_left, take_debug_trace,
}
use apex_exec.Runtime.Instrumentation.Capture.{
  Visibility, build_debug_snapshot, instrument_statement,
}
use apex_exec.Runtime.Instrumentation.Bounds.{IsBounded, snapshot_weight, sum_of}
use apex_exec.Runtime.Instrumentation.Retention.{
  Event, statement, rendered, observe_all, trace-IsBounded, capture_recorded,
}

-- "ab😀cd", cut at 5 bytes to "ab…" as the program's own test has it.
abbrev emoji : Text
emoji = 97 ∷ 98 ∷ 240 ∷ 159 ∷ 152 ∷ 128 ∷ 99 ∷ 100 ∷ []

cut_emoji : truncate_utf8 emoji 5 ≡ 97 ∷ 98 ∷ 226 ∷ 128 ∷ 166 ∷ []
unfolding truncate_utf8 floor_boundary
cut_emoji = refl

truncate_utf8_cut_example :
    (length (truncate_utf8 emoji 5) ≤ 5)
    × ((length emoji ≤ 5 → truncate_utf8 emoji 5 ≡ emoji)
        × ((5 < length emoji
              → 5 < 3
              → (n : ℕ) × (CutAt emoji 5 n × (truncate_utf8 emoji 5 ≡ take n emoji)))
            × (5 < length emoji
                → 3 ≤ 5
                → (n : ℕ) × (CutAt emoji 2 n
                    × (truncate_utf8 emoji 5 ≡ take n emoji ++ truncation_marker)))))
truncate_utf8_cut_example = truncate_utf8_cut emoji 5

abbrev sizes : Sizes
sizes = record { snapshot_size = 96; variable_size = 72; frame_size = 48 }

abbrev here : Span
here = record { source_id = record { id = 0 }; start = 4; stop = 9 }

abbrev one_call : Visibility
one_call = record {
  call_stack = record { method = codes "run"; call_span = here } ∷ [];
  variables =
      record {
        canonical = codes "i";
        type_name = codes "Integer";
        text = codes "7";
        truncated = false;
      }
      ∷ [];
  variables_truncated = false;
  transaction_event_count = 0;
}

abbrev run : List Event
run = statement here true one_call ∷ rendered true ∷ statement here false one_call ∷ []

trace-IsBounded_example :
    let ((snapshots, status), after) =
      take_debug_trace (observe_all sizes run (State.new debugger)) in
    (length snapshots ≤ max_debug_snapshots)
    × All IsBounded snapshots
    × (status.retained_bytes ≡ sum_of (snapshot_weight sizes) snapshots)
    × (status.retained_bytes ≤ max_debug_retained_bytes)
trace-IsBounded_example = trace-IsBounded sizes debugger run

abbrev fresh : InstrumentationState
fresh = record {
  policy = debugger;
  trace = State.empty_trace;
  snapshots = [];
  retained_debug_bytes = 0;
  debug_trace_truncated = false;
}

capture_recorded_example :
    (instrument_statement sizes here true one_call fresh).snapshots
    ≡ [] ++ (build_debug_snapshot sizes here one_call (budget_left fresh)).0 ∷ []
capture_recorded_example =
    capture_recorded sizes here one_call fresh refl (omega arith) (omega arith) (omega arith)
