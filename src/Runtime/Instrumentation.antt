-- ===== src/Runtime/Instrumentation.antt =====
-- src/runtime/instrumentation.rs: what an execution observes, and how much of it is kept.
pub mod Truncation
pub mod Builder
pub mod State
pub mod Capture
pub mod Cuts
pub mod Bounds
pub mod Pushes
pub mod Retention
mod Examples
