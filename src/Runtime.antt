-- ===== src/Runtime.antt =====
-- src/runtime: values, arithmetic and the instrumentation.
pub mod Value
pub mod Numeric
pub mod Instrumentation
