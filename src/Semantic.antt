-- ===== src/Semantic.antt =====
-- src/semantic: the parts of the semantic checker that decide by their own algorithms.
pub mod Statement
pub mod Flow
pub mod Overload
