-- ===== src/Ast.antt =====
-- The syntax trees of src/ast.rs.
pub mod Types
pub mod Expression
pub mod Query
pub mod Names
mod Examples
