-- ===== src/Project.antt =====
-- src/project: which files of a project depend on which.
pub mod Dependency
