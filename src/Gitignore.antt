-- ===== src/Gitignore.antt =====
-- pkg/gitignore/gitignore.go: the lines of a .gitignore file, the check of a path, and its laws.
pub mod Line
pub mod Check
pub mod Spec
pub mod Refinement
pub mod Tracked
mod Tests
