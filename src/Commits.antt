-- ===== src/Commits.antt =====
-- internal/app/commits.go and the worker of internal/app/jobs.go: a pushed batch of commits, its
-- acceptance, its merged plan, and its run. The JSON codec and the index pass are arguments;
-- failures of the database itself are left out.
pub mod Plan
pub mod Batch
pub mod Worker
pub mod Apply
pub mod Local
pub mod Jobs
pub mod Paths
pub mod Accept
pub mod Cursor
pub mod Order
mod Tests
