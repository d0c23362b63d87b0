-- ===== src/Linker.antt =====
-- internal/graph/linker.go: how references are matched with the units that they may mean.
pub mod Unit
pub mod Config
pub mod Rpc
pub mod Local
pub mod Route
pub mod Table
mod Tests
