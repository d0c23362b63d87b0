-- ===== src/Search.antt =====
-- internal/search/hybrid.go and the hits of internal/index/interface.go.
pub mod Hit
pub mod Merge
pub mod Rank
pub mod Fuse
mod Tests
