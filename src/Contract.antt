-- ===== src/Contract.antt =====
-- internal/contract: the join keys that the parsers build and the linker reads, and the
-- normalisations of identifiers that both sides of a join share.
pub mod Reduce
pub mod Keys
pub mod Ident
pub mod Split
pub mod Table
mod Tests
