-- ===== src/Tree.antt =====
-- src/betree.rs: the in-memory tree. Arena holds its state, Split and Flush the maintenance of its
-- nodes, Cascade the flush loop, Root the settling of the root and the public writes, Get and Scan
-- the reads.
pub mod Arena
pub mod Split
pub mod Flush
pub mod Cascade
pub mod Root
pub mod Get
pub mod View
pub mod Scan
