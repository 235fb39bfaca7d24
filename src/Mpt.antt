-- ===== src/Mpt.antt =====
-- crates/minimal-mpt: the layered state over Merkle tries.
pub mod Types
pub mod KeyCodec
pub mod Trie
pub mod Incremental
pub mod Stateless
pub mod Snapshot
pub mod State
pub mod Store
pub mod Manager
pub mod ToyHash
mod Tests
