-- ===== src/Mpt/KeyCodec.antt =====
-- crates/minimal-mpt/src/key_codec.rs: storage keys as canonical (snapshot) byte strings and as
-- keys of the delta tries. The hash function is a parameter.
pub mod Canonical
pub mod Delta
mod Tests
