-- ===== src/Mpt/State.antt =====
-- crates/minimal-mpt/src/state: the state in three layers. A snapshot holds what is settled; the
-- intermediate delta of the last period and the delta of this period lie over it, each keyed
-- under its own padding. An operation returns its result beside the new state, which an error
-- keeps as far as it was changed.
pub mod Defs
pub mod Reads
pub mod Writes
pub mod Commit
pub mod Merge
pub mod Rotation
pub mod Invariant
pub mod Prefix
mod Tests
