-- ===== src/Extractor.antt =====
-- crates/replay-data-extractor: how the extracted packets become container files.
pub mod Pack
pub mod FlagPatch
pub mod Tables
pub mod Epochs
mod Tests
