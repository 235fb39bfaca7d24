-- ===== src/Cfxpack.antt =====
-- crates/cfxpack: the packet wire format.
pub mod U256
pub mod Codec
pub mod Packet
pub mod Decode
pub mod Container
pub mod Verify
mod ToyU256
mod Tests
