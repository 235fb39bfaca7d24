-- ===== src/Cfxpack/Packet.antt =====
-- crates/cfxpack/src/packet/mod.rs: the header constants and the data of a packet. Hashes and
-- addresses are their bytes; signed transactions come from the crate primitives, and their type is
-- a parameter.
pub mod Encode
pub mod Layout
pub mod Assemble
use cfx_minimal_execution.Common.{ℕ, ◌*◌, ◌+◌, Option, List}

abbrev pub packet_epochs : ℕ
packet_epochs = 2000

abbrev pub header_fixed_len : ℕ
header_fixed_len = 93

abbrev pub header_offset_count : ℕ
header_offset_count = 8

abbrev pub header_len : ℕ
header_len = header_fixed_len + header_offset_count * 4

abbrev pub flag_adaptive : ℕ
flag_adaptive = 0x01

abbrev pub flag_pivot : ℕ
flag_pivot = 0x02

abbrev pub flag_espace : ℕ
flag_espace = 0x04

abbrev pub flag_has_transactions : ℕ
flag_has_transactions = 0x08

abbrev pub flag_tx_compressed : ℕ
flag_tx_compressed = 0x10

abbrev pub flag_skipped_execution : ℕ
flag_skipped_execution = 0x20

abbrev pub flag_zero_total_reward : ℕ
flag_zero_total_reward = 0x40

pub record PosLookupEntry : Type 0 where
  pub hash : List ℕ
  pub height_offset : ℕ

pub record SenderBaseNonce : Type 0 where
  pub sender_index : ℕ
  pub base_nonce : ℕ

pub record PosRewardAccount : Type 0 where
  pub address : List ℕ
  pub pos_identifier : List ℕ
  pub reward : ℕ

pub record PosRewardEntry : Type 0 where
  pub account_rewards : List PosRewardAccount
  pub execution_epoch_hash : List ℕ

pub record UnlockEntry : Type 0 where
  pub identifier : List ℕ
  pub unlocked : ℕ

pub record Block (Tx : Type 0) : Type 0 where
  pub epoch : ℕ
  pub index : ℕ
  pub hash : List ℕ
  pub deferred_state_root : List ℕ
  pub deferred_receipts_root : List ℕ
  pub deferred_logs_bloom_hash : List ℕ
  pub flags : ℕ
  pub author : List ℕ
  pub timestamp : ℕ
  pub difficulty : ℕ
  pub gas_limit : ℕ
  pub base_price_core : ℕ
  pub base_price_espace : ℕ
  pub height : ℕ
  pub blame : ℕ
  pub finalized_epoch : ℕ
  pub base_reward : ℕ
  pub transactions : List Tx
  pub transaction_refs : List (Option (ℕ × ℕ))
  pub pos_rewards : List PosRewardEntry
  pub unlock_events : List UnlockEntry
  pub pos_view : Option ℕ

pub record Packet (Tx : Type 0) : Type 0 where
  pub prev_last_hash : List ℕ
  pub prev_last_deferred_state_root : List ℕ
  pub first_block_number : ℕ
  pub min_timestamp : ℕ
  pub min_height : ℕ
  pub min_pos_height : ℕ
  pub addresses : List (List ℕ)
  pub pos_entries : List PosLookupEntry
  pub difficulties : List ℕ
  pub sender_base_nonces : List SenderBaseNonce
  pub gas_prices : List ℕ
  pub blocks : List (Block Tx)
