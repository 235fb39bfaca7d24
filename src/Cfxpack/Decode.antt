-- ===== src/Cfxpack/Decode.antt =====
-- crates/cfxpack/src/decode/mod.rs: the tables, the block records and the epochs of a packet. The
-- u64 additions wrap around, as in a release build.
pub mod Record
pub mod Tables
pub mod Epochs
pub mod Rounds
use cfx_minimal_execution.Common.{
  ℕ, zero, suc, ◌+◌, ◌-◌, ◌*◌, ◌/◌, ◌%◌, ◌^◌, arith, bit_and, Bool, true, false, not, ◌&&◌, ◌||◌,
  Option, none, some, List, [], ◌∷◌, ◌++◌, length, get_or, get_elem?, take, drop, replicate, slice,
  ltb, leb, ◌==◌, if◌then◌else◌, Result, ok, err, ensure, ◌>>◌, ◌>>=◌,
}
use cfx_minimal_execution.Cfxpack.U256.{U256Bytes}
use cfx_minimal_execution.Cfxpack.Codec.{
  CodecError, read_u32_le, read_u64_le, read_uleb128, no_pivot, packet_too_short,
  invalid_block_prefix_size, offsets_not_monotonic, offset_exceeds_packet, trailing_bytes,
  nonzero_table_padding, record_too_short, table_index_out_of_bounds, prefix_size_overflow,
  prefix_exceeds_tx_segment, overflow_exceeds_tx_segment, panicked,
}
use cfx_minimal_execution.Cfxpack.Codec.Qc.{read_qc8, read_qc5e, gas_limit_of, base_price_of}
use cfx_minimal_execution.Cfxpack.Packet.{
  Packet, Block, PosLookupEntry, SenderBaseNonce, header_len, header_fixed_len,
}
use cfx_minimal_execution.Cfxpack.Packet.Encode.{is_pivot}

-- `&data[from..to]`.
unfoldable pub cut : List ℕ → ℕ → ℕ → Result CodecError (List ℕ)
cut bytes from to =
    ensure (leb from to && leb to (length bytes)) panicked >> ok (slice bytes from to)

unfoldable pub table_get {ℓ} : {A : Type ℓ} → List A → ℕ → Result CodecError A
table_get table index = elim (get_elem? table index) [
  | some a ↦ ok a
  | none ↦ err table_index_out_of_bounds
]

-- Four bytes, filled up with zeros.
unfoldable pub h256_prefix : List ℕ → List ℕ
h256_prefix prefix = prefix ++ replicate (32 - length prefix) 0

-- The loops of `peek_tx_offset_units`: reads whose values are dropped.
unfoldable pub skip_ulebs : ℕ → List ℕ → ℕ → Result CodecError ℕ
skip_ulebs zero record_bytes offset = ok offset
skip_ulebs (suc n) record_bytes offset = do
  (value, offset') ← read_uleb128 record_bytes offset
  skip_ulebs n record_bytes offset'

-- `read_uleb128` behind `PIVOT`: the pos view stands only from the height on.
abbrev pub read_pos_view : List ℕ → ℕ → Bool → ℕ → Result CodecError (Option ℕ)
read_pos_view record_bytes offset false min_pos_height = ok none
read_pos_view record_bytes offset true min_pos_height = do
  (view, offset') ← read_uleb128 record_bytes offset
  ok (some ((min_pos_height + view) % 2 ^ 64))

module _ (u256 : U256Bytes) where
  unfoldable pub skip_qc5es : ℕ → List ℕ → ℕ → Result CodecError ℕ
  skip_qc5es zero record_bytes offset = ok offset
  skip_qc5es (suc n) record_bytes offset = do
    (value, offset') ← read_qc5e u256 record_bytes offset
    skip_qc5es n record_bytes offset'

  unfoldable pub peek_tx_offset_units : List ℕ → Result CodecError ℕ
  unfolding skip_ulebs skip_qc5es
  peek_tx_offset_units record_bytes = do
    offset1 ← skip_ulebs 3 record_bytes 45
    offset2 ← skip_qc5es 3 record_bytes offset1
    offset3 ← skip_ulebs 3 record_bytes offset2
    (units, offset4) ← read_uleb128 record_bytes offset3
    ok units

  module _ {Tx : Type 0} where
    unfoldable pub decode_block_record :
        List ℕ → ℕ → ℕ → ℕ → ℕ → ℕ → List (List ℕ) → List ℕ → Result CodecError (Block Tx)
    unfolding table_get h256_prefix
    decode_block_record r index min_timestamp min_height min_pos_height enable_height addresses
          difficulties =
        do
          ensure (leb 45 (length r)) record_too_short
          (author_index, offset1) ← read_uleb128 r 45
          author ← table_get addresses author_index
          (age, offset2) ← read_uleb128 r offset1
          (difficulty_index, offset3) ← read_uleb128 r offset2
          difficulty ← table_get difficulties difficulty_index
          (gas_limit, offset4) ← read_qc5e u256 r offset3
          (base_price_core, offset5) ← read_qc5e u256 r offset4
          (base_price_espace, offset6) ← read_qc5e u256 r offset5
          (rise, offset7) ← read_uleb128 r offset6
          (blame, offset8) ← read_uleb128 r offset7
          (finalized_epoch, offset9) ← read_uleb128 r offset8
          (units, offset10) ← read_uleb128 r offset9
          (base_reward, offset11) ← read_qc8 u256 r offset10
          let height = (min_height + rise) % 2 ^ 64
          pos_view ← read_pos_view r offset11 (leb enable_height height) min_pos_height
          ok (record {
            epoch = 0;
            index = index;
            hash = take 32 r;
            deferred_state_root = h256_prefix (slice r 32 36);
            deferred_receipts_root = h256_prefix (slice r 36 40);
            deferred_logs_bloom_hash = h256_prefix (slice r 40 44);
            flags = get_or r 44 0;
            author = author;
            timestamp = (min_timestamp + age) % 2 ^ 64;
            difficulty = difficulty;
            gas_limit = gas_limit_of gas_limit;
            base_price_core = base_price_of base_price_core false;
            base_price_espace = base_price_of base_price_espace true;
            height = height;
            blame = blame;
            finalized_epoch = finalized_epoch;
            base_reward = base_reward;
            transactions = [];
            transaction_refs = [];
            pos_rewards = [];
            unlock_events = [];
            pos_view = pos_view;
          })
