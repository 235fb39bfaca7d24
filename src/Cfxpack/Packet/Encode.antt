-- ===== src/Cfxpack/Packet/Encode.antt =====
-- crates/cfxpack/src/packet/encode.rs: the block records, and the layout of a packet.
use cfx_minimal_execution.Common.{
  ℕ, suc, ◌-◌, bit_and, Bool, true, false, not, Option, none, some, List, [], ◌∷◌, ◌++◌, take, ltb,
  ◌==◌, if◌then◌else◌, Result, ok, err, ◌>>=◌,
}
use cfx_minimal_execution.Common.ByteMap.{ByteMap, get, insert}
use cfx_minimal_execution.Common.NatMap.{NatMap, find, put}
use cfx_minimal_execution.Cfxpack.U256.{U256Bytes}
use cfx_minimal_execution.Cfxpack.Codec.{
  CodecError, put_uleb128, missing_author, missing_difficulty, timestamp_below_min,
  height_below_min,
}
use cfx_minimal_execution.Cfxpack.Codec.Qc.{
  put_qc8, put_qc5e, qc5e_gas_limit_enum, qc5e_base_price_enum,
}
use cfx_minimal_execution.Cfxpack.Packet.{Packet, Block, flag_pivot}

-- `ok_or_else`.
abbrev pub ok_or {ℓ} : {A : Type ℓ} → Option A → CodecError → Result CodecError A
ok_or none e = err e
ok_or (some a) e = ok a

abbrev pub checked_sub : ℕ → ℕ → Option ℕ
checked_sub a b = if ltb a b then none else some (a - b)

-- `values.iter().enumerate()` collected into a map from value to position: the last one counts.
index_addresses_from : ℕ → List (List ℕ) → ByteMap ℕ → ByteMap ℕ
index_addresses_from i [] m = m
index_addresses_from i (v ∷ values) m = index_addresses_from (suc i) values (insert v i m)

unfoldable pub index_addresses : List (List ℕ) → ByteMap ℕ
unfolding index_addresses_from
index_addresses values = index_addresses_from 0 values []

index_u256_from : ℕ → List ℕ → NatMap ℕ → NatMap ℕ
index_u256_from i [] m = m
index_u256_from i (v ∷ values) m = index_u256_from (suc i) values (put v i m)

unfoldable pub index_u256 : List ℕ → NatMap ℕ
unfolding index_u256_from
index_u256 values = index_u256_from 0 values []

unfoldable pub is_pivot : ℕ → Bool
is_pivot flags = not (bit_and flags flag_pivot == 0)

-- `if let Some(pos_view) = block.pos_view`.
abbrev pub put_pos_view : List ℕ → Option ℕ → ℕ → List ℕ
put_pos_view out none min_pos_height = out
put_pos_view out (some pos_view) min_pos_height = put_uleb128 out (pos_view - min_pos_height)

module _ {Tx : Type 0} where
  -- The hash, the four-byte prefixes and the flags, which stand at fixed places.
  unfoldable pub record_head : Block Tx → ℕ → List ℕ
  record_head block flags =
      block.hash
      ++ (take 4 block.deferred_state_root
          ++ (take 4 block.deferred_receipts_root
              ++ (take 4 block.deferred_logs_bloom_hash ++ (flags ∷ []))))

  module _ (u256 : U256Bytes) where
    unfoldable pub encode_block_record :
        Block Tx → ℕ → ℕ → Packet Tx → ByteMap ℕ → NatMap ℕ → Result CodecError (List ℕ)
    unfolding record_head
    encode_block_record block flags tx_segment_offset input address_index difficulty_index = do
      author ← ok_or (get block.author address_index) missing_author
      let out1 = put_uleb128 (record_head block flags) author
      age ← ok_or (checked_sub block.timestamp input.min_timestamp) timestamp_below_min
      let out2 = put_uleb128 out1 age
      difficulty ← ok_or (find block.difficulty difficulty_index) missing_difficulty
      let out3 = put_uleb128 out2 difficulty
      out4 ← put_qc5e u256 out3 block.gas_limit (qc5e_gas_limit_enum block.gas_limit)
      out5 ←
          put_qc5e u256 out4 block.base_price_core
            (qc5e_base_price_enum block.base_price_core false)
      out6 ←
          put_qc5e u256 out5 block.base_price_espace
            (qc5e_base_price_enum block.base_price_espace true)
      rise ← ok_or (checked_sub block.height input.min_height) height_below_min
      let out7 = put_uleb128 out6 rise
      let out8 = put_uleb128 out7 block.blame
      let out9 = put_uleb128 out8 block.finalized_epoch
      let out10 = put_uleb128 out9 tx_segment_offset
      out11 ← put_qc8 u256 out10 block.base_reward
      ok (put_pos_view out11 block.pos_view input.min_pos_height)
