-- ===== src/Cfxpack/Decode/Record/RoundTrip.antt =====
-- `decode_block_record` on what `encode_block_record` has written.
use cfx_minimal_execution.Common.{
  ℕ, ◌+◌, ◌-◌, ◌%◌, ◌^◌, ◌≤◌, ◌≡◌, refl, subst, arith, true, false, some, List, length, get_elem?,
  ltb, ok,
}
use cfx_minimal_execution.Common.Extends.{Extends, Extends-trans}
use cfx_minimal_execution.Common.Bytes.{IsU64}
use cfx_minimal_execution.Common.ByteMap.{ByteMap}
use cfx_minimal_execution.Common.NatMap.{NatMap}
use cfx_minimal_execution.Cfxpack.U256.{U256Bytes}
use cfx_minimal_execution.Cfxpack.Codec.{put_uleb128, read_uleb128}
use cfx_minimal_execution.Cfxpack.Codec.Reads.{put_uleb128-back}
use cfx_minimal_execution.Cfxpack.Codec.Uleb.{put_uleb128-Extends}
use cfx_minimal_execution.Cfxpack.Codec.Qc.RoundTrip.{read_qc8-put_qc8}
use cfx_minimal_execution.Cfxpack.Packet.{Packet, Block}
use cfx_minimal_execution.Cfxpack.Packet.Encode.{
  checked_sub, put_pos_view, record_head, encode_block_record,
}
use cfx_minimal_execution.Cfxpack.Decode.{table_get, decode_block_record}
use cfx_minimal_execution.Cfxpack.Decode.Record.{
  gas_limit-QcReads, base_price-QcReads, pos_view-PosReads, stored, IsEncodable, length-record_head,
  record_head-HasHead,
}

-- The encoder's answer, and the block that the reader gets back from it.
pub record RecordBack (u256 : U256Bytes) {Tx : Type 0} (block : Block Tx)
    (flags units index enable_height : ℕ) (input : Packet Tx) (address_index : ByteMap ℕ)
    (difficulty_index : NatMap ℕ) : Type 0 where
  pub written : List ℕ
  pub done :
      encode_block_record u256 block flags units input address_index difficulty_index ≡ ok written
  pub back :
      (bytes : List ℕ)
      → Extends written bytes
      → decode_block_record u256 bytes index input.min_timestamp input.min_height
          input.min_pos_height enable_height input.addresses input.difficulties
        ≡ ok (stored block flags index)

checked_sub_ok : (a b : ℕ) → b ≤ a → checked_sub a b ≡ some (a - b)
checked_sub_ok a b h = let e : ltb a b ≡ false = ground arith in rw e refl

table_get_ok {ℓ} :
    {A : Type ℓ} {a : A} (table : List A) (index : ℕ)
    → get_elem? table index ≡ some a
    → table_get table index ≡ ok a
unfolding table_get
table_get_ok table index e = rw (table_get, e) refl

module _ (u256 : U256Bytes) {Tx : Type 0} where
  -- A block that a record can hold is encoded, and `decode_block_record` gets back from the record,
  -- whatever bytes follow it, the block with the given flags and index, four bytes of each deferred
  -- hash, epoch 0 and no transactions.
  pub decode_block_record-encode_block_record :
      (block : Block Tx) (flags units index enable_height : ℕ) (input : Packet Tx)
      (address_index : ByteMap ℕ) (difficulty_index : NatMap ℕ)
      → IsEncodable block units enable_height input address_index difficulty_index
      → RecordBack u256 block flags units index enable_height input address_index difficulty_index
  unfolding encode_block_record decode_block_record stored
  decode_block_record-encode_block_record block flags units index enable_height input address_index
        difficulty_index h =
      let out0 = record_head block flags in
      let age = block.timestamp - input.min_timestamp in
      let rise = block.height - input.min_height in
      let age_small : IsU64 age = omega (arith, h.timestamp_small) in
      let rise_small : IsU64 rise = omega (arith, h.height_small) in
      let out1 = put_uleb128 out0 h.author_at in
      let out2 = put_uleb128 out1 age in
      let out3 = put_uleb128 out2 h.difficulty_at in
      let q4 = gas_limit-QcReads u256 out3 block.gas_limit h.gas_limit_fits in
      let out4 = q4.reads.written in
      let q5 = base_price-QcReads u256 out4 block.base_price_core false h.core_price_fits in
      let out5 = q5.reads.written in
      let q6 = base_price-QcReads u256 out5 block.base_price_espace true h.espace_price_fits in
      let out6 = q6.reads.written in
      let out7 = put_uleb128 out6 rise in
      let out8 = put_uleb128 out7 block.blame in
      let out9 = put_uleb128 out8 block.finalized_epoch in
      let out10 = put_uleb128 out9 units in
      let q11 = (read_qc8-put_qc8 u256 out10 block.base_reward h.base_reward_fits).0 in
      let out11 = q11.written in
      let p =
        pos_view-PosReads out11 enable_height input.min_pos_height block.height block.pos_view
          h.pos_view_fits in
      let sum_age : (input.min_timestamp + age) % 2 ^ 64 ≡ block.timestamp =
        omega (arith, h.timestamp_low, h.timestamp_small) in
      let sum_rise : (input.min_height + rise) % 2 ^ 64 ≡ block.height =
        omega (arith, h.height_low, h.height_small) in
      record {
        written = put_pos_view out11 block.pos_view input.min_pos_height;
        done =
            rw
              (
                h.author_found,
                checked_sub_ok block.timestamp input.min_timestamp h.timestamp_low,
                h.difficulty_found,
                q4.reads.done,
                q5.reads.done,
                q6.reads.done,
                checked_sub_ok block.height input.min_height h.height_low,
                q11.done,
              )
              refl;
        back = λ bytes x.
            let x11 = Extends-trans out11 _ bytes p.grown x in
            let x10 = Extends-trans out10 _ bytes q11.grown x11 in
            let x9 =
              Extends-trans out9 _ bytes (put_uleb128-Extends out9 units h.units_small) x10 in
            let x8 =
              Extends-trans out8 _ bytes
                (put_uleb128-Extends out8 block.finalized_epoch h.finalized_small) x9 in
            let x7 =
              Extends-trans out7 _ bytes (put_uleb128-Extends out7 block.blame h.blame_small) x8 in
            let x6 = Extends-trans out6 _ bytes (put_uleb128-Extends out6 rise rise_small) x7 in
            let x5 = Extends-trans out5 _ bytes q6.reads.grown x6 in
            let x4 = Extends-trans out4 _ bytes q5.reads.grown x5 in
            let x3 = Extends-trans out3 _ bytes q4.reads.grown x4 in
            let x2 =
              Extends-trans out2 _ bytes
                (put_uleb128-Extends out2 h.difficulty_at h.difficulty_small) x3 in
            let x1 = Extends-trans out1 _ bytes (put_uleb128-Extends out1 age age_small) x2 in
            let x0 =
              Extends-trans out0 _ bytes (put_uleb128-Extends out0 h.author_at h.author_small) x1 in
            let head =
              record_head-HasHead block flags bytes h.hash_length h.state_root_length
                h.receipts_root_length h.bloom_length x0 in
            let at_author : read_uleb128 bytes 45 ≡ ok (h.author_at, length out1) =
              subst (λ (n : ℕ). read_uleb128 bytes n ≡ ok (h.author_at, length out1))
                (length-record_head block flags h.hash_length h.state_root_length
                  h.receipts_root_length h.bloom_length)
                (put_uleb128-back out0 h.author_at bytes h.author_small x1) in
            rw
              (
                head.long,
                at_author,
                table_get_ok input.addresses h.author_at h.author_kept,
                put_uleb128-back out1 age bytes age_small x2,
                put_uleb128-back out2 h.difficulty_at bytes h.difficulty_small x3,
                table_get_ok input.difficulties h.difficulty_at h.difficulty_kept,
                q4.reads.back bytes x4,
                q5.reads.back bytes x5,
                q6.reads.back bytes x6,
                put_uleb128-back out6 rise bytes rise_small x7,
                put_uleb128-back out7 block.blame bytes h.blame_small x8,
                put_uleb128-back out8 block.finalized_epoch bytes h.finalized_small x9,
                put_uleb128-back out9 units bytes h.units_small x10,
                q11.back bytes x11,
                sum_rise,
                p.back bytes x,
                head.hash,
                head.state_root,
                head.receipts_root,
                head.bloom,
                head.flags_at,
                sum_age,
                q4.means,
                q5.means,
                q6.means,
              )
              refl;
      }
