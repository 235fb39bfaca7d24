-- ===== src/Cfxpack/Decode/Tables.antt =====
-- crates/cfxpack/src/decode/mod.rs: the offsets, the tables, the reassembled block records and the
-- epochs of the groups.
pub mod RoundTrip
pub mod Nonces
use cfx_minimal_execution.Common.{
  ℕ, zero, suc, ◌+◌, ◌-◌, ◌*◌, ◌/◌, ◌%◌, ◌^◌, arith, bit_and, Bool, true, false, not, ◌&&◌, ◌||◌,
  Option, none, some, List, [], ◌∷◌, ◌++◌, map, length, get_or, take, drop, slice, ltb, leb, ◌==◌,
  if◌then◌else◌, Result, ok, err, ensure, ◌>>◌, ◌>>=◌,
}
use cfx_minimal_execution.Common.Bytes.{from_le_bytes}
use cfx_minimal_execution.Cfxpack.U256.{U256Bytes}
use cfx_minimal_execution.Cfxpack.Codec.{
  CodecError, read_u32_le, read_u64_le, read_uleb128, no_pivot, packet_too_short,
  invalid_block_prefix_size, offsets_not_monotonic, offset_exceeds_packet, trailing_bytes,
  nonzero_table_padding, prefix_size_overflow, prefix_exceeds_tx_segment,
  overflow_exceeds_tx_segment, out_of_fuel, panicked,
}
use cfx_minimal_execution.Cfxpack.Packet.{
  Packet, Block, PosLookupEntry, SenderBaseNonce, header_len, header_fixed_len, header_offset_count,
}
use cfx_minimal_execution.Cfxpack.Packet.Layout.{first_pivot, height_at}
use cfx_minimal_execution.Cfxpack.Decode.{cut, decode_block_record, peek_tx_offset_units}

-- The `for` over the slots of the offset table, from slot `i` on.
unfoldable pub read_offsets_from : ℕ → ℕ → List ℕ → Result CodecError (List ℕ)
read_offsets_from zero i bytes = ok []
read_offsets_from (suc n) i bytes = do
  offset ← read_u32_le bytes (header_fixed_len + i * 4)
  offsets ← read_offsets_from n (suc i) bytes
  ok (offset ∷ offsets)

unfoldable pub read_offsets : List ℕ → Result CodecError (List ℕ)
unfolding read_offsets_from
read_offsets bytes = read_offsets_from header_offset_count 0 bytes

unfoldable pub ensure_offsets_from : ℕ → List ℕ → ℕ → Result CodecError (Unit {0})
ensure_offsets_from previous [] len = ok tt
ensure_offsets_from previous (offset ∷ offsets) len = do
  ensure (leb previous offset) offsets_not_monotonic
  ensure (leb offset len) offset_exceeds_packet
  ensure_offsets_from offset offsets len

unfoldable pub ensure_offsets : List ℕ → ℕ → Result CodecError (Unit {0})
unfolding ensure_offsets_from
ensure_offsets offsets len = ensure_offsets_from header_len offsets len

unfoldable pub all_zero : List ℕ → Bool
all_zero [] = true
all_zero (b ∷ bs) = b == 0 && all_zero bs

unfoldable pub trim_zero_padding : List ℕ → ℕ → Result CodecError (List ℕ)
unfolding all_zero
trim_zero_padding bytes alignment =
    let trailing = length bytes % alignment in
    let split = length bytes - trailing in
    if trailing == 0
    then ok bytes
    else (ensure (all_zero (drop split bytes)) nonzero_table_padding >> ok (take split bytes))

-- `chunks_exact(n)`, for a number of chunks.
unfoldable pub chunks : ℕ → ℕ → List ℕ → List (List ℕ)
chunks zero n bytes = []
chunks (suc k) n bytes = take n bytes ∷ chunks k n (drop n bytes)

unfoldable pub decode_addresses : List ℕ → Result CodecError (List (List ℕ))
unfolding chunks
decode_addresses bytes = do
  ensure (length bytes % 20 == 0) trailing_bytes
  ok (chunks (length bytes / 20) 20 bytes)

abbrev pos_entry : List ℕ → PosLookupEntry
pos_entry chunk = record { hash = take 32 chunk; height_offset = from_le_bytes (slice chunk 32 34) }

unfoldable pub decode_pos_entries : List ℕ → Result CodecError (List PosLookupEntry)
unfolding chunks
decode_pos_entries bytes = do
  ensure (length bytes % 34 == 0) trailing_bytes
  ok (map pos_entry (chunks (length bytes / 34) 34 bytes))

-- Each entry takes two bytes at least, so the fuel is the length of the table.
unfoldable pub decode_sender_base_nonces_from :
    ℕ → List ℕ → ℕ → Result CodecError (List SenderBaseNonce)
decode_sender_base_nonces_from zero bytes offset =
    if ltb offset (length bytes) then err out_of_fuel else ok []
decode_sender_base_nonces_from (suc fuel) bytes offset =
    let more = (do
      (sender_index, offset1) ← read_uleb128 bytes offset
      (base_nonce, offset2) ← read_uleb128 bytes offset1
      rest ← decode_sender_base_nonces_from fuel bytes offset2
      ok (record { sender_index = sender_index; base_nonce = base_nonce } ∷ rest)) in
    if ltb offset (length bytes) then more else ok []

unfoldable pub decode_sender_base_nonces : List ℕ → Result CodecError (List SenderBaseNonce)
unfolding decode_sender_base_nonces_from
decode_sender_base_nonces bytes = decode_sender_base_nonces_from (length bytes) bytes 0

-- The bytes behind the prefix, where the bitmap marks the record: the tail and the new offset.
unfoldable pub overflow_tail : Bool → List ℕ → ℕ → ℕ → Result CodecError (List ℕ × ℕ)
unfolding cut
overflow_tail false bytes overflow_offset tx_segment_offset = ok ([], overflow_offset)
overflow_tail true bytes overflow_offset tx_segment_offset = do
  (len, offset) ← read_uleb128 bytes overflow_offset
  let end = (offset + len) % 2 ^ 64
  ensure (leb end tx_segment_offset) overflow_exceeds_tx_segment
  tail ← cut bytes offset end
  ok (tail, end)

-- `bitmap[index / 8] & (1 << (index % 8)) != 0`, where the index is inside the bitmap.
abbrev pub is_marked : List ℕ → ℕ → Bool
is_marked bitmap index = not (bit_and (get_or bitmap (index / 8) 0) (2 ^ (index % 8)) == 0)

-- The same with the check of the index.
unfoldable pub marked_at : List ℕ → ℕ → Result CodecError Bool
marked_at bitmap index =
    ensure (ltb (index / 8) (length bitmap)) panicked >> ok (is_marked bitmap index)

-- One record: the prefix with its overflow, and the offset behind the overflow.
unfoldable pub whole_record : List ℕ → ℕ → ℕ → ℕ → List ℕ → ℕ → ℕ → Result CodecError (List ℕ × ℕ)
unfolding overflow_tail cut marked_at
whole_record bytes block_body_offset tx_segment_offset prefix_size bitmap index overflow_offset = do
  prefix ←
      cut bytes (block_body_offset + index * prefix_size)
        (block_body_offset + (index + 1) * prefix_size)
  marked ← marked_at bitmap index
  (tail, offset) ← overflow_tail marked bytes overflow_offset tx_segment_offset
  ok (prefix ++ tail, offset)

-- The position of the first pivot of a group decides the epoch of the group's blocks.
unfoldable pub set_epoch : {Tx : Type 0} → ℕ → List (Block Tx) → List (Block Tx)
set_epoch epoch [] = []
set_epoch epoch (b ∷ bs) = record b { epoch = epoch } ∷ set_epoch epoch bs

unfoldable pub assign_epochs :
    {Tx : Type 0} → ℕ → List (Block Tx) → Result CodecError (List (Block Tx))
unfolding set_epoch
assign_epochs fuel [] = ok []
assign_epochs zero (b ∷ bs) = err out_of_fuel
assign_epochs (suc fuel) (b ∷ bs) = elim (first_pivot (b ∷ bs)) [
  | none ↦ err no_pivot
  | some relative_pivot ↦
      let group = take (suc relative_pivot) (b ∷ bs) in
      assign_epochs fuel (drop (suc relative_pivot) (b ∷ bs)) >>= λ rest.
      ok (set_epoch (height_at (b ∷ bs) relative_pivot) group ++ rest)
]

-- Each round takes a block at least, so the fuel is the number of blocks.
unfoldable pub assign_epoch_from_pivots :
    {Tx : Type 0} → List (Block Tx) → Result CodecError (List (Block Tx))
unfolding assign_epochs
assign_epoch_from_pivots blocks = assign_epochs (length blocks) blocks

module _ (u256 : U256Bytes) where
  unfoldable pub decode_u256_table : List ℕ → Result CodecError (List ℕ)
  unfolding trim_zero_padding chunks
  decode_u256_table bytes = do
    trimmed ← trim_zero_padding bytes 32
    ensure (length trimmed % 32 == 0) trailing_bytes
    ok (map u256.from_big_endian (chunks (length trimmed / 32) 32 trimmed))

  -- The `for` over the blocks: each record with its offset in the transaction segment.
  unfoldable pub decode_block_records_from :
      ℕ → ℕ → List ℕ → ℕ → ℕ → ℕ → List ℕ → ℕ → Result CodecError (List (List ℕ × ℕ))
  unfolding whole_record
  decode_block_records_from zero index bytes block_body_offset tx_segment_offset prefix_size bitmap
        overflow_offset =
      ok []
  decode_block_records_from (suc n) index bytes block_body_offset tx_segment_offset prefix_size
        bitmap overflow_offset =
      do
        (r, offset) ←
            whole_record bytes block_body_offset tx_segment_offset prefix_size bitmap index
              overflow_offset
        units ← peek_tx_offset_units u256 r
        rest ←
            decode_block_records_from n (suc index) bytes block_body_offset tx_segment_offset
              prefix_size bitmap offset
        ok ((r, units) ∷ rest)

  unfoldable pub decode_block_records :
      List ℕ → ℕ → ℕ → ℕ → ℕ → Result CodecError (List (List ℕ × ℕ))
  unfolding cut decode_block_records_from
  decode_block_records bytes block_header_offset block_body_offset tx_segment_offset prefix_size =
      do
        block_count ← read_u32_le bytes block_header_offset
        bitmap ←
            cut bytes (block_header_offset + 4) (block_header_offset + 4 + (block_count + 7) / 8)
        ensure (ltb (block_count * prefix_size) (2 ^ 64)) prefix_size_overflow
        ensure (leb (block_body_offset + block_count * prefix_size) tx_segment_offset)
            prefix_exceeds_tx_segment
        decode_block_records_from block_count 0 bytes block_body_offset tx_segment_offset
            prefix_size bitmap (block_body_offset + block_count * prefix_size)
