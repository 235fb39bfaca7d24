-- ===== src/Cfxpack/Verify.antt =====
-- crates/cfxpack/src/verify.rs: the checks of a packet. `read_offsets` and `ensure_offsets` stand in
-- this file and in decode/mod.rs with the same text. Snappy's decompressor and the item count of
-- the crate rlp stand outside the repository: parameters that may fail. The usize sums wrap around,
-- as in a release build.
pub mod Marks
pub mod Overflow
pub mod Packing
pub mod Body
pub mod Sites
pub mod PrefixSize
use cfx_minimal_execution.Common.{
  ℕ, zero, suc, ◌+◌, ◌-◌, ◌*◌, ◌/◌, ◌%◌, ◌^◌, arith, bit_and, Bool, true, false, not, ◌&&◌, ◌||◌,
  Option, none, some, List, [], ◌∷◌, ◌++◌, length, get_or, slice, ltb, leb, ◌==◌, if◌then◌else◌,
  Result, ok, err, ensure, ◌>>◌, ◌>>=◌,
}
use cfx_minimal_execution.Cfxpack.Codec.{
  CodecError, read_u32_le, read_u64_le, read_uleb128, packet_too_short, invalid_block_prefix_size,
  block_header_not_aligned, tx_segment_not_aligned, missing_block_count, bitmap_exceeds_body,
  prefix_size_overflow, prefix_exceeds_tx_segment, overflow_passed_tx_segment, record_too_short,
  qc5e_out_of_bounds, qc5e_exceeds_buffer, tx_payload_out_of_bounds, tx_payload_exceeds_packet,
  decompress_failed, bad_rlp,
}
use cfx_minimal_execution.Cfxpack.Packet.{header_len, flag_has_transactions, flag_tx_compressed}
use cfx_minimal_execution.Cfxpack.Packet.Encode.{ok_or}
use cfx_minimal_execution.Cfxpack.Decode.{cut, skip_ulebs}
use cfx_minimal_execution.Cfxpack.Decode.Tables.{read_offsets, ensure_offsets, whole_record}

pub record VerifyReport : Type 0 where
  pub packet_bytes : ℕ
  pub first_block_number : ℕ
  pub min_timestamp : ℕ
  pub min_height : ℕ
  pub min_pos_height : ℕ
  pub block_prefix_size : ℕ
  pub block_count : ℕ
  pub transaction_blocks : ℕ
  pub transaction_items : ℕ

-- The `for` over the blocks: the records and the offset behind the last overflow.
unfoldable pub collect_from :
    ℕ → ℕ → List ℕ → ℕ → ℕ → ℕ → List ℕ → ℕ → Result CodecError (List (List ℕ) × ℕ)
unfolding whole_record
collect_from zero index bytes block_body_offset tx_segment_offset prefix_size bitmap
      overflow_offset =
    ok ([], overflow_offset)
collect_from (suc n) index bytes block_body_offset tx_segment_offset prefix_size bitmap
      overflow_offset =
    do
      (r, offset) ←
          whole_record bytes block_body_offset tx_segment_offset prefix_size bitmap index
            overflow_offset
      (records, end) ←
          collect_from n (suc index) bytes block_body_offset tx_segment_offset prefix_size bitmap
            offset
      ok (r ∷ records, end)

unfoldable pub collect_block_records :
    List ℕ → ℕ → ℕ → ℕ → ℕ → List ℕ → Result CodecError (List (List ℕ))
unfolding collect_from
collect_block_records bytes block_body_offset tx_segment_offset block_count prefix_size bitmap = do
  (records, end) ←
      collect_from block_count 0 bytes block_body_offset tx_segment_offset prefix_size bitmap
        (block_body_offset + block_count * prefix_size)
  ensure (leb end tx_segment_offset) overflow_passed_tx_segment
  ok records

abbrev skip_len : ℕ → ℕ
skip_len mode = if mode == 0 then 1 else if mode == 1 then 5 else if mode == 2 then 6 else 7

unfoldable pub skip_qc5e : List ℕ → ℕ → Result CodecError ℕ
skip_qc5e bytes offset = do
  ensure (ltb offset (length bytes)) qc5e_out_of_bounds
  let len = skip_len (get_or bytes offset 0 / 2 ^ 6)
  ensure (leb (offset + len) (length bytes)) qc5e_exceeds_buffer
  ok (offset + len)

-- The walk over the fields of a record up to `tx_offset_units`.
unfoldable pub tx_units : List ℕ → Result CodecError ℕ
unfolding skip_ulebs skip_qc5e
tx_units r = do
  offset1 ← skip_ulebs 3 r 45
  offset2 ← skip_qc5e r offset1
  offset3 ← skip_qc5e r offset2
  offset4 ← skip_qc5e r offset3
  offset5 ← skip_ulebs 3 r offset4
  (units, offset6) ← read_uleb128 r offset5
  ok units

-- A payload of the transaction segment, as it stands in the packet.
unfoldable pub tx_payload : List ℕ → ℕ → ℕ → Result CodecError (List ℕ)
unfolding cut
tx_payload bytes tx_segment_offset units = do
  let absolute = (tx_segment_offset + units * 4) % 2 ^ 64
  ensure (ltb absolute (length bytes)) tx_payload_out_of_bounds
  (payload_len, payload_offset) ← read_uleb128 bytes absolute
  let end = (payload_offset + payload_len) % 2 ^ 64
  ensure (leb end (length bytes)) tx_payload_exceeds_packet
  cut bytes payload_offset end

-- `matches!(block_prefix_size, 64 | 72 | 80 | 88 | 96)`.
abbrev pub is_prefix_size : ℕ → Bool
is_prefix_size n = n == 64 || n == 72 || n == 80 || n == 88 || n == 96

module _ (decompress : List ℕ → Option (List ℕ)) (item_count : List ℕ → Option ℕ) where
  abbrev pub decoded_payload : ℕ → List ℕ → Result CodecError (List ℕ)
  decoded_payload flags payload =
      if bit_and flags flag_tx_compressed == 0
      then ok payload
      else ok_or (decompress payload) decompress_failed

  -- The `for` over the records; the counts are u32.
  unfoldable pub count_transactions_from :
      List ℕ → List (List ℕ) → ℕ → ℕ → ℕ → Result CodecError (ℕ × ℕ)
  unfolding tx_units tx_payload
  count_transactions_from bytes [] tx_segment_offset blocks items = ok (blocks, items)
  count_transactions_from bytes (r ∷ records) tx_segment_offset blocks items =
      let flags = get_or r 44 0 in
      let skipped = count_transactions_from bytes records tx_segment_offset blocks items in
      let counted = (do
        units ← tx_units r
        payload ← tx_payload bytes tx_segment_offset units
        decoded ← decoded_payload flags payload
        count ← ok_or (item_count decoded) bad_rlp
        count_transactions_from bytes records tx_segment_offset ((blocks + 1) % 2 ^ 32)
            ((items + count % 2 ^ 32) % 2 ^ 32)) in
      ensure (leb 45 (length r)) record_too_short
      >> (if bit_and flags flag_has_transactions == 0 then skipped else counted)

  unfoldable pub count_transactions : List ℕ → List (List ℕ) → ℕ → Result CodecError (ℕ × ℕ)
  unfolding count_transactions_from
  count_transactions bytes records tx_segment_offset =
      count_transactions_from bytes records tx_segment_offset 0 0

  unfoldable pub verify_packet : List ℕ → Result CodecError VerifyReport
  unfolding read_offsets ensure_offsets collect_block_records count_transactions cut
  verify_packet bytes = do
    ensure (leb header_len (length bytes)) packet_too_short
    first_block_number ← read_u64_le bytes 64
    min_timestamp ← read_u64_le bytes 72
    min_height ← read_u64_le bytes 80
    min_pos_height ← read_u32_le bytes 88
    let prefix_size = get_or bytes 92 0
    ensure (is_prefix_size prefix_size) invalid_block_prefix_size
    offsets ← read_offsets bytes
    ensure_offsets offsets (length bytes)
    let header_offset = get_or offsets 5 0
    let body_offset = get_or offsets 6 0
    let tx_offset = get_or offsets 7 0
    ensure (header_offset % 32 == 0) block_header_not_aligned
    ensure (tx_offset % 64 == 0) tx_segment_not_aligned
    ensure (leb (header_offset + 4) (length bytes)) missing_block_count
    block_count ← read_u32_le bytes header_offset
    let bitmap_end = header_offset + 4 + (block_count + 7) / 8
    ensure (leb bitmap_end body_offset) bitmap_exceeds_body
    bitmap ← cut bytes (header_offset + 4) bitmap_end
    ensure (ltb (block_count * prefix_size) (2 ^ 64)) prefix_size_overflow
    ensure (leb (body_offset + block_count * prefix_size) tx_offset) prefix_exceeds_tx_segment
    records ← collect_block_records bytes body_offset tx_offset block_count prefix_size bitmap
    (blocks, items) ← count_transactions bytes records tx_offset
    ok (record {
      packet_bytes = length bytes;
      first_block_number = first_block_number;
      min_timestamp = min_timestamp;
      min_height = min_height;
      min_pos_height = min_pos_height;
      block_prefix_size = prefix_size;
      block_count = block_count;
      transaction_blocks = blocks;
      transaction_items = items;
    })
