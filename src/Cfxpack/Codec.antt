-- ===== src/Cfxpack/Codec.antt =====
-- crates/cfxpack/src/codec.rs: the byte-level encodings of integers. A byte buffer is a list of
-- numbers; a function that writes to `out` returns the new buffer, and a reader that advances
-- `offset` returns the value with the new offset. An error leaves every caller by `?`, so the
-- offset behind an error is not kept.
pub mod Fixed
pub mod Uleb
pub mod Zigzag
pub mod Reads
pub mod Qc
mod Tests
use cfx_minimal_execution.Common.{
  ℕ, zero, suc, ◌+◌, ◌-◌, ◌*◌, ◌/◌, ◌%◌, ◌^◌, ◌<◌, ◌≡◌, arith, bit_and, bit_or, bit_xor, List, [],
  ◌∷◌, ◌++◌, length, drop, replicate, slice, ltb, leb, ◌==◌, if◌then◌else◌, Result, ok, err, ensure,
  ◌>>◌, ◌>>=◌,
}
use cfx_minimal_execution.Common.Bytes.{to_le_bytes, from_le_bytes}
use cfx_minimal_execution.Common.Loops.{lt_wf}
use mathlib.Core.Logic.{dite}
use mathlib.Core.WellFounded.{Acc}
use native.Mathlib.Decide.{dec_lt}

-- The messages of `ensure!` and `bail!`, here and in the modules on top of the codec.
pub data CodecError : Type 0 where
  u32_out_of_bounds u64_out_of_bounds : CodecError
  uleb128_out_of_bounds uleb128_overflow : CodecError
  qc8_out_of_bounds qc8_exceeds_buffer qc8_exceeds_payload qc8_too_large : CodecError
  qc5e_out_of_bounds qc5e_exceeds_buffer qc5e_exceeds_payload qc5e_too_large : CodecError
  qc5e_enum_out_of_range : CodecError
  -- packet/encode.rs
  no_blocks invalid_epoch_range no_pivot index_not_sequential reserved_flag : CodecError
  epoch_mismatch missing_author missing_difficulty timestamp_below_min : CodecError
  height_below_min packet_offset_too_large compress_failed : CodecError
  -- decode/mod.rs and verify.rs
  packet_too_short invalid_block_prefix_size offsets_not_monotonic : CodecError
  offset_exceeds_packet trailing_bytes nonzero_table_padding record_too_short : CodecError
  table_index_out_of_bounds prefix_size_overflow prefix_exceeds_tx_segment : CodecError
  overflow_exceeds_tx_segment block_header_not_aligned tx_segment_not_aligned : CodecError
  missing_block_count bitmap_exceeds_body overflow_passed_tx_segment : CodecError
  tx_payload_out_of_bounds tx_payload_exceeds_packet decompress_failed bad_rlp : CodecError
  -- container.rs
  not_a_container truncated_directory payload_out_of_bounds non_contiguous : CodecError
  resume_gap : CodecError
  -- A slice or an index past the end of a buffer, which ends the program.
  panicked : CodecError
  -- No error of the source: a loop of the model has run out of fuel.
  out_of_fuel : CodecError

unfoldable pub put_u32_le : List ℕ → ℕ → List ℕ
put_u32_le out value = out ++ to_le_bytes 4 value

unfoldable pub put_u64_le : List ℕ → ℕ → List ℕ
put_u64_le out value = out ++ to_le_bytes 8 value

-- The end of the field is a usize sum; where it wraps around, the slice panics.
unfoldable pub read_u32_le : List ℕ → ℕ → Result CodecError ℕ
read_u32_le bytes offset = do
  let end = (offset + 4) % 2 ^ 64
  ensure (leb end (length bytes)) u32_out_of_bounds
  ensure (leb offset end) panicked
  ok (from_le_bytes (slice bytes offset end))

unfoldable pub read_u64_le : List ℕ → ℕ → Result CodecError ℕ
read_u64_le bytes offset = do
  let end = (offset + 8) % 2 ^ 64
  ensure (leb end (length bytes)) u64_out_of_bounds
  ensure (leb offset end) panicked
  ok (from_le_bytes (slice bytes offset end))

shift_shrinks : (value : ℕ) → 0 < value / 2 ^ 7 → value / 2 ^ 7 < value
shift_shrinks value h = omega arith

-- One round writes the low seven bits, and goes on while bits are left.
put_uleb128_loop : List ℕ → (value : ℕ) → Acc ◌<◌ value → List ℕ
put_uleb128_loop out value (Acc.intro _ smaller) =
    let byte = bit_and value 0x7f % 256 in
    dite (dec_lt 0 (value / 2 ^ 7))
      (λ more.
        put_uleb128_loop (out ++ (bit_or byte 0x80 ∷ [])) (value / 2 ^ 7)
          (smaller _ (shift_shrinks value more)))
      (λ _. out ++ (byte ∷ []))

pub put_uleb128 : List ℕ → ℕ → List ℕ
put_uleb128 out value = put_uleb128_loop out value (lt_wf.apply value)

-- The list is what `data` holds from `offset` on. Where the loop goes on the shift is below 64.
read_uleb128_loop : List ℕ → ℕ → ℕ → ℕ → Result CodecError (ℕ × ℕ)
read_uleb128_loop [] offset shift value = err uleb128_out_of_bounds
read_uleb128_loop (byte ∷ rest) offset shift value =
    let value' = bit_or value (bit_and byte 0x7f * 2 ^ shift % 2 ^ 64) in
    let next = read_uleb128_loop rest (offset + 1) (shift + 7) value' in
    if bit_and byte 0x80 == 0
    then ok (value', offset + 1)
    else (ensure (ltb (shift + 7) 64) uleb128_overflow >> next)

unfoldable pub read_uleb128 : List ℕ → ℕ → Result CodecError (ℕ × ℕ)
unfolding read_uleb128_loop
read_uleb128 bytes offset = read_uleb128_loop (drop offset bytes) offset 0 0

high_shrinks : (value : ℕ) → 0x7f < value → value / 2 ^ 7 < value
high_shrinks value h = omega arith

uleb128_len_loop : (value : ℕ) → Acc ◌<◌ value → ℕ → ℕ
uleb128_len_loop value (Acc.intro _ smaller) len =
    dite (dec_lt 0x7f value)
      (λ more. uleb128_len_loop (value / 2 ^ 7) (smaller _ (high_shrinks value more)) (len + 1))
      (λ _. len)

pub uleb128_len : ℕ → ℕ
uleb128_len value = uleb128_len_loop value (lt_wf.apply value) 1

-- An `i64` is its 64 bits in two's complement: `v << 1` drops the top bit, the arithmetic
-- `v >> 63` copies the sign into every bit, and `-` is taken modulo 2^64.
abbrev sign_fill : ℕ → ℕ
sign_fill value = if ltb value (2 ^ 63) then 0 else 2 ^ 64 - 1

pub zigzag_encode : ℕ → ℕ
zigzag_encode value = bit_xor (value * 2 % 2 ^ 64) (sign_fill value)

pub zigzag_decode : ℕ → ℕ
zigzag_decode value = bit_xor (value / 2) ((2 ^ 64 - bit_and value 1) % 2 ^ 64)

unfoldable pub align_to : List ℕ → ℕ → List ℕ
align_to out align = out ++ replicate ((align - length out % align) % align) 0
