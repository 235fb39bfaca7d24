-- ===== src/Cfxpack/Codec/Qc.antt =====
-- The compact numbers QC8 and QC5e of codec.rs: the two high bits of the first byte tell the
-- length, the other bits hold the number, highest byte first.
pub mod Bits
pub mod RoundTrip
use cfx_minimal_execution.Common.{
  ℕ, suc, ◌+◌, ◌-◌, ◌*◌, ◌/◌, ◌%◌, ◌^◌, ◌≡◌, arith, bit_and, bit_or, Bool, Option, none, some, List,
  [], ◌∷◌, ◌++◌, length, get_or, set, replicate, slice, ltb, leb, ◌==◌, if◌then◌else◌, Result, ok,
  err, ensure, ◌>>◌, ◌>>=◌,
}
use cfx_minimal_execution.Cfxpack.U256.{U256Bytes}
use cfx_minimal_execution.Cfxpack.Codec.{
  CodecError, qc8_out_of_bounds, qc8_exceeds_buffer, qc8_exceeds_payload, qc8_too_large,
  qc5e_out_of_bounds, qc5e_exceeds_buffer, qc5e_exceeds_payload, qc5e_too_large,
  qc5e_enum_out_of_range,
}

-- `u8::leading_zeros`.
unfoldable pub leading_zeros : ℕ → ℕ
leading_zeros b =
    if ltb b 1
    then 8
    else if ltb b 2
    then 7
    else if ltb b 4
    then 6
    else if ltb b 8
    then 5
    else if ltb b 16
    then 4
    else if ltb b 32
    then 3
    else if ltb b 64
    then 2
    else if ltb b 128
    then 1
    else 0

unfoldable pub bit_len : List ℕ → ℕ
unfolding leading_zeros
bit_len [] = 0
bit_len (first ∷ rest) = length rest * 8 + (8 - leading_zeros first)

-- `&bytes[first_non_zero..]`.
unfoldable pub compact_of : List ℕ → List ℕ
compact_of [] = []
compact_of (b ∷ bs) = let rest = compact_of bs in if b == 0 then rest else b ∷ bs

-- `payload[0] |= mode << 6`.
abbrev mark_mode : ℕ → List ℕ → List ℕ
mark_mode mode payload = set payload 0 (bit_or (get_or payload 0 0) (mode * 2 ^ 6 % 256))

-- The payload is no shorter than the compact bytes, as `bit_len` has been compared before.
unfoldable pub put_payload : List ℕ → List ℕ → ℕ → ℕ → CodecError → Result CodecError (List ℕ)
put_payload out compact mode total_len exceeds =
    let payload = replicate (total_len - length compact) 0 ++ compact in
    ensure (bit_and (get_or payload 0 0) 0xc0 == 0) exceeds >> ok (out ++ mark_mode mode payload)

-- The `for` over `(mode, total_len, max_bits)`.
unfoldable pub put_modes :
    List ℕ → List ℕ → CodecError → CodecError → List (ℕ × ℕ × ℕ) → Result CodecError (List ℕ)
unfolding bit_len put_payload
put_modes out compact exceeds too_large [] = err too_large
put_modes out compact exceeds too_large ((mode, total_len, max_bits) ∷ modes) =
    let rest = put_modes out compact exceeds too_large modes in
    if leb (bit_len compact) max_bits then put_payload out compact mode total_len exceeds else rest

abbrev pub qc8_modes : List (ℕ × ℕ × ℕ)
qc8_modes = (0, 8, 62) ∷ (1, 9, 70) ∷ (2, 10, 78) ∷ (3, 11, 86) ∷ []

abbrev pub qc5e_modes : List (ℕ × ℕ × ℕ)
qc5e_modes = (1, 5, 38) ∷ (2, 6, 46) ∷ (3, 7, 54) ∷ []

pub data Qc5eValue : Type 0 where
  enum integer : ℕ → Qc5eValue

unfoldable pub gas_limit_of : Qc5eValue → ℕ
gas_limit_of (enum v) = if v == 1 then 30_000_000 else if v == 2 then 60_000_000 else 0
gas_limit_of (integer value) = value

unfoldable pub base_price_of : Qc5eValue → Bool → ℕ
base_price_of (enum v) espace =
    if v == 0 then 0 else if v == 1 then (if espace then 20_000_000_000 else 1_000_000_000) else 0
base_price_of (integer value) espace = value

unfoldable pub qc5e_gas_limit_enum : ℕ → Option ℕ
qc5e_gas_limit_enum value =
    if value == 30_000_000
    then some 1
    else if value == 60_000_000
    then some 2
    else if value == 0
    then some 0
    else none

unfoldable pub qc5e_base_price_enum : ℕ → Bool → Option ℕ
qc5e_base_price_enum value espace =
    let default = if espace then 20_000_000_000 else 1_000_000_000 in
    if value == 0 then some 0 else if value == default then some 1 else none

abbrev qc8_len : ℕ → ℕ
qc8_len mode = if mode == 0 then 8 else if mode == 1 then 9 else if mode == 2 then 10 else 11

abbrev qc5e_len : ℕ → ℕ
qc5e_len mode = if mode == 1 then 5 else if mode == 2 then 6 else 7

-- `bytes[0] &= 0x3f`.
abbrev clear_mode : List ℕ → List ℕ
clear_mode bytes = set bytes 0 (bit_and (get_or bytes 0 0) 0x3f)

module _ (u256 : U256Bytes) where
  unfoldable pub put_qc8 : List ℕ → ℕ → Result CodecError (List ℕ)
  unfolding compact_of put_modes
  put_qc8 out value =
      put_modes out (compact_of (u256.to_big_endian value)) qc8_exceeds_payload qc8_too_large
        qc8_modes

  unfoldable pub put_qc5e : List ℕ → ℕ → Option ℕ → Result CodecError (List ℕ)
  unfolding compact_of put_modes
  put_qc5e out value (some v) = ensure (ltb v 64) qc5e_enum_out_of_range >> ok (out ++ (v ∷ []))
  put_qc5e out value none =
      put_modes out (compact_of (u256.to_big_endian value)) qc5e_exceeds_payload qc5e_too_large
        qc5e_modes

  unfoldable pub read_qc8 : List ℕ → ℕ → Result CodecError (ℕ × ℕ)
  read_qc8 bytes offset =
      let mode = get_or bytes offset 0 / 2 ^ 6 in
      let len = qc8_len mode in
      do
        ensure (ltb offset (length bytes)) qc8_out_of_bounds
        ensure (leb (offset + len) (length bytes)) qc8_exceeds_buffer
        ok (u256.from_big_endian (clear_mode (slice bytes offset (offset + len))), offset + len)

  unfoldable pub read_qc5e : List ℕ → ℕ → Result CodecError (Qc5eValue × ℕ)
  read_qc5e bytes offset =
      let first = get_or bytes offset 0 in
      let mode = first / 2 ^ 6 in
      let len = qc5e_len mode in
      let value = u256.from_big_endian (clear_mode (slice bytes offset (offset + len))) in
      let wide =
        ensure (leb (offset + len) (length bytes)) qc5e_exceeds_buffer
        >> ok (integer value, offset + len) in
      ensure (ltb offset (length bytes)) qc5e_out_of_bounds
      >> (if mode == 0 then ok (enum (bit_and first 0x3f), offset + 1) else wide)
