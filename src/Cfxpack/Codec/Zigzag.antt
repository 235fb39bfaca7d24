-- ===== src/Cfxpack/Codec/Zigzag.antt =====
-- `zigzag_encode` and `zigzag_decode` of codec.rs.
use cfx_minimal_execution.Common.{
  ℕ, ◌+◌, ◌-◌, ◌*◌, ◌/◌, ◌%◌, ◌^◌, ◌≤◌, ◌<◌, ◌≡◌, ◌∙◌, arith, bit_and, ltb, lt→ltb, false, ap, sym,
}
use cfx_minimal_execution.Common.Bytes.{IsU64}
use cfx_minimal_execution.Common.Bits.{bit_and_1, bit_xor_low, bit_xor_ones}
use cfx_minimal_execution.Cfxpack.Codec.{zigzag_encode, zigzag_decode}
use native.Mathlib.Decide.{dec_lt}

-- The pattern of a number from 0 on is the number, and that of -(n + 1) is 2^64 - 1 - n.
encode_low : (n : ℕ) → n < 2 ^ 63 → zigzag_encode n ≡ 2 * n
unfolding zigzag_encode
encode_low n h =
    let e : n * 2 % 2 ^ 64 ≡ 2 * n = omega arith in
    let t = lt→ltb n (2 ^ 63) h in rw (t, e) (bit_xor_low 64 (2 * n) (omega arith))

encode_high : (v : ℕ) → 2 ^ 63 ≤ v → IsU64 v → zigzag_encode v ≡ 2 ^ 64 - 1 - (v * 2 - 2 ^ 64)
unfolding zigzag_encode
encode_high v l h =
    let e : v * 2 % 2 ^ 64 ≡ v * 2 - 2 ^ 64 = omega arith in
    let t : ltb v (2 ^ 63) ≡ false = ground arith in
    rw (t, e) (bit_xor_ones 64 (v * 2 - 2 ^ 64) (omega arith))

-- For n below 2^63, `zigzag_encode` takes n to 2 n, and -(n + 1), written in two's complement, to
-- 2 n + 1.
pub zigzag_encode_size :
    (n : ℕ) → n < 2 ^ 63 → (zigzag_encode n ≡ 2 * n) × (zigzag_encode (2 ^ 64 - 1 - n) ≡ 2 * n + 1)
zigzag_encode_size n h =
    (encode_low n h, encode_high (2 ^ 64 - 1 - n) (omega arith) (omega arith) ∙ omega arith)

decode_even : (n : ℕ) → n < 2 ^ 63 → zigzag_decode (2 * n) ≡ n
unfolding zigzag_decode
decode_even n h =
    let e : bit_and (2 * n) 1 ≡ 0 = bit_and_1 (2 * n) ∙ omega arith in
    let half : 2 * n / 2 ≡ n = omega arith in rw (e, half) (bit_xor_low 64 n (omega arith))

decode_odd : (n : ℕ) → n < 2 ^ 63 → zigzag_decode (2 * n + 1) ≡ 2 ^ 64 - 1 - n
unfolding zigzag_decode
decode_odd n h =
    let e : bit_and (2 * n + 1) 1 ≡ 1 = bit_and_1 (2 * n + 1) ∙ omega arith in
    let half : (2 * n + 1) / 2 ≡ n = omega arith in rw (e, half) (bit_xor_ones 64 n (omega arith))

-- Decoding the code of an i64, written in two's complement, gives the i64 back, and each u64 is the
-- code of what it decodes to.
pub zigzag_round_trip :
    (v : ℕ)
    → IsU64 v
    → (zigzag_decode (zigzag_encode v) ≡ v) × (zigzag_encode (zigzag_decode v) ≡ v)
zigzag_round_trip v h = (there v h, back v h)
  where
    there : (v : ℕ) → IsU64 v → zigzag_decode (zigzag_encode v) ≡ v
    there v h = elim (dec_lt v (2 ^ 63)) [
      | yes low ↦ rw (encode_low v low) (decode_even v low)
      | no high ↦
          let n : ℕ = 2 ^ 64 - 1 - v in
          let code : zigzag_encode v ≡ 2 * n + 1 = encode_high v (omega arith) h ∙ omega arith in
          ap zigzag_decode code ∙ decode_odd n (omega arith) ∙ omega arith
    ]

    back : (v : ℕ) → IsU64 v → zigzag_encode (zigzag_decode v) ≡ v
    back v h = elim (dec_lt (v % 2) 1) [
      | yes even ↦
          let n : ℕ = v / 2 in
          let e : v ≡ 2 * n = omega arith in
          ap (λ (t : ℕ). zigzag_encode (zigzag_decode t)) e
          ∙ ap zigzag_encode (decode_even n (omega arith))
          ∙ encode_low n (omega arith)
          ∙ sym e
      | no odd ↦
          let n : ℕ = v / 2 in
          let e : v ≡ 2 * n + 1 = omega arith in
          ap (λ (t : ℕ). zigzag_encode (zigzag_decode t)) e
          ∙ ap zigzag_encode (decode_odd n (omega arith))
          ∙ (zigzag_encode_size n (omega arith)).1
          ∙ sym e
    ]
