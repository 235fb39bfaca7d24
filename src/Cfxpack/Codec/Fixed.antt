-- ===== src/Cfxpack/Codec/Fixed.antt =====
-- The little-endian numbers of fixed width.
use cfx_minimal_execution.Common.{
  ℕ, ◌+◌, ◌-◌, ◌^◌, ◌<◌, ◌≡◌, ◌↔◌, refl, ap, arith, true, List, ◌++◌, append_assoc, length,
  length-append, take-append_at, drop-append_length, slice, leb, ok, err, err_injective, Bool-cases,
  Result, ensure, ◌>>◌, ◌%◌, ◌≤◌, ◌≢◌, sym, inl, inr,
}
use cfx_minimal_execution.Common.Bytes.{
  IsU32, IsU64, to_le_bytes, from_le_bytes, length-to_le_bytes, from_le_bytes-to_le_bytes,
}
use cfx_minimal_execution.Cfxpack.Codec.{
  CodecError, panicked, put_u32_le, put_u64_le, read_u32_le, read_u64_le, u32_out_of_bounds,
  u64_out_of_bounds,
}

-- The slice where the bytes of the number stand.
read_back :
    (width : ℕ) (out rest : List ℕ) (v : ℕ)
    → v < 256 ^ width
    → (leb (length out + width) (length ((out ++ to_le_bytes width v) ++ rest)) ≡ true)
      × (from_le_bytes
            (slice ((out ++ to_le_bytes width v) ++ rest) (length out) (length out + width))
          ≡ v)
read_back width out rest v h =
    let bytes = to_le_bytes width v in
    let size : length bytes ≡ width = length-to_le_bytes width v in
    let width' : length out + width - length out ≡ width = omega arith in
    (
      ground (arith, size, length-append (out ++ bytes) rest, length-append out bytes),
      rw
          (
            append_assoc out bytes rest,
            drop-append_length out (bytes ++ rest),
            width',
            take-append_at width bytes rest size,
          )
          (from_le_bytes-to_le_bytes width v h),
    )

-- `read_u32_le` and `read_u64_le` at the place where `put_u32_le` and `put_u64_le` wrote a number
-- of their width return that number, whatever stands before and behind it, where the buffer with
-- the 8 bytes is shorter than 2^64.
pub read-put_le :
    (out rest : List ℕ) (v w : ℕ)
    → IsU32 v
    → IsU64 w
    → length (put_u64_le out w ++ rest) < 2 ^ 64
    → (read_u32_le (put_u32_le out v ++ rest) (length out) ≡ ok v)
      × (read_u64_le (put_u64_le out w ++ rest) (length out) ≡ ok w)
unfolding read_u32_le put_u32_le read_u64_le put_u64_le
read-put_le out rest v w hv hw small =
    let (long, same) = read_back 4 out rest v hv in
    let (long', same') = read_back 8 out rest w hw in
    let inside : length out + 8 < 2 ^ 64 = ground (arith, long', small) in
    let end : (length out + 4) % 2 ^ 64 ≡ length out + 4 = omega (arith, inside) in
    let end' : (length out + 8) % 2 ^ 64 ≡ length out + 8 = omega (arith, inside) in
    let up : leb (length out) (length out + 4) ≡ true = ground arith in
    let up' : leb (length out) (length out + 8) ≡ true = ground arith in
    (rw (end, long, up) (ap ok same), rw (end', long', up') (ap ok same'))

-- What a reader of `width` bytes answers: the number in the bytes, the error or a panic.
abbrev pub AnswersAt : ℕ → CodecError → List ℕ → ℕ → Result CodecError ℕ → Type 0
AnswersAt width e bytes offset answer =
    ((answer ≡ ok (from_le_bytes (slice bytes offset (offset + width))))
      ↔ (offset + width ≤ length bytes))
    × ((answer ≡ err e) ↔ (length bytes < (offset + width) % 2 ^ 64))
    × ((answer ≡ err panicked)
        ↔ ((2 ^ 64 ≤ offset + width) × ((offset + width) % 2 ^ 64 ≤ length bytes)))

answers_at :
    (width : ℕ) (e : CodecError) (bytes : List ℕ) (offset : ℕ)
    → width < 9
    → e ≢ panicked
    → offset < 2 ^ 64
    → length bytes < 2 ^ 64
    → AnswersAt width e bytes offset (
        ensure (leb ((offset + width) % 2 ^ 64) (length bytes)) e
        >> (ensure (leb offset ((offset + width) % 2 ^ 64)) panicked
            >> ok (from_le_bytes (slice bytes offset ((offset + width) % 2 ^ 64)))))
answers_at width e bytes offset narrow other usize small =
    let end : ℕ = (offset + width) % 2 ^ 64 in
    elim (Bool-cases (leb end (length bytes))) [
      | inr past ↦
          let beyond : length bytes < end = ground (arith, past) in
          rw past (
            (λ h. cc, λ h. absurd (omega (arith, beyond, h, small))),
            (λ h. beyond, λ h. refl),
            (λ h. absurd (other (err_injective h)), λ h. absurd (omega (arith, beyond, h.1))),
          )
      | inl fits ↦
          let within : end ≤ length bytes = ground (arith, fits) in
          elim (Bool-cases (leb offset end)) [
            | inl up ↦
                let above : offset ≤ end = ground (arith, up) in
                let exact : (offset + width) % 2 ^ 64 ≡ offset + width =
                  omega (arith, above, narrow, usize) in
                rw (fits, up)
                  (
                    (
                      λ h. omega (arith, within, exact),
                      λ h. ap (λ (n : ℕ). ok (from_le_bytes (slice bytes offset n))) exact,
                    ),
                    (λ h. cc, λ h. absurd (omega (arith, within, h))),
                    (λ h. cc, λ h. absurd (omega (arith, exact, h.0))),
                  )
            | inr down ↦
                let wrapped : end < offset = ground (arith, down) in
                rw (fits, down)
                  (
                    (λ h. cc, λ h. absurd (omega (arith, wrapped, h, small))),
                    (
                      λ h. absurd (other (sym (err_injective h))),
                      λ h. absurd (omega (arith, within, h)),
                    ),
                    (λ h. (omega (arith, wrapped, usize), within), λ h. refl),
                  )
          ]
    ]

-- On an offset and a buffer that a usize counts, `read_u32_le` and `read_u64_le` return the number
-- in the 4 or 8 bytes exactly where these lie inside the buffer, are the out-of-bounds error
-- exactly where the wrapping sum of the offset and the width passes the end of the buffer, and
-- panic exactly where the sum wraps around and does not pass it.
pub read_le_bounds :
    (bytes : List ℕ) (offset : ℕ)
    → offset < 2 ^ 64
    → length bytes < 2 ^ 64
    → AnswersAt 4 u32_out_of_bounds bytes offset (read_u32_le bytes offset)
      × AnswersAt 8 u64_out_of_bounds bytes offset (read_u64_le bytes offset)
unfolding read_u32_le read_u64_le
read_le_bounds bytes offset usize small = (
  answers_at 4 u32_out_of_bounds bytes offset (omega arith) (λ e. cc) usize small,
  answers_at 8 u64_out_of_bounds bytes offset (omega arith) (λ e. cc) usize small,
)
