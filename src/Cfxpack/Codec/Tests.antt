-- ===== src/Cfxpack/Codec/Tests.antt =====
-- Runs of the integer encodings on concrete numbers.
use cfx_minimal_execution.Common.Bytes.{to_le_bytes, length-to_le_bytes}
use cfx_minimal_execution.Common.{
  length-append, ◌+◌, ◌<◌, ◌≤◌, ◌≡◌, refl, arith, [], ◌∷◌, ◌++◌, length, ok, err,
}
use cfx_minimal_execution.Common.Bytes.{IsU64}
use cfx_minimal_execution.Cfxpack.Codec.{
  put_u32_le, put_u64_le, read_u32_le, read_u64_le, u32_out_of_bounds, u64_out_of_bounds, panicked,
  put_uleb128, read_uleb128, read_uleb128_loop, zigzag_encode, zigzag_decode,
}
use cfx_minimal_execution.Cfxpack.Codec.Uleb.{read_uleb128-put_uleb128, read_uleb128_bounds}
use cfx_minimal_execution.Cfxpack.Codec.Fixed.{AnswersAt, read-put_le, read_le_bounds}
use cfx_minimal_execution.Cfxpack.Codec.Zigzag.{zigzag_round_trip}

read_uleb128-put_uleb128_example :
    read_uleb128 (put_uleb128 (1 ∷ []) 300 ++ (9 ∷ [])) 1
    ≡ ok (300, length (put_uleb128 (1 ∷ []) 300))
read_uleb128-put_uleb128_example = read_uleb128-put_uleb128 (1 ∷ []) (9 ∷ []) 300 (omega arith)

read_300 : read_uleb128 (0xac ∷ 0x02 ∷ 9 ∷ []) 0 ≡ ok (300, 2)
unfolding read_uleb128 read_uleb128_loop
read_300 = refl

read_uleb128_bounds_example : IsU64 300 × (0 < 2) × (2 ≤ 0 + 10) × (2 ≤ 3)
read_uleb128_bounds_example = read_uleb128_bounds (0xac ∷ 0x02 ∷ 9 ∷ []) 0 300 2 read_300

zigzag_round_trip_example :
    (zigzag_decode (zigzag_encode 1000) ≡ 1000) × (zigzag_encode (zigzag_decode 1000) ≡ 1000)
zigzag_round_trip_example = zigzag_round_trip 1000 (omega arith)

buffer_size : length (put_u64_le (1 ∷ []) 70000 ++ (9 ∷ [])) ≡ 10
unfolding put_u64_le
buffer_size =
    omega (arith, length-append (to_le_bytes 8 70000) (9 ∷ []), length-to_le_bytes 8 70000)

read-put_le_example :
    (read_u32_le (put_u32_le (1 ∷ []) 70000 ++ (9 ∷ [])) 1 ≡ ok 70000)
    × (read_u64_le (put_u64_le (1 ∷ []) 70000 ++ (9 ∷ [])) 1 ≡ ok 70000)
read-put_le_example =
    read-put_le (1 ∷ []) (9 ∷ []) 70000 70000 (omega arith) (omega arith)
      (omega (arith, buffer_size))

read_le_bounds_example :
    AnswersAt 4 u32_out_of_bounds (1 ∷ 2 ∷ 3 ∷ []) 0 (read_u32_le (1 ∷ 2 ∷ 3 ∷ []) 0)
    × AnswersAt 8 u64_out_of_bounds (1 ∷ 2 ∷ 3 ∷ []) 0 (read_u64_le (1 ∷ 2 ∷ 3 ∷ []) 0)
read_le_bounds_example = read_le_bounds (1 ∷ 2 ∷ 3 ∷ []) 0 (omega arith) (omega arith)

wrapped_read : read_u32_le (1 ∷ 2 ∷ 3 ∷ []) 0xffff_ffff_ffff_fffe ≡ err panicked
unfolding read_u32_le
wrapped_read = refl
