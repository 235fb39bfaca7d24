-- ===== src/Mpt/Trie/Nibbles.antt =====
-- Byte keys as nibble keys, of crates/minimal-mpt/src/trie.rs and incremental.rs.
use cfx_minimal_execution.Common.{
  ℕ, ◌*◌, ◌/◌, ◌%◌, ◌^◌, ◌≡◌, refl, ap₂, ◌∙◌, arith, bit_and, bit_or, List, [], ◌∷◌,
}
use cfx_minimal_execution.Common.Bits.{bit_and_0f, bit_or_disjoint, bit_or_comm}
use cfx_minimal_execution.Common.Bytes.{IsByte, IsBytes}
use cfx_minimal_execution.Mpt.Trie.{bytes_to_nibbles, nibbles_to_bytes}

join_byte : (b : ℕ) → IsByte b → bit_or (b / 2 ^ 4 * 2 ^ 4 % 256) (bit_and b 0x0f) ≡ b
join_byte b h =
    let keep : b / 2 ^ 4 * 2 ^ 4 % 256 ≡ b / 16 * 16 = omega arith in
    rw (keep, bit_and_0f b)
      (bit_or_comm (b / 16 * 16) (b % 16)
        ∙ bit_or_disjoint 4 (b % 16) (b / 16) (omega arith)
        ∙ omega arith)

-- `nibbles_to_bytes` gives a string of bytes back from its `bytes_to_nibbles`.
pub nibbles_to_bytes-bytes_to_nibbles :
    (bs : List ℕ) → IsBytes bs → nibbles_to_bytes (bytes_to_nibbles bs) ≡ bs
unfolding nibbles_to_bytes bytes_to_nibbles
nibbles_to_bytes-bytes_to_nibbles [] h = refl
nibbles_to_bytes-bytes_to_nibbles (b ∷ bs) (p, h) =
    ap₂ (λ c cs. c ∷ cs) (join_byte b p) (nibbles_to_bytes-bytes_to_nibbles bs h)

-- The nibbles determine the bytes.
pub bytes_to_nibbles_injective :
    (bs cs : List ℕ) → bytes_to_nibbles bs ≡ bytes_to_nibbles cs → bs ≡ cs
unfolding bytes_to_nibbles
bytes_to_nibbles_injective [] [] e = refl
bytes_to_nibbles_injective [] (c ∷ cs) e = cc
bytes_to_nibbles_injective (b ∷ bs) [] e = cc
bytes_to_nibbles_injective (b ∷ bs) (c ∷ cs) e =
    let high : b / 2 ^ 4 ≡ c / 2 ^ 4 = cc in
    let low : bit_and b 0x0f ≡ bit_and c 0x0f = cc in
    let tail : bytes_to_nibbles bs ≡ bytes_to_nibbles cs = cc in
    ap₂ (λ c cs. c ∷ cs) (omega (arith, bit_and_0f b, bit_and_0f c))
      (bytes_to_nibbles_injective bs cs tail)
