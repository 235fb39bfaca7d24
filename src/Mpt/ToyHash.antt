-- ===== src/Mpt/ToyHash.antt =====
-- A concrete 32-byte hash for the tests of the modules that take the hash function as a parameter.
use cfx_minimal_execution.Common.{
  ℕ, zero, suc, ◌+◌, ◌%◌, ◌≡◌, arith, List, [], ◌∷◌, length, replicate, length-replicate,
}
use cfx_minimal_execution.Common.Bytes.{IsByte, IsBytes}

unfoldable pub total : List ℕ → ℕ
total [] = 0
total (x ∷ xs) = x + total xs

unfoldable pub toy_hash : List ℕ → List ℕ
unfolding total
toy_hash m = replicate 32 (total m % 256)

pub length-toy_hash : (m : List ℕ) → length (toy_hash m) ≡ 32
unfolding toy_hash
length-toy_hash m = length-replicate 32 (total m % 256)

All-replicate : (n b : ℕ) → IsByte b → IsBytes (replicate n b)
All-replicate zero b h = tt
All-replicate (suc n) b h = (h, All-replicate n b h)

pub toy_hash-IsBytes : (m : List ℕ) → IsBytes (toy_hash m)
unfolding toy_hash
toy_hash-IsBytes m = All-replicate 32 (total m % 256) (omega arith)
