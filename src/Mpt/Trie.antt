-- ===== src/Mpt/Trie.antt =====
-- crates/minimal-mpt/src/trie.rs: the values of a trie, nibble keys, and the hashes of a node and
-- of a compressed path.
pub mod Nibbles
use cfx_minimal_execution.Common.{
  ℕ, zero, suc, ◌+◌, ◌*◌, ◌/◌, ◌%◌, ◌^◌, bit_and, bit_or, Bool, true, false, Option, none, some,
  List, [], ◌∷◌, ◌++◌, length, replicate, ◌==◌, if◌then◌else◌,
}
use cfx_minimal_execution.Mpt.Types.{H256, merkle_null_node}
use mathlib.Core.List.{flatten}

abbrev pub children_count : ℕ
children_count = 16

pub data MptValue : Type 0 where
  value : List ℕ → MptValue
  tombstone : MptValue

unfoldable pub visible_value : MptValue → Option (List ℕ)
visible_value (value v) = some v
visible_value tombstone = none

unfoldable pub merkle_value : MptValue → List ℕ
merkle_value (value v) = v
merkle_value tombstone = []

unfoldable pub is_tombstone : MptValue → Bool
is_tombstone (value v) = false
is_tombstone tombstone = true

unfoldable pub bytes_to_nibbles : List ℕ → List ℕ
bytes_to_nibbles [] = []
bytes_to_nibbles (b ∷ bs) = (b / 2 ^ 4) ∷ bit_and b 0x0f ∷ bytes_to_nibbles bs

-- incremental.rs: pairs of nibbles recombine, and an odd nibble at the end is dropped.
unfoldable pub nibbles_to_bytes : List ℕ → List ℕ
nibbles_to_bytes [] = []
nibbles_to_bytes (hi ∷ []) = []
nibbles_to_bytes (hi ∷ lo ∷ rest) = bit_or (hi * 2 ^ 4 % 256) lo ∷ nibbles_to_bytes rest

-- `rest.chunks(2)`, where a last nibble alone stands for the high half.
compress_pairs : List ℕ → List ℕ
compress_pairs [] = []
compress_pairs (hi ∷ []) = bit_or (hi * 2 ^ 4 % 256) 0 ∷ []
compress_pairs (hi ∷ lo ∷ rest) = bit_or (hi * 2 ^ 4 % 256) lo ∷ compress_pairs rest

-- The path is not empty where this is called.
unfoldable pub compress_nibbles : List ℕ → Bool → List ℕ
unfolding compress_pairs
compress_nibbles (first ∷ rest) true = first ∷ compress_pairs rest
compress_nibbles nibbles _ = compress_pairs nibbles

module _ (keccak : List ℕ → H256) where
  unfoldable pub compute_node_merkle : Option (List H256) → Option (List ℕ) → H256
  compute_node_merkle children_merkles maybe_value =
      let children : List H256 = elim children_merkles [
        | some children ↦ children
        | none ↦ replicate children_count merkle_null_node
      ] in
      let value_part : List ℕ = elim maybe_value [ some v ↦ b'v' ∷ v | none ↦ [] ] in
      keccak (b'n' ∷ (flatten children ++ value_part))

  unfoldable pub compute_path_merkle : List ℕ → ℕ → H256 → H256
  unfolding compress_nibbles
  compute_path_merkle [] start_depth node_merkle = node_merkle
  compute_path_merkle (n ∷ ns) start_depth node_merkle =
      let path = n ∷ ns in
      let without_first_nibble = start_depth % 2 == 1 in
      let path_info = 128 + (if without_first_nibble then 64 else 0) + length path % 256 % 63 in
      keccak (path_info ∷ (compress_nibbles path without_first_nibble ++ node_merkle))
