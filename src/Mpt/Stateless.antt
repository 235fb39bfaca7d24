-- ===== src/Mpt/Stateless.antt =====
-- crates/minimal-mpt/src/trie.rs: `trie_root`, the root hash of a map from its entries alone. A walk
-- answers `none` where the source would panic, or where its fuel ran out; the fuel is the length of
-- the longest key and one, as each step down lengthens the prefix. (The parallel branch of the
-- source computes the same hashes on other threads.)
pub mod Prefix
pub mod Shared
pub mod Ranges
pub mod Children
pub mod Slices
pub mod Sound
pub mod NibbleKeys
use cfx_minimal_execution.Common.{
  ℕ, zero, suc, ◌+◌, Bool, true, false, ◌&&◌, Option, none, some, List, [], ◌∷◌, drop, replicate,
  set, get_elem?, ◌==◌, if◌then◌else◌,
}
use cfx_minimal_execution.Common.ByteMap.{ByteMap}
use cfx_minimal_execution.Common.Partial.{◌>>=◌}
use cfx_minimal_execution.Mpt.Types.{H256, merkle_null_node}
use cfx_minimal_execution.Mpt.Trie.{MptValue, children_count, merkle_value, bytes_to_nibbles}
use cfx_minimal_execution.Mpt.Incremental.{Entries, child_ranges, value_at, node_hash, longest_key}
use mathlib.Core.Option

-- `key.get(idx) == Some(nibble)`.
unfoldable pub has_nibble : ℕ → ℕ → List ℕ → Bool
has_nibble idx nibble key = elim (get_elem? key idx) [ some n ↦ n == nibble | none ↦ false ]

unfoldable pub all_have : ℕ → ℕ → Entries → Bool
all_have idx nibble [] = true
all_have idx nibble ((key, v) ∷ entries) = has_nibble idx nibble key && all_have idx nibble entries

-- The nibbles of the first key, from `idx` on, that the other keys share.
unfoldable pub shared_nibbles : List ℕ → ℕ → Entries → ℕ
shared_nibbles [] idx rest = 0
shared_nibbles (n ∷ ns) idx rest =
    let more = shared_nibbles ns (suc idx) rest in if all_have idx n rest then suc more else 0

unfoldable pub shared_prefix_len : Entries → ℕ → ℕ
unfolding shared_nibbles
shared_prefix_len [] depth = 0
shared_prefix_len ((first, v) ∷ rest) depth = shared_nibbles (drop depth first) depth rest

-- What a node covers: with path compression, the nibbles that its keys share.
abbrev pub node_end : Bool → Entries → ℕ → ℕ
node_end allow entries depth = depth + (if allow then shared_prefix_len entries depth else 0)

-- `child_hashes`: the hash of each run of entries, beside its nibble.
unfoldable pub child_hashes :
    (Entries → Option H256) → List (ℕ × Entries) → Option (List (ℕ × H256))
child_hashes visit [] = some []
child_hashes visit ((child, slice) ∷ ranges) = do
  hash ← visit slice
  hashes ← child_hashes visit ranges
  some ((child, hash) ∷ hashes)

-- The `for` that fills the array of children: `children[child] = hash`.
unfoldable pub fill_children : List (ℕ × H256) → List H256 → List H256
fill_children [] children = children
fill_children ((child, hash) ∷ hashes) children = fill_children hashes (set children child hash)

-- The map's keys as nibbles, in their order.
unfoldable pub nibble_keys : Entries → Entries
nibble_keys [] = []
nibble_keys ((k, v) ∷ kv) = (bytes_to_nibbles k, v) ∷ nibble_keys kv

module _ (keccak : List ℕ → H256) where
  -- `merkle_for_node` on a slice that is not empty, where `visit` hashes a slice below the node.
  unfoldable pub merkle_block :
      (ℕ → Entries → Option H256) → List ℕ → Entries → ℕ → Bool → Option H256
  unfolding child_hashes fill_children
  merkle_block visit first entries depth allow =
      let node_depth = node_end allow entries depth in
      let maybe_value = Option.map merkle_value (value_at node_depth entries) in
      do
        hashes ← child_hashes (visit (suc node_depth)) (child_ranges node_depth none entries)
        let children = fill_children hashes (replicate children_count merkle_null_node)
        some (node_hash keccak first depth node_depth children maybe_value)

  unfoldable pub merkle_for_node : ℕ → Entries → ℕ → Bool → Option H256
  unfolding merkle_block
  merkle_for_node zero entries depth allow = none
  merkle_for_node (suc fuel) [] depth allow = none
  merkle_for_node (suc fuel) ((first, v) ∷ rest) depth allow =
      merkle_block (λ deeper slice. merkle_for_node fuel slice deeper true) first
        ((first, v) ∷ rest) depth allow

  unfoldable pub root_for_entries : Entries → Option H256
  unfolding merkle_for_node
  root_for_entries [] = some merkle_null_node
  root_for_entries (e ∷ es) = merkle_for_node (suc (longest_key (e ∷ es))) (e ∷ es) 0 false

  unfoldable pub trie_root : ByteMap MptValue → Option H256
  unfolding root_for_entries nibble_keys
  trie_root [] = some merkle_null_node
  trie_root (e ∷ kv) = root_for_entries (nibble_keys (e ∷ kv))
