-- ===== src/Mpt/Snapshot.antt =====
-- crates/minimal-mpt/src/snapshot.rs, the in-memory snapshot: an incremental trie that is read by
-- canonical byte keys. (The LMDB snapshot behind a feature flag is not modelled.)
pub mod Copies
pub mod ByteEntries
use cfx_minimal_execution.Common.{ℕ, Option, none, some, List, [], ◌∷◌}
use cfx_minimal_execution.Common.ByteMap.{ByteMap, insert}
use cfx_minimal_execution.Mpt.Trie.{
  MptValue, value, tombstone, visible_value, bytes_to_nibbles, nibbles_to_bytes,
}
use cfx_minimal_execution.Mpt.Incremental.{
  Entries, IncrementalTrie, insert_entry, remove_entry, snapshot_get, block,
}

abbrev pub SnapshotTrie : Type 0
SnapshotTrie = IncrementalTrie

unfoldable pub snapshot_entries : ByteMap (List ℕ) → Entries → Entries
snapshot_entries [] acc = acc
snapshot_entries ((k, v) ∷ snapshot) acc =
    snapshot_entries snapshot (insert (bytes_to_nibbles k) (value v) acc)

unfoldable pub from_snapshot : ByteMap (List ℕ) → SnapshotTrie
unfolding snapshot_entries
from_snapshot snapshot = record { entries = snapshot_entries snapshot []; cache = []; dirty = [] }

-- A tombstone of the updates removes the key.
unfoldable pub apply_updates : SnapshotTrie → List (List ℕ × MptValue) → SnapshotTrie
apply_updates t [] = t
apply_updates t ((key, value v) ∷ updates) = apply_updates (insert_entry t key (value v)) updates
apply_updates t ((key, tombstone) ∷ updates) = apply_updates (remove_entry t key) updates

unfoldable pub snapshot_get_owned : SnapshotTrie → List ℕ → Option (List ℕ)
snapshot_get_owned t canonical = snapshot_get t canonical

-- The visible values, with their keys in byte form again.
unfoldable pub visible_entries : Entries → List (List ℕ × List ℕ)
visible_entries [] = []
visible_entries ((nibbles, v) ∷ m) =
    let rest = visible_entries m in
    elim (visible_value v) [ some bytes ↦ (nibbles_to_bytes nibbles, bytes) ∷ rest | none ↦ rest ]

unfoldable pub snapshot_scan_prefix : SnapshotTrie → List ℕ → List (List ℕ × List ℕ)
unfolding visible_entries
snapshot_scan_prefix t canonical_prefix =
    visible_entries (block (bytes_to_nibbles canonical_prefix) t.entries)

unfoldable pub collect_map : List (List ℕ × List ℕ) → ByteMap (List ℕ) → ByteMap (List ℕ)
collect_map [] acc = acc
collect_map ((k, v) ∷ entries) acc = collect_map entries (insert k v acc)

unfoldable pub to_canonical_map : SnapshotTrie → ByteMap (List ℕ)
unfolding visible_entries collect_map
to_canonical_map t = collect_map (visible_entries t.entries) []
