-- ===== src/Mpt/Snapshot/ByteEntries.antt =====
-- The entries of a snapshot are values under the nibbles of byte keys, so that the canonical map
-- that is read from a snapshot makes the same snapshot again.
use cfx_minimal_execution.Common.{
  ℕ, ◌≡◌, subst, Bool-cases, inl, inr, refl, sym, ap, ap₂, ◌∙◌, List, [], ◌∷◌, All,
}
use cfx_minimal_execution.Common.ByteMap.{lex, insert, remove, bytes_eq}
use cfx_minimal_execution.Common.Bytes.{IsBytes}
use cfx_minimal_execution.Mpt.Types.{H256}
use cfx_minimal_execution.Mpt.Trie.{
  MptValue, value, visible_value, bytes_to_nibbles, nibbles_to_bytes,
}
use cfx_minimal_execution.Mpt.Trie.Nibbles.{nibbles_to_bytes-bytes_to_nibbles}
use cfx_minimal_execution.Mpt.Incremental.{Entries, insert_entry, remove_entry}
use cfx_minimal_execution.Mpt.Incremental.Ordered.{IsOrdered, lex-cases}
use cfx_minimal_execution.Mpt.Incremental.Root.{IsTrie, insert_entry-IsTrie, remove_entry-IsTrie}
use cfx_minimal_execution.Mpt.Stateless.{nibble_keys}
use cfx_minimal_execution.Mpt.Snapshot.{
  SnapshotTrie, from_snapshot, visible_entries, to_canonical_map, collect_map,
}
use cfx_minimal_execution.Mpt.Snapshot.Copies.{
  insert_each, insert_each_same, as_values, snapshot_entries-eq-insert_each, collected_values,
}

pub record IsByteEntry (e : List ℕ × MptValue) : Type 0 where
  pub key : List ℕ
  pub bytes : List ℕ
  pub key_bytes : IsBytes key
  pub same : e ≡ (bytes_to_nibbles key, value bytes)

insert-IsByteEntry :
    (k : List ℕ) (v : MptValue) (m : Entries)
    → IsByteEntry (k, v)
    → All IsByteEntry m
    → All IsByteEntry (insert k v m)
unfolding insert
insert-IsByteEntry k v [] h g = (h, tt)
insert-IsByteEntry k v ((j, w) ∷ m) h (p, g) = elim (lex-cases (lex k j)) [
  | inl before ↦ rw (insert, before) (h, (p, g))
  | inr (inl here) ↦ rw (insert, here) (h, g)
  | inr (inr after) ↦ rw (insert, after) (p, insert-IsByteEntry k v m h g)
]

remove-IsByteEntry : (k : List ℕ) (m : Entries) → All IsByteEntry m → All IsByteEntry (remove k m)
unfolding remove
remove-IsByteEntry k [] g = tt
remove-IsByteEntry k ((j, w) ∷ m) (p, g) = elim (Bool-cases (bytes_eq j k)) [
  | inl here ↦ rw (remove, here) (remove-IsByteEntry k m g)
  | inr other ↦ rw (remove, other) (p, remove-IsByteEntry k m g)
]

module _ (keccak : List ℕ → H256) where
  -- The invariant of a snapshot.
  pub record IsSnapshot (t : SnapshotTrie) : Type 0 where
    pub trie : IsTrie keccak t
    pub byte_entries : All IsByteEntry t.entries

  pub insert_entry-IsSnapshot :
      (t : SnapshotTrie) (key v : List ℕ)
      → IsBytes key
      → IsSnapshot t
      → IsSnapshot (insert_entry t key (value v))
  insert_entry-IsSnapshot t key v h ok = record {
    trie = insert_entry-IsTrie keccak t key (value v) h ok.trie;
    byte_entries =
        unfold insert_entry in
        insert-IsByteEntry (bytes_to_nibbles key) (value v) t.entries
          (record { key = key; bytes = v; key_bytes = h; same = refl }) ok.byte_entries;
  }

  pub remove_entry-IsSnapshot :
      (t : SnapshotTrie) (key : List ℕ) → IsSnapshot t → IsSnapshot (remove_entry t key)
  remove_entry-IsSnapshot t key ok = record {
    trie = remove_entry-IsTrie keccak t key ok.trie;
    byte_entries =
        unfold remove_entry in remove-IsByteEntry (bytes_to_nibbles key) t.entries ok.byte_entries;
  }

visible_again : (m : Entries) → All IsByteEntry m → nibble_keys (as_values (visible_entries m)) ≡ m
unfolding visible_entries nibble_keys as_values visible_value
visible_again [] h = refl
visible_again ((k, v) ∷ m) (p, h) =
    let back : bytes_to_nibbles (nibbles_to_bytes (bytes_to_nibbles p.key))
        ≡ bytes_to_nibbles p.key =
      ap bytes_to_nibbles (nibbles_to_bytes-bytes_to_nibbles p.key p.key_bytes) in
    subst (λ e. nibble_keys (as_values (visible_entries (e ∷ m))) ≡ e ∷ m) (sym p.same)
      (ap₂ (λ j n. (j, value p.bytes) ∷ n) back (visible_again m h))

no_entries : nibble_keys (as_values []) ≡ []
unfolding nibble_keys as_values
no_entries = refl

-- A snapshot that is built from the canonical map of a snapshot has the same entries.
pub from_snapshot-to_canonical_map :
    (t : SnapshotTrie)
    → IsOrdered t.entries
    → All IsByteEntry t.entries
    → from_snapshot (to_canonical_map t) ≡ record { entries = t.entries; cache = []; dirty = [] }
unfolding from_snapshot to_canonical_map
from_snapshot-to_canonical_map t o h =
    let l = visible_entries t.entries in
    let again = visible_again t.entries h in
    let collected : nibble_keys (as_values (collect_map l [])) ≡ t.entries =
      collected_values l [] ∙ ap₂ insert_each again no_entries ∙ insert_each_same t.entries o in
    ap (λ m. record { entries = m; cache = []; dirty = [] })
      (snapshot_entries-eq-insert_each (collect_map l []) []
        ∙ ap (λ m. insert_each m []) collected
        ∙ insert_each_same t.entries o)
