-- ===== src/Mpt/Manager/Restore.antt =====
-- A state that is read back from its persisted form is the state that was saved, with cold caches:
-- it keeps the invariant, answers every read and commits to the same roots.
use cfx_minimal_execution.Common.{
  ℕ, ◌==◌, ◌≡◌, refl, sym, ap, subst, ◌∙◌, arith, false, some, List, [], ◌∷◌, All, ok, err, inl,
  inr, Option-cases,
}
use cfx_minimal_execution.Mpt.Types.{H256, MptResult}
use cfx_minimal_execution.Common.ByteMap.{get}
use cfx_minimal_execution.Mpt.KeyCodec.Canonical.{StorageKeyWithSpace, to_key_bytes}
use mathlib.Core.Option.{some_inj}
use cfx_minimal_execution.Mpt.KeyCodec.Delta.{empty_cache}
use cfx_minimal_execution.Mpt.KeyCodec.Delta.Cache.{empty_cache-IsFaithful}
use cfx_minimal_execution.Mpt.Trie.{value, tombstone}
use cfx_minimal_execution.Mpt.Incremental.{
  Entries, IncrementalTrie, from_delta, skip_singleton, full, snapshot_get,
}
use cfx_minimal_execution.Mpt.Incremental.Root.{IsTrie, cold-IsTrie, root_eq_cold, root_value}
use cfx_minimal_execution.Mpt.Incremental.Ordered.{IsOrdered, IsNibbleKey}
use cfx_minimal_execution.Mpt.Stateless.{nibble_keys, root_for_entries}
use cfx_minimal_execution.Mpt.Snapshot.{SnapshotTrie, to_canonical_map, snapshot_get_owned}
use cfx_minimal_execution.Mpt.Snapshot.Copies.{insert_each_same, nibble_entries-eq-insert_each}
use cfx_minimal_execution.Mpt.Snapshot.ByteEntries.{IsByteEntry, from_snapshot-to_canonical_map}
use cfx_minimal_execution.Mpt.State.Defs.{State, state_get}
use cfx_minimal_execution.Mpt.State.Reads.{
  Layers, layers, raw_of, look_up, look_up_delta, look_up_intermediate, look_up_snapshot,
  state_get-look_up,
}
use cfx_minimal_execution.Mpt.State.Rotation.{IsState}
use cfx_minimal_execution.Mpt.Store.{to_disk, from_disk}
use cfx_minimal_execution.Mpt.Manager.{
  entries_to_disk, entries_from_disk, persisted, from_persisted,
}

entries_from_disk-entries_to_disk : (m : Entries) → entries_from_disk (entries_to_disk m) ≡ m
unfolding entries_from_disk entries_to_disk from_disk to_disk
entries_from_disk-entries_to_disk [] = refl
entries_from_disk-entries_to_disk ((k, value v) ∷ m) =
    ap (λ n. (k, value v) ∷ n) (entries_from_disk-entries_to_disk m)
entries_from_disk-entries_to_disk ((k, tombstone) ∷ m) =
    ap (λ n. (k, tombstone) ∷ n) (entries_from_disk-entries_to_disk m)

-- The trie that is seeded with a map whose nibble keys ascend.
from_delta_entries :
    (delta : Entries)
    → IsOrdered (nibble_keys delta)
    → from_delta delta ≡ record { entries = nibble_keys delta; cache = []; dirty = [] }
unfolding from_delta
from_delta_entries delta o =
    ap (λ m. record { entries = m; cache = []; dirty = [] })
      (nibble_entries-eq-insert_each delta [] ∙ insert_each_same (nibble_keys delta) o)

module _ (keccak : List ℕ → H256) where
  abbrev cold_of : Entries → IncrementalTrie
  cold_of m = record { entries = m; cache = []; dirty = [] }

  -- The state with the snapshot that a root walk has left, and cold otherwise.
  abbrev state_with : State → SnapshotTrie → State
  state_with s t = record s {
    snapshot = t;
    delta_inc = cold_of (nibble_keys s.delta);
    delta_account_cache = empty_cache keccak;
    intermediate_account_cache = empty_cache keccak;
  }

  state_with-IsState :
      (s : State) (t : SnapshotTrie)
      → IsState keccak s
      → t.entries ≡ s.snapshot.entries
      → IsTrie keccak t
      → IsState keccak (state_with s t)
  state_with-IsState s t inv same good = record {
    caches = record {
      delta_cache = empty_cache-IsFaithful keccak;
      intermediate_cache = empty_cache-IsFaithful keccak;
    };
    delta_trie =
        cold-IsTrie keccak (nibble_keys s.delta) []
          (subst IsOrdered (sym inv.synced) inv.delta_trie.ordered)
          (subst (All IsNibbleKey) (sym inv.synced) inv.delta_trie.nibbles);
    snapshot_trie = record {
      trie = good;
      byte_entries = subst (All IsByteEntry) (sym same) inv.snapshot_trie.byte_entries;
    };
    delta_keyed = inv.delta_keyed;
    intermediate_keyed = inv.intermediate_keyed;
    period = inv.period;
    synced = refl;
    intermediate_rooted = inv.intermediate_rooted;
    snapshot_rooted = ap (root_for_entries keccak) same ∙ inv.snapshot_rooted;
  }

  -- What is read back from the persisted form.
  restored :
      (s : State)
      → IsState keccak s
      → (t : SnapshotTrie) × (from_persisted keccak (persisted s) ≡ some (state_with s t))
        × (t.entries ≡ s.snapshot.entries)
        × IsState keccak (state_with s t)
  unfolding from_persisted persisted
  restored s inv =
      let snap = inv.snapshot_trie.trie in
      let snap_cold = cold-IsTrie keccak s.snapshot.entries [] snap.ordered snap.nibbles in
      let made =
        from_snapshot-to_canonical_map s.snapshot snap.ordered inv.snapshot_trie.byte_entries in
      let (h, t, u, er, ec, same, good) =
        root_eq_cold keccak skip_singleton full (cold_of s.snapshot.entries) snap_cold in
      let root_same : h ≡ s.snapshot_root = some_inj.0 (
        sym (root_value keccak skip_singleton (cold_of s.snapshot.entries) snap_cold h t er)
        ∙ inv.snapshot_rooted) in
      let counts : (s.snapshot_epoch_count == 0) ≡ false = let p = inv.period in ground arith in
      let seeded =
        from_delta_entries s.delta (subst IsOrdered (sym inv.synced) inv.delta_trie.ordered) in
      (
        t,
        rw
            (
              made,
              er,
              entries_from_disk-entries_to_disk s.intermediate,
              entries_from_disk-entries_to_disk s.delta,
              inv.intermediate_rooted,
              counts,
              seeded,
              root_same,
            )
            refl,
        same,
        state_with-IsState s t inv same good,
      )

  -- A read looks at the snapshot's entries alone.
  snapshot_look_up :
      (r : MptResult (List ℕ)) (t u : SnapshotTrie)
      → t.entries ≡ u.entries
      → look_up_snapshot keccak r t ≡ look_up_snapshot keccak r u
  unfolding look_up_snapshot snapshot_get_owned snapshot_get
  snapshot_look_up (err e) t u same = refl
  snapshot_look_up (ok canonical) t u same = rw same refl

  intermediate_look_up :
      (k : StorageKeyWithSpace) (r : MptResult (List ℕ)) (m : Entries) (t u : SnapshotTrie)
      → t.entries ≡ u.entries
      → look_up_intermediate keccak k r m t ≡ look_up_intermediate keccak k r m u
  unfolding look_up_intermediate
  intermediate_look_up k (err e) m t u same = refl
  intermediate_look_up k (ok raw) m t u same = elim (Option-cases (get raw m)) [
    | inl miss ↦ rw (look_up_intermediate, miss) (snapshot_look_up (to_key_bytes k) t u same)
    | inr (v, hit) ↦ rw (look_up_intermediate, hit) refl
  ]

  delta_look_up :
      (k : StorageKeyWithSpace) (r : MptResult (List ℕ)) (l : Layers) (t : SnapshotTrie)
      → t.entries ≡ l.snapshot.entries
      → look_up_delta keccak k r (record l { snapshot = t }) ≡ look_up_delta keccak k r l
  unfolding look_up_delta
  delta_look_up k (err e) l t same = refl
  delta_look_up k (ok raw) l t same = elim (Option-cases (get raw l.delta)) [
    | inl miss ↦
        rw (look_up_delta, miss)
          (intermediate_look_up k (raw_of keccak k l.intermediate_padding) l.intermediate t
            l.snapshot same)
    | inr (v, hit) ↦ rw (look_up_delta, hit) refl
  ]

  -- A state that keeps the invariant is read back from its persisted form as a state that keeps
  -- the invariant, has the same persisted form, and answers `get` of every key the same.
  pub from_persisted-persisted :
      (s : State) (k : StorageKeyWithSpace)
      → IsState keccak s
      → (s' : State) × (from_persisted keccak (persisted s) ≡ some s')
        × IsState keccak s'
        × (persisted s' ≡ persisted s)
        × ((state_get keccak k s').0 ≡ (state_get keccak k s).0)
  unfolding persisted to_canonical_map look_up
  from_persisted-persisted s k inv =
      let (t, e, same, good) = restored s inv in
      (
        state_with s t,
        e,
        good,
        rw same refl,
        (state_get-look_up keccak k (state_with s t) good.caches).same
            ∙ delta_look_up k (raw_of keccak k s.delta_padding) (layers s) t same
            ∙ sym (state_get-look_up keccak k s inv.caches).same,
      )
