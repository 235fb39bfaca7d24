-- ===== src/Mpt/State/Defs.antt =====
-- crates/minimal-mpt/src/state/mod.rs: the layered state, with its reads and single writes.
use cfx_minimal_execution.Common.{ℕ, max, Option, none, some, List, [], if◌then◌else◌, ok, err}
use cfx_minimal_execution.Common.ByteMap.{ByteMap, get, insert}
use cfx_minimal_execution.Mpt.Types.{H256, merkle_null_node, CommitRoot, MptResult}
use cfx_minimal_execution.Mpt.KeyCodec.Canonical.{
  StorageKeyWithSpace, DeltaMptKeyPadding, to_key_bytes, is_empty,
}
use cfx_minimal_execution.Mpt.KeyCodec.Delta.{
  AccountKeyCache, empty_cache, genesis, from_roots, to_delta_mpt_key_bytes,
}
use cfx_minimal_execution.Mpt.Trie.{value, tombstone, visible_value}
use cfx_minimal_execution.Mpt.Incremental.{
  Entries, IncrementalTrie, empty_trie, insert_entry, skip_singleton, root_with_policy,
}
use cfx_minimal_execution.Mpt.Snapshot.{SnapshotTrie, from_snapshot, snapshot_get_owned}
use cfx_minimal_execution.Common.Partial.{◌>>=◌}

abbrev pub default_snapshot_epoch_count : ℕ
default_snapshot_epoch_count = 2000

pub record State : Type 0 where
  pub snapshot : SnapshotTrie
  pub intermediate : Entries
  pub delta : Entries
  pub snapshot_root : H256
  pub intermediate_root : H256
  pub intermediate_padding : DeltaMptKeyPadding
  pub delta_padding : DeltaMptKeyPadding
  pub height : ℕ
  pub snapshot_epoch_count : ℕ
  pub last_root : Option CommitRoot
  pub delta_inc : IncrementalTrie
  pub delta_account_cache : AccountKeyCache
  pub intermediate_account_cache : AccountKeyCache

-- The cache that a call with `Some(&mut cache)` leaves behind.
abbrev left_cache : AccountKeyCache → Option AccountKeyCache → AccountKeyCache
left_cache old none = old
left_cache old (some cache) = cache

module _ (keccak : List ℕ → H256) where
  unfoldable pub new : State
  unfolding genesis empty_cache
  new = record {
    snapshot = empty_trie;
    intermediate = [];
    delta = [];
    snapshot_root = merkle_null_node;
    intermediate_root = merkle_null_node;
    intermediate_padding = genesis keccak;
    delta_padding = genesis keccak;
    height = 0;
    snapshot_epoch_count = default_snapshot_epoch_count;
    last_root = none;
    delta_inc = empty_trie;
    delta_account_cache = empty_cache keccak;
    intermediate_account_cache = empty_cache keccak;
  }

  unfoldable pub with_snapshot_epoch_count : ℕ → State
  unfolding new
  with_snapshot_epoch_count snapshot_epoch_count = record new {
    snapshot_epoch_count = max snapshot_epoch_count 1;
  }

  -- `State::from_snapshot`; it answers `none` where the root walk does.
  unfoldable pub state_from_snapshot : ByteMap (List ℕ) → Option State
  unfolding new
  state_from_snapshot snapshot = do
    (snapshot_root, snapshot_inc) ← root_with_policy keccak skip_singleton (from_snapshot snapshot)
    some (record new {
      snapshot = snapshot_inc;
      snapshot_root = snapshot_root;
      delta_padding = from_roots keccak snapshot_root merkle_null_node;
    })

  -- The key under the padding of the delta or of the intermediate layer, by way of its cache.
  unfoldable pub delta_key_of : StorageKeyWithSpace → State → MptResult (List ℕ) × State
  delta_key_of key s =
      let (raw, cache) =
        to_delta_mpt_key_bytes keccak key s.delta_padding (some s.delta_account_cache) in
      (raw, record s { delta_account_cache = left_cache s.delta_account_cache cache })

  unfoldable pub intermediate_key_of : StorageKeyWithSpace → State → MptResult (List ℕ) × State
  intermediate_key_of key s =
      let (raw, cache) =
        to_delta_mpt_key_bytes keccak key s.intermediate_padding
          (some s.intermediate_account_cache) in
      (raw, record s { intermediate_account_cache = left_cache s.intermediate_account_cache cache })

  -- The snapshot is the last layer.
  unfoldable pub get_snapshot : MptResult (List ℕ) → State → MptResult (Option (List ℕ)) × State
  get_snapshot (err e) s = (err e, s)
  get_snapshot (ok canonical) s = (ok (snapshot_get_owned s.snapshot canonical), s)

  unfoldable pub get_intermediate :
      StorageKeyWithSpace → MptResult (List ℕ) × State → MptResult (Option (List ℕ)) × State
  unfolding get_snapshot
  get_intermediate key (err e, s) = (err e, s)
  get_intermediate key (ok raw, s) = elim (get raw s.intermediate) [
    | some v ↦ (ok (visible_value v), s)
    | none ↦ get_snapshot (to_key_bytes key) s
  ]

  unfoldable pub get_delta :
      StorageKeyWithSpace → MptResult (List ℕ) × State → MptResult (Option (List ℕ)) × State
  unfolding get_intermediate intermediate_key_of
  get_delta key (err e, s) = (err e, s)
  get_delta key (ok raw, s) = elim (get raw s.delta) [
    | some v ↦ (ok (visible_value v), s)
    | none ↦ get_intermediate key (intermediate_key_of key s)
  ]

  -- `StateTrait::get`; the state changes in its key caches only.
  unfoldable pub state_get : StorageKeyWithSpace → State → MptResult (Option (List ℕ)) × State
  unfolding get_delta delta_key_of
  state_get key s = get_delta key (delta_key_of key s)

  unfoldable pub set_raw : List ℕ → MptResult (List ℕ) × State → MptResult (Unit {0}) × State
  set_raw bytes (err e, s) = (err e, s)
  set_raw bytes (ok raw, s) =
      let v = if is_empty bytes then tombstone else value bytes in
      (ok tt, record s { delta_inc = insert_entry s.delta_inc raw v; delta = insert raw v s.delta })

  -- `StateTrait::set`: an empty value is a tombstone.
  unfoldable pub state_set : StorageKeyWithSpace → List ℕ → State → MptResult (Unit {0}) × State
  unfolding set_raw delta_key_of
  state_set key bytes s = set_raw bytes (delta_key_of key s)
