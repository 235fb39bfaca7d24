-- ===== src/Mpt/Manager.antt =====
-- crates/minimal-mpt/src/state/mod.rs: a state from its persisted form and back, and
-- `StateManager`, which saves the state at every commit. `none` is the panic of a root walk.
pub mod Restore
pub mod Reopen
mod Tests
use cfx_minimal_execution.Common.{
  ℕ, max, ◌==◌, Option, none, some, List, [], ◌∷◌, if◌then◌else◌, Result, ok, err,
}
use cfx_minimal_execution.Common.ByteMap.{ByteMap, insert}
use cfx_minimal_execution.Common.Partial.{◌>>=◌}
use cfx_minimal_execution.Mpt.Types.{H256, CommitRoot, MptResult}
use cfx_minimal_execution.Mpt.KeyCodec.Delta.{empty_cache, from_roots}
use cfx_minimal_execution.Mpt.Trie.{MptValue}
use cfx_minimal_execution.Mpt.Incremental.{Entries, from_delta, skip_singleton, root_with_policy}
use cfx_minimal_execution.Mpt.Stateless.{trie_root}
use cfx_minimal_execution.Mpt.Snapshot.{from_snapshot, to_canonical_map}
use cfx_minimal_execution.Mpt.State.Defs.{State, default_snapshot_epoch_count, new}
use cfx_minimal_execution.Mpt.State.Commit.{commit}
use cfx_minimal_execution.Mpt.Store.{MptValueDisk, to_disk, from_disk, PersistedState, StateStore}

-- A map with its values in disk form and back; the keys keep their order.
unfoldable pub entries_to_disk : Entries → ByteMap MptValueDisk
unfolding to_disk
entries_to_disk [] = []
entries_to_disk ((k, v) ∷ m) = (k, to_disk v) ∷ entries_to_disk m

unfoldable pub entries_from_disk : ByteMap MptValueDisk → Entries
unfolding from_disk
entries_from_disk [] = []
entries_from_disk ((k, v) ∷ m) = (k, from_disk v) ∷ entries_from_disk m

unfoldable pub persisted : State → PersistedState
unfolding entries_to_disk
persisted s = record {
  snapshot = to_canonical_map s.snapshot;
  intermediate = entries_to_disk s.intermediate;
  delta = entries_to_disk s.delta;
  intermediate_mpt_key_padding = s.intermediate_padding;
  delta_mpt_key_padding = s.delta_padding;
  height = s.height;
  snapshot_epoch_count = s.snapshot_epoch_count;
  last_root = s.last_root;
}

module _ (keccak : List ℕ → H256) where
  unfoldable pub from_persisted : PersistedState → Option State
  unfolding entries_from_disk empty_cache
  from_persisted p =
      let intermediate = entries_from_disk p.intermediate in
      let delta = entries_from_disk p.delta in
      do
        (snapshot_root, snapshot_inc) ←
            root_with_policy keccak skip_singleton (from_snapshot p.snapshot)
        intermediate_root ← trie_root keccak intermediate
        some (record {
          snapshot = snapshot_inc;
          intermediate = intermediate;
          delta = delta;
          snapshot_root = snapshot_root;
          intermediate_root = intermediate_root;
          intermediate_padding = p.intermediate_mpt_key_padding;
          delta_padding = p.delta_mpt_key_padding;
          height = p.height;
          snapshot_epoch_count =
              if p.snapshot_epoch_count == 0
              then default_snapshot_epoch_count
              else p.snapshot_epoch_count;
          last_root = p.last_root;
          delta_inc = from_delta delta;
          delta_account_cache = empty_cache keccak;
          intermediate_account_cache = empty_cache keccak;
        })

  unfoldable pub put_intermediate_raw : List ℕ → MptValue → State → Option State
  unfolding from_roots
  put_intermediate_raw raw_key v s =
      let intermediate = insert raw_key v s.intermediate in
      do
        intermediate_root ← trie_root keccak intermediate
        some (record s {
          intermediate = intermediate;
          intermediate_root = intermediate_root;
          delta_padding = from_roots keccak s.snapshot_root intermediate_root;
        })

pub record StateManager (S : Type 0) : Type 0 where
  pub state : State
  pub store : S

module _ (keccak : List ℕ → H256) {S : Type 0} (ops : StateStore S) where
  -- `StateManager::new` behind the load.
  unfoldable pub manager_from :
      S → MptResult (Option PersistedState) → Option (MptResult (StateManager S))
  unfolding new
  manager_from store (err e) = some (err e)
  manager_from store (ok none) = some (ok (record { state = new keccak; store = store }))
  manager_from store (ok (some p)) = do
    state ← from_persisted keccak p
    some (ok (record { state = state; store = store }))

  unfoldable pub manager_new : S → Option (MptResult (StateManager S))
  unfolding manager_from
  manager_new store = manager_from store (ops.load_latest store)

  set_period : ℕ → MptResult (StateManager S) → MptResult (StateManager S)
  set_period snapshot_epoch_count (err e) = err e
  set_period snapshot_epoch_count (ok manager) = ok (record manager {
    state = record manager.state { snapshot_epoch_count = max snapshot_epoch_count 1 };
  })

  unfoldable pub manager_with_snapshot_epoch_count : S → ℕ → Option (MptResult (StateManager S))
  unfolding manager_new set_period
  manager_with_snapshot_epoch_count store snapshot_epoch_count = do
    manager ← manager_new store
    some (set_period snapshot_epoch_count manager)

  -- `root`, behind the `?` on `save_latest`.
  unfoldable pub saved_root :
      CommitRoot → State → MptResult (Unit {0}) × S → MptResult CommitRoot × StateManager S
  saved_root r s (ok _, store) = (ok r, record { state = s; store = store })
  saved_root r s (err e, store) = (err e, record { state = s; store = store })

  -- `StateManager::commit` behind the commit of the state: only a root that came out is saved.
  unfoldable pub save_committed :
      S → MptResult CommitRoot × State → MptResult CommitRoot × StateManager S
  unfolding saved_root
  save_committed store (err e, s) = (err e, record { state = s; store = store })
  save_committed store (ok r, s) = saved_root r s (ops.save_latest (persisted s) store)

  unfoldable pub manager_commit : StateManager S → Option (MptResult CommitRoot × StateManager S)
  unfolding save_committed
  manager_commit manager = do
    committed ← commit keccak manager.state
    some (save_committed manager.store committed)
