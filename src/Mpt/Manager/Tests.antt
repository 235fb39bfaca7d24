-- ===== src/Mpt/Manager/Tests.antt =====
-- A manager with a store in memory.
use cfx_minimal_execution.Common.{ℕ, zero, suc, ◌≡◌, refl, arith, some, [], ◌∷◌, replicate, ok}
use cfx_minimal_execution.Common.Bytes.{IsBytes}
use cfx_minimal_execution.Mpt.Types.{native, CommitRoot}
use cfx_minimal_execution.Mpt.KeyCodec.Canonical.{StorageKeyWithSpace, account}
use cfx_minimal_execution.Mpt.ToyHash.{toy_hash, length-toy_hash, toy_hash-IsBytes}
use cfx_minimal_execution.Mpt.State.Defs.{State, with_snapshot_epoch_count, state_get, state_set}
use cfx_minimal_execution.Mpt.State.Rotation.{IsState}
use cfx_minimal_execution.Mpt.State.Invariant.{with_snapshot_epoch_count-IsState, state_set-IsState}
use cfx_minimal_execution.Mpt.Store.{
  PersistedState, MemoryStore, empty_store, memory_store, memory_save_latest,
}
use cfx_minimal_execution.Mpt.Manager.{
  persisted, from_persisted, StateManager, manager_new, manager_commit,
}
use cfx_minimal_execution.Mpt.Manager.Restore.{from_persisted-persisted}
use cfx_minimal_execution.Mpt.Manager.Reopen.{manager_new-manager_commit}

abbrev carol : StorageKeyWithSpace
carol = record { key = account (replicate 20 3); space = native }

abbrev with_carol : State
with_carol = (state_set toy_hash carol (9 ∷ []) (with_snapshot_epoch_count toy_hash 1)).1

carol-IsBytes : (n : ℕ) → IsBytes (replicate n 3)
carol-IsBytes zero = tt
carol-IsBytes (suc n) = (omega arith, carol-IsBytes n)

with_carol-IsState : IsState toy_hash with_carol
with_carol-IsState =
    state_set-IsState toy_hash length-toy_hash toy_hash-IsBytes carol (9 ∷ [])
      (with_snapshot_epoch_count toy_hash 1) refl refl (carol-IsBytes 20)
      (with_snapshot_epoch_count-IsState toy_hash 1)

from_persisted-persisted_example :
    (s : State) × (from_persisted toy_hash (persisted with_carol) ≡ some s)
    × IsState toy_hash s
    × (persisted s ≡ persisted with_carol)
    × ((state_get toy_hash carol s).0 ≡ (state_get toy_hash carol with_carol).0)
from_persisted-persisted_example =
    from_persisted-persisted toy_hash with_carol carol with_carol-IsState

saves_all :
    (p : PersistedState) (s : MemoryStore)
    → (s' : MemoryStore) × (memory_store.save_latest p s ≡ (ok tt, s'))
unfolding memory_store memory_save_latest
saves_all p s = (record s { state = some p }, refl)

abbrev carol_manager : StateManager MemoryStore
carol_manager = record { state = with_carol; store = empty_store }

manager_new-manager_commit_example :
    (r : CommitRoot) × (after reopened : StateManager MemoryStore) × (manager_commit toy_hash
        memory_store carol_manager
      ≡ some (ok r, after))
    × (manager_new toy_hash memory_store after.store ≡ some (ok reopened))
    × IsState toy_hash reopened.state
    × (persisted reopened.state ≡ persisted after.state)
    × ((state_get toy_hash carol reopened.state).0 ≡ (state_get toy_hash carol after.state).0)
manager_new-manager_commit_example =
    manager_new-manager_commit toy_hash length-toy_hash memory_store carol_manager carol
      with_carol-IsState saves_all
