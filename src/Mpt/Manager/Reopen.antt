-- ===== src/Mpt/Manager/Reopen.antt =====
-- A manager that is opened on the store of another after its commit goes on from the same state.
use cfx_minimal_execution.Common.{ℕ, ◌≡◌, refl, some, List, length, ok}
use cfx_minimal_execution.Mpt.Types.{H256, CommitRoot}
use cfx_minimal_execution.Mpt.KeyCodec.Canonical.{StorageKeyWithSpace}
use cfx_minimal_execution.Mpt.State.Defs.{state_get}
use cfx_minimal_execution.Mpt.State.Rotation.{IsState, commit-IsState}
use cfx_minimal_execution.Mpt.Store.{PersistedState, StateStore}
use cfx_minimal_execution.Mpt.Manager.{
  persisted, StateManager, manager_new, manager_from, manager_commit, save_committed, saved_root,
}
use cfx_minimal_execution.Mpt.Manager.Restore.{from_persisted-persisted}

module _ (keccak : List ℕ → H256) (hash_length : (m : List ℕ) → length (keccak m) ≡ 32) {S : Type 0}
    (ops : StateStore S) where
  -- With 32-byte hashes, a manager whose state keeps the invariant, and a store that saves without
  -- errors: `commit` of the manager succeeds, and a manager that is opened on the store afterwards
  -- has a state that keeps the invariant, has the persisted form of the committed state, and
  -- answers `get` of every key as the committed state does.
  pub manager_new-manager_commit :
      (manager : StateManager S) (k : StorageKeyWithSpace)
      → IsState keccak manager.state
      → ((p : PersistedState) (s : S) → (s' : S) × (ops.save_latest p s ≡ (ok tt, s')))
      → (r : CommitRoot) × (after reopened : StateManager S) × (manager_commit keccak ops manager
          ≡ some (ok r, after))
        × (manager_new keccak ops after.store ≡ some (ok reopened))
        × IsState keccak reopened.state
        × (persisted reopened.state ≡ persisted after.state)
        × ((state_get keccak k reopened.state).0 ≡ (state_get keccak k after.state).0)
  unfolding manager_commit save_committed saved_root manager_new manager_from
  manager_new-manager_commit manager k inv saves =
      let (r, s, e, roots, delta, intermediate, snapshot, good) =
        commit-IsState keccak hash_length manager.state inv in
      let (store, es) = saves (persisted s) manager.store in
      let (s', ep, good', same, reads) = from_persisted-persisted keccak s k good in
      let loaded = ops.load_latest-save_latest (persisted s) manager.store store es in
      (
        r,
        record { state = s; store = store },
        record { state = s'; store = store },
        rw (e, es) refl,
        rw (loaded, ep) refl,
        good',
        same,
        reads,
      )
