-- ===== src/Mpt/State/Tests.antt =====
-- Runs of the state's operations on small concrete states.
use cfx_minimal_execution.Common.{
  ℕ, zero, suc, ◌<◌, ◌≡◌, ◌≢◌, refl, ap, arith, some, [], ◌∷◌, replicate, ok,
}
use cfx_minimal_execution.Common.Bytes.{IsBytes}
use cfx_minimal_execution.Mpt.Types.{native, ethereum, CommitRoot}
use cfx_minimal_execution.Mpt.KeyCodec.Canonical.{
  StorageKeyWithSpace, account, storage, address_prefix, to_key_bytes, starts_with,
}
use cfx_minimal_execution.Mpt.KeyCodec.Delta.{to_delta_mpt_key_bytes, from_delta_mpt_key}
use cfx_minimal_execution.Common.ByteMap.{insert, lex_ltb, get, range}
use cfx_minimal_execution.Mpt.Incremental.{block}
use cfx_minimal_execution.Mpt.Snapshot.{snapshot_scan_prefix}
use cfx_minimal_execution.Mpt.Trie.{visible_value}
use cfx_minimal_execution.Mpt.State.Prefix.{get_all_by_prefix, delete_all_by_prefix}
use cfx_minimal_execution.Mpt.State.Prefix.Agreement.{delete_all_by_prefix-get_all_by_prefix}
use cfx_minimal_execution.Mpt.ToyHash.{toy_hash, length-toy_hash, toy_hash-IsBytes}
use cfx_minimal_execution.Mpt.State.Defs.{State, with_snapshot_epoch_count, state_get, state_set}
use cfx_minimal_execution.Mpt.State.Commit.{commit, canonical_of}
use cfx_minimal_execution.Mpt.State.Reads.{layers, look_up, state_get-look_up}
use cfx_minimal_execution.Mpt.State.Writes.{state_get-state_set, state_get-state_set_other}
use cfx_minimal_execution.Mpt.State.Rotation.{IsState, commit-IsState, state_get-commit, root_of}
use cfx_minimal_execution.Mpt.State.Invariant.{with_snapshot_epoch_count-IsState, state_set-IsState}
use cfx_minimal_execution.Mpt.Stateless.{trie_root, root_for_entries}
use cfx_minimal_execution.Mpt.State.Reads.{Reads}

abbrev alice : StorageKeyWithSpace
alice = record { key = account (replicate 20 1); space = native }

abbrev bob : StorageKeyWithSpace
bob = record { key = storage (replicate 20 2) (7 ∷ 8 ∷ []); space = ethereum }

abbrev start : State
start = with_snapshot_epoch_count toy_hash 1

abbrev written : State
written = (state_set toy_hash alice (9 ∷ []) start).1

some-IsBytes : (n b : ℕ) → b < 256 → IsBytes (replicate n b)
some-IsBytes zero b h = tt
some-IsBytes (suc n) b h = (h, some-IsBytes n b h)

start-IsState_example : IsState toy_hash (with_snapshot_epoch_count toy_hash 1)
start-IsState_example = with_snapshot_epoch_count-IsState toy_hash 1

-- Nothing uses a witness, so the states below have their own fact.
start_good : IsState toy_hash start
start_good = with_snapshot_epoch_count-IsState toy_hash 1

written_good : IsState toy_hash written
written_good =
    state_set-IsState toy_hash length-toy_hash toy_hash-IsBytes alice (9 ∷ []) start refl refl
      (some-IsBytes 20 1 (omega arith)) start_good

state_set-IsState_example : IsState toy_hash (state_set toy_hash bob (5 ∷ []) written).1
state_set-IsState_example =
    state_set-IsState toy_hash length-toy_hash toy_hash-IsBytes bob (5 ∷ []) written refl
      (refl, λ e. cc) (some-IsBytes 20 2 (omega arith), (omega arith, (omega arith, tt)))
      written_good

state_get-look_up_example :
    Reads toy_hash
      (look_up toy_hash alice (layers written))
      written
      (state_get toy_hash alice written)
state_get-look_up_example = state_get-look_up toy_hash alice written written_good.caches

state_get-state_set_example :
    ((state_set toy_hash bob (5 ∷ []) written).0 ≡ ok tt)
    × ((state_get toy_hash bob (state_set toy_hash bob (5 ∷ []) written).1).0 ≡ ok (some (5 ∷ [])))
state_get-state_set_example =
    state_get-state_set toy_hash length-toy_hash bob (5 ∷ []) written refl written_good.caches

bob_is_another : bob ≢ alice
bob_is_another e = let keys : bob.key ≡ alice.key = ap (λ k. k.key) e in cc

state_get-state_set_other_example :
    (state_get toy_hash alice (state_set toy_hash bob [] written).1).0
    ≡ (state_get toy_hash alice written).0
state_get-state_set_other_example =
    state_get-state_set_other toy_hash length-toy_hash bob alice [] written refl refl bob_is_another
      written_good.caches

commit-IsState_example :
    (r : CommitRoot) × (s' : State) × (commit toy_hash written ≡ some (ok r, s'))
    × (r ≡ root_of toy_hash length-toy_hash r.delta_root written)
    × (trie_root toy_hash written.delta ≡ some r.delta_root)
    × (trie_root toy_hash written.intermediate ≡ some r.intermediate_delta_root)
    × (root_for_entries toy_hash written.snapshot.entries ≡ some r.snapshot_root)
    × IsState toy_hash s'
commit-IsState_example = commit-IsState toy_hash length-toy_hash written written_good

state_get-commit_example :
    (r : CommitRoot) × (s' : State) × (commit toy_hash written ≡ some (ok r, s'))
    × ((state_get toy_hash alice s').0 ≡ (state_get toy_hash alice written).0)
state_get-commit_example =
    state_get-commit toy_hash length-toy_hash alice written refl refl written_good

abbrev ones : StorageKeyWithSpace
ones = record { key = address_prefix (1 ∷ []); space = native }

abbrev deleted_state : State
deleted_state = (delete_all_by_prefix toy_hash ones written).1

ones_deleted :
    delete_all_by_prefix toy_hash ones written
    ≡ (ok (some ((replicate 20 1, 9 ∷ []) ∷ [])), deleted_state)
unfolding delete_all_by_prefix to_key_bytes to_delta_mpt_key_bytes state_set insert
    with_snapshot_epoch_count lex_ltb get toy_hash starts_with canonical_of from_delta_mpt_key
    snapshot_scan_prefix block range visible_value
ones_deleted = refl

delete_all_by_prefix-get_all_by_prefix_example :
    (get_all_by_prefix toy_hash ones written ≡ ok (some ((replicate 20 1, 9 ∷ []) ∷ [])))
    × (deleted_state.intermediate ≡ written.intermediate)
    × (deleted_state.snapshot ≡ written.snapshot)
delete_all_by_prefix-get_all_by_prefix_example =
    delete_all_by_prefix-get_all_by_prefix toy_hash ones written deleted_state
      (some ((replicate 20 1, 9 ∷ []) ∷ [])) written_good ones_deleted
