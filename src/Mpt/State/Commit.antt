-- ===== src/Mpt/State/Commit.antt =====
-- crates/minimal-mpt/src/state/mod.rs, `commit`, and state/rotation.rs. `none` is the panic of a
-- root walk that finds no entry below a node. The height is a u64 that wraps around, as no build
-- profile of the workspace turns the overflow checks of a release build on.
use cfx_minimal_execution.Common.{
  ℕ, suc, ◌%◌, ◌^◌, ◌==◌, ltb, Bool, not, ◌&&◌, Option, none, some, List, [], ◌∷◌, if◌then◌else◌,
  Result, ok, err,
}
use cfx_minimal_execution.Common
use cfx_minimal_execution.Common.Partial.{◌>>=◌}
use cfx_minimal_execution.Mpt.Types.{H256, CommitRoot, commit_root, MptResult}
use cfx_minimal_execution.Mpt.KeyCodec.Canonical.{to_key_bytes}
use cfx_minimal_execution.Mpt.KeyCodec.Delta.{from_roots, empty_cache, from_delta_mpt_key}
use cfx_minimal_execution.Mpt.Trie.{MptValue}
use cfx_minimal_execution.Mpt.Incremental.{Entries, clear, skip_singleton, root, root_with_policy}
use cfx_minimal_execution.Mpt.Snapshot.{apply_updates}
use cfx_minimal_execution.Mpt.State.Defs.{State}

-- The canonical bytes of a delta key.
unfoldable pub canonical_of : List ℕ → MptResult (List ℕ)
canonical_of raw_key = Common.◌>>=◌ (from_delta_mpt_key raw_key) to_key_bytes

unfoldable pub snapshot_updates : Entries → MptResult (List (List ℕ × MptValue))
unfolding canonical_of
snapshot_updates [] = ok []
snapshot_updates ((raw_key, v) ∷ m) =
    Common.◌>>=◌ (canonical_of raw_key)
      (λ canonical. Common.◌>>=◌ (snapshot_updates m) (λ rest. ok ((canonical, v) ∷ rest)))

unfoldable pub is_boundary : State → Bool
is_boundary s = not (s.height == 0) && s.height % s.snapshot_epoch_count == 0

module _ (keccak : List ℕ → H256) where
  -- The layers shift down by one.
  unfoldable pub rotate : H256 → H256 → State → State
  unfolding clear from_roots empty_cache
  rotate delta_root snapshot_root s = record s {
    intermediate = s.delta;
    delta = [];
    delta_inc = clear s.delta_inc;
    snapshot_root = snapshot_root;
    intermediate_root = delta_root;
    intermediate_padding = s.delta_padding;
    delta_padding = from_roots keccak snapshot_root delta_root;
    intermediate_account_cache = s.delta_account_cache;
    delta_account_cache = empty_cache keccak;
  }

  -- The snapshot absorbs the intermediate layer, then the layers shift.
  unfoldable pub merge : H256 → List (List ℕ × MptValue) → State → Option State
  unfolding apply_updates rotate
  merge delta_root updates s = do
    (snapshot_root, snapshot') ←
        root_with_policy keccak skip_singleton (apply_updates s.snapshot updates)
    some (rotate delta_root snapshot_root (record s { snapshot = snapshot' }))

  -- A key that cannot be read back leaves the intermediate layer empty: it has been taken.
  unfoldable pub advance_after_commit : H256 → State → Option (MptResult (Unit {0}) × State)
  unfolding is_boundary snapshot_updates merge
  advance_after_commit delta_root s =
      if not (is_boundary s) then some (ok tt, s) else elim (snapshot_updates s.intermediate) [
        | err e ↦ some (err e, record s { intermediate = [] })
        | ok updates ↦ (do s' ← merge delta_root updates s; some (ok tt, s'))
      ]

  -- The state in which `commit` turns to the boundary.
  unfoldable pub committed : H256 → State → State
  unfolding commit_root
  committed delta_root s = record s {
    last_root =
        some (commit_root keccak s.snapshot_root s.intermediate_root delta_root s.delta_padding);
    height = suc s.height % 2 ^ 64;
  }

  -- `root`, behind the `?` on `advance_after_commit`.
  unfoldable pub answer_root :
      CommitRoot → MptResult (Unit {0}) × State → MptResult CommitRoot × State
  answer_root r (ok _, s) = (ok r, s)
  answer_root r (err e, s) = (err e, s)

  -- `commit` behind the root of the delta layer.
  unfoldable pub commit_with : H256 → State → Option (MptResult CommitRoot × State)
  unfolding commit_root committed advance_after_commit answer_root
  commit_with delta_root s = do
    advanced ← advance_after_commit delta_root (committed delta_root s)
    some (
        answer_root
          (commit_root keccak s.snapshot_root s.intermediate_root delta_root s.delta_padding)
          advanced)

  unfoldable pub commit : State → Option (MptResult CommitRoot × State)
  unfolding commit_with
  commit s = do
    (delta_root, delta_inc') ← root keccak s.delta_inc
    commit_with delta_root (record s { delta_inc = delta_inc' })
