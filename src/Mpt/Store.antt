-- ===== src/Mpt/Store.antt =====
-- crates/minimal-mpt/src/store.rs: the persisted form of a state, and the stores that keep it.
-- (`FileStore` is file I/O around bincode.)
use cfx_minimal_execution.Common.{ℕ, ◌≡◌, sym, ap, Option, none, some, List, [], ok}
use cfx_minimal_execution.Common.ByteMap.{ByteMap}
use cfx_minimal_execution.Mpt.Types.{H256, CommitRoot, MptResult}
use cfx_minimal_execution.Mpt.KeyCodec.Delta.{genesis}
use cfx_minimal_execution.Mpt.Trie.{MptValue, value, tombstone}
use cfx_minimal_execution.Mpt.State.Defs.{default_snapshot_epoch_count}

pub data MptValueDisk : Type 0 where
  value_disk : List ℕ → MptValueDisk
  tombstone_disk : MptValueDisk

-- `MptValueDisk::from`.
unfoldable pub to_disk : MptValue → MptValueDisk
to_disk (value v) = value_disk v
to_disk tombstone = tombstone_disk

-- `MptValue::from`.
unfoldable pub from_disk : MptValueDisk → MptValue
from_disk (value_disk v) = value v
from_disk tombstone_disk = tombstone

pub record PersistedState : Type 0 where
  pub snapshot : ByteMap (List ℕ)
  pub intermediate : ByteMap MptValueDisk
  pub delta : ByteMap MptValueDisk
  pub intermediate_mpt_key_padding : List ℕ
  pub delta_mpt_key_padding : List ℕ
  pub height : ℕ
  pub snapshot_epoch_count : ℕ
  pub last_root : Option CommitRoot

-- `PersistedState::default()`.
unfoldable pub default_persisted : (List ℕ → H256) → PersistedState
default_persisted keccak = record {
  snapshot = [];
  intermediate = [];
  delta = [];
  intermediate_mpt_key_padding = genesis keccak;
  delta_mpt_key_padding = genesis keccak;
  height = 0;
  snapshot_epoch_count = default_snapshot_epoch_count;
  last_root = none;
}

-- The trait `StateStore` on stores of a type, with what its name promises: a state that was saved
-- without an error is the latest one.
pub record StateStore (S : Type 0) : Type 0 where
  pub load_latest : S → MptResult (Option PersistedState)
  pub save_latest : PersistedState → S → MptResult (Unit {0}) × S
  pub load_latest-save_latest :
      (p : PersistedState) (s s' : S) → save_latest p s ≡ (ok tt, s') → load_latest s' ≡ ok (some p)

pub record MemoryStore : Type 0 where
  pub state : Option PersistedState

-- `MemoryStore::new()`.
abbrev pub empty_store : MemoryStore
empty_store = record { state = none }

unfoldable pub memory_load_latest : MemoryStore → MptResult (Option PersistedState)
memory_load_latest s = ok s.state

unfoldable pub memory_save_latest :
    PersistedState → MemoryStore → MptResult (Unit {0}) × MemoryStore
memory_save_latest p s = (ok tt, record s { state = some p })

pub memory_saved :
    (p : PersistedState) (s s' : MemoryStore)
    → memory_save_latest p s ≡ (ok tt, s')
    → memory_load_latest s' ≡ ok (some p)
unfolding memory_save_latest memory_load_latest
memory_saved p s s' e =
    let same : record s { state = some p } ≡ s' = ap (λ r. r.1) e in
    ap memory_load_latest (sym same)

-- `MemoryStore` keeps the promise of the trait.
unfoldable pub memory_store : StateStore MemoryStore
memory_store = record {
  load_latest = memory_load_latest;
  save_latest = memory_save_latest;
  load_latest-save_latest = memory_saved;
}
