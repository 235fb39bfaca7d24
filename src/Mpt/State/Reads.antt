-- ===== src/Mpt/State/Reads.antt =====
-- What a read answers after a write of one key.
use cfx_minimal_execution.Common.{
  ℕ, ◌≡◌, refl, ap, ◌∙◌, Option, none, some, List, ok, err, Option-cases, inl, inr,
}
use cfx_minimal_execution.Common.ByteMap.{get}
use cfx_minimal_execution.Mpt.Types.{H256, MptResult}
use cfx_minimal_execution.Mpt.KeyCodec.Canonical.{
  StorageKeyWithSpace, DeltaMptKeyPadding, to_key_bytes,
}
use cfx_minimal_execution.Mpt.KeyCodec.Delta.{to_delta_mpt_key_bytes}
use cfx_minimal_execution.Mpt.KeyCodec.Delta.Cache.{IsFaithful, to_delta_mpt_key_bytes-cache}
use cfx_minimal_execution.Mpt.Trie.{visible_value}
use cfx_minimal_execution.Mpt.Incremental.{Entries}
use cfx_minimal_execution.Mpt.Snapshot.{SnapshotTrie, snapshot_get_owned}
use cfx_minimal_execution.Mpt.State.Defs.{
  State, delta_key_of, intermediate_key_of, get_snapshot, get_intermediate, get_delta, state_get,
}

-- The layers of a state.
pub record Layers : Type 0 where
  pub snapshot : SnapshotTrie
  pub intermediate : Entries
  pub delta : Entries
  pub intermediate_padding : DeltaMptKeyPadding
  pub delta_padding : DeltaMptKeyPadding

abbrev pub layers : State → Layers
layers s = record {
  snapshot = s.snapshot;
  intermediate = s.intermediate;
  delta = s.delta;
  intermediate_padding = s.intermediate_padding;
  delta_padding = s.delta_padding;
}

module _ (keccak : List ℕ → H256) where
  -- The key under a padding, with no cache.
  abbrev pub raw_of : StorageKeyWithSpace → DeltaMptKeyPadding → MptResult (List ℕ)
  raw_of k padding = (to_delta_mpt_key_bytes keccak k padding none).0

  -- What a read should answer: the value of the first layer that has the key.
  unfoldable pub look_up_snapshot : MptResult (List ℕ) → SnapshotTrie → MptResult (Option (List ℕ))
  look_up_snapshot (err e) snapshot = err e
  look_up_snapshot (ok canonical) snapshot = ok (snapshot_get_owned snapshot canonical)

  unfoldable pub look_up_intermediate :
      StorageKeyWithSpace
      → MptResult (List ℕ)
      → Entries
      → SnapshotTrie
      → MptResult (Option (List ℕ))
  unfolding look_up_snapshot
  look_up_intermediate k (err e) intermediate snapshot = err e
  look_up_intermediate k (ok raw) intermediate snapshot = elim (get raw intermediate) [
    | some v ↦ ok (visible_value v)
    | none ↦ look_up_snapshot (to_key_bytes k) snapshot
  ]

  unfoldable pub look_up_delta :
      StorageKeyWithSpace → MptResult (List ℕ) → Layers → MptResult (Option (List ℕ))
  unfolding look_up_intermediate
  look_up_delta k (err e) l = err e
  look_up_delta k (ok raw) l = elim (get raw l.delta) [
    | some v ↦ ok (visible_value v)
    | none ↦ look_up_intermediate k (raw_of k l.intermediate_padding) l.intermediate l.snapshot
  ]

  unfoldable pub look_up : StorageKeyWithSpace → Layers → MptResult (Option (List ℕ))
  unfolding look_up_delta
  look_up k l = look_up_delta k (raw_of k l.delta_padding) l

  -- Both key caches are right.
  pub record HasFaithfulCaches (s : State) : Type 0 where
    pub delta_cache : IsFaithful keccak s.delta_account_cache
    pub intermediate_cache : IsFaithful keccak s.intermediate_account_cache

  -- A step that answers `r` and changes nothing but the caches.
  pub record Reads {ℓ} {A : Type ℓ} (r : A) (s : State) (answer : A × State) : Type ℓ where
    pub same : answer.0 ≡ r
    pub kept : layers answer.1 ≡ layers s
    pub trie_kept : answer.1.delta_inc ≡ s.delta_inc
    pub faithful : HasFaithfulCaches answer.1

  pub delta_key_of-Reads :
      (k : StorageKeyWithSpace) (s : State)
      → HasFaithfulCaches s
      → Reads (raw_of k s.delta_padding) s (delta_key_of keccak k s)
  unfolding delta_key_of
  delta_key_of-Reads k s h =
      let t =
        to_delta_mpt_key_bytes-cache keccak k s.delta_padding s.delta_account_cache h.delta_cache in
      rw t.kept (record {
        same = t.same;
        kept = refl;
        trie_kept = refl;
        faithful = record { delta_cache = t.faithful; intermediate_cache = h.intermediate_cache };
      })

  intermediate_key_of-Reads :
      (k : StorageKeyWithSpace) (s : State)
      → HasFaithfulCaches s
      → Reads (raw_of k s.intermediate_padding) s (intermediate_key_of keccak k s)
  unfolding intermediate_key_of
  intermediate_key_of-Reads k s h =
      let t =
        to_delta_mpt_key_bytes-cache keccak k s.intermediate_padding s.intermediate_account_cache
          h.intermediate_cache in
      rw t.kept (record {
        same = t.same;
        kept = refl;
        trie_kept = refl;
        faithful = record { delta_cache = h.delta_cache; intermediate_cache = t.faithful };
      })

  get_snapshot-Reads :
      (k : StorageKeyWithSpace) (s s' : State)
      → layers s' ≡ layers s
      → s'.delta_inc ≡ s.delta_inc
      → HasFaithfulCaches s'
      → (r : MptResult (List ℕ))
      → Reads (look_up_snapshot r s.snapshot) s (get_snapshot keccak r s')
  unfolding get_snapshot look_up_snapshot
  get_snapshot-Reads k s s' e i h (err x) = record {
    same = refl;
    kept = e;
    trie_kept = i;
    faithful = h;
  }
  get_snapshot-Reads k s s' e i h (ok canonical) = record {
    same = ap (λ l. ok (snapshot_get_owned l.snapshot canonical)) e;
    kept = e;
    trie_kept = i;
    faithful = h;
  }

  get_intermediate-Reads :
      (k : StorageKeyWithSpace) (s s' : State)
      → layers s' ≡ layers s
      → s'.delta_inc ≡ s.delta_inc
      → HasFaithfulCaches s'
      → (r : MptResult (List ℕ))
      → Reads
          (look_up_intermediate k r s.intermediate s.snapshot)
          s
          (get_intermediate keccak k (r, s'))
  unfolding get_intermediate look_up_intermediate
  get_intermediate-Reads k s s' e i h (err x) = record {
    same = refl;
    kept = e;
    trie_kept = i;
    faithful = h;
  }
  get_intermediate-Reads k s s' e i h (ok raw) =
      let same : get raw s'.intermediate ≡ get raw s.intermediate =
        ap (λ l. get raw l.intermediate) e in
      rw (same, get_intermediate)
        (elim (Option-cases (get raw s.intermediate)) [
          | inl miss ↦
              rw (miss, look_up_intermediate) (get_snapshot-Reads k s s' e i h (to_key_bytes k))
          | inr (v, hit) ↦
              rw (hit, look_up_intermediate)
                (record { same = refl; kept = e; trie_kept = i; faithful = h })
        ])

  get_delta-Reads :
      (k : StorageKeyWithSpace) (s s' : State)
      → layers s' ≡ layers s
      → s'.delta_inc ≡ s.delta_inc
      → HasFaithfulCaches s'
      → (r : MptResult (List ℕ))
      → Reads (look_up_delta k r (layers s)) s (get_delta keccak k (r, s'))
  unfolding get_delta look_up_delta
  get_delta-Reads k s s' e i h (err x) = record {
    same = refl;
    kept = e;
    trie_kept = i;
    faithful = h;
  }
  get_delta-Reads k s s' e i h (ok raw) =
      let same : get raw s'.delta ≡ get raw s.delta = ap (λ l. get raw l.delta) e in
      rw (same, get_delta)
        (elim (Option-cases (get raw s.delta)) [
          | inl miss ↦
              let t = intermediate_key_of-Reads k s' h in
              let named : raw_of k s'.intermediate_padding ≡ raw_of k s.intermediate_padding =
                ap (λ l. raw_of k l.intermediate_padding) e in
              rw (miss, look_up_delta, ← named, ← t.same)
                (get_intermediate-Reads k s (intermediate_key_of keccak k s').1 (t.kept ∙ e)
                  (t.trie_kept ∙ i) t.faithful (intermediate_key_of keccak k s').0)
          | inr (v, hit) ↦
              rw (hit, look_up_delta)
                (record { same = refl; kept = e; trie_kept = i; faithful = h })
        ])

  -- With faithful key caches, `get` answers the value of the first of the layers delta,
  -- intermediate and snapshot that has the key, or the error of the first key that cannot be
  -- built; a tombstone hides the layers below. The layers and the delta trie stay as they are, and
  -- the key caches stay faithful.
  pub state_get-look_up :
      (k : StorageKeyWithSpace) (s : State)
      → HasFaithfulCaches s
      → Reads (look_up k (layers s)) s (state_get keccak k s)
  unfolding state_get look_up
  state_get-look_up k s h =
      let t = delta_key_of-Reads k s h in
      rw (← t.same) (
        get_delta-Reads k s (delta_key_of keccak k s).1 t.kept t.trie_kept t.faithful
          (delta_key_of keccak k s).0)
