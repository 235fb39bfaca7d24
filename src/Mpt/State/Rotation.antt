-- ===== src/Mpt/State/Rotation.antt =====
-- `commit`: it succeeds, keeps the invariant of the state, and changes no read, on a period
-- boundary and between two.
use cfx_minimal_execution.Common.{
  ℕ, ◌<◌, All, subst, ◌≡◌, refl, sym, ap, ◌∙◌, some, List, length, ok, inl, inr, Bool-cases,
  Option-cases,
}
use cfx_minimal_execution.Common.ByteMap.{get}
use cfx_minimal_execution.Mpt.Types.{H256, CommitRoot, commit_root}
use cfx_minimal_execution.Mpt.KeyCodec.Canonical.{StorageKeyWithSpace, to_key_bytes}
use cfx_minimal_execution.Mpt.KeyCodec.Canonical.RoundTrip.{IsCanonical}
use cfx_minimal_execution.Mpt.KeyCodec.Delta.Cache.{empty_cache-IsFaithful}
use cfx_minimal_execution.Mpt.KeyCodec.Delta.RoundTrip.{IsDeltaKey}
use cfx_minimal_execution.Mpt.Incremental.{snapshot_get, full, skip_singleton, root, clear}
use cfx_minimal_execution.Mpt.Incremental.Root.{IsTrie, clear-IsTrie, root_eq_cold, root_value}
use cfx_minimal_execution.Mpt.Stateless.{nibble_keys, trie_root, root_for_entries}
use cfx_minimal_execution.Mpt.Stateless.NibbleKeys.{trie_root-eq-root_for_entries}
use cfx_minimal_execution.Mpt.Snapshot.ByteEntries.{IsByteEntry, IsSnapshot}
use cfx_minimal_execution.Mpt.Snapshot.{SnapshotTrie, apply_updates, snapshot_get_owned}
use cfx_minimal_execution.Mpt.State.Defs.{State, state_get}
use cfx_minimal_execution.Mpt.State.Commit.{
  is_boundary, rotate, merge, advance_after_commit, committed, answer_root, commit_with, commit,
}
use cfx_minimal_execution.Mpt.State.Reads.{
  Layers, layers, raw_of, look_up, look_up_delta, look_up_intermediate, look_up_snapshot,
  HasFaithfulCaches, state_get-look_up,
}
use cfx_minimal_execution.Mpt.State.Writes.{delta_key_ok}
use cfx_minimal_execution.Mpt.State.Merge.{over, IsKeyed, to_key_bytes_ok, Absorbs, absorbs}

module _ (keccak : List ℕ → H256) where
  -- The invariant of the state: faithful caches, sound tries, and two layers of readable keys.
  pub record IsState (s : State) : Type 0 where
    pub caches : HasFaithfulCaches keccak s
    pub delta_trie : IsTrie keccak s.delta_inc
    pub snapshot_trie : IsSnapshot keccak s.snapshot
    pub delta_keyed : IsKeyed keccak s.delta_padding s.delta
    pub intermediate_keyed : IsKeyed keccak s.intermediate_padding s.intermediate
    pub period : 0 < s.snapshot_epoch_count
    pub synced : nibble_keys s.delta ≡ s.delta_inc.entries
    pub intermediate_rooted : trie_root keccak s.intermediate ≡ some s.intermediate_root
    pub snapshot_rooted : root_for_entries keccak s.snapshot.entries ≡ some s.snapshot_root

  look_up_by_layers :
      (k : StorageKeyWithSpace) (raw low c : List ℕ) (l : Layers)
      → raw_of keccak k l.delta_padding ≡ ok raw
      → raw_of keccak k l.intermediate_padding ≡ ok low
      → to_key_bytes k ≡ ok c
      → look_up keccak k l
        ≡ ok (over (get raw l.delta) (over (get low l.intermediate) (snapshot_get l.snapshot c)))
  unfolding look_up look_up_delta look_up_intermediate look_up_snapshot over snapshot_get_owned
  look_up_by_layers k raw low c l e e' ec =
      rw (e, look_up_delta)
        (elim (Option-cases (get raw l.delta)) [
          | inr (v, hit) ↦ rw (hit, look_up_delta) refl
          | inl miss ↦
              rw (miss, look_up_delta, e', look_up_intermediate)
                (elim (Option-cases (get low l.intermediate)) [
                  | inr (v, hit) ↦ rw (hit, look_up_intermediate) refl
                  | inl gone ↦ rw (gone, look_up_intermediate, ec, look_up_snapshot) refl
                ])
        ])

  -- A step that keeps the invariant and every read.
  record Keeps (s s' : State) : Type 0 where
    good : IsState s'
    reads :
        (k : StorageKeyWithSpace)
        → IsDeltaKey k
        → IsCanonical k
        → look_up keccak k (layers s') ≡ look_up keccak k (layers s)

  module _ (hash_length : (m : List ℕ) → length (keccak m) ≡ 32) where
    rotate-Keeps :
        (delta_root h : H256) (updates : List _) (s : State) (t : SnapshotTrie)
        → IsState s
        → Absorbs keccak hash_length s.intermediate_padding s.intermediate updates
        → t.entries ≡ (apply_updates s.snapshot updates).entries
        → IsSnapshot keccak t
        → trie_root keccak s.delta ≡ some delta_root
        → root_for_entries keccak t.entries ≡ some h
        → Keeps s (rotate keccak delta_root h (record s { snapshot = t }))
    unfolding rotate over get
    rotate-Keeps delta_root h updates s t inv ab same good er eh = record {
      good = record {
        caches = record {
          delta_cache = empty_cache-IsFaithful keccak;
          intermediate_cache = inv.caches.delta_cache;
        };
        delta_trie = clear-IsTrie keccak s.delta_inc;
        snapshot_trie = good;
        delta_keyed = unfold IsKeyed in tt;
        intermediate_keyed = inv.delta_keyed;
        period = inv.period;
        synced = unfold clear nibble_keys in refl;
        intermediate_rooted = er;
        snapshot_rooted = eh;
      };
      reads = λ k hd hc.
          let s' = rotate keccak delta_root h (record s { snapshot = t }) in
          let (new, en) = delta_key_ok keccak hash_length k s'.delta_padding hd in
          let (raw, e) = delta_key_ok keccak hash_length k s.delta_padding hd in
          let (low, el) = delta_key_ok keccak hash_length k s.intermediate_padding hd in
          let (c, ec) = to_key_bytes_ok keccak k hc in
          let moved : snapshot_get t c ≡ snapshot_get (apply_updates s.snapshot updates) c =
            unfold snapshot_get in rw same refl in
          let merged = moved ∙ ab.read s.snapshot k low c hd hc el ec in
          look_up_by_layers k new raw c (layers s') en e ec
          ∙ ap (λ b. ok (over (get raw s.delta) b)) merged
          ∙ sym (look_up_by_layers k raw low c (layers s) e el ec);
    }

    advance-Keeps :
        (delta_root : H256) (s : State)
        → IsState s
        → trie_root keccak s.delta ≡ some delta_root
        → (s' : State) × (advance_after_commit keccak delta_root s ≡ some (ok tt, s')) × Keeps s s'
    unfolding advance_after_commit merge
    advance-Keeps delta_root s inv ed = elim (Bool-cases (is_boundary s)) [
      | inl turn ↦
          let (updates, eu, ab) =
            absorbs keccak hash_length s.intermediate_padding s.intermediate
              inv.intermediate_keyed in
          let sound = ab.trie s.snapshot inv.snapshot_trie in
          let (h, t, u, er, ec, same, good) =
            root_eq_cold keccak skip_singleton full (apply_updates s.snapshot updates) sound.trie in
          (
            rotate keccak delta_root h (record s { snapshot = t }),
            rw (turn, eu, er) refl,
            rotate-Keeps delta_root h updates s t inv ab same
                (record {
                  trie = good;
                  byte_entries = subst (All IsByteEntry) (sym same) sound.byte_entries;
                })
                ed
                (ap (root_for_entries keccak) same
                  ∙ root_value keccak skip_singleton (apply_updates s.snapshot updates) sound.trie h
                      t er),
          )
      | inr quiet ↦ (s, rw quiet refl, record { good = inv; reads = λ k hd hc. refl })
    ]

    -- What `commit` answers: the root of the layers as they stood.
    abbrev pub root_of : H256 → State → CommitRoot
    root_of delta_root s =
        commit_root keccak s.snapshot_root s.intermediate_root delta_root s.delta_padding

    commit_lem :
        (s : State)
        → IsState s
        → (delta_root : H256) × (s' : State) × (commit keccak s
            ≡ some (ok (root_of delta_root s), s'))
          × (trie_root keccak s.delta ≡ some delta_root)
          × Keeps s s'
    unfolding commit commit_with committed answer_root root
    commit_lem s inv =
        let (h, t, u, er, ec, same, good) =
          root_eq_cold keccak full full s.delta_inc inv.delta_trie in
        let stateless : trie_root keccak s.delta ≡ some h =
          trie_root-eq-root_for_entries keccak s.delta
          ∙ ap (root_for_entries keccak) inv.synced
          ∙ root_value keccak full s.delta_inc inv.delta_trie h t er in
        let next = committed keccak h (record s { delta_inc = t }) in
        let ready : IsState next = record {
          caches = record {
            delta_cache = inv.caches.delta_cache;
            intermediate_cache = inv.caches.intermediate_cache;
          };
          delta_trie = good;
          snapshot_trie = inv.snapshot_trie;
          delta_keyed = inv.delta_keyed;
          intermediate_keyed = inv.intermediate_keyed;
          period = inv.period;
          synced = inv.synced ∙ sym same;
          intermediate_rooted = inv.intermediate_rooted;
          snapshot_rooted = inv.snapshot_rooted;
        } in
        let (s', ea, kept) = advance-Keeps h next ready stateless in
        (h, s', rw (er, ea) refl, stateless, record { good = kept.good; reads = kept.reads })

    -- With 32-byte hashes and a state that keeps the invariant, `commit` succeeds, on a period
    -- boundary and between two. It answers the padding and the three roots of the layers as they
    -- stood: the `trie_root` of the delta map, which the incremental trie has computed, as the
    -- source asserts under `verify-incremental`, the `trie_root` of the intermediate map, and the
    -- root of the snapshot's entries. The new state keeps the invariant.
    pub commit-IsState :
        (s : State)
        → IsState s
        → (r : CommitRoot) × (s' : State) × (commit keccak s ≡ some (ok r, s'))
          × (r ≡ root_of r.delta_root s)
          × (trie_root keccak s.delta ≡ some r.delta_root)
          × (trie_root keccak s.intermediate ≡ some r.intermediate_delta_root)
          × (root_for_entries keccak s.snapshot.entries ≡ some r.snapshot_root)
          × IsState s'
    unfolding commit_root
    commit-IsState s inv =
        let (h, s', e, ec, kept) = commit_lem s inv in
        (root_of h s, s', e, refl, ec, inv.intermediate_rooted, inv.snapshot_rooted, kept.good)

    -- With 32-byte hashes and a state that keeps the invariant, `get` of a key that both codecs
    -- can read back answers the same before and after a `commit`, which succeeds: when the
    -- intermediate layer is merged into the snapshot and the delta layer takes its place, no
    -- value and no deletion is lost, and none comes back.
    pub state_get-commit :
        (k : StorageKeyWithSpace) (s : State)
        → IsDeltaKey k
        → IsCanonical k
        → IsState s
        → (r : CommitRoot) × (s' : State) × (commit keccak s ≡ some (ok r, s'))
          × ((state_get keccak k s').0 ≡ (state_get keccak k s).0)
    state_get-commit k s hd hc inv =
        let (h, s', e, ec, kept) = commit_lem s inv in
        (
          root_of h s,
          s',
          e,
          (state_get-look_up keccak k s' kept.good.caches).same
              ∙ kept.reads k hd hc
              ∙ sym (state_get-look_up keccak k s inv.caches).same,
        )
