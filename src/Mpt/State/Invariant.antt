-- ===== src/Mpt/State/Invariant.antt =====
-- The invariant of the state at the start, and across `set`.
use cfx_minimal_execution.Common.{
  ℕ, ◌<◌, arith, some, ap, ◌∙◌, ◌≡◌, refl, sym, subst, List, [], ◌∷◌, length, inl, inr,
}
use cfx_minimal_execution.Common.Bytes.{IsBytes}
use cfx_minimal_execution.Common.ByteMap.{lex, lex_flip, eq_of_lex, insert}
use cfx_minimal_execution.Mpt.Types.{H256}
use cfx_minimal_execution.Mpt.KeyCodec.Canonical.{StorageKeyWithSpace, DeltaMptKeyPadding}
use cfx_minimal_execution.Mpt.KeyCodec.Canonical.RoundTrip.{IsCanonical}
use cfx_minimal_execution.Mpt.KeyCodec.Canonical.ByteKeys.{IsByteKey}
use cfx_minimal_execution.Mpt.KeyCodec.Delta.ByteKeys.{to_delta_mpt_key_bytes-IsBytes}
use cfx_minimal_execution.Mpt.KeyCodec.Delta.Cache.{empty_cache-IsFaithful}
use cfx_minimal_execution.Mpt.KeyCodec.Delta.RoundTrip.{IsDeltaKey}
use cfx_minimal_execution.Mpt.Trie.{MptValue, bytes_to_nibbles}
use cfx_minimal_execution.Mpt.Incremental.{Entries, IncrementalTrie, insert_entry}
use cfx_minimal_execution.Mpt.Snapshot.ByteEntries.{IsSnapshot}
use cfx_minimal_execution.Mpt.Incremental.Root.{IsTrie, empty_trie-IsTrie, insert_entry-IsTrie}
use cfx_minimal_execution.Mpt.State.Defs.{State, with_snapshot_epoch_count, new, state_set}
use cfx_minimal_execution.Mpt.State.Writes.{
  stored, delta_key_ok, state_set-Written, state_set_roots, state_set_period,
}
use cfx_minimal_execution.Mpt.State.Merge.{IsKeyOf, IsKeyed}
use cfx_minimal_execution.Mpt.Incremental.Ordered.{
  lex-cases, IsLeast, IsLeast-insert, IsLeast-trans,
}
use cfx_minimal_execution.Mpt.Stateless.{nibble_keys, trie_root, root_for_entries}
use cfx_minimal_execution.Mpt.Stateless.NibbleKeys.{nibble_keys-insert}
use cfx_minimal_execution.Mpt.State.Rotation.{IsState}

entries-insert_entry :
    (t : IncrementalTrie) (key : List ℕ) (v : MptValue)
    → (insert_entry t key v).entries ≡ insert (bytes_to_nibbles key) v t.entries
unfolding insert_entry
entries-insert_entry t key v = refl

module _ (keccak : List ℕ → H256) where
  IsKeyed-insert :
      (padding : DeltaMptKeyPadding) (k : List ℕ) (v : MptValue) (m : Entries)
      → IsKeyOf keccak padding k
      → IsKeyed keccak padding m
      → IsKeyed keccak padding (insert k v m)
  unfolding insert IsKeyed
  IsKeyed-insert padding k v [] o h = (o, (tt, tt))
  IsKeyed-insert padding k v ((i, w) ∷ m) o (p, (least, h)) = elim (lex-cases (lex k i)) [
    | inl before ↦
        rw (insert, before) (o, ((before, IsLeast-trans k i m before least), (p, (least, h))))
    | inr (inl here) ↦
        rw (insert, here) (o, (subst (λ j. IsLeast j m) (sym (eq_of_lex k i here)) least, h))
    | inr (inr after) ↦
        rw (insert, after)
          (p, (IsLeast-insert i k v m (lex_flip k i after) least, IsKeyed-insert padding k v m o h))
  ]

  -- A new state keeps the invariant, whatever its period.
  pub with_snapshot_epoch_count-IsState :
      (n : ℕ) → IsState keccak (with_snapshot_epoch_count keccak n)
  unfolding with_snapshot_epoch_count new IsKeyed
  with_snapshot_epoch_count-IsState n = record {
    caches = record {
      delta_cache = empty_cache-IsFaithful keccak;
      intermediate_cache = empty_cache-IsFaithful keccak;
    };
    delta_trie = empty_trie-IsTrie keccak;
    snapshot_trie = record { trie = empty_trie-IsTrie keccak; byte_entries = tt };
    period = omega arith;
    delta_keyed = tt;
    intermediate_keyed = tt;
    synced = unfold nibble_keys in refl;
    intermediate_rooted = unfold trie_root in refl;
    snapshot_rooted = unfold root_for_entries in refl;
  }

  module _ (hash_length : (m : List ℕ) → length (keccak m) ≡ 32)
      (hash_bytes : (m : List ℕ) → IsBytes (keccak m)) where
    -- With hashes of 32 bytes, `set` of a key that is made of bytes and that both codecs can read
    -- back keeps the invariant of the state.
    pub state_set-IsState :
        (k : StorageKeyWithSpace) (bytes : List ℕ) (s : State)
        → IsDeltaKey k
        → IsCanonical k
        → IsByteKey k.key
        → IsState keccak s
        → IsState keccak (state_set keccak k bytes s).1
    state_set-IsState k bytes s hd hc hb inv =
        let (raw, e) = delta_key_ok keccak hash_length k s.delta_padding hd in
        let w = state_set-Written keccak k bytes raw s inv.caches e in
        let made : IsKeyOf keccak s.delta_padding raw = record {
          key = k;
          delta = hd;
          canonical = hc;
          bytes = hb;
          made = e;
        } in
        record {
          caches = w.faithful;
          delta_trie = subst (IsTrie keccak) (sym w.trie_written) (
              insert_entry-IsTrie keccak s.delta_inc raw (stored bytes)
                (to_delta_mpt_key_bytes-IsBytes keccak hash_bytes k s.delta_padding raw hb e)
                inv.delta_trie);
          snapshot_trie =
              subst (λ l. IsSnapshot keccak l.snapshot) (sym w.written) inv.snapshot_trie;
          delta_keyed =
              subst (λ l. IsKeyed keccak l.delta_padding l.delta) (sym w.written)
                (IsKeyed-insert s.delta_padding raw (stored bytes) s.delta made inv.delta_keyed);
          intermediate_keyed =
              subst (λ l. IsKeyed keccak l.intermediate_padding l.intermediate) (sym w.written)
                inv.intermediate_keyed;
          intermediate_rooted =
              ap (λ l. trie_root keccak l.intermediate) w.written
              ∙ inv.intermediate_rooted
              ∙ ap some (sym (state_set_roots keccak k bytes s).1);
          snapshot_rooted =
              ap (λ l. root_for_entries keccak l.snapshot.entries) w.written
              ∙ inv.snapshot_rooted
              ∙ ap some (sym (state_set_roots keccak k bytes s).0);
          period = subst (λ n. 0 < n) (sym (state_set_period keccak k bytes s)) inv.period;
          synced =
              ap (λ l. nibble_keys l.delta) w.written
              ∙ nibble_keys-insert raw (stored bytes) s.delta
              ∙ ap (insert (bytes_to_nibbles raw) (stored bytes)) inv.synced
              ∙ sym (entries-insert_entry s.delta_inc raw (stored bytes))
              ∙ sym (ap (λ t. t.entries) w.trie_written);
        }
