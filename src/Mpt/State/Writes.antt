-- ===== src/Mpt/State/Writes.antt =====
-- What `set` changes: one key of the delta layer.
use cfx_minimal_execution.Common.{
  ℕ, ◌≡◌, ◌≢◌, refl, sym, ap, ◌∙◌, false, Option, none, some, List, [], ◌∷◌, length, if◌then◌else◌,
  ok, err, inl, inr, Result-cases, Bool-cases, ◌>>=◌,
}
use cfx_minimal_execution.Common.ByteMap.{insert, get-insert, bytes_eq, bytes_eq_iff, bytes_eq_refl}
use cfx_minimal_execution.Mpt.Types.{H256, MptResult}
use cfx_minimal_execution.Mpt.KeyCodec.Canonical.{StorageKeyWithSpace, DeltaMptKeyPadding, is_empty}
use cfx_minimal_execution.Mpt.KeyCodec.Delta.{from_delta_mpt_key}
use cfx_minimal_execution.Mpt.KeyCodec.Delta.RoundTrip.{
  IsDeltaKey, from_delta_mpt_key-to_delta_mpt_key_bytes, to_delta_mpt_key_bytes_injective,
}
use cfx_minimal_execution.Mpt.Trie.{MptValue, value, tombstone, visible_value}
use cfx_minimal_execution.Mpt.Incremental.{insert_entry}
use cfx_minimal_execution.Mpt.State.Defs.{State, delta_key_of, state_get, set_raw, state_set}
use cfx_minimal_execution.Mpt.State.Reads.{
  Layers, layers, raw_of, look_up_delta, look_up, HasFaithfulCaches, delta_key_of-Reads,
  state_get-look_up,
}

-- The value that `set` stores, and what a read should answer for it.
abbrev pub stored : List ℕ → MptValue
stored bytes = if is_empty bytes then tombstone else value bytes

abbrev pub shown : List ℕ → Option (List ℕ)
shown bytes = if is_empty bytes then none else some bytes

visible_value-stored : (bytes : List ℕ) → visible_value (stored bytes) ≡ shown bytes
unfolding visible_value
visible_value-stored [] = refl
visible_value-stored (b ∷ bytes) = refl

-- `set` has written `raw` in the delta layer and in the delta trie.
pub record Written (keccak : List ℕ → H256) (raw : List ℕ) (v : MptValue) (s : State)
    (answer : MptResult (Unit {0}) × State) : Type 0 where
  pub done : answer.0 ≡ ok tt
  pub written : layers answer.1 ≡ record (layers s) { delta = insert raw v s.delta }
  pub trie_written : answer.1.delta_inc ≡ insert_entry s.delta_inc raw v
  pub faithful : HasFaithfulCaches keccak answer.1

module _ (keccak : List ℕ → H256) where
  set_raw-Written :
      (bytes raw : List ℕ) (s s' : State)
      → layers s' ≡ layers s
      → s'.delta_inc ≡ s.delta_inc
      → HasFaithfulCaches keccak s'
      → Written keccak raw (stored bytes) s (set_raw keccak bytes (ok raw, s'))
  unfolding set_raw
  set_raw-Written bytes raw s s' e i h = record {
    done = refl;
    written = ap {B = Layers} (λ l. record l { delta = insert raw (stored bytes) l.delta }) e;
    trie_written = ap (λ t. insert_entry t raw (stored bytes)) i;
    faithful = record { delta_cache = h.delta_cache; intermediate_cache = h.intermediate_cache };
  }

  pub state_set-Written :
      (k : StorageKeyWithSpace) (bytes raw : List ℕ) (s : State)
      → HasFaithfulCaches keccak s
      → raw_of keccak k s.delta_padding ≡ ok raw
      → Written keccak raw (stored bytes) s (state_set keccak k bytes s)
  unfolding state_set
  state_set-Written k bytes raw s h e =
      let t = delta_key_of-Reads keccak k s h in
      rw (t.same, e)
        (set_raw-Written bytes raw s (delta_key_of keccak k s).1 t.kept t.trie_kept t.faithful)

  set_raw_roots :
      (bytes : List ℕ) (raw : MptResult (List ℕ)) (s : State)
      → ((set_raw keccak bytes (raw, s)).1.snapshot_root ≡ s.snapshot_root)
        × ((set_raw keccak bytes (raw, s)).1.intermediate_root ≡ s.intermediate_root)
  unfolding set_raw
  set_raw_roots bytes (err e) s = (refl, refl)
  set_raw_roots bytes (ok raw) s = (refl, refl)

  -- `set` leaves the roots of the older layers alone.
  pub state_set_roots :
      (k : StorageKeyWithSpace) (bytes : List ℕ) (s : State)
      → ((state_set keccak k bytes s).1.snapshot_root ≡ s.snapshot_root)
        × ((state_set keccak k bytes s).1.intermediate_root ≡ s.intermediate_root)
  unfolding state_set delta_key_of
  state_set_roots k bytes s =
      set_raw_roots bytes (delta_key_of keccak k s).0 (delta_key_of keccak k s).1

  set_raw_period :
      (bytes : List ℕ) (raw : MptResult (List ℕ)) (s : State)
      → (set_raw keccak bytes (raw, s)).1.snapshot_epoch_count ≡ s.snapshot_epoch_count
  unfolding set_raw
  set_raw_period bytes (err e) s = refl
  set_raw_period bytes (ok raw) s = refl

  pub state_set_period :
      (k : StorageKeyWithSpace) (bytes : List ℕ) (s : State)
      → (state_set keccak k bytes s).1.snapshot_epoch_count ≡ s.snapshot_epoch_count
  unfolding state_set delta_key_of
  state_set_period k bytes s =
      set_raw_period bytes (delta_key_of keccak k s).0 (delta_key_of keccak k s).1

  module _ (hash_length : (m : List ℕ) → length (keccak m) ≡ 32) where
    pub delta_key_ok :
        (k : StorageKeyWithSpace) (padding : DeltaMptKeyPadding)
        → IsDeltaKey k
        → (raw : List ℕ) × (raw_of keccak k padding ≡ ok raw)
    delta_key_ok k padding h = elim (Result-cases (raw_of keccak k padding)) [
      | inl good ↦ good
      | inr (e, bad) ↦
          let back = from_delta_mpt_key-to_delta_mpt_key_bytes keccak hash_length k padding h in
          let refused : ◌≡◌ {A = MptResult StorageKeyWithSpace} (err e) (ok k) =
            ap (λ r. r >>= from_delta_mpt_key) (sym bad) ∙ back in
          cc
    ]

    -- With 32-byte hashes and faithful key caches, `set` of a key with a 20-byte address and no empty
    -- code hash succeeds, and `get` of the key then answers the bytes, or nothing if they are empty:
    -- whatever the layers held.
    pub state_get-state_set :
        (k : StorageKeyWithSpace) (bytes : List ℕ) (s : State)
        → IsDeltaKey k
        → HasFaithfulCaches keccak s
        → ((state_set keccak k bytes s).0 ≡ ok tt)
          × ((state_get keccak k (state_set keccak k bytes s).1).0 ≡ ok (shown bytes))
    state_get-state_set k bytes s hk h =
        let (raw, e) = delta_key_ok k s.delta_padding hk in
        let w = state_set-Written k bytes raw s h e in
        let read = state_get-look_up keccak k (state_set keccak k bytes s).1 w.faithful in
        (
          w.done,
          read.same
              ∙ ap (look_up keccak k) w.written
              ∙ (unfold look_up look_up_delta in
                  rw
                    (e, look_up_delta, get-insert raw raw (stored bytes) s.delta, bytes_eq_refl raw)
                    (ap ok (visible_value-stored bytes))),
        )

    -- With 32-byte hashes and faithful key caches, `set` of a key changes the answer of `get` for no
    -- other key, where both have 20-byte addresses and no empty code hash.
    pub state_get-state_set_other :
        (k l : StorageKeyWithSpace) (bytes : List ℕ) (s : State)
        → IsDeltaKey k
        → IsDeltaKey l
        → k ≢ l
        → HasFaithfulCaches keccak s
        → (state_get keccak l (state_set keccak k bytes s).1).0 ≡ (state_get keccak l s).0
    state_get-state_set_other k l bytes s hk hl other h =
        let (raw, e) = delta_key_ok k s.delta_padding hk in
        let (raw', e') = delta_key_ok l s.delta_padding hl in
        let w = state_set-Written k bytes raw s h e in
        let read = state_get-look_up keccak l (state_set keccak k bytes s).1 w.faithful in
        let apart : bytes_eq raw raw' ≡ false = elim (Bool-cases (bytes_eq raw raw')) [
          | inl same ↦ absurd (
              other (
                to_delta_mpt_key_bytes_injective keccak hash_length k l s.delta_padding hk hl
                  (e ∙ ap ok ((bytes_eq_iff raw raw').0 same) ∙ sym e')))
          | inr differ ↦ differ
        ] in
        let unchanged : look_up keccak l
              (record (layers s) { delta = insert raw (stored bytes) s.delta })
            ≡ look_up keccak l (layers s) =
          unfold look_up look_up_delta in
          rw (e', look_up_delta, get-insert raw raw' (stored bytes) s.delta, apart) refl in
        read.same
        ∙ ap (look_up keccak l) w.written
        ∙ unchanged
        ∙ sym (state_get-look_up keccak l s h).same
