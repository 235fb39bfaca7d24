-- ===== src/Mpt/State/Merge.antt =====
-- The merge of the intermediate layer into the snapshot: what the snapshot then answers.
use cfx_minimal_execution.Common.{
  ℕ, ◌≡◌, refl, sym, ap, ◌∙◌, arith, true, false, Option, none, some, List, [], ◌∷◌, length, subst,
  ok, err, ok_injective, inl, inr, Result-cases, Bool-cases, ◌>>=◌,
}
use cfx_minimal_execution.Common.ByteMap.{
  lex_refl, get, get-insert, get-remove, bytes_eq, bytes_eq_iff, bytes_eq_refl,
}
use cfx_minimal_execution.Mpt.Types.{H256, MptResult}
use cfx_minimal_execution.Mpt.KeyCodec.Canonical.{
  StorageKeyWithSpace, DeltaMptKeyPadding, to_key_bytes, from_key_bytes,
}
use cfx_minimal_execution.Mpt.KeyCodec.Canonical.RoundTrip.{
  IsCanonical, from_key_bytes-to_key_bytes, to_key_bytes_injective,
}
use cfx_minimal_execution.Mpt.KeyCodec.Canonical.ByteKeys.{IsByteKey, to_key_bytes-IsBytes}
use cfx_minimal_execution.Mpt.KeyCodec.Delta.{from_delta_mpt_key}
use cfx_minimal_execution.Mpt.KeyCodec.Delta.RoundTrip.{
  IsDeltaKey, from_delta_mpt_key-to_delta_mpt_key_bytes, to_delta_mpt_key_bytes_injective,
}
use cfx_minimal_execution.Mpt.Trie.{MptValue, value, tombstone, visible_value, bytes_to_nibbles}
use cfx_minimal_execution.Mpt.Trie.Nibbles.{bytes_to_nibbles_injective}
use cfx_minimal_execution.Mpt.Incremental.{Entries, insert_entry, remove_entry, snapshot_get}
use cfx_minimal_execution.Mpt.Incremental.Ordered.{IsLeast}
use cfx_minimal_execution.Mpt.Snapshot.ByteEntries.{
  IsSnapshot, insert_entry-IsSnapshot, remove_entry-IsSnapshot,
}
use cfx_minimal_execution.Common.Bytes.{IsBytes}
use cfx_minimal_execution.Mpt.Snapshot.{SnapshotTrie, apply_updates}
use cfx_minimal_execution.Mpt.State.Commit.{canonical_of, snapshot_updates}
use cfx_minimal_execution.Mpt.State.Reads.{raw_of}

-- A value of an upper layer over the answer of the layers below.
unfoldable pub over : Option MptValue → Option (List ℕ) → Option (List ℕ)
over none below = below
over (some v) below = visible_value v

-- One update of the snapshot.
abbrev updated : SnapshotTrie → List ℕ → MptValue → SnapshotTrie
updated t key (value bytes) = insert_entry t key (value bytes)
updated t key tombstone = remove_entry t key

apply_updates-cons :
    (t : SnapshotTrie) (key : List ℕ) (v : MptValue) (updates : List (List ℕ × MptValue))
    → apply_updates t ((key, v) ∷ updates) ≡ apply_updates (updated t key v) updates
unfolding apply_updates
apply_updates-cons t key (value bytes) updates = refl
apply_updates-cons t key tombstone updates = refl

snapshot_get-updated_same :
    (t : SnapshotTrie) (key : List ℕ) (v : MptValue)
    → snapshot_get (updated t key v) key ≡ visible_value v
unfolding snapshot_get insert_entry remove_entry visible_value
snapshot_get-updated_same t key (value bytes) =
    let k = bytes_to_nibbles key in
    rw (snapshot_get, get-insert k k (value bytes) t.entries, bytes_eq_refl k)
snapshot_get-updated_same t key tombstone =
    let k = bytes_to_nibbles key in rw (snapshot_get, get-remove k k t.entries, bytes_eq_refl k)

snapshot_get-updated_other :
    (t : SnapshotTrie) (key other : List ℕ) (v : MptValue)
    → bytes_eq (bytes_to_nibbles key) (bytes_to_nibbles other) ≡ false
    → snapshot_get (updated t key v) other ≡ snapshot_get t other
unfolding snapshot_get insert_entry remove_entry
snapshot_get-updated_other t key other (value bytes) h =
    rw
      (
        snapshot_get,
        get-insert (bytes_to_nibbles key) (bytes_to_nibbles other) (value bytes) t.entries,
        h,
      )
      refl
snapshot_get-updated_other t key other tombstone h =
    rw (snapshot_get, get-remove (bytes_to_nibbles key) (bytes_to_nibbles other) t.entries, h) refl

get-IsLeast : (raw : List ℕ) (m : Entries) → IsLeast raw m → get raw m ≡ none
unfolding get
get-IsLeast raw [] h = refl
get-IsLeast raw ((j, w) ∷ m) (p, h) =
    ground (arith, bytes_eq_iff j raw, lex_refl raw, get-IsLeast raw m h)

over_hit :
    (raw raw' : List ℕ) (m : Entries) (v : MptValue) (below below' : Option (List ℕ))
    → bytes_eq raw raw' ≡ true
    → get raw' m ≡ none
    → below' ≡ visible_value v
    → over (get raw' m) below' ≡ over (get raw' ((raw, v) ∷ m)) below
unfolding over get
over_hit raw raw' m v below below' same gone e = rw (gone, get, same, e) refl

over_miss :
    (raw raw' : List ℕ) (m : Entries) (v : MptValue) (below below' : Option (List ℕ))
    → bytes_eq raw raw' ≡ false
    → below' ≡ below
    → over (get raw' m) below' ≡ over (get raw' ((raw, v) ∷ m)) below
unfolding over get
over_miss raw raw' m v below below' apart e = rw (get, apart, e) refl

module _ (keccak : List ℕ → H256) where
  -- The bytes of a layer's key are those of a storage key that both codecs can read back.
  pub record IsKeyOf (padding : DeltaMptKeyPadding) (raw : List ℕ) : Type 0 where
    pub key : StorageKeyWithSpace
    pub delta : IsDeltaKey key
    pub canonical : IsCanonical key
    pub bytes : IsByteKey key.key
    pub made : raw_of keccak key padding ≡ ok raw

  -- Every key of the layer is such a key, and the keys stand in order.
  unfoldable pub IsKeyed : DeltaMptKeyPadding → Entries → Type 0
  IsKeyed padding [] = Unit
  IsKeyed padding ((raw, v) ∷ m) = IsKeyOf padding raw × (IsLeast raw m × IsKeyed padding m)

  updated-IsSnapshot :
      (t : SnapshotTrie) (key : List ℕ) (v : MptValue)
      → IsBytes key
      → IsSnapshot keccak t
      → IsSnapshot keccak (updated t key v)
  updated-IsSnapshot t key (value bytes) h g = insert_entry-IsSnapshot keccak t key bytes h g
  updated-IsSnapshot t key tombstone h g = remove_entry-IsSnapshot keccak t key g

  pub to_key_bytes_ok :
      (k : StorageKeyWithSpace) → IsCanonical k → (c : List ℕ) × (to_key_bytes k ≡ ok c)
  to_key_bytes_ok k h = elim (Result-cases (to_key_bytes k)) [
    | inl good ↦ good
    | inr (e, bad) ↦
        let refused : ◌≡◌ {A = MptResult StorageKeyWithSpace} (err e) (ok k) =
          ap (λ r. r >>= from_key_bytes) (sym bad) ∙ from_key_bytes-to_key_bytes k h in
        cc
  ]

  module _ (hash_length : (m : List ℕ) → length (keccak m) ≡ 32) where
    canonical_of_made :
        (padding : DeltaMptKeyPadding) (raw : List ℕ) (k : IsKeyOf padding raw)
        → canonical_of raw ≡ to_key_bytes k.key
    unfolding canonical_of
    canonical_of_made padding raw k =
        let back : from_delta_mpt_key raw ≡ ok k.key =
          ap (λ r. r >>= from_delta_mpt_key) (sym k.made)
          ∙ from_delta_mpt_key-to_delta_mpt_key_bytes keccak hash_length k.key padding k.delta in
        ap (λ r. r >>= to_key_bytes) back

    -- What a snapshot answers once it has absorbed the updates of the layer.
    pub record Absorbs (padding : DeltaMptKeyPadding) (m : Entries)
        (updates : List (List ℕ × MptValue)) : Type 0 where
      pub read :
          (t : SnapshotTrie) (k : StorageKeyWithSpace) (raw canonical : List ℕ)
          → IsDeltaKey k
          → IsCanonical k
          → raw_of keccak k padding ≡ ok raw
          → to_key_bytes k ≡ ok canonical
          → snapshot_get (apply_updates t updates) canonical
            ≡ over (get raw m) (snapshot_get t canonical)
      pub trie :
          (t : SnapshotTrie) → IsSnapshot keccak t → IsSnapshot keccak (apply_updates t updates)

    -- Two keys of a padding: their canonical nibbles agree only where their raw bytes do.
    nibbles_apart :
        (padding : DeltaMptKeyPadding) (raw raw' c c' : List ℕ) (j : IsKeyOf padding raw)
        (k : StorageKeyWithSpace)
        → IsCanonical k
        → raw_of keccak k padding ≡ ok raw'
        → to_key_bytes j.key ≡ ok c
        → to_key_bytes k ≡ ok c'
        → bytes_eq raw raw' ≡ false
        → bytes_eq (bytes_to_nibbles c) (bytes_to_nibbles c') ≡ false
    nibbles_apart padding raw raw' c c' j k hk made e e' apart =
        elim (Bool-cases (bytes_eq (bytes_to_nibbles c) (bytes_to_nibbles c'))) [
          | inl same ↦
              let bytes : c ≡ c' = bytes_to_nibbles_injective c c' ((bytes_eq_iff _ _).0 same) in
              let keys : j.key ≡ k =
                to_key_bytes_injective j.key k j.canonical hk (e ∙ ap ok bytes ∙ sym e') in
              let raws : raw ≡ raw' =
                ok_injective (sym j.made ∙ ap (λ k. raw_of keccak k padding) keys ∙ made) in
              let equal : bytes_eq raw raw' ≡ true = (bytes_eq_iff raw raw').1 raws in cc
          | inr differ ↦ differ
        ]

    same_canonical :
        (padding : DeltaMptKeyPadding) (raw raw' c c' : List ℕ) (j : IsKeyOf padding raw)
        (k : StorageKeyWithSpace)
        → IsDeltaKey k
        → raw_of keccak k padding ≡ ok raw'
        → to_key_bytes j.key ≡ ok c
        → to_key_bytes k ≡ ok c'
        → bytes_eq raw raw' ≡ true
        → c ≡ c'
    same_canonical padding raw raw' c c' j k hk made e e' same =
        let raws : raw ≡ raw' = (bytes_eq_iff raw raw').0 same in
        let keys : j.key ≡ k =
          to_delta_mpt_key_bytes_injective keccak hash_length j.key k padding j.delta hk
            (j.made ∙ ap ok raws ∙ sym made) in
        ok_injective (sym e ∙ ap to_key_bytes keys ∙ e')

    pub absorbs :
        (padding : DeltaMptKeyPadding) (m : Entries)
        → IsKeyed padding m
        → (updates : List (List ℕ × MptValue)) × (snapshot_updates m ≡ ok updates)
          × Absorbs padding m updates
    unfolding snapshot_updates IsKeyed
    absorbs padding [] h = (
      [],
      refl,
      record {
        read = λ t k raw canonical hd hc made e. unfold apply_updates get over in refl;
        trie = λ t h. unfold apply_updates in h;
      },
    )
    absorbs padding ((raw, v) ∷ m) (j, (fresh, h)) =
        let (updates, eu, rest) = absorbs padding m h in
        let (c, ec) = to_key_bytes_ok j.key j.canonical in
        (
          (c, v) ∷ updates,
          rw (canonical_of_made padding raw j, ec, eu) refl,
          record {
            read = λ t k raw' c' hd hc made e.
                let next = rest.read (updated t c v) k raw' c' hd hc made e in
                ap (λ t. snapshot_get t c') (apply_updates-cons t c v updates)
                ∙ next
                ∙ elim (Bool-cases (bytes_eq raw raw')) [
                  | inl same ↦
                      let gone : get raw' m ≡ none =
                        ap (λ r. get r m) (sym ((bytes_eq_iff raw raw').0 same))
                        ∙ get-IsLeast raw m fresh in
                      let canonical = same_canonical padding raw raw' c c' j k hd made ec e same in
                      let written : snapshot_get (updated t c v) c' ≡ visible_value v =
                        ap (snapshot_get (updated t c v)) (sym canonical)
                        ∙ snapshot_get-updated_same t c v in
                      over_hit raw raw' m v _ _ same gone written
                  | inr apart ↦ over_miss raw raw' m v _ _ apart (
                      snapshot_get-updated_other t c c' v
                        (nibbles_apart padding raw raw' c c' j k hc made ec e apart))
                ];
            trie = λ t h. subst (IsSnapshot keccak) (sym (apply_updates-cons t c v updates)) (
                rest.trie (updated t c v)
                  (updated-IsSnapshot t c v (to_key_bytes-IsBytes j.key c j.bytes ec) h));
          },
        )
