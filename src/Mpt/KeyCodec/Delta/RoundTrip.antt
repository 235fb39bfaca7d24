-- ===== src/Mpt/KeyCodec/Delta/RoundTrip.antt =====
-- `from_delta_mpt_key` reads back what `to_delta_mpt_key_bytes` writes.
use cfx_minimal_execution.Common.{
  ℕ, suc, ◌+◌, ◌≡◌, ◌≢◌, refl, sym, ap, ◌∙◌, arith, true, false, none, List, [], ◌∷◌, ◌++◌,
  append-nil, length, take, drop, length-append, length-take, length-drop, take-append_at,
  drop-append_at, get_or-append_at, ok, ok_injective, ◌>>=◌, ◌&&◌, ◌==◌, ==_iff, ltb, take-all,
  drop-all, bit_and,
}
use cfx_minimal_execution.Mpt.Types.{H256, Space, native, ethereum}
use cfx_minimal_execution.Mpt.KeyCodec.Canonical.{
  account_bytes, StorageKey, account, storage_root, storage, code_root, code, deposit_list,
  vote_list, empty, address_prefix, StorageKeyWithSpace, evm_space_type, with_space,
  add_space_to_delta_key, DeltaMptKeyPadding,
}
use cfx_minimal_execution.Mpt.KeyCodec.Delta.{
  delta_suffix, delta_key, from_delta_mpt_key, to_delta_mpt_key_bytes, account_key_uncached,
  storage_key_padding,
}

abbrev IsAddress : List ℕ → Type 0
IsAddress a = length a ≡ account_bytes

-- The keys that their delta bytes determine: 20-byte addresses and no empty code hash.
abbrev pub IsDeltaKey : StorageKeyWithSpace → Type 0
IsDeltaKey k = elim k.key [
  | account address ↦ IsAddress address
  | storage_root address ↦ IsAddress address
  | storage address storage_key ↦ IsAddress address
  | code_root address ↦ IsAddress address
  | code address code_hash ↦ IsAddress address × (code_hash ≢ [])
  | deposit_list address ↦ IsAddress address
  | vote_list address ↦ IsAddress address
  | empty ↦ ⊥
  | address_prefix prefix ↦ ⊥
]

-- The account part `head` of 32 bytes ends with the address `a`.
module _ (head a : List ℕ) (whole : length head ≡ 32) (ends : drop 12 head ≡ a) where
  read_account :
      (space : Space)
      → from_delta_mpt_key (add_space_to_delta_key (head ++ []) space)
        ≡ ok (record { key = account a; space = space })
  unfolding from_delta_mpt_key add_space_to_delta_key
  read_account native = rw (append-nil head, whole, take-all 32 head whole, ends)
  read_account ethereum =
      let marked : length (head ++ (evm_space_type ∷ [])) ≡ 33 =
        length-append head (evm_space_type ∷ []) ∙ omega arith in
      rw (append-nil head, take-all 32 head whole, drop-all 32 head whole)
        (rw (
          marked,
          take-append_at 32 head (evm_space_type ∷ []) whole,
          get_or-append_at 32 head (evm_space_type ∷ []) 0 whole,
          ends,
        ))

  -- A suffix that starts with an ASCII letter is read behind the account and the marker.
  read_suffix :
      (c : ℕ) (s : List ℕ) (space : Space)
      → (bit_and c 0x80 == 0) ≡ true
      → (c == evm_space_type) ≡ false
      → from_delta_mpt_key (add_space_to_delta_key (head ++ (c ∷ s)) space)
        ≡ with_space space (delta_suffix a (c ∷ s))
  unfolding from_delta_mpt_key add_space_to_delta_key
  read_suffix c s native low other =
      let long : length (head ++ (c ∷ s)) ≡ 33 + length s =
        length-append head (c ∷ s) ∙ omega arith in
      let enough : ltb (33 + length s) 32 ≡ false = ground arith in
      let more : (33 + length s == 32) ≡ false = ground arith in
      let unmarked : ((33 + length s == 33) && false) ≡ false = ground arith in
      rw (
        long,
        enough,
        more,
        take-append_at 32 head (c ∷ s) whole,
        drop-append_at 32 head (c ∷ s) whole,
        get_or-append_at 32 head (c ∷ s) 0 whole,
        ends,
        other,
        unmarked,
        low,
      )
  read_suffix c s ethereum low other =
      let marked : List ℕ = evm_space_type ∷ c ∷ s in
      let long : length (head ++ marked) ≡ 34 + length s =
        length-append head marked ∙ omega arith in
      let enough : ltb (34 + length s) 32 ≡ false = ground arith in
      let more : (34 + length s == 32) ≡ false = ground arith in
      let two_more : (34 + length s == 33) ≡ false = ground arith in
      rw (take-append_at 32 head (c ∷ s) whole, drop-append_at 32 head (c ∷ s) whole)
        (rw (
          long,
          enough,
          more,
          two_more,
          take-append_at 32 head marked whole,
          drop-append_at 32 head marked whole,
          ends,
        ))

-- Hashes have 32 bytes.
module _ (keccak : List ℕ → H256) (hash_length : (m : List ℕ) → length (keccak m) ≡ 32) where
  module _ (a : List ℕ) (padding : DeltaMptKeyPadding) (h : IsAddress a) where
    head_whole : length (account_key_uncached keccak a padding) ≡ 32
    unfolding account_key_uncached
    head_whole =
        let m = take 12 padding ++ a in
        length-append (take 12 (keccak m)) a
        ∙ omega (arith, length-take 12 (keccak m), hash_length m, h)

    head_ends : drop 12 (account_key_uncached keccak a padding) ≡ a
    unfolding account_key_uncached
    head_ends =
        let m = take 12 padding ++ a in
        drop-append_at 12 (take 12 (keccak m)) a
          (omega (arith, length-take 12 (keccak m), hash_length m))

    written :
        (suffix : List ℕ) (space : Space)
        → (delta_key keccak a suffix space padding none).0
          ≡ ok (add_space_to_delta_key (account_key_uncached keccak a padding ++ suffix) space)
    unfolding delta_key
    written suffix space = rw ((==_iff (length a) 20).1 h, delta_key)

    delta_round :
        (c : ℕ) (s : List ℕ) (space : Space)
        → (bit_and c 0x80 == 0) ≡ true
        → (c == evm_space_type) ≡ false
        → ((delta_key keccak a (c ∷ s) space padding none).0 >>= from_delta_mpt_key)
          ≡ with_space space (delta_suffix a (c ∷ s))
    delta_round c s space low other =
        ap (λ r. r >>= from_delta_mpt_key) (written (c ∷ s) space)
        ∙ read_suffix (account_key_uncached keccak a padding) a head_whole head_ends c s space low
            other

    account_round :
        (space : Space)
        → ((delta_key keccak a [] space padding none).0 >>= from_delta_mpt_key)
          ≡ ok (record { key = account a; space = space })
    account_round space =
        ap (λ r. r >>= from_delta_mpt_key) (written [] space)
        ∙ read_account (account_key_uncached keccak a padding) a head_whole head_ends space

    -- Behind "data" stand 28 bytes of a hash, and then the storage key.
    storage_round :
        (key : List ℕ)
        → delta_suffix a
            (b'd' ∷ b'a' ∷ b't' ∷ b'a' ∷ (drop 4 (storage_key_padding keccak key padding) ++ key))
          ≡ ok (storage a key)
    unfolding delta_suffix storage_key_padding
    storage_round key =
        let pad = drop 4 (keccak (padding ++ key)) in
        let pad_length : length pad ≡ 28 =
          length-drop 4 (keccak (padding ++ key)) ∙ omega (arith, hash_length (padding ++ key)) in
        let long : length (pad ++ key) ≡ 28 + length key = length-append pad key ∙ omega arith in
        let not_root : (suc (suc (suc (suc (28 + length key)))) == 4) ≡ false = ground arith in
        let enough : ltb (suc (suc (suc (suc (28 + length key))))) 32 ≡ false = ground arith in
        rw (long, not_root, enough, drop-append_at 28 pad key pad_length)

  there_and_back :
      (key : StorageKey) (space : Space) (padding : DeltaMptKeyPadding)
      → let k : StorageKeyWithSpace = record { key = key; space = space } in
        IsDeltaKey k
        → ((to_delta_mpt_key_bytes keccak k padding none).0 >>= from_delta_mpt_key) ≡ ok k
  unfolding to_delta_mpt_key_bytes
  there_and_back (account a) space padding h =
      let whole : ltb (length a) 20 ≡ false = ground arith in
      rw whole (account_round a padding h space)
  there_and_back (storage_root a) space padding h =
      delta_round a padding h _ _ space refl refl ∙ (unfold with_space delta_suffix in refl)
  there_and_back (storage a key) space padding h =
      delta_round a padding h _ _ space refl refl
      ∙ rw (storage_round a padding h key) (unfold with_space in refl)
  there_and_back (code_root a) space padding h =
      delta_round a padding h _ _ space refl refl ∙ (unfold with_space delta_suffix in refl)
  there_and_back (code a []) space padding h = absurd (h.1 refl)
  there_and_back (code a (b ∷ hash)) space padding h =
      delta_round a padding h.0 _ _ space refl refl ∙ (unfold with_space delta_suffix in refl)
  there_and_back (deposit_list a) space padding h =
      delta_round a padding h _ _ space refl refl ∙ (unfold with_space delta_suffix in refl)
  there_and_back (vote_list a) space padding h =
      delta_round a padding h _ _ space refl refl ∙ (unfold with_space delta_suffix in refl)
  there_and_back empty space padding h = absurd h
  there_and_back (address_prefix p) space padding h = absurd h

  -- With 32-byte hashes, `to_delta_mpt_key_bytes` succeeds on a key with a 20-byte address and no
  -- empty code hash, under every padding, and `from_delta_mpt_key` gives the key back.
  pub from_delta_mpt_key-to_delta_mpt_key_bytes :
      (k : StorageKeyWithSpace) (padding : DeltaMptKeyPadding)
      → IsDeltaKey k
      → ((to_delta_mpt_key_bytes keccak k padding none).0 >>= from_delta_mpt_key) ≡ ok k
  from_delta_mpt_key-to_delta_mpt_key_bytes k padding h = there_and_back k.key k.space padding h

  -- With 32-byte hashes, two keys with 20-byte addresses and no empty code hash that have the same
  -- delta bytes under one padding are the same key.
  pub to_delta_mpt_key_bytes_injective :
      (k l : StorageKeyWithSpace) (padding : DeltaMptKeyPadding)
      → IsDeltaKey k
      → IsDeltaKey l
      → (to_delta_mpt_key_bytes keccak k padding none).0
        ≡ (to_delta_mpt_key_bytes keccak l padding none).0
      → k ≡ l
  to_delta_mpt_key_bytes_injective k l padding hk hl e = ok_injective (
      sym (from_delta_mpt_key-to_delta_mpt_key_bytes k padding hk)
      ∙ ap (λ r. r >>= from_delta_mpt_key) e
      ∙ from_delta_mpt_key-to_delta_mpt_key_bytes l padding hl)
