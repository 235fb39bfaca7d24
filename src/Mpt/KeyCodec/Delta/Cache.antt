-- ===== src/Mpt/KeyCodec/Delta/Cache.antt =====
-- The account-key cache of key_codec.rs changes no key.
use cfx_minimal_execution.Common.{
  ℕ, ◌≡◌, refl, arith, Option, none, some, List, ◌++◌, ltb, ok, Result-cases, Bool-cases, inl, inr,
  Option-cases, ap, length,
}
use cfx_minimal_execution.Common.ByteMap.{bytes_eq, bytes_eq_iff, get, get-insert}
use cfx_minimal_execution.Mpt.Types.{H256, Space}
use cfx_minimal_execution.Mpt.KeyCodec.Canonical.{
  StorageKey, account, storage_root, storage, code_root, code, deposit_list, vote_list, empty,
  address_prefix, StorageKeyWithSpace, DeltaMptKeyPadding, checked_address, account_bytes,
  add_space_to_delta_key,
}
use cfx_minimal_execution.Mpt.KeyCodec.Delta.{
  AccountKeyCache, account_key_uncached, fresh_cache, cached_key, new_account_key, delta_key,
  empty_cache, to_delta_mpt_key_bytes,
}

module _ (keccak : List ℕ → H256) where
  -- Every cached key is the one that would be computed for the padding of the stamp.
  pub record IsFaithful (cache : AccountKeyCache) : Type 0 where
    pub entry :
        (a key : List ℕ)
        → get a cache.map ≡ some key
        → key ≡ account_key_uncached keccak a cache.built_for

  pub empty_cache-IsFaithful : IsFaithful (empty_cache keccak)
  unfolding empty_cache get
  empty_cache-IsFaithful = record { entry = λ a key e. cc }

  fresh_cache-IsFaithful :
      (padding : DeltaMptKeyPadding) (cache : AccountKeyCache)
      → IsFaithful cache
      → IsFaithful (fresh_cache keccak padding cache)
        × ((fresh_cache keccak padding cache).built_for ≡ padding)
  unfolding fresh_cache
  fresh_cache-IsFaithful padding cache h = elim (Bool-cases (bytes_eq cache.built_for padding)) [
    | inl same ↦ rw same (h, (bytes_eq_iff cache.built_for padding).0 same)
    | inr other ↦ rw other (record { entry = λ a key e. unfold get in cc }, refl)
  ]

  cached_key_lem :
      (a : List ℕ) (padding : DeltaMptKeyPadding) (cache : AccountKeyCache)
      → IsFaithful cache
      → cache.built_for ≡ padding
      → ((cached_key keccak a padding cache).0 ≡ account_key_uncached keccak a padding)
        × IsFaithful (cached_key keccak a padding cache).1
  unfolding cached_key
  cached_key_lem a padding cache h e = elim (Option-cases (get a cache.map)) [
    | inl miss ↦
        rw (miss, cached_key)
          (
            refl,
            record {
              entry = λ b key p. ground (
                arith,
                get-insert a b (account_key_uncached keccak a padding) cache.map,
                bytes_eq_iff a b,
                h.entry b key,
              );
            },
          )
    | inr (key, hit) ↦ rw (hit, cached_key) (cc (h.entry a key hit), h)
  ]

  -- What a call with a cache answers: the result without a cache, and a faithful cache again.
  pub record Transparent {ℓ} {A : Type ℓ} (with_cache without : A × Option AccountKeyCache)
      : Type ℓ where
    pub same : with_cache.0 ≡ without.0
    pub cache : AccountKeyCache
    pub kept : with_cache.1 ≡ some cache
    pub faithful : IsFaithful cache

  new_account_key_lem :
      (a : List ℕ) (padding : DeltaMptKeyPadding) (cache : AccountKeyCache)
      → IsFaithful cache
      → Transparent
          (new_account_key keccak a padding (some cache))
          (new_account_key keccak a padding none)
  unfolding new_account_key
  new_account_key_lem a padding cache h =
      let (fresh, stamp) = fresh_cache-IsFaithful padding cache h in
      let (same, good) = cached_key_lem a padding _ fresh stamp in
      record { same = same; cache = _; kept = refl; faithful = good }

  delta_key_lem :
      (a suffix : List ℕ) (space : Space) (padding : DeltaMptKeyPadding) (cache : AccountKeyCache)
      → IsFaithful cache
      → Transparent
          (delta_key keccak a suffix space padding (some cache))
          (delta_key keccak a suffix space padding none)
  unfolding delta_key
  delta_key_lem a suffix space padding cache h = elim (Result-cases (checked_address a)) [
    | inl (b, good) ↦
        let t = new_account_key_lem b padding cache h in
        rw (good, delta_key)
          (record {
            same = ap (λ key. ok (add_space_to_delta_key (key ++ suffix) space)) t.same;
            cache = t.cache;
            kept = t.kept;
            faithful = t.faithful;
          })
    | inr (e, bad) ↦
        rw (bad, delta_key) (record { same = refl; cache = cache; kept = refl; faithful = h })
  ]

  by_key :
      (key : StorageKey) (space : Space) (padding : DeltaMptKeyPadding) (cache : AccountKeyCache)
      → IsFaithful cache
      → let k : StorageKeyWithSpace = record { key = key; space = space } in
        Transparent
          (to_delta_mpt_key_bytes keccak k padding (some cache))
          (to_delta_mpt_key_bytes keccak k padding none)
  unfolding to_delta_mpt_key_bytes
  by_key (account a) space padding cache h = elim (Bool-cases (ltb (length a) account_bytes)) [
    | inl short ↦ rw short (record { same = refl; cache = cache; kept = refl; faithful = h })
    | inr long ↦ rw long (delta_key_lem a _ space padding cache h)
  ]
  by_key (storage_root a) space padding cache h = delta_key_lem a _ space padding cache h
  by_key (storage a key) space padding cache h = delta_key_lem a _ space padding cache h
  by_key (code_root a) space padding cache h = delta_key_lem a _ space padding cache h
  by_key (code a hash) space padding cache h = delta_key_lem a _ space padding cache h
  by_key (deposit_list a) space padding cache h = delta_key_lem a _ space padding cache h
  by_key (vote_list a) space padding cache h = delta_key_lem a _ space padding cache h
  by_key empty space padding cache h = record {
    same = refl;
    cache = cache;
    kept = refl;
    faithful = h;
  }
  by_key (address_prefix p) space padding cache h = record {
    same = refl;
    cache = cache;
    kept = refl;
    faithful = h;
  }

  -- With a faithful cache, stamped for whatever padding, `to_delta_mpt_key_bytes` answers what it
  -- answers without a cache, errors included, and leaves a faithful cache.
  pub to_delta_mpt_key_bytes-cache :
      (k : StorageKeyWithSpace) (padding : DeltaMptKeyPadding) (cache : AccountKeyCache)
      → IsFaithful cache
      → Transparent
          (to_delta_mpt_key_bytes keccak k padding (some cache))
          (to_delta_mpt_key_bytes keccak k padding none)
  to_delta_mpt_key_bytes-cache k padding cache h = by_key k.key k.space padding cache h
