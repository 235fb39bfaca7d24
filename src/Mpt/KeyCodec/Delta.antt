-- ===== src/Mpt/KeyCodec/Delta.antt =====
-- The delta keys of key_codec.rs: the account part is hashed with the padding of the period, and
-- a cache keeps the hashed account parts.
pub mod RoundTrip
pub mod ByteKeys
pub mod Cache
use cfx_minimal_execution.Common.{
  ℕ, ◌+◌, Bool, not, ◌&&◌, Option, none, some, List, [], ◌∷◌, ◌++◌, length, take, drop, ltb, ◌==◌,
  bit_and, if◌then◌else◌, Result, ok, err, ◌>>=◌,
}
use cfx_minimal_execution.Common.ByteMap.{ByteMap, bytes_eq, get, insert}
use cfx_minimal_execution.Mpt.Types.{
  H256, merkle_null_node, Space, native, ethereum, Error, invalid_key, MptResult,
}
use cfx_minimal_execution.Mpt.KeyCodec.Canonical.{
  account_bytes, account_keypart_bytes, account_padding_bytes, key_padding_bytes, evm_space_type,
  storage_prefix, code_hash_prefix, deposit_list_prefix, vote_list_prefix, StorageKey, account,
  storage_root, storage, code_root, code, deposit_list, vote_list, empty, address_prefix,
  StorageKeyWithSpace, DeltaMptKeyPadding, starts_with, checked_address, add_space_to_delta_key,
  byte_at, is_empty, with_space,
}

-- `AccountKeyCache`, of which the default is built for the genesis padding.
pub record AccountKeyCache : Type 0 where
  pub built_for : DeltaMptKeyPadding
  pub map : ByteMap (List ℕ)

-- The chain of suffix tests of `from_delta_mpt_key`.
delta_suffix : List ℕ → List ℕ → MptResult StorageKey
unfolding starts_with
delta_suffix address rest =
    if starts_with rest storage_prefix
    then if length rest == length storage_prefix
      then ok (storage_root address)
      else if ltb (length rest) key_padding_bytes
      then err (invalid_key "storage delta key missing padded storage key")
      else ok (storage address (drop key_padding_bytes rest))
    else if starts_with rest code_hash_prefix
    then (let code_hash = drop (length code_hash_prefix) rest in
        if is_empty code_hash then ok (code_root address) else ok (code address code_hash))
    else if starts_with rest deposit_list_prefix
    then ok (deposit_list address)
    else if starts_with rest vote_list_prefix
    then ok (vote_list address)
    else err (invalid_key "unknown delta key suffix")

-- The part behind the account: a marker, if the top bit of its first byte is set, and the suffix.
delta_rest : List ℕ → List ℕ → MptResult StorageKeyWithSpace
unfolding delta_suffix with_space
delta_rest address tail =
    if not (bit_and (byte_at tail 0) 0x80 == 0)
    then if not (byte_at tail 0 == evm_space_type)
      then err (invalid_key "unknown delta space marker")
      else with_space ethereum (delta_suffix address (drop 1 tail))
    else with_space native (delta_suffix address tail)

unfoldable pub from_delta_mpt_key : List ℕ → MptResult StorageKeyWithSpace
unfolding delta_rest
from_delta_mpt_key raw =
    let address = drop account_padding_bytes (take account_keypart_bytes raw) in
    if ltb (length raw) account_keypart_bytes
    then ok (record { key = account raw; space = native })
    else if length raw == account_keypart_bytes
    then ok (record { key = account address; space = native })
    else if length raw == account_keypart_bytes + 1
        && byte_at raw account_keypart_bytes == evm_space_type
    then ok (record { key = account address; space = ethereum })
    else delta_rest address (drop account_keypart_bytes raw)

module _ (keccak : List ℕ → H256) where
  unfoldable pub from_roots : H256 → H256 → DeltaMptKeyPadding
  from_roots snapshot_root intermediate_delta_root =
      keccak (snapshot_root ++ intermediate_delta_root)

  unfoldable pub genesis : DeltaMptKeyPadding
  unfolding from_roots
  genesis = from_roots merkle_null_node merkle_null_node

  unfoldable pub empty_cache : AccountKeyCache
  unfolding genesis
  empty_cache = record { built_for = genesis; map = [] }

  unfoldable pub account_key_uncached : List ℕ → DeltaMptKeyPadding → List ℕ
  account_key_uncached address padding =
      take account_padding_bytes (keccak (take account_padding_bytes padding ++ address)) ++ address

  -- The entries for another padding are stale, and are dropped first.
  fresh_cache : DeltaMptKeyPadding → AccountKeyCache → AccountKeyCache
  unfolding bytes_eq
  fresh_cache padding cache =
      if not (bytes_eq cache.built_for padding)
      then record { built_for = padding; map = [] }
      else cache

  cached_key : List ℕ → DeltaMptKeyPadding → AccountKeyCache → List ℕ × AccountKeyCache
  unfolding account_key_uncached
  cached_key address padding cache = elim (get address cache.map) [
    | some hit ↦ (hit, cache)
    | none ↦
        let key = account_key_uncached address padding in
        (key, record cache { map = insert address key cache.map })
  ]

  unfoldable pub new_account_key :
      List ℕ → DeltaMptKeyPadding → Option AccountKeyCache → List ℕ × Option AccountKeyCache
  unfolding account_key_uncached fresh_cache cached_key
  new_account_key address padding none = (account_key_uncached address padding, none)
  new_account_key address padding (some cache) =
      let (key, cache') = cached_key address padding (fresh_cache padding cache) in
      (key, some cache')

  unfoldable pub storage_key_padding : List ℕ → DeltaMptKeyPadding → DeltaMptKeyPadding
  storage_key_padding storage_key padding = keccak (padding ++ storage_key)

  -- An account key followed by `suffix`; the cache is read and filled only behind a good address.
  delta_key :
      List ℕ
      → List ℕ
      → Space
      → DeltaMptKeyPadding
      → Option AccountKeyCache
      → MptResult (List ℕ) × Option AccountKeyCache
  unfolding checked_address new_account_key add_space_to_delta_key
  delta_key address suffix space padding cache = elim (checked_address address) [
    | err e ↦ (err e, cache)
    | ok address' ↦
        let (key, cache') = new_account_key address' padding cache in
        (ok (add_space_to_delta_key (key ++ suffix) space), cache')
  ]

  unfoldable pub to_delta_mpt_key_bytes :
      StorageKeyWithSpace
      → DeltaMptKeyPadding
      → Option AccountKeyCache
      → MptResult (List ℕ) × Option AccountKeyCache
  unfolding delta_key storage_key_padding
  to_delta_mpt_key_bytes k padding cache = elim k.key [
    | account address ↦
        if ltb (length address) account_bytes
        then (ok address, cache)
        else delta_key address [] k.space padding cache
    | storage_root address ↦ delta_key address storage_prefix k.space padding cache
    | storage address storage_key ↦
        let padded = drop (length storage_prefix) (storage_key_padding storage_key padding) in
        delta_key address (storage_prefix ++ (padded ++ storage_key)) k.space padding cache
    | code_root address ↦ delta_key address code_hash_prefix k.space padding cache
    | code address code_hash ↦
        delta_key address (code_hash_prefix ++ code_hash) k.space padding cache
    | deposit_list address ↦ delta_key address deposit_list_prefix k.space padding cache
    | vote_list address ↦ delta_key address vote_list_prefix k.space padding cache
    | empty ↦ (ok [], cache)
    | address_prefix prefix ↦ (ok [], cache)
  ]
