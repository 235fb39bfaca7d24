-- ===== src/Mpt/KeyCodec/Delta/ByteKeys.antt =====
-- The delta form of a key whose parts are bytes is made of bytes.
use cfx_minimal_execution.Common.{
  ℕ, ◌≡◌, arith, none, List, [], ◌∷◌, ◌++◌, length, ltb, ok, subst, take, drop, ◌==◌, All-append,
  All-take, All-drop, Bool-cases, inl, inr,
}
use cfx_minimal_execution.Common.Bytes.{IsByte, IsBytes}
use cfx_minimal_execution.Mpt.Types.{H256, Space, native, ethereum}
use cfx_minimal_execution.Mpt.KeyCodec.Canonical.{
  account_bytes, StorageKey, account, storage_root, storage, code_root, code, deposit_list,
  vote_list, empty, address_prefix, StorageKeyWithSpace, DeltaMptKeyPadding, add_space_to_delta_key,
  checked_address, storage_prefix, code_hash_prefix, deposit_list_prefix, vote_list_prefix,
  evm_space_type,
}
use cfx_minimal_execution.Mpt.KeyCodec.Canonical.ByteKeys.{
  IsByteKey, GivesBytes, storage_prefix-IsBytes, code_hash_prefix-IsBytes,
  deposit_list_prefix-IsBytes, vote_list_prefix-IsBytes,
}
use cfx_minimal_execution.Mpt.KeyCodec.Delta.{
  delta_key, to_delta_mpt_key_bytes, account_key_uncached, new_account_key, storage_key_padding,
}

add_space-IsBytes :
    (key : List ℕ) (space : Space) → IsBytes key → IsBytes (add_space_to_delta_key key space)
unfolding add_space_to_delta_key
add_space-IsBytes key native h = h
add_space-IsBytes key ethereum h =
    All-append IsByte (take 32 key) (evm_space_type ∷ drop 32 key) (All-take IsByte 32 key h)
      (omega arith, All-drop IsByte 32 key h)

module _ (keccak : List ℕ → H256) (hash_bytes : (m : List ℕ) → IsBytes (keccak m)) where
  account_key-IsBytes :
      (a : List ℕ) (padding : DeltaMptKeyPadding)
      → IsBytes a
      → IsBytes (account_key_uncached keccak a padding)
  unfolding account_key_uncached
  account_key-IsBytes a padding h =
      All-append IsByte _ a (All-take IsByte 12 _ (hash_bytes (take 12 padding ++ a))) h

  delta_key-GivesBytes :
      (a suffix : List ℕ) (space : Space) (padding : DeltaMptKeyPadding)
      → IsBytes a
      → IsBytes suffix
      → GivesBytes (delta_key keccak a suffix space padding none).0
  unfolding delta_key checked_address new_account_key
  delta_key-GivesBytes a suffix space padding h g = elim (Bool-cases (length a == account_bytes)) [
    | inl whole ↦
        rw (whole, delta_key)
          (add_space-IsBytes (account_key_uncached keccak a padding ++ suffix) space (
            All-append IsByte (account_key_uncached keccak a padding) suffix
              (account_key-IsBytes a padding h) g))
    | inr other ↦ rw (other, delta_key) tt
  ]

  by_key :
      (key : StorageKey) (space : Space) (padding : DeltaMptKeyPadding)
      → IsByteKey key
      → GivesBytes
          (to_delta_mpt_key_bytes keccak (record { key = key; space = space }) padding none).0
  unfolding to_delta_mpt_key_bytes storage_key_padding
  by_key (account a) space padding h = elim (Bool-cases (ltb (length a) account_bytes)) [
    | inl short ↦ rw short h
    | inr whole ↦ rw whole (delta_key-GivesBytes a [] space padding h tt)
  ]
  by_key (storage_root a) space padding h =
      delta_key-GivesBytes a storage_prefix space padding h storage_prefix-IsBytes
  by_key (storage a key) space padding (h, g) =
      let padded = drop 4 (keccak (padding ++ key)) in
      delta_key-GivesBytes a (storage_prefix ++ (padded ++ key)) space padding h (
        All-append IsByte storage_prefix (padded ++ key) storage_prefix-IsBytes
          (All-append IsByte padded key (All-drop IsByte 4 _ (hash_bytes (padding ++ key))) g))
  by_key (code_root a) space padding h =
      delta_key-GivesBytes a code_hash_prefix space padding h code_hash_prefix-IsBytes
  by_key (code a hash) space padding (h, g) =
      delta_key-GivesBytes a (code_hash_prefix ++ hash) space padding h
        (All-append IsByte code_hash_prefix hash code_hash_prefix-IsBytes g)
  by_key (deposit_list a) space padding h =
      delta_key-GivesBytes a deposit_list_prefix space padding h deposit_list_prefix-IsBytes
  by_key (vote_list a) space padding h =
      delta_key-GivesBytes a vote_list_prefix space padding h vote_list_prefix-IsBytes
  by_key empty space padding h = tt
  by_key (address_prefix p) space padding h = tt

  pub to_delta_mpt_key_bytes-IsBytes :
      (k : StorageKeyWithSpace) (padding : DeltaMptKeyPadding) (raw : List ℕ)
      → IsByteKey k.key
      → (to_delta_mpt_key_bytes keccak k padding none).0 ≡ ok raw
      → IsBytes raw
  to_delta_mpt_key_bytes-IsBytes k padding raw h e =
      subst GivesBytes e (by_key k.key k.space padding h)
