-- ===== src/Mpt/KeyCodec/Canonical.antt =====
-- The data of key_codec.rs and the canonical (snapshot) byte strings of storage keys: `to_key_bytes`
-- and `from_key_bytes`.
pub mod RoundTrip
pub mod ByteKeys
use cfx_minimal_execution.Common.{
  ℕ, zero, suc, ◌+◌, ◌≡◌, arith, bit_and, Bool, true, false, not, ◌&&◌, Option, none, some, List,
  [], ◌∷◌, ◌++◌, length, get_or, take, drop, ltb, leb, ◌==◌, if◌then◌else◌, Result, ok, err, ◌>>=◌,
}
use cfx_minimal_execution.Common.ByteMap.{ByteMap, bytes_eq, get, insert}
use cfx_minimal_execution.Mpt.Types.{
  H256, merkle_null_node, Space, native, ethereum, Error, invalid_key, MptResult,
}

abbrev pub account_bytes : ℕ
account_bytes = 20

abbrev pub account_keypart_bytes : ℕ
account_keypart_bytes = 32

abbrev pub account_padding_bytes : ℕ
account_padding_bytes = 12

abbrev pub key_padding_bytes : ℕ
key_padding_bytes = 32

abbrev pub evm_space_type : ℕ
evm_space_type = 0x81

-- "data", "code", "deposit" and "vote".
abbrev pub storage_prefix : List ℕ
storage_prefix = b'd' ∷ b'a' ∷ b't' ∷ b'a' ∷ []

abbrev pub code_hash_prefix : List ℕ
code_hash_prefix = b'c' ∷ b'o' ∷ b'd' ∷ b'e' ∷ []

abbrev pub deposit_list_prefix : List ℕ
deposit_list_prefix = b'd' ∷ b'e' ∷ b'p' ∷ b'o' ∷ b's' ∷ b'i' ∷ b't' ∷ []

abbrev pub vote_list_prefix : List ℕ
vote_list_prefix = b'v' ∷ b'o' ∷ b't' ∷ b'e' ∷ []

pub data StorageKey : Type 0 where
  account : List ℕ → StorageKey
  storage_root : List ℕ → StorageKey
  -- The address, then the storage key.
  storage : List ℕ → List ℕ → StorageKey
  code_root : List ℕ → StorageKey
  -- The address, then the code hash.
  code : List ℕ → List ℕ → StorageKey
  deposit_list : List ℕ → StorageKey
  vote_list : List ℕ → StorageKey
  empty : StorageKey
  address_prefix : List ℕ → StorageKey

pub record StorageKeyWithSpace : Type 0 where
  pub key : StorageKey
  pub space : Space

abbrev pub DeltaMptKeyPadding : Type 0
DeltaMptKeyPadding = List ℕ

-- `slice.starts_with(prefix)`.
unfoldable pub starts_with : List ℕ → List ℕ → Bool
starts_with bytes [] = true
starts_with [] (p ∷ ps) = false
starts_with (b ∷ bs) (p ∷ ps) = b == p && starts_with bs ps

unfoldable pub checked_address : List ℕ → MptResult (List ℕ)
checked_address address =
    if length address == account_bytes
    then ok address
    else err (invalid_key "address must be 20 bytes")

unfoldable pub append_prefix : List ℕ → List ℕ → List ℕ
append_prefix address prefix = address ++ prefix

-- The keys that come here are no shorter than the position of the marker.
unfoldable pub add_space_to_snapshot_key : List ℕ → Space → List ℕ
add_space_to_snapshot_key key native = key
add_space_to_snapshot_key key ethereum =
    take account_bytes key ++ (evm_space_type ∷ drop account_bytes key)

unfoldable pub add_space_to_delta_key : List ℕ → Space → List ℕ
add_space_to_delta_key key native = key
add_space_to_delta_key key ethereum =
    take account_keypart_bytes key ++ (evm_space_type ∷ drop account_keypart_bytes key)

-- The match of `to_key_bytes` on a checked address, before the space is added.
snapshot_key : List ℕ → List ℕ → Space → MptResult (List ℕ)
unfolding checked_address append_prefix add_space_to_snapshot_key
snapshot_key address suffix space = do
  address ← checked_address address
  ok (add_space_to_snapshot_key (append_prefix address suffix) space)

unfoldable pub to_key_bytes : StorageKeyWithSpace → MptResult (List ℕ)
unfolding snapshot_key
to_key_bytes k = elim k.key [
  | account address ↦
      if ltb (length address) account_bytes then ok address else snapshot_key address [] k.space
  | storage_root address ↦ snapshot_key address storage_prefix k.space
  | storage address storage_key ↦ snapshot_key address (storage_prefix ++ storage_key) k.space
  | code_root address ↦ snapshot_key address code_hash_prefix k.space
  | code address code_hash ↦ snapshot_key address (code_hash_prefix ++ code_hash) k.space
  | deposit_list address ↦ snapshot_key address deposit_list_prefix k.space
  | vote_list address ↦ snapshot_key address vote_list_prefix k.space
  | empty ↦ ok []
  | address_prefix prefix ↦ ok prefix
]

-- `raw[i]`, where a guard has checked the bound.
abbrev pub byte_at : List ℕ → ℕ → ℕ
byte_at raw i = get_or raw i 0

abbrev pub is_empty : List ℕ → Bool
is_empty [] = true
is_empty (b ∷ bs) = false

-- The chain of suffix tests of `from_key_bytes`.
snapshot_suffix : List ℕ → List ℕ → MptResult StorageKey
unfolding starts_with bytes_eq
snapshot_suffix address rest =
    if is_empty rest
    then ok (account address)
    else if starts_with rest storage_prefix
    then (let suffix = drop (length storage_prefix) rest in
        if is_empty suffix then ok (storage_root address) else ok (storage address suffix))
    else if starts_with rest code_hash_prefix
    then (let suffix = drop (length code_hash_prefix) rest in
        if is_empty suffix then ok (code_root address) else ok (code address suffix))
    else if bytes_eq rest deposit_list_prefix
    then ok (deposit_list address)
    else if bytes_eq rest vote_list_prefix
    then ok (vote_list address)
    else err (invalid_key "unknown snapshot key suffix")

-- The space, the address and what follows them, of a key of 20 bytes or more.
split_snapshot_key : List ℕ → Space × List ℕ × List ℕ
split_snapshot_key raw =
    if ltb account_bytes (length raw) && byte_at raw account_bytes == evm_space_type
    then (ethereum, take account_bytes raw, drop (account_bytes + 1) raw)
    else (native, take account_bytes raw, drop account_bytes raw)

unfoldable pub with_space : Space → MptResult StorageKey → MptResult StorageKeyWithSpace
with_space space r = do key ← r; ok (record { key = key; space = space })

unfoldable pub from_key_bytes : List ℕ → MptResult StorageKeyWithSpace
unfolding split_snapshot_key snapshot_suffix with_space
from_key_bytes raw =
    if is_empty raw
    then ok (record { key = empty; space = native })
    else if ltb (length raw) account_bytes
    then ok (record { key = address_prefix raw; space = native })
    else (let (space, address, rest) = split_snapshot_key raw in
        with_space space (snapshot_suffix address rest))
