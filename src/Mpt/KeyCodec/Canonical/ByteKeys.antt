-- ===== src/Mpt/KeyCodec/Canonical/ByteKeys.antt =====
-- The canonical form of a key whose parts are bytes is made of bytes.
use cfx_minimal_execution.Common.{
  ℕ, ◌≡◌, arith, List, [], ◌∷◌, ◌++◌, length, ltb, ok, err, All-append, All-take, All-drop,
  Bool-cases, inl, inr, subst, ◌==◌, take, drop,
}
use cfx_minimal_execution.Common.Bytes.{IsByte, IsBytes}
use cfx_minimal_execution.Mpt.Types.{Space, native, ethereum, MptResult}
use cfx_minimal_execution.Mpt.KeyCodec.Canonical.{
  account_bytes, StorageKey, account, storage_root, storage, code_root, code, deposit_list,
  vote_list, empty, address_prefix, StorageKeyWithSpace, add_space_to_snapshot_key, snapshot_key,
  to_key_bytes, append_prefix, checked_address, storage_prefix, code_hash_prefix,
  deposit_list_prefix, vote_list_prefix, evm_space_type,
}

-- The parts of the key are byte strings.
abbrev pub IsByteKey : StorageKey → Type 0
IsByteKey (account address) = IsBytes address
IsByteKey (storage_root address) = IsBytes address
IsByteKey (storage address storage_key) = IsBytes address × IsBytes storage_key
IsByteKey (code_root address) = IsBytes address
IsByteKey (code address code_hash) = IsBytes address × IsBytes code_hash
IsByteKey (deposit_list address) = IsBytes address
IsByteKey (vote_list address) = IsBytes address
IsByteKey empty = Unit
IsByteKey (address_prefix prefix) = IsBytes prefix

pub storage_prefix-IsBytes : IsBytes storage_prefix
storage_prefix-IsBytes = (omega arith, (omega arith, (omega arith, (omega arith, tt))))

pub code_hash_prefix-IsBytes : IsBytes code_hash_prefix
code_hash_prefix-IsBytes = (omega arith, (omega arith, (omega arith, (omega arith, tt))))

pub deposit_list_prefix-IsBytes : IsBytes deposit_list_prefix
deposit_list_prefix-IsBytes = (
  omega arith,
  (omega arith, (omega arith, (omega arith, (omega arith, (omega arith, (omega arith, tt)))))),
)

pub vote_list_prefix-IsBytes : IsBytes vote_list_prefix
vote_list_prefix-IsBytes = (omega arith, (omega arith, (omega arith, (omega arith, tt))))

-- A result, if there is one, is a byte string.
abbrev pub GivesBytes : MptResult (List ℕ) → Type 0
GivesBytes (ok bytes) = IsBytes bytes
GivesBytes (err e) = Unit

add_space-IsBytes :
    (key : List ℕ) (space : Space) → IsBytes key → IsBytes (add_space_to_snapshot_key key space)
unfolding add_space_to_snapshot_key
add_space-IsBytes key native h = h
add_space-IsBytes key ethereum h =
    All-append IsByte (take account_bytes key) (evm_space_type ∷ drop account_bytes key)
      (All-take IsByte account_bytes key h) (omega arith, All-drop IsByte account_bytes key h)

snapshot_key-GivesBytes :
    (a suffix : List ℕ) (space : Space)
    → IsBytes a
    → IsBytes suffix
    → GivesBytes (snapshot_key a suffix space)
unfolding snapshot_key checked_address append_prefix
snapshot_key-GivesBytes a suffix space h g = elim (Bool-cases (length a == account_bytes)) [
  | inl whole ↦ rw whole (add_space-IsBytes (a ++ suffix) space (All-append IsByte a suffix h g))
  | inr other ↦ rw other tt
]

by_key :
    (key : StorageKey) (space : Space)
    → IsByteKey key
    → GivesBytes (to_key_bytes (record { key = key; space = space }))
unfolding to_key_bytes
by_key (account a) space h = elim (Bool-cases (ltb (length a) account_bytes)) [
  | inl short ↦ rw short h
  | inr whole ↦ rw whole (snapshot_key-GivesBytes a [] space h tt)
]
by_key (storage_root a) space h = snapshot_key-GivesBytes a _ space h storage_prefix-IsBytes
by_key (storage a key) space (h, g) =
    snapshot_key-GivesBytes a (storage_prefix ++ key) space h
      (All-append IsByte storage_prefix key storage_prefix-IsBytes g)
by_key (code_root a) space h = snapshot_key-GivesBytes a _ space h code_hash_prefix-IsBytes
by_key (code a hash) space (h, g) =
    snapshot_key-GivesBytes a (code_hash_prefix ++ hash) space h
      (All-append IsByte code_hash_prefix hash code_hash_prefix-IsBytes g)
by_key (deposit_list a) space h = snapshot_key-GivesBytes a _ space h deposit_list_prefix-IsBytes
by_key (vote_list a) space h = snapshot_key-GivesBytes a _ space h vote_list_prefix-IsBytes
by_key empty space h = tt
by_key (address_prefix p) space h = h

pub to_key_bytes-IsBytes :
    (k : StorageKeyWithSpace) (c : List ℕ) → IsByteKey k.key → to_key_bytes k ≡ ok c → IsBytes c
to_key_bytes-IsBytes k c h e = subst GivesBytes e (by_key k.key k.space h)
