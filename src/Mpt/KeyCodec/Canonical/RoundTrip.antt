-- ===== src/Mpt/KeyCodec/Canonical/RoundTrip.antt =====
-- `from_key_bytes` reads back what `to_key_bytes` writes.
use cfx_minimal_execution.Common.{
  ℕ, ◌≡◌, ◌≢◌, ◌<◌, refl, sym, ap, ◌∙◌, arith, false, List, [], ◌∷◌, ◌++◌, length, drop, lt→ltb,
  ==_iff, ◌≤◌, length-append, take-append_at, drop-append_at, get_or-append_at, drop-append_past,
  ok, ok_injective, ◌>>=◌, ◌==◌, ltb, true,
}
use cfx_minimal_execution.Mpt.Types.{Space, native, ethereum}
use cfx_minimal_execution.Mpt.KeyCodec.Canonical.{
  account_bytes, StorageKey, account, storage_root, storage, code_root, code, deposit_list,
  vote_list, empty, address_prefix, StorageKeyWithSpace, evm_space_type, byte_at,
  add_space_to_snapshot_key, split_snapshot_key, snapshot_suffix, snapshot_key, with_space,
  to_key_bytes, from_key_bytes, is_empty,
}

abbrev IsAddress : List ℕ → Type 0
IsAddress a = length a ≡ account_bytes

-- The keys that their canonical bytes determine: 20-byte addresses, no empty storage key or code
-- hash, and for the two keys without an address the native space.
abbrev pub IsCanonical : StorageKeyWithSpace → Type 0
IsCanonical k = elim k.key [
  | account address ↦ IsAddress address
  | storage_root address ↦ IsAddress address
  | storage address storage_key ↦ IsAddress address × (storage_key ≢ [])
  | code_root address ↦ IsAddress address
  | code address code_hash ↦ IsAddress address × (code_hash ≢ [])
  | deposit_list address ↦ IsAddress address
  | vote_list address ↦ IsAddress address
  | empty ↦ k.space ≡ native
  | address_prefix prefix ↦ (prefix ≢ []) × (length prefix < account_bytes) × (k.space ≡ native)
]

split_lem :
    (a suffix : List ℕ) (space : Space)
    → IsAddress a
    → (byte_at suffix 0 == evm_space_type) ≡ false
    → split_snapshot_key (add_space_to_snapshot_key (a ++ suffix) space) ≡ (space, a, suffix)
unfolding split_snapshot_key add_space_to_snapshot_key
split_lem a suffix native h e =
    rw
      (
        get_or-append_at 20 a suffix 0 h,
        e,
        take-append_at 20 a suffix h,
        drop-append_at 20 a suffix h,
      )
      (ground arith)
split_lem a suffix ethereum h e =
    let marked : List ℕ = evm_space_type ∷ suffix in
    let long : ltb 20 (length (a ++ marked)) ≡ true =
      lt→ltb _ _ (omega (arith, length-append a marked)) in
    rw (take-append_at 20 a suffix h, drop-append_at 20 a suffix h)
      (rw (
        long,
        get_or-append_at 20 a marked 0 h,
        take-append_at 20 a marked h,
        drop-append_past 20 a evm_space_type suffix h,
      ))

long_enough :
    (a suffix : List ℕ) (space : Space)
    → IsAddress a
    → 20 ≤ length (add_space_to_snapshot_key (a ++ suffix) space)
unfolding add_space_to_snapshot_key
long_enough a suffix native h = omega (arith, length-append a suffix)
long_enough a suffix ethereum h =
    rw (take-append_at 20 a suffix h)
      (omega (arith, length-append a (evm_space_type ∷ drop 20 (a ++ suffix))))

not_short :
    (raw : List ℕ) → 20 ≤ length raw → (is_empty raw ≡ false) × (ltb (length raw) 20 ≡ false)
not_short [] h = absurd (omega arith)
not_short (b ∷ raw) h = (refl, ground arith)

-- The bytes of an address, a suffix and a space are read in these three parts.
from_key_bytes_lem :
    (a suffix : List ℕ) (space : Space)
    → IsAddress a
    → (byte_at suffix 0 == evm_space_type) ≡ false
    → (snapshot_key a suffix space >>= from_key_bytes) ≡ with_space space (snapshot_suffix a suffix)
unfolding snapshot_key from_key_bytes
from_key_bytes_lem a suffix space h e =
    let (nonempty, nonshort) = not_short _ (long_enough a suffix space h) in
    let found : (length a == 20) ≡ true = (==_iff (length a) 20).1 h in
    rw (found) (rw (nonempty, nonshort, split_lem a suffix space h e))

there_and_back :
    (key : StorageKey) (space : Space)
    → IsCanonical (record { key = key; space = space })
    → (to_key_bytes (record { key = key; space = space }) >>= from_key_bytes)
      ≡ ok (record { key = key; space = space })
unfolding to_key_bytes with_space snapshot_suffix
there_and_back (account a) space h =
    let whole : ltb (length a) 20 ≡ false = (not_short a (omega (arith, h))).1 in
    rw whole (from_key_bytes_lem a [] space h refl)
there_and_back (storage_root a) space h = from_key_bytes_lem a _ space h refl
there_and_back (storage a []) space h = absurd (h.1 refl)
there_and_back (storage a (b ∷ key)) space h = from_key_bytes_lem a _ space h.0 refl
there_and_back (code_root a) space h = from_key_bytes_lem a _ space h refl
there_and_back (code a []) space h = absurd (h.1 refl)
there_and_back (code a (b ∷ hash)) space h = from_key_bytes_lem a _ space h.0 refl
there_and_back (deposit_list a) space h = from_key_bytes_lem a _ space h refl
there_and_back (vote_list a) space h = from_key_bytes_lem a _ space h refl
there_and_back empty space h = unfold from_key_bytes in ground arith
there_and_back (address_prefix []) space h = absurd (h.0 refl)
there_and_back (address_prefix (b ∷ p)) space h = unfold from_key_bytes in ground arith

-- `to_key_bytes` succeeds on a key with a 20-byte address and no empty storage key or code hash,
-- on the empty key and on a prefix of 1 to 19 bytes in the native space, and `from_key_bytes` gives
-- the key back.
pub from_key_bytes-to_key_bytes :
    (k : StorageKeyWithSpace) → IsCanonical k → (to_key_bytes k >>= from_key_bytes) ≡ ok k
from_key_bytes-to_key_bytes k h = there_and_back k.key k.space h

-- Two keys with the same canonical bytes are the same key, where they have 20-byte addresses and no
-- empty storage key or code hash, or are the empty key or a prefix of 1 to 19 bytes in the native
-- space.
pub to_key_bytes_injective :
    (k l : StorageKeyWithSpace)
    → IsCanonical k
    → IsCanonical l
    → to_key_bytes k ≡ to_key_bytes l
    → k ≡ l
to_key_bytes_injective k l hk hl e = ok_injective (
    sym (from_key_bytes-to_key_bytes k hk)
    ∙ ap (λ r. r >>= from_key_bytes) e
    ∙ from_key_bytes-to_key_bytes l hl)
