-- ===== src/Mpt/Stateless/NibbleKeys.antt =====
-- `trie_root` reads a map's keys as nibbles, which keeps their order: a write of the map is a write
-- of the trie's entries.
use cfx_minimal_execution.Common.{ℕ, ◌≡◌, refl, ap, arith, List, [], ◌∷◌, inl, inr}
use cfx_minimal_execution.Common.Bits.{bit_and_0f}
use cfx_minimal_execution.Common.ByteMap.{lex, insert}
use cfx_minimal_execution.Mpt.Types.{H256}
use cfx_minimal_execution.Mpt.Trie.{MptValue, bytes_to_nibbles}
use cfx_minimal_execution.Mpt.Incremental.{Entries}
use cfx_minimal_execution.Mpt.Incremental.Ordered.{lex-cases}
use cfx_minimal_execution.Mpt.Stateless.{nibble_keys, trie_root, root_for_entries}

lex-bytes_to_nibbles : (a b : List ℕ) → lex (bytes_to_nibbles a) (bytes_to_nibbles b) ≡ lex a b
unfolding lex bytes_to_nibbles
lex-bytes_to_nibbles [] [] = refl
lex-bytes_to_nibbles [] (y ∷ b) = refl
lex-bytes_to_nibbles (x ∷ a) [] = refl
lex-bytes_to_nibbles (x ∷ a) (y ∷ b) =
    ground (arith, bit_and_0f x, bit_and_0f y, lex-bytes_to_nibbles a b)

pub nibble_keys-insert :
    (k : List ℕ) (v : MptValue) (m : Entries)
    → nibble_keys (insert k v m) ≡ insert (bytes_to_nibbles k) v (nibble_keys m)
unfolding nibble_keys insert
nibble_keys-insert k v [] = refl
nibble_keys-insert k v ((j, w) ∷ m) = elim (lex-cases (lex k j)) [
  | inl before ↦ rw (insert, lex-bytes_to_nibbles k j, before) refl
  | inr (inl here) ↦ rw (insert, lex-bytes_to_nibbles k j, here) refl
  | inr (inr after) ↦
      rw (insert, lex-bytes_to_nibbles k j, after)
        (ap (λ n. (bytes_to_nibbles j, w) ∷ n) (nibble_keys-insert k v m))
]

pub trie_root-eq-root_for_entries :
    (keccak : List ℕ → H256) (kv : Entries)
    → trie_root keccak kv ≡ root_for_entries keccak (nibble_keys kv)
unfolding trie_root root_for_entries nibble_keys
trie_root-eq-root_for_entries keccak [] = refl
trie_root-eq-root_for_entries keccak (e ∷ kv) = refl
