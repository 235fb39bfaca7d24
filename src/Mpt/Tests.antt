-- ===== src/Mpt/Tests.antt =====
-- Runs of the incremental trie and of the nibble codec on concrete keys.
use cfx_minimal_execution.Common.{◌≡◌, arith, some, [], ◌∷◌}
use cfx_minimal_execution.Mpt.Types.{H256}
use cfx_minimal_execution.Mpt.Trie.{value, tombstone}
use cfx_minimal_execution.Mpt.Incremental.{
  IncrementalTrie, empty_trie, insert_entry, remove_entry, full, skip_singleton, root_with_policy,
}
use cfx_minimal_execution.Mpt.Incremental.Root.{
  IsTrie, empty_trie-IsTrie, insert_entry-IsTrie, remove_entry-IsTrie, root_eq_cold, cold,
  root_with_policy-eq-root_for_entries,
}
use cfx_minimal_execution.Mpt.Stateless.{root_for_entries}
use cfx_minimal_execution.Mpt.ToyHash.{toy_hash}

abbrev one : IncrementalTrie
one = insert_entry empty_trie (0x12 ∷ []) (value (1 ∷ []))

abbrev two : IncrementalTrie
two = insert_entry one (0x13 ∷ 0x55 ∷ []) tombstone

one_good : IsTrie toy_hash one
one_good =
    insert_entry-IsTrie toy_hash empty_trie (0x12 ∷ []) (value (1 ∷ [])) (omega arith, tt)
      (empty_trie-IsTrie toy_hash)

two_good : IsTrie toy_hash two
two_good =
    insert_entry-IsTrie toy_hash one (0x13 ∷ 0x55 ∷ []) tombstone (omega arith, (omega arith, tt))
      one_good

insert_entry-IsTrie_example : IsTrie toy_hash (insert_entry two (0x12 ∷ []) (value (2 ∷ [])))
insert_entry-IsTrie_example =
    insert_entry-IsTrie toy_hash two (0x12 ∷ []) (value (2 ∷ [])) (omega arith, tt) two_good

remove_entry-IsTrie_example : IsTrie toy_hash (remove_entry two (0x12 ∷ []))
remove_entry-IsTrie_example = remove_entry-IsTrie toy_hash two (0x12 ∷ []) two_good

root_eq_cold_example :
    (h : H256) × (t u : IncrementalTrie) × (root_with_policy toy_hash skip_singleton two
      ≡ some (h, t))
    × (root_with_policy toy_hash full (cold toy_hash two) ≡ some (h, u))
    × (t.entries ≡ two.entries)
    × IsTrie toy_hash t
root_eq_cold_example = root_eq_cold toy_hash skip_singleton full two two_good

root_with_policy-eq-root_for_entries_example :
    (h : H256) × (t : IncrementalTrie) × (root_with_policy toy_hash skip_singleton two
      ≡ some (h, t))
    × (root_for_entries toy_hash two.entries ≡ some h)
root_with_policy-eq-root_for_entries_example =
    root_with_policy-eq-root_for_entries toy_hash skip_singleton two two_good
