-- ===== src/Mpt/Incremental/Fresh.antt =====
-- The cached hashes of a trie, across its writes: each is true unless a dirty key makes it stale.
use cfx_minimal_execution.Common.{ℕ, ◌≡◌, sym, ◌∙◌, false, some, List, []}
use cfx_minimal_execution.Common.ByteMap.{ByteMap, get, insert, remove}
use cfx_minimal_execution.Mpt.Types.{H256}
use cfx_minimal_execution.Mpt.Trie.{MptValue, bytes_to_nibbles}
use cfx_minimal_execution.Mpt.Incremental.{
  Entries, IncrementalTrie, from_delta, insert_entry, remove_entry, clear, evict_dirty,
}
use cfx_minimal_execution.Mpt.Incremental.Blocks.{block-eq-keep, keep-insert, keep-remove}
use cfx_minimal_execution.Mpt.Incremental.Plain.{IsHash, IsHash-local}
use cfx_minimal_execution.Mpt.Incremental.CacheSound.{nonempty, IsValidCache}
use cfx_minimal_execution.Mpt.Incremental.Evict.{
  touched, under-false, touched-insert, get-evict_dirty,
}

module _ (keccak : List ℕ → H256) where
  -- A cached hash is true unless some dirty key lies at its node or below.
  pub record IsFresh (t : IncrementalTrie) : Type 0 where
    pub true_hash :
        (rp : List ℕ) (h : H256)
        → get rp t.cache ≡ some h
        → touched rp t.dirty ≡ false
        → IsHash keccak t.entries rp (nonempty rp) h

  pub cold-IsFresh :
      (m : Entries) (d : ByteMap (Unit {0}))
      → IsFresh (record { entries = m; cache = []; dirty = d })
  cold-IsFresh m d = record { true_hash = λ rp h e. unfold get in cc }

  pub from_delta-IsFresh : (delta : Entries) → IsFresh (from_delta delta)
  unfolding from_delta
  from_delta-IsFresh delta = cold-IsFresh _ []

  pub insert_entry-IsFresh :
      (t : IncrementalTrie) (key : List ℕ) (v : MptValue)
      → IsFresh t
      → IsFresh (insert_entry t key v)
  unfolding insert_entry
  insert_entry-IsFresh t key v fresh = record {
    true_hash = λ rp h e clean.
        let k = bytes_to_nibbles key in
        let (free, clean') = touched-insert rp k t.dirty clean in
        IsHash-local keccak t.entries (insert k v t.entries) rp (nonempty rp) h
          (block-eq-keep rp t.entries
            ∙ sym (keep-insert rp k v t.entries (under-false rp k free))
            ∙ sym (block-eq-keep rp (insert k v t.entries)))
          (fresh.true_hash rp h e clean');
  }

  pub remove_entry-IsFresh :
      (t : IncrementalTrie) (key : List ℕ) → IsFresh t → IsFresh (remove_entry t key)
  unfolding remove_entry
  remove_entry-IsFresh t key fresh = record {
    true_hash = λ rp h e clean.
        let k = bytes_to_nibbles key in
        let (free, clean') = touched-insert rp k t.dirty clean in
        IsHash-local keccak t.entries (remove k t.entries) rp (nonempty rp) h
          (block-eq-keep rp t.entries
            ∙ sym (keep-remove rp k t.entries (under-false rp k free))
            ∙ sym (block-eq-keep rp (remove k t.entries)))
          (fresh.true_hash rp h e clean');
  }

  pub clear-IsFresh : (t : IncrementalTrie) → IsFresh (clear t)
  unfolding clear
  clear-IsFresh t = cold-IsFresh [] []

  -- The evicted cache holds true hashes only.
  pub evicted-IsValidCache :
      (t : IncrementalTrie)
      → IsFresh t
      → IsValidCache keccak t.entries (evict_dirty t.dirty t.cache)
  evicted-IsValidCache t fresh = record {
    true_hash = λ rp h e.
        let (kept, clean) = get-evict_dirty t.dirty rp h t.cache e in
        fresh.true_hash rp h kept clean;
  }
