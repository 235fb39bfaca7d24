-- ===== src/Mpt/Incremental/Root.antt =====
-- `root` with its cache answers the root of a trie that is built from the same entries with a cold
-- cache, whatever writes and roots came before,
-- and the one that is computed with no cache.
use cfx_minimal_execution.Common.{
  ℕ, suc, ◌≡◌, refl, sym, ap, subst, ◌∙◌, arith, false, ◌&&◌, some, List, [], ◌∷◌, All, length, leb,
  Bool-cases, inl, inr,
}
use cfx_minimal_execution.Common.ByteMap.{ByteMap}
use cfx_minimal_execution.Common.Bytes.{IsBytes}
use cfx_minimal_execution.Mpt.Types.{H256, merkle_null_node}
use cfx_minimal_execution.Mpt.Trie.{MptValue, bytes_to_nibbles}
use cfx_minimal_execution.Mpt.Incremental.{
  Entries, Cache, CachePolicy, IncrementalTrie, empty_trie, insert_entry, remove_entry, clear,
  evict_dirty, block, longest_key, root_with_policy, parallel_rebuild_threshold, is_empty,
  extend_cache,
}
use cfx_minimal_execution.Mpt.Incremental.Blocks.{keep, block-eq-keep}
use cfx_minimal_execution.Mpt.Incremental.Plain.{IsHash, IsHash-unique}
use cfx_minimal_execution.Mpt.Incremental.CacheSound.{memo_sound}
use cfx_minimal_execution.Mpt.Incremental.Total.{memo-Answers, plain-Answers}
use cfx_minimal_execution.Mpt.Incremental.Rebuild.{root_rebuilt}
use cfx_minimal_execution.Mpt.Incremental.Ordered.{
  IsOrdered, IsNibbles, IsNibbleKey, IsNibbles-under, insert-IsOrdered, remove-IsOrdered, keep_root,
  insert-IsNibbleKey, remove-IsNibbleKey, bytes_to_nibbles-IsNibbles,
}
use cfx_minimal_execution.Mpt.Stateless.{merkle_for_node, root_for_entries}
use cfx_minimal_execution.Mpt.Stateless.Sound.{merkle_for_node-eq-plain_node}
use cfx_minimal_execution.Mpt.Incremental.Fresh.{
  IsFresh, cold-IsFresh, insert_entry-IsFresh, remove_entry-IsFresh, clear-IsFresh,
  evicted-IsValidCache,
}
use mathlib.Core.Option.{some_inj}

module _ (keccak : List ℕ → H256) where
  -- What `root` should answer.
  pub RootOf : Entries → H256 → Type 0
  RootOf [] h = h ≡ merkle_null_node
  RootOf (e ∷ es) h = IsHash keccak (e ∷ es) [] false h

  RootOf_unique : (m : Entries) (h g : H256) → RootOf m h → RootOf m g → h ≡ g
  unfolding RootOf
  RootOf_unique [] h g p q = p ∙ sym q
  RootOf_unique (e ∷ es) h g p q = IsHash-unique keccak (e ∷ es) [] false h g p q

  -- `root` has answered the root, and left the entries and a good cache.
  record RootGood (m : Entries) (answer : H256 × IncrementalTrie) : Type 0 where
    root : RootOf m answer.0
    kept : answer.1.entries ≡ m
    fresh : IsFresh keccak answer.1

  root_block :
      (e : List ℕ × MptValue) (es : Entries) → IsNibbles e.0 → block [] (e ∷ es) ≡ e ∷ keep [] es
  unfolding keep
  root_block e es h = block-eq-keep [] (e ∷ es) ∙ rw (IsNibbles-under e.0 h) refl

  module _ (policy : CachePolicy) (cache : Cache) (dirty : ByteMap (Unit {0})) where
    root_good :
        (m : Entries)
        → IsFresh keccak (record { entries = m; cache = cache; dirty = dirty })
        → IsOrdered m
        → All IsNibbleKey m
        → (r : H256 × IncrementalTrie) × (root_with_policy keccak policy
              (record { entries = m; cache = cache; dirty = dirty })
            ≡ some r)
          × RootGood m r
    unfolding root_with_policy RootOf
    root_good [] fresh o g =
        (_, refl, record { root = refl; kept = refl; fresh = cold-IsFresh keccak [] [] })
    root_good (e ∷ es) fresh o g =
        let m = e ∷ es in
        let evicted = evict_dirty dirty cache in
        let valid = evicted-IsValidCache keccak _ fresh in
        elim (Bool-cases (is_empty evicted && leb parallel_rebuild_threshold (length m))) [
          | inl parallel ↦
              let (r, er, hash, cached) =
                root_rebuilt keccak policy m o g (suc (longest_key m)) evicted e es refl
                  (omega arith) valid in
              (
                (r.0, record { entries = m; cache = extend_cache r.1 evicted; dirty = [] }),
                rw (parallel, er) refl,
                record {
                  root = hash;
                  kept = refl;
                  fresh = record { true_hash = λ rp h g clean. cached.true_hash rp h g };
                },
              )
          | inr serial ↦
              let (r, er) =
                memo-Answers keccak m (suc (longest_key m)) policy [] false evicted e (keep [] es)
                  (root_block e es g.0) (omega arith) in
              let good =
                memo_sound keccak m (suc (longest_key m)) policy [] false evicted r refl valid er in
              (
                (r.0, record { entries = m; cache = r.1; dirty = [] }),
                rw (serial, er) refl,
                record {
                  root = good.hash;
                  kept = refl;
                  fresh = record { true_hash = λ rp h g clean. good.valid.true_hash rp h g };
                },
              )
        ]

  -- The invariant of a trie: a cached hash that no dirty key makes stale is the hash of its
  -- node, the keys are made of nibbles, and they are in order.
  pub record IsTrie (t : IncrementalTrie) : Type 0 where
    pub fresh : IsFresh keccak t
    pub ordered : IsOrdered t.entries
    pub nibbles : All IsNibbleKey t.entries

  pub empty_trie-IsTrie : IsTrie empty_trie
  empty_trie-IsTrie = record {
    fresh = cold-IsFresh keccak [] [];
    ordered = unfold IsOrdered in tt;
    nibbles = tt;
  }

  pub cold-IsTrie :
      (m : Entries) (d : ByteMap (Unit {0}))
      → IsOrdered m
      → All IsNibbleKey m
      → IsTrie (record { entries = m; cache = []; dirty = d })
  cold-IsTrie m d o h = record { fresh = cold-IsFresh keccak m d; ordered = o; nibbles = h }

  -- `insert` at a key made of bytes keeps the invariant of the trie, that every cached hash is
  -- true unless some dirty key lies at its node or below, and that the keys are made of nibbles
  -- and ascend.
  pub insert_entry-IsTrie :
      (t : IncrementalTrie) (key : List ℕ) (v : MptValue)
      → IsBytes key
      → IsTrie t
      → IsTrie (insert_entry t key v)
  insert_entry-IsTrie t key v h ok = record {
    fresh = insert_entry-IsFresh keccak t key v ok.fresh;
    ordered = unfold insert_entry in insert-IsOrdered (bytes_to_nibbles key) v t.entries ok.ordered;
    nibbles =
        unfold insert_entry in
        insert-IsNibbleKey (bytes_to_nibbles key) v t.entries (bytes_to_nibbles-IsNibbles key h)
          ok.nibbles;
  }

  -- `remove` keeps the invariant of the trie too, whether the key is there or not.
  pub remove_entry-IsTrie :
      (t : IncrementalTrie) (key : List ℕ) → IsTrie t → IsTrie (remove_entry t key)
  remove_entry-IsTrie t key ok = record {
    fresh = remove_entry-IsFresh keccak t key ok.fresh;
    ordered = unfold remove_entry in remove-IsOrdered (bytes_to_nibbles key) t.entries ok.ordered;
    nibbles = unfold remove_entry in remove-IsNibbleKey (bytes_to_nibbles key) t.entries ok.nibbles;
  }

  pub clear-IsTrie : (t : IncrementalTrie) → IsTrie (clear t)
  clear-IsTrie t = record {
    fresh = clear-IsFresh keccak t;
    ordered = unfold clear IsOrdered in tt;
    nibbles = unfold clear in tt;
  }

  -- A trie with the same entries and nothing cached.
  abbrev pub cold : IncrementalTrie → IncrementalTrie
  cold t = record { entries = t.entries; cache = []; dirty = [] }

  -- A trie that keeps the invariant answers a root, under either cache policy, of whatever size
  -- it is. It is the root that a trie with the same entries and a cold cache answers under
  -- either policy, and the trie left behind has the same entries and keeps the invariant.
  pub root_eq_cold :
      (policy cold_policy : CachePolicy) (t : IncrementalTrie)
      → IsTrie t
      → (h : H256) × (t' u : IncrementalTrie) × (root_with_policy keccak policy t ≡ some (h, t'))
        × (root_with_policy keccak cold_policy (cold t) ≡ some (h, u))
        × (t'.entries ≡ t.entries)
        × IsTrie t'
  root_eq_cold policy cold_policy t ok =
      let (r, er, good) =
        root_good policy t.cache t.dirty t.entries ok.fresh ok.ordered ok.nibbles in
      let (c, ec, cold_good) =
        root_good cold_policy [] [] t.entries (cold-IsFresh keccak t.entries []) ok.ordered
          ok.nibbles in
      let same : c.0 ≡ r.0 = RootOf_unique t.entries c.0 r.0 cold_good.root good.root in
      (
        r.0,
        r.1,
        c.1,
        er,
        ec ∙ ap (λ h. some (h, c.1)) same,
        good.kept,
        record {
          fresh = good.fresh;
          ordered = subst IsOrdered (sym good.kept) ok.ordered;
          nibbles = subst (All IsNibbleKey) (sym good.kept) ok.nibbles;
        },
      )

  -- The root that is computed from the entries alone.
  stateless_root :
      (m : Entries)
      → IsOrdered m
      → All IsNibbleKey m
      → (h : H256) × (root_for_entries keccak m ≡ some h) × RootOf m h
  unfolding root_for_entries RootOf
  stateless_root [] o g = (_, refl, refl)
  stateless_root (e ∷ es) o g =
      let m = e ∷ es in
      let f = suc (longest_key m) in
      let (h, eh) =
        plain-Answers keccak m f [] false e (keep [] es) (root_block e es g.0) (omega arith) in
      (
        h,
        ap (λ s. merkle_for_node keccak f s 0 false) (sym (keep_root m g))
            ∙ merkle_for_node-eq-plain_node keccak f m [] false o g
            ∙ eh,
        (f, eh),
      )

  -- A trie that keeps the invariant answers, under either cache policy, the root that `trie_root`
  -- computes from the same entries with no cache at all.
  pub root_with_policy-eq-root_for_entries :
      (policy : CachePolicy) (t : IncrementalTrie)
      → IsTrie t
      → (h : H256) × (t' : IncrementalTrie) × (root_with_policy keccak policy t ≡ some (h, t'))
        × (root_for_entries keccak t.entries ≡ some h)
  root_with_policy-eq-root_for_entries policy t ok =
      let (r, er, good) =
        root_good policy t.cache t.dirty t.entries ok.fresh ok.ordered ok.nibbles in
      let (h, eh, found) = stateless_root t.entries ok.ordered ok.nibbles in
      (r.0, r.1, er, eh ∙ ap some (RootOf_unique t.entries h r.0 found good.root))

  -- Whatever root such a trie answers is the root that is computed from its entries.
  pub root_value :
      (policy : CachePolicy) (t : IncrementalTrie)
      → IsTrie t
      → (h : H256) (t' : IncrementalTrie) → root_with_policy keccak policy t ≡ some (h, t')
      → root_for_entries keccak t.entries ≡ some h
  root_value policy t ok h t' e =
      let (g, u, er, stateless) = root_with_policy-eq-root_for_entries policy t ok in
      stateless ∙ ap some (ap (λ x. x.0) (some_inj.0 (sym er ∙ e)))
