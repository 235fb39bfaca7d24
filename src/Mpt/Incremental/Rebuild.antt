-- ===== src/Mpt/Incremental/Rebuild.antt =====
-- The cold rebuild of a large trie answers the hash of the walk without a cache, and the hashes
-- that it hands over for the cache are those of their nodes.
use cfx_minimal_execution.Common.{
  ℕ, zero, suc, ◌<◌, ◌≡◌, refl, sym, ap, ap₂, subst, ◌∙◌, arith, Bool, true, false, Option, none,
  some, List, [], ◌∷◌, ◌++◌, length, take, if◌then◌else◌, All, All-append,
}
use cfx_minimal_execution.Common.Partial.{◌>>=◌, >>=-assoc, >>=-eq-some}
use cfx_minimal_execution.Common.ByteMap.{insert, bytes_eq}
use cfx_minimal_execution.Mpt.Types.{H256}
use cfx_minimal_execution.Mpt.Incremental.{
  Entries, Cache, CachePolicy, extend_cache, longest_key, rebuild_children, rebuild_block,
  memo_node_rebuild, node_hash, value_at, child_ranges, covered, last_key, keeps_hash,
}
use cfx_minimal_execution.Mpt.Trie.{MptValue, merkle_value}
use cfx_minimal_execution.Mpt.Incremental.Blocks.{keep, block-eq-keep}
use cfx_minimal_execution.Mpt.Incremental.Ordered.{IsOrdered, IsNibbleKey, keep_root}
use cfx_minimal_execution.Mpt.Stateless.{child_hashes, merkle_for_node, merkle_block, node_end}
use cfx_minimal_execution.Mpt.Stateless.Slices.{IsNodeSlice, node_slice, node_end-eq-covered}
use cfx_minimal_execution.Mpt.Stateless.Ranges.{runs-All}
use cfx_minimal_execution.Mpt.Stateless.Sound.{merkle_for_node-eq-plain_node}
use cfx_minimal_execution.Mpt.Incremental.Plain.{IsHash}
use cfx_minimal_execution.Mpt.Incremental.CacheSound.{
  nonempty, nonempty_child, remember, IsValidCache,
}
use cfx_minimal_execution.Mpt.Incremental.Total.{plain-Answers}
use mathlib.Core.Option
use mathlib.Core.Option.{some_inj}
use cfx_minimal_execution.Mpt.Incremental.RebuildChildren.{
  Rebuilt, first_of, null_children, rebuild_children_hashes, rebuild_children-All,
}

-- A chain whose last step keeps the first component apart.
first_then :
    (o : Option (List H256 × List (List ℕ × H256))) (k : List H256 → H256)
    (z : List H256 → List (List ℕ × H256) → List (List ℕ × H256))
    → first_of (o >>= λ r. some (k r.0, z r.0 r.1)) ≡ (first_of o >>= λ c. some (k c))
first_then none k z = refl
first_then (some r) k z = refl

module _ (keccak : List ℕ → H256) (policy : CachePolicy) (m : Entries) (o : IsOrdered m)
    (g : All IsNibbleKey m) where
  abbrev rebuild : ℕ → Entries → List ℕ → Bool → Option Rebuilt
  rebuild f s rp allow = memo_node_rebuild keccak f policy s rp allow

  module _ (f : ℕ)
      (below : (q : List ℕ)
        → first_of (rebuild f (keep q m) q true)
          ≡ merkle_for_node keccak f (keep q m) (length q) true) where
    abbrev visit : Entries → List ℕ → Option Rebuilt
    visit s q = rebuild f s q true

    slice_ranges_below :
        (rp : List ℕ) (s : Entries) (k : ℕ) (fp : List ℕ)
        → IsNodeSlice m fp k s
        → All
            (λ r.
              first_of (visit r.1 (fp ++ (r.0 ∷ []))) ≡ merkle_for_node keccak f r.1 (suc k) true)
            (child_ranges k none s)
    slice_ranges_below rp s k fp node =
        subst
          (All (λ r.
            first_of (visit r.1 (fp ++ (r.0 ∷ []))) ≡ merkle_for_node keccak f r.1 (suc k) true))
          (sym node.slice_ranges)
          (runs-All _ k 0 16 s refl (λ b x xs hb eb.
            let es : x ∷ xs ≡ keep (fp ++ (b ∷ [])) m = sym eb ∙ node.child_slice b hb in
            ap (λ y. first_of (visit y (fp ++ (b ∷ [])))) es
            ∙ below (fp ++ (b ∷ []))
            ∙ ap₂ (λ n y. merkle_for_node keccak f y n true) (sym (node.child_depth b)) (sym es)))

    slice_rebuilt :
        (rp : List ℕ) (allow : Bool) (s : Entries)
        → keep rp m ≡ s
        → first_of (rebuild (suc f) s rp allow) ≡ merkle_for_node keccak (suc f) s (length rp) allow
    unfolding memo_node_rebuild rebuild_block merkle_for_node merkle_block
    slice_rebuilt rp allow [] e = refl
    slice_rebuilt rp allow ((first, w) ∷ rest) e =
        let s = (first, w) ∷ rest in
        let k = node_end allow s (length rp) in
        let fp = take k first in
        let node = node_slice m o g rp first w rest e allow in
        let hash = λ (j : ℕ) (children : List H256).
          node_hash keccak first (length rp) j children (Option.map merkle_value (value_at j s)) in
        let rebuilt = λ (j : ℕ).
          rebuild_children keccak visit (take j first) (child_ranges j none s) null_children [] in
        let plain = λ (x : Entries). merkle_for_node keccak f x (suc k) true in
        let ranges = child_ranges k none s in
        let same =
          rebuild_children_hashes keccak visit plain fp ranges null_children []
            (slice_ranges_below rp s k fp node) in
        first_then (rebuilt (covered allow first (last_key first rest) (length rp)))
          (hash (covered allow first (last_key first rest) (length rp)))
          (λ children ce.
            if keeps_hash policy (bytes_eq first (last_key first rest))
            then ce
              ++ ((rp, hash (covered allow first (last_key first rest) (length rp)) children) ∷ [])
            else ce)
        ∙ ap (λ j. first_of (rebuilt j) >>= λ c. some (hash j c))
            (sym (node_end-eq-covered m o g rp first w rest e allow))
        ∙ ap (λ x. x >>= λ c. some (hash k c)) same
        ∙ >>=-assoc (child_hashes plain ranges) _ _

  -- The rebuild of a slice answers the hash of `merkle_for_node` there.
  rebuild-eq-merkle_for_node :
      (f : ℕ) (rp : List ℕ) (allow : Bool)
      → first_of (rebuild f (keep rp m) rp allow)
        ≡ merkle_for_node keccak f (keep rp m) (length rp) allow
  unfolding memo_node_rebuild merkle_for_node
  rebuild-eq-merkle_for_node zero rp allow = refl
  rebuild-eq-merkle_for_node (suc f) rp allow =
      slice_rebuilt f (λ q. rebuild-eq-merkle_for_node f q true) rp allow (keep rp m) refl

  -- The hash that a rebuild answers is the hash of its node.
  pub rebuild-IsHash :
      (f : ℕ) (rp : List ℕ) (allow : Bool) (r : Rebuilt)
      → rebuild f (keep rp m) rp allow ≡ some r
      → IsHash keccak m rp allow r.0
  rebuild-IsHash f rp allow r e = (
    f,
    sym (merkle_for_node-eq-plain_node keccak f m rp allow o g)
        ∙ sym (rebuild-eq-merkle_for_node f rp allow)
        ∙ ap first_of e,
  )

  -- An entry for the cache that holds the hash of its node.
  abbrev pub IsTrueHash : List ℕ × H256 → Type 0
  IsTrueHash e = IsHash keccak m e.0 (nonempty e.0) e.1

  kept-All :
      (keep_it : Bool) (ce : List (List ℕ × H256)) (e : List ℕ × H256)
      → All IsTrueHash ce
      → IsTrueHash e
      → All IsTrueHash (if keep_it then ce ++ (e ∷ []) else ce)
  kept-All true ce e h p = All-append IsTrueHash ce (e ∷ []) h (p, tt)
  kept-All false ce e h p = h

  rebuilt_true :
      (rp : List ℕ) (allow keep_it : Bool) (hash : H256) (ce : List (List ℕ × H256)) (r : Rebuilt)
      → (hash, if keep_it then ce ++ ((rp, hash) ∷ []) else ce) ≡ r
      → allow ≡ nonempty rp
      → All IsTrueHash ce
      → IsHash keccak m rp allow r.0
      → All IsTrueHash r.1
  rebuilt_true rp allow keep_it hash ce r e ea h p =
      let own : IsTrueHash (rp, hash) =
        subst (λ b. IsHash keccak m rp b hash) ea
          (subst (IsHash keccak m rp allow) (sym (ap (λ x. x.0) e)) p) in
      subst (λ x. All IsTrueHash x.1) e (kept-All keep_it ce (rp, hash) h own)

  module _ (f : ℕ)
      (below : (q : List ℕ) (r : Rebuilt)
        → nonempty q ≡ true
        → rebuild f (keep q m) q true ≡ some r
        → All IsTrueHash r.1) where
    slice_true :
        (rp : List ℕ) (allow : Bool) (s : Entries) (r : Rebuilt)
        → keep rp m ≡ s
        → allow ≡ nonempty rp
        → rebuild (suc f) s rp allow ≡ some r
        → IsHash keccak m rp allow r.0
        → All IsTrueHash r.1
    unfolding memo_node_rebuild rebuild_block
    slice_true rp allow [] r e ea er h = cc
    slice_true rp allow ((first, w) ∷ rest) r e ea er h =
        let s = (first, w) ∷ rest in
        let k = covered allow first (last_key first rest) (length rp) in
        let fp = take k first in
        let node : IsNodeSlice m fp k s =
          subst (λ j. IsNodeSlice m (take j first) j s)
            (node_end-eq-covered m o g rp first w rest e allow)
            (node_slice m o g rp first w rest e allow) in
        let visit = λ (x : Entries) (q : List ℕ). rebuild f x q true in
        let ranges = child_ranges k none s in
        let (x, ex, e') =
          >>=-eq-some (rebuild_children keccak visit fp ranges null_children []) _ er in
        let children_true =
          rebuild_children-All IsTrueHash keccak visit fp ranges null_children [] x
            (subst
              (All
                (λ y. (a : Rebuilt) → visit y.1 (fp ++ (y.0 ∷ [])) ≡ some a → All IsTrueHash a.1))
              (sym node.slice_ranges)
              (runs-All _ k 0 16 s refl (λ b y ys hb eb a ev.
                below (fp ++ (b ∷ [])) a (nonempty_child fp b)
                  (ap (λ z. visit z (fp ++ (b ∷ []))) (sym (node.child_slice b hb) ∙ eb) ∙ ev))))
            tt ex in
        rebuilt_true rp allow _ _ _ r (some_inj.0 e') ea children_true h

  rebuild-All :
      (f : ℕ) (rp : List ℕ) (allow : Bool) (r : Rebuilt)
      → allow ≡ nonempty rp
      → rebuild f (keep rp m) rp allow ≡ some r
      → All IsTrueHash r.1
  unfolding memo_node_rebuild
  rebuild-All zero rp allow r ea e = cc
  rebuild-All (suc f) rp allow r ea e =
      slice_true f (λ q x nq. rebuild-All f q true x (sym nq)) rp allow (keep rp m) r refl ea e
        (rebuild-IsHash (suc f) rp allow r e)

  extend_cache-IsValidCache :
      (ce : List (List ℕ × H256)) (cache : Cache)
      → All IsTrueHash ce
      → IsValidCache keccak m cache
      → IsValidCache keccak m (extend_cache ce cache)
  unfolding extend_cache
  extend_cache-IsValidCache [] cache h valid = valid
  extend_cache-IsValidCache ((rp, hash) ∷ ce) cache (p, h) valid =
      extend_cache-IsValidCache ce (insert rp hash cache) h
        (remember keccak m rp hash cache true p valid)

  -- From the root: with enough fuel the rebuild answers, and what it answers is true.
  pub root_rebuilt :
      (f : ℕ) (cache : Cache) (e : List ℕ × MptValue) (es : Entries)
      → m ≡ e ∷ es
      → longest_key m < f
      → IsValidCache keccak m cache
      → (r : Rebuilt) × (memo_node_rebuild keccak f policy m [] false ≡ some r)
        × IsHash keccak m [] false r.0
        × IsValidCache keccak m (extend_cache r.1 cache)
  root_rebuilt f cache e es em room valid =
      let root_slice : keep [] m ≡ m = keep_root m g in
      let (h, eh) =
        plain-Answers keccak m f [] false e es (block-eq-keep [] m ∙ root_slice ∙ em)
          (omega arith) in
      let found : first_of (rebuild f m [] false) ≡ some h =
        ap (λ s. first_of (rebuild f s [] false)) (sym root_slice)
        ∙ rebuild-eq-merkle_for_node f [] false
        ∙ merkle_for_node-eq-plain_node keccak f m [] false o g
        ∙ eh in
      let (r, er, e') = >>=-eq-some (rebuild f m [] false) _ found in
      let er' : rebuild f (keep [] m) [] false ≡ some r =
        ap (λ s. rebuild f s [] false) root_slice ∙ er in
      (
        r,
        er,
        rebuild-IsHash f [] false r er',
        extend_cache-IsValidCache r.1 cache (rebuild-All f [] false r refl er') valid,
      )
