-- ===== src/Mpt/Stateless/Sound.antt =====
-- `merkle_for_node` on the slice of a prefix answers what the walk without a cache answers there.
use cfx_minimal_execution.Common.{
  ℕ, zero, suc, ◌<◌, ◌≡◌, refl, sym, ap, ap₂, ◌∙◌, Bool, true, Option, none, some, List, [], ◌∷◌,
  ◌++◌, length, replicate, take, All,
}
use cfx_minimal_execution.Common.Partial.{◌>>=◌, >>=-assoc}
use cfx_minimal_execution.Common.ByteMap.{get}
use cfx_minimal_execution.Mpt.Types.{H256, merkle_null_node}
use cfx_minimal_execution.Mpt.Trie.{MptValue, children_count, merkle_value}
use cfx_minimal_execution.Mpt.Incremental.{
  Entries, child_ranges, value_at, node_hash, child_nibbles,
}
use cfx_minimal_execution.Mpt.Incremental.Blocks.{keep, block-eq-keep}
use cfx_minimal_execution.Mpt.Incremental.Plain.{plain_block, plain_node, plain_slots}
use cfx_minimal_execution.Mpt.Incremental.Ordered.{IsOrdered, IsNibbleKey}
use cfx_minimal_execution.Mpt.Stateless.{
  merkle_block, merkle_for_node, child_hashes, fill_children, node_end,
}
use cfx_minimal_execution.Mpt.Stateless.Ranges.{pick}
use cfx_minimal_execution.Mpt.Stateless.Slices.{IsNodeSlice, node_slice, node_end-eq-covered}
use cfx_minimal_execution.Mpt.Stateless.Children.{children_agree, filled}
use mathlib.Core.Option

some-behind : (o : Option (List H256)) → (o >>= λ hs. some ([] ++ hs)) ≡ o
some-behind none = refl
some-behind (some hs) = refl

module _ (keccak : List ℕ → H256) where
  module _ (f : ℕ) (m : Entries) (o : IsOrdered m) (g : All IsNibbleKey m)
      (below : (q : List ℕ)
        → merkle_for_node keccak f (keep q m) (length q) true ≡ plain_node keccak f m q true) where
    abbrev deeper_hash : ℕ → Entries → Option H256
    deeper_hash deeper slice = merkle_for_node keccak f slice deeper true

    abbrev plain_child : List ℕ → Option H256
    plain_child q = plain_node keccak f m q true

    -- The hash of a node from its children, as either walk makes it.
    abbrev pub finish : List ℕ → ℕ → ℕ → Option MptValue → List H256 → Option H256
    finish first depth k v children =
        some (node_hash keccak first depth k children (Option.map merkle_value v))

    module _ (rp first : List ℕ) (w : MptValue) (rest : Entries)
        (es : keep rp m ≡ (first, w) ∷ rest) where
      abbrev slice : Entries
      slice = (first, w) ∷ rest

      module _ (k : ℕ) (fp : List ℕ) (node : IsNodeSlice m fp k slice) where
        child_hash :
            (c : ℕ) → c < 16 → deeper_hash (suc k) (pick k c slice) ≡ plain_child (fp ++ (c ∷ []))
        child_hash c hc =
            ap₂ deeper_hash (node.child_depth c) (node.child_slice c hc) ∙ below (fp ++ (c ∷ []))

        children_eq :
            (child_hashes (deeper_hash (suc k)) (child_ranges k none slice)
              >>= filled (replicate children_count merkle_null_node))
            ≡ plain_slots plain_child m fp child_nibbles
        children_eq =
            ap
              (λ r.
                child_hashes (deeper_hash (suc k)) r
                >>= filled (replicate children_count merkle_null_node))
              node.slice_ranges
            ∙ children_agree (deeper_hash (suc k)) plain_child k fp slice m
                (λ c hc. node.child_slice c hc ∙ sym (block-eq-keep (fp ++ (c ∷ [])) m)) child_hash
                0 16 [] refl refl
            ∙ some-behind (plain_slots plain_child m fp child_nibbles)

        at_depth :
            (child_hashes (deeper_hash (suc k)) (child_ranges k none slice) >>= λ hs.
            finish first
              (length rp)
              k
              (value_at k slice)
              (fill_children hs (replicate children_count merkle_null_node)))
            ≡ (plain_slots plain_child m fp child_nibbles >>= finish first (length rp) k (get fp m))
        at_depth =
            sym (>>=-assoc (child_hashes (deeper_hash (suc k)) (child_ranges k none slice)) _ _)
            ∙ ap₂ (λ x v. x >>= finish first (length rp) k v) children_eq node.slice_value

      node_hash_eq :
          (allow : Bool)
          → merkle_block keccak deeper_hash first slice (length rp) allow
            ≡ plain_block keccak plain_child m rp allow slice
      unfolding merkle_block plain_block
      node_hash_eq allow =
          let k = node_end allow slice (length rp) in
          at_depth k (take k first) (node_slice m o g rp first w rest es allow)
          ∙ ap
              (λ j.
                plain_slots plain_child m (take j first) child_nibbles
                >>= finish first (length rp) j (get (take j first) m))
              (node_end-eq-covered m o g rp first w rest es allow)

    slice_eq :
        (rp : List ℕ) (allow : Bool) (s : Entries)
        → keep rp m ≡ s
        → merkle_for_node keccak (suc f) s (length rp) allow
          ≡ plain_block keccak plain_child m rp allow s
    unfolding merkle_for_node plain_block
    slice_eq rp allow [] e = refl
    slice_eq rp allow ((first, w) ∷ rest) e = node_hash_eq rp first w rest e allow

  -- On keys of nibbles in order, the slice below a prefix has the hash of the walk without a cache.
  pub merkle_for_node-eq-plain_node :
      (f : ℕ) (m : Entries) (rp : List ℕ) (allow : Bool)
      → IsOrdered m
      → All IsNibbleKey m
      → merkle_for_node keccak f (keep rp m) (length rp) allow ≡ plain_node keccak f m rp allow
  unfolding merkle_for_node plain_node
  merkle_for_node-eq-plain_node zero m rp allow o g = refl
  merkle_for_node-eq-plain_node (suc f) m rp allow o g =
      slice_eq f m o g (λ q. merkle_for_node-eq-plain_node f m q true o g) rp allow (keep rp m) refl
      ∙ ap (plain_block keccak (λ q. plain_node keccak f m q true) m rp allow)
          (sym (block-eq-keep rp m))
