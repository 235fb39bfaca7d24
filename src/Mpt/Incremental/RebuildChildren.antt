-- ===== src/Mpt/Incremental/RebuildChildren.antt =====
-- The children of a cold rebuild: their hashes, and what the cache is handed for them.
use cfx_minimal_execution.Common.{
  ℕ, ◌≡◌, refl, sym, ap, subst, ◌∙◌, Option, none, some, List, [], ◌∷◌, ◌++◌, replicate, set, All,
  All-append,
}
use cfx_minimal_execution.Common.Partial.{◌>>=◌, >>=-assoc, >>=-eq-some}
use cfx_minimal_execution.Mpt.Types.{H256, merkle_null_node}
use cfx_minimal_execution.Mpt.Incremental.{Entries, rebuild_children}
use cfx_minimal_execution.Mpt.Trie.{children_count}
use cfx_minimal_execution.Mpt.Stateless.{child_hashes, fill_children}
use cfx_minimal_execution.Mpt.Stateless.Children.{filled}
use mathlib.Core.Option.{some_inj}

abbrev pub Rebuilt : Type 0
Rebuilt = H256 × List (List ℕ × H256)

abbrev pub first_of : {A B : Type 0} → Option (A × B) → Option A
first_of o = o >>= λ r. some r.0

-- The children that a rebuild fills are those of the walk without a cache.
pub rebuild_children_hashes :
    (keccak : List ℕ → H256) (visit : Entries → List ℕ → Option Rebuilt)
    (plain : Entries → Option H256) (fp : List ℕ) (ranges : List (ℕ × Entries))
    (children : List H256) (ce : List (List ℕ × H256))
    → All (λ r. first_of (visit r.1 (fp ++ (r.0 ∷ []))) ≡ plain r.1) ranges
    → first_of (rebuild_children keccak visit fp ranges children ce)
      ≡ (child_hashes plain ranges >>= filled children)
unfolding rebuild_children child_hashes fill_children
rebuild_children_hashes keccak visit plain fp [] children ce h = refl
rebuild_children_hashes keccak visit plain fp ((c, s) ∷ ranges) children ce (p, h) =
    by_visit (visit s (fp ++ (c ∷ []))) (plain s) p (λ hash es.
      rebuild_children_hashes keccak visit plain fp ranges (set children c hash) (ce ++ es) h)
  where
    by_visit :
        (o : Option Rebuilt) (x : Option H256)
        → first_of o ≡ x
        → ((hash : H256) (es : List (List ℕ × H256))
            → first_of (rebuild_children keccak visit fp ranges (set children c hash) (ce ++ es))
              ≡ (child_hashes plain ranges >>= filled (set children c hash)))
        → first_of
            (o >>= λ r. rebuild_children keccak visit fp ranges (set children c r.0) (ce ++ r.1))
          ≡ ((x >>= λ hash. child_hashes plain ranges >>= λ hashes. some ((c, hash) ∷ hashes))
              >>= filled children)
    by_visit none none e next = refl
    by_visit none (some g) e next = cc
    by_visit (some r) none e next = cc
    by_visit (some r) (some g) e next =
        next r.0 r.1
        ∙ sym (
            >>=-assoc (child_hashes plain ranges) (λ hashes. some ((c, r.0) ∷ hashes))
              (filled children))
        ∙ ap
            (λ y.
              (child_hashes plain ranges >>= λ hashes. some ((c, y) ∷ hashes)) >>= filled children)
            (some_inj.0 e)

abbrev pub null_children : List H256
null_children = replicate children_count merkle_null_node

module _ (P : List ℕ × H256 → Type 0) where
  -- What holds of the hashes that each child hands over holds of all of them.
  pub rebuild_children-All :
      (keccak : List ℕ → H256) (visit : Entries → List ℕ → Option Rebuilt) (fp : List ℕ)
      (ranges : List (ℕ × Entries)) (children : List H256) (ce : List (List ℕ × H256))
      (r : List H256 × List (List ℕ × H256))
      → All (λ x. (a : Rebuilt) → visit x.1 (fp ++ (x.0 ∷ [])) ≡ some a → All P a.1) ranges
      → All P ce
      → rebuild_children keccak visit fp ranges children ce ≡ some r
      → All P r.1
  unfolding rebuild_children
  rebuild_children-All keccak visit fp [] children ce r h g e =
      subst (λ x. All P x.1) (some_inj.0 e) g
  rebuild_children-All keccak visit fp ((c, s) ∷ ranges) children ce r (p, h) g e =
      let (a, ea, e') = >>=-eq-some (visit s (fp ++ (c ∷ []))) _ e in
      rebuild_children-All keccak visit fp ranges (set children c a.0) (ce ++ a.1) r h
        (All-append P ce a.1 g (p a ea)) e'
