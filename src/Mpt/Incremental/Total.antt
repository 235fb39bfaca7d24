-- ===== src/Mpt/Incremental/Total.antt =====
-- The cached walk answers: its fuel is enough, and it never meets an empty node.
use cfx_minimal_execution.Common.{
  ℕ, zero, suc, ◌+◌, ◌<◌, ◌≤◌, ◌≡◌, refl, sym, ◌∙◌, arith, Bool, true, ◌||◌, Option, List, [], ◌∷◌,
  ◌++◌, length, length-append, length-take, take, Option-cases, inl, inr, if◌then◌else◌,
}
use cfx_minimal_execution.Common.Partial.{Answers, >>=-Answers}
use cfx_minimal_execution.Common.ByteMap.{get}
use cfx_minimal_execution.Mpt.Types.{H256}
use cfx_minimal_execution.Mpt.Trie.{MptValue}
use cfx_minimal_execution.Mpt.Incremental.{
  Entries, Cache, CachePolicy, block, covered, last_key, child_nibbles, child_slot, child_slots,
  open_slot, walk_block, memo_node, longest_key, is_skip,
}
use cfx_minimal_execution.Mpt.Incremental.Plain.{
  plain_slot, plain_slots, plain_block, plain_node, slot_of,
}
use cfx_minimal_execution.Mpt.Incremental.Blocks.{keep, block-eq-keep, keep_head, length-under}

keep_longest :
    (rp : List ℕ) (m : Entries) (k : List ℕ) (v : MptValue) (rest : Entries)
    → keep rp m ≡ (k, v) ∷ rest
    → length k ≤ longest_key m
unfolding keep longest_key
keep_longest rp [] k v rest e = cc
keep_longest rp ((j, w) ∷ m) k v rest e = ground (arith, keep_longest rp m k v rest)

-- The first key of a node's block is no shorter than the prefix, and no longer than the longest.
first_key_bounds :
    (rp : List ℕ) (m : Entries) (k : List ℕ) (v : MptValue) (rest : Entries)
    → block rp m ≡ (k, v) ∷ rest
    → (length rp ≤ length k) × (length k ≤ longest_key m)
first_key_bounds rp m k v rest e =
    let e' : keep rp m ≡ (k, v) ∷ rest = sym (block-eq-keep rp m) ∙ e in
    (length-under rp k (keep_head rp m k v rest e'), keep_longest rp m k v rest e')

module _ (m : Entries) (visit : List ℕ → Cache → Option (H256 × Cache)) where
  slot-Answers :
      (q : List ℕ) (cache : Cache)
      → ((e : List ℕ × MptValue) (es : Entries) → block q m ≡ e ∷ es → Answers (visit q cache))
      → Answers (child_slot visit m q cache)
  unfolding child_slot
  slot-Answers q cache total = elim (Option-cases (get q cache)) [
    | inr (h, hit) ↦ ((h, cache), rw (hit, child_slot))
    | inl miss ↦ rw (miss, child_slot) (by_block (block q m) refl)
  ]
    where
      by_block : (b : Entries) → block q m ≡ b → Answers (open_slot visit q cache b)
      by_block [] e = (_, refl)
      by_block (x ∷ xs) e = total x xs e

  slots_answer :
      (fp cs : List ℕ) (cache : Cache)
      → ((c : ℕ) (cache : Cache) (e : List ℕ × MptValue) (es : Entries)
          → block (fp ++ (c ∷ [])) m ≡ e ∷ es
          → Answers (visit (fp ++ (c ∷ [])) cache))
      → Answers (child_slots visit m fp cs cache)
  unfolding child_slots
  slots_answer fp [] cache total = (_, refl)
  slots_answer fp (c ∷ cs) cache total =
      >>=-Answers _ _ (slot-Answers (fp ++ (c ∷ [])) cache (total c cache))
        (λ r. >>=-Answers _ _ (slots_answer fp cs r.1 total) (λ rs. (_, refl)))

module _ (keccak : List ℕ → H256) (m : Entries) where
  pub memo-Answers :
      (f : ℕ) (policy : CachePolicy) (rp : List ℕ) (allow : Bool) (cache : Cache)
      (e : List ℕ × MptValue) (es : Entries)
      → block rp m ≡ e ∷ es
      → longest_key m < length rp + f
      → Answers (memo_node keccak f policy m rp allow cache)
  unfolding memo_node walk_block
  memo-Answers zero policy rp allow cache (k, v) es eb room =
      absurd (omega (arith, first_key_bounds rp m k v es eb))
  memo-Answers (suc f) policy rp allow cache (k, v) es eb room =
      elim (Option-cases (get rp cache)) [
        | inr (h, hit) ↦ ((h, cache), rw (hit, memo_node))
        | inl miss ↦
            let n =
              covered allow k (if allow || is_skip policy then last_key k es else k) (length rp) in
            let children =
              slots_answer m (λ q c. memo_node keccak f policy m q true c) (take n k) child_nibbles
                cache
                (λ c c' x xs ex. memo-Answers f policy (take n k ++ (c ∷ [])) true c' x xs ex (
                  omega (
                    arith,
                    length-append (take n k) (c ∷ []),
                    length-take n k,
                    first_key_bounds rp m k v es eb,
                  ))) in
            rw (miss, eb, memo_node) (>>=-Answers _ _ children (λ s. (_, refl)))
      ]

  plain_slots_answer :
      (v : List ℕ → Option H256) (fp cs : List ℕ)
      → ((c : ℕ) (e : List ℕ × MptValue) (es : Entries)
          → block (fp ++ (c ∷ [])) m ≡ e ∷ es
          → Answers (v (fp ++ (c ∷ []))))
      → Answers (plain_slots v m fp cs)
  unfolding plain_slots plain_slot
  plain_slots_answer v fp [] total = (_, refl)
  plain_slots_answer v fp (c ∷ cs) total =
      >>=-Answers _ _ (by_block (block (fp ++ (c ∷ [])) m) refl)
        (λ h. >>=-Answers _ _ (plain_slots_answer v fp cs total) (λ hs. (_, refl)))
    where
      by_block :
          (b : Entries) → block (fp ++ (c ∷ [])) m ≡ b → Answers (slot_of (v (fp ++ (c ∷ []))) b)
      by_block [] e = (_, refl)
      by_block (x ∷ xs) e = total c x xs e

  -- The walk without a cache answers on the same fuel.
  pub plain-Answers :
      (f : ℕ) (rp : List ℕ) (allow : Bool) (e : List ℕ × MptValue) (es : Entries)
      → block rp m ≡ e ∷ es
      → longest_key m < length rp + f
      → Answers (plain_node keccak f m rp allow)
  unfolding plain_node plain_block
  plain-Answers zero rp allow (k, v) es eb room =
      absurd (omega (arith, first_key_bounds rp m k v es eb))
  plain-Answers (suc f) rp allow (k, v) es eb room =
      let n = covered allow k (last_key k es) (length rp) in
      let children =
        plain_slots_answer (λ q. plain_node keccak f m q true) (take n k) child_nibbles
          (λ c x xs ex. plain-Answers f (take n k ++ (c ∷ [])) true x xs ex (
            omega (
              arith,
              length-append (take n k) (c ∷ []),
              length-take n k,
              first_key_bounds rp m k v es eb,
            ))) in
      rw (eb, plain_node) (>>=-Answers _ _ children (λ s. (_, refl)))
