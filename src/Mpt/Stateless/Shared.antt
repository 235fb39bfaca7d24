-- ===== src/Mpt/Stateless/Shared.antt =====
-- The full prefix of a node, the nibbles that its keys share, is a prefix of each of its keys.
use cfx_minimal_execution.Common.{
  ℕ, zero, suc, ◌+◌, ◌≡◌, ◌≤◌, refl, sym, ap, ◌∙◌, arith, Bool, true, false, List, [], ◌∷◌, length,
  length-take, length-drop, drop, take, All, Bool-cases, inl, inr,
}
use cfx_minimal_execution.Mpt.Trie.{MptValue}
use cfx_minimal_execution.Mpt.Incremental.{Entries}
use cfx_minimal_execution.Mpt.Incremental.Blocks.{under, length-under}
use cfx_minimal_execution.Mpt.Incremental.Ordered.{IsNibbles, IsNibbleKey, IsNibbles-under}
use cfx_minimal_execution.Mpt.Stateless.{
  has_nibble, all_have, shared_nibbles, shared_prefix_len, node_end,
}
use cfx_minimal_execution.Mpt.Stateless.Prefix.{AllUnder, has_head, drop_next}

-- The key has the first `n` nibbles of a string from `d` on.
abbrev SharesAt : ℕ → ℕ → List ℕ → List ℕ × MptValue → Type 0
SharesAt n d xs e = take n (drop d e.0) ≡ take n xs

shares_none : (d : ℕ) (xs : List ℕ) (rest : Entries) → All (SharesAt 0 d xs) rest
shares_none d xs [] = tt
shares_none d xs (e ∷ rest) = (refl, shares_none d xs rest)

shares_next :
    (d n s : ℕ) (ns key : List ℕ)
    → has_nibble d n key ≡ true
    → take s (drop (suc d) key) ≡ take s ns
    → take (suc s) (drop d key) ≡ n ∷ take s ns
shares_next d n s ns key has h =
    let (ms, em) = has_head d n key (drop d key) refl has in
    rw em (ap (λ l. n ∷ l) (ap (λ l. take s l) (sym (drop_next d key n ms em)) ∙ h))

one_more_for_each :
    (d n s : ℕ) (ns : List ℕ) (rest : Entries)
    → all_have d n rest ≡ true
    → All (SharesAt s (suc d) ns) rest
    → All (SharesAt (suc s) d (n ∷ ns)) rest
unfolding all_have
one_more_for_each d n s ns [] all h = tt
one_more_for_each d n s ns ((key, v) ∷ rest) all (p, h) =
    (shares_next d n s ns key (ground arith) p, one_more_for_each d n s ns rest (ground arith) h)

-- Every key has the nibbles that the keys share.
for_each_key :
    (xs : List ℕ) (d : ℕ) (rest : Entries) → All (SharesAt (shared_nibbles xs d rest) d xs) rest
unfolding shared_nibbles
for_each_key [] d rest = shares_none d [] rest
for_each_key (n ∷ ns) d rest = elim (Bool-cases (all_have d n rest)) [
  | inl all ↦ rw all (
      one_more_for_each d n (shared_nibbles ns (suc d) rest) ns rest all
        (for_each_key ns (suc d) rest))
  | inr lacks ↦ rw lacks (shares_none d (n ∷ ns) rest)
]

shared_nibbles_bound : (xs : List ℕ) (d : ℕ) (rest : Entries) → shared_nibbles xs d rest ≤ length xs
unfolding shared_nibbles
shared_nibbles_bound [] d rest = omega arith
shared_nibbles_bound (n ∷ ns) d rest = ground (arith, shared_nibbles_bound ns (suc d) rest)

full_prefix_of :
    (n : ℕ) (first key : List ℕ)
    → IsNibbles key
    → take n key ≡ take n first
    → under (take n first) key ≡ true
unfolding under
full_prefix_of zero first key h e = IsNibbles-under key h
full_prefix_of (suc n) [] key h e = IsNibbles-under key h
full_prefix_of (suc n) (x ∷ first) [] h e = cc
full_prefix_of (suc n) (x ∷ first) (y ∷ key) (p, h) e =
    let head : y ≡ x = cc in
    let tail : take n key ≡ take n first = cc in
    rw (full_prefix_of n first key h tail, head) (ground arith)

-- A key below `rp` that shares `n` further nibbles with another is below these too.
under_shared :
    (rp first key : List ℕ) (n k : ℕ)
    → k ≡ length rp + n
    → under rp first ≡ true
    → under rp key ≡ true
    → IsNibbles key
    → take n (drop (length rp) key) ≡ take n (drop (length rp) first)
    → under (take k first) key ≡ true
unfolding under
under_shared [] first key n k ek p q h e =
    let all : k ≡ n = omega arith in rw all (full_prefix_of n first key h e)
under_shared (r ∷ rp) first key n zero ek p q h e = absurd (omega arith)
under_shared (r ∷ rp) [] key n (suc k) ek p q h e = cc
under_shared (r ∷ rp) (x ∷ first) [] n (suc k) ek p q h e = cc
under_shared (r ∷ rp) (x ∷ first) (y ∷ key) n (suc k) ek p q (hd, h) e =
    ground (arith, under_shared rp first key n k)

all_under :
    (rp first : List ℕ) (n k : ℕ) (rest : Entries)
    → k ≡ length rp + n
    → under rp first ≡ true
    → AllUnder rp rest
    → All IsNibbleKey rest
    → All (SharesAt n (length rp) (drop (length rp) first)) rest
    → AllUnder (take k first) rest
all_under rp first n k [] ek p u g h = tt
all_under rp first n k ((key, v) ∷ rest) ek p (q, u) (m, g) (e, h) =
    (under_shared rp first key n k ek p q m e, all_under rp first n k rest ek p u g h)

-- What path compression takes of the first key is shared, and is there.
node_shares :
    (d : ℕ) (first : List ℕ) (v : MptValue) (rest : Entries) (allow : Bool)
    → (n : ℕ) × (node_end allow ((first, v) ∷ rest) d ≡ d + n)
      × (n ≤ length (drop d first))
      × All (SharesAt n d (drop d first)) rest
unfolding shared_prefix_len
node_shares d first v rest true =
    let xs = drop d first in (_, refl, shared_nibbles_bound xs d rest, for_each_key xs d rest)
node_shares d first v rest false = (0, refl, omega arith, shares_none d (drop d first) rest)

-- Every key of a node's slice is below the node's full prefix, whose length is what it covers.
pub node_prefix :
    (rp first : List ℕ) (v : MptValue) (rest : Entries) (allow : Bool) (k : ℕ)
    → node_end allow ((first, v) ∷ rest) (length rp) ≡ k
    → AllUnder rp ((first, v) ∷ rest)
    → All IsNibbleKey ((first, v) ∷ rest)
    → AllUnder (take k first) ((first, v) ∷ rest) × (length (take k first) ≡ k)
node_prefix rp first v rest allow k ek (p, u) (m, g) =
    let (n, en, bound, shares) = node_shares (length rp) first v rest allow in
    let e : k ≡ length rp + n = sym ek ∙ en in
    (
      all_under rp first n k ((first, v) ∷ rest) e p (p, u) (m, g) (refl, shares),
      omega (arith, length-take k first, length-drop (length rp) first, length-under rp first p),
    )
