-- ===== src/Mpt/Stateless/Prefix.antt =====
-- On keys in order, the nibbles that all keys share are those that the first and the last share:
-- `common_prefix_len` of trie.rs and of incremental.rs.
use cfx_minimal_execution.Common.{
  ℕ, zero, suc, ◌≡◌, refl, sym, ap, subst, ◌∙◌, arith, Bool, true, false, ◌&&◌, ◌||◌, List, [], ◌∷◌,
  ltb, ◌==◌, length, drop, All, Bool-cases, inl, inr,
}
use cfx_minimal_execution.Common.ByteMap.{lex}
use Prim.Native.Nat.Ordering.{lt}
use cfx_minimal_execution.Mpt.Trie.{MptValue}
use cfx_minimal_execution.Mpt.Incremental.{Entries, common_prefix_len, count_common, last_key}
use cfx_minimal_execution.Mpt.Incremental.Blocks.{under}
use cfx_minimal_execution.Mpt.Incremental.Ordered.{IsLeast, IsOrdered}
use cfx_minimal_execution.Mpt.Stateless.{has_nibble, all_have, shared_nibbles, shared_prefix_len}

-- `a ≤ b` in the lexicographic order.
unfoldable leq : List ℕ → List ℕ → Bool
leq [] ys = true
leq (x ∷ xs) [] = false
leq (x ∷ xs) (y ∷ ys) = ltb x y || (x == y && leq xs ys)

leq_refl : (xs : List ℕ) → leq xs xs ≡ true
unfolding leq
leq_refl [] = refl
leq_refl (x ∷ xs) = ground (arith, leq_refl xs)

leq_of_lt : (a b : List ℕ) → lex a b ≡ lt → leq a b ≡ true
unfolding leq lex
leq_of_lt [] b h = refl
leq_of_lt (x ∷ a) [] h = cc
leq_of_lt (x ∷ a) (y ∷ b) h = ground (arith, leq_of_lt a b)

-- Keys below the same prefix compare as what follows it.
leq-drop :
    (rp a b : List ℕ)
    → under rp a ≡ true
    → under rp b ≡ true
    → lex a b ≡ lt
    → leq (drop (length rp) a) (drop (length rp) b) ≡ true
unfolding leq under lex
leq-drop [] a b p q h = leq_of_lt a b h
leq-drop (r ∷ rp) [] b p q h = cc
leq-drop (r ∷ rp) (x ∷ a) [] p q h = cc
leq-drop (r ∷ rp) (x ∷ a) (y ∷ b) p q h = ground (arith, leq-drop rp a b)

-- What stands at a position, and what follows it.
head_has :
    (d : ℕ) (key : List ℕ) (n : ℕ) (ns : List ℕ)
    → drop d key ≡ n ∷ ns
    → (c : ℕ) → has_nibble d c key ≡ (n == c)
unfolding has_nibble
head_has zero [] n ns e c = cc
head_has (suc d) [] n ns e c = cc
head_has zero (x ∷ key) n ns e c = let h : x ≡ n = cc in ap (λ y. y == c) h
head_has (suc d) (x ∷ key) n ns e c = head_has d key n ns e c

end_has : (d : ℕ) (key : List ℕ) → drop d key ≡ [] → (c : ℕ) → has_nibble d c key ≡ false
unfolding has_nibble
end_has d [] e c = refl
end_has zero (x ∷ key) e c = cc
end_has (suc d) (x ∷ key) e c = end_has d key e c

pub drop_next :
    (d : ℕ) (key : List ℕ) (n : ℕ) (ns : List ℕ) → drop d key ≡ n ∷ ns → drop (suc d) key ≡ ns
drop_next zero [] n ns e = cc
drop_next (suc d) [] n ns e = cc
drop_next zero (x ∷ key) n ns e = cc
drop_next (suc d) (x ∷ key) n ns e = drop_next d key n ns e

-- The key of each entry, from the position on, lies between the two strings.
Between : List ℕ → List ℕ → ℕ → Entries → Type 0
Between xs zs d rest = All (λ e. (leq xs (drop d e.0) ≡ true) × (leq (drop d e.0) zs ≡ true)) rest

-- Keys between two strings with the same first nibble start with it too.
between_same :
    (n : ℕ) (ns ms : List ℕ) (d : ℕ) (key : List ℕ)
    → leq (n ∷ ns) (drop d key) ≡ true
    → leq (drop d key) (n ∷ ms) ≡ true
    → (has_nibble d n key ≡ true)
      × ((leq ns (drop (suc d) key) ≡ true) × (leq (drop (suc d) key) ms ≡ true))
unfolding leq
between_same n ns ms d key p q = by_drop (drop d key) refl p q
  where
    by_drop :
        (ks : List ℕ)
        → drop d key ≡ ks
        → leq (n ∷ ns) ks ≡ true
        → leq ks (n ∷ ms) ≡ true
        → (has_nibble d n key ≡ true)
          × ((leq ns (drop (suc d) key) ≡ true) × (leq (drop (suc d) key) ms ≡ true))
    by_drop [] e p q = cc
    by_drop (k ∷ ks) e p q = rw (head_has d key k ks e n, drop_next d key k ks e) (ground arith)

one_nibble_more :
    (n : ℕ) (ns ms : List ℕ) (d : ℕ) (rest : Entries)
    → Between (n ∷ ns) (n ∷ ms) d rest
    → (all_have d n rest ≡ true) × Between ns ms (suc d) rest
unfolding all_have Between
one_nibble_more n ns ms d [] h = (refl, tt)
one_nibble_more n ns ms d ((key, v) ∷ rest) ((p, q), h) =
    let (a, (b, c)) = between_same n ns ms d key p q in
    let (x, y) = one_nibble_more n ns ms d rest h in (rw (a, x), ((b, c), y))

-- Where every key has the nibble, the last has.
last_has :
    (d n : ℕ) (first : List ℕ) (rest : Entries)
    → has_nibble d n first ≡ true
    → all_have d n rest ≡ true
    → has_nibble d n (last_key first rest) ≡ true
unfolding all_have last_key
last_has d n first [] p q = p
last_has d n first ((key, v) ∷ rest) p q = last_has d n key rest (ground arith) (ground arith)

pub has_head :
    (d n : ℕ) (key : List ℕ) (zs : List ℕ)
    → drop d key ≡ zs
    → has_nibble d n key ≡ true
    → (ms : List ℕ) × (zs ≡ n ∷ ms)
has_head d n key [] e h = absurd (cc (end_has d key e n))
has_head d n key (z ∷ zs) e h =
    let same : (z == n) ≡ true = sym (head_has d key z zs e n) ∙ h in
    (zs, ap (λ c. c ∷ zs) (ground arith))

==_refl : (n : ℕ) → (n == n) ≡ true
==_refl n = ground arith

lacks_none :
    (n : ℕ) (ns zs : List ℕ) (d : ℕ) (rest : Entries)
    → all_have d n rest ≡ false
    → Between (n ∷ ns) zs d rest
    → count_common (n ∷ ns) zs ≡ 0
unfolding count_common
lacks_none n ns [] d rest lacks h = refl
lacks_none n ns (z ∷ zs) d rest lacks h = elim (Bool-cases (n == z)) [
  | inr differ ↦ rw differ refl
  | inl same ↦
      let e : z ≡ n = ground arith in
      absurd
        (cc (one_nibble_more n ns zs d rest (subst (λ c. Between (n ∷ ns) (c ∷ zs) d rest) e h)).0)
]

shared-eq-common :
    (xs zs : List ℕ) (d : ℕ) (first : List ℕ) (rest : Entries)
    → drop d first ≡ xs
    → drop d (last_key first rest) ≡ zs
    → Between xs zs d rest
    → shared_nibbles xs d rest ≡ count_common xs zs
unfolding shared_nibbles count_common
shared-eq-common [] zs d first rest ex ez h = refl
shared-eq-common (n ∷ ns) zs d first rest ex ez h = elim (Bool-cases (all_have d n rest)) [
  | inl all ↦
      let (ms, em) =
        has_head d n (last_key first rest) zs ez
          (last_has d n first rest (head_has d first n ns ex n ∙ ==_refl n) all) in
      let rest_same =
        shared-eq-common ns ms (suc d) first rest (drop_next d first n ns ex)
          (drop_next d (last_key first rest) n ms (ez ∙ em))
          (one_nibble_more n ns ms d rest (subst (λ s. Between (n ∷ ns) s d rest) em h)).1 in
      rw (all, em, ==_refl n, rest_same) refl
  | inr lacks ↦ rw lacks (sym (lacks_none n ns zs d rest lacks h))
]

abbrev pub AllUnder : List ℕ → Entries → Type 0
AllUnder rp m = All (λ e. under rp e.0 ≡ true) m

last-All :
    (P : List ℕ → Type 0) (first : List ℕ) (rest : Entries)
    → P first
    → All (λ e. P e.0) rest
    → P (last_key first rest)
unfolding last_key
last-All P first [] h g = h
last-All P first ((k, v) ∷ rest) h (p, g) = last-All P k rest p g

module _ (rp : List ℕ) where
  abbrev rel : List ℕ → List ℕ
  rel key = drop (length rp) key

  below_last :
      (first : List ℕ) (v : MptValue) (rest : Entries)
      → IsOrdered ((first, v) ∷ rest)
      → AllUnder rp ((first, v) ∷ rest)
      → leq (rel first) (rel (last_key first rest)) ≡ true
  unfolding IsOrdered last_key
  below_last first v [] o u = leq_refl (rel first)
  below_last first v ((k, w) ∷ rest) (least, o) (p, (q, u)) =
      leq-drop rp first (last_key k rest) p (last-All (λ j. under rp j ≡ true) k rest q u)
        (last-All (λ j. lex first j ≡ lt) k rest least.0 least.1)

  -- Of keys in order below a prefix, each lies between the bounds of those before and after it.
  bounded_by_ends :
      (low first : List ℕ) (v : MptValue) (rest : Entries)
      → under rp low ≡ true
      → IsLeast low rest
      → IsOrdered ((first, v) ∷ rest)
      → AllUnder rp ((first, v) ∷ rest)
      → Between (rel low) (rel (last_key first rest)) (length rp) rest
  unfolding IsOrdered last_key Between
  bounded_by_ends low first v [] l least o u = tt
  bounded_by_ends low first v ((k, w) ∷ rest) l (below, least) (first_least, o) (p, (q, u)) = (
    (leq-drop rp low k l q below, below_last k w rest o (q, u)),
    bounded_by_ends low k w rest l least o (q, u),
  )

  pub shared_prefix_len-eq-common_prefix_len :
      (first : List ℕ) (v : MptValue) (rest : Entries)
      → IsOrdered ((first, v) ∷ rest)
      → AllUnder rp ((first, v) ∷ rest)
      → shared_prefix_len ((first, v) ∷ rest) (length rp)
        ≡ common_prefix_len first (last_key first rest) (length rp)
  unfolding shared_prefix_len common_prefix_len IsOrdered
  shared_prefix_len-eq-common_prefix_len first v rest o u =
      shared-eq-common (rel first) (rel (last_key first rest)) (length rp) first rest refl refl
        (bounded_by_ends first first v rest u.0 o.0 o u)
