-- ===== src/Mpt/Incremental/Evict.antt =====
-- What the eviction leaves in the cache, and which blocks a write touches.
use cfx_minimal_execution.Common.{
  ℕ, zero, suc, ◌≤◌, ◌≡◌, ◌≢◌, refl, sym, ap, ◌∙◌, arith, Bool, true, false, ◌&&◌, ◌||◌, some, List,
  [], ◌∷◌, length, take, ◌==◌, Bool-cases, inl, inr,
}
use cfx_minimal_execution.Common.ByteMap.{
  ByteMap, eq_of_lex, get, insert, remove, get-remove, bytes_eq, bytes_eq_iff,
}
use native.Mathlib.Decide.{dec_le}
use cfx_minimal_execution.Mpt.Types.{H256}
use cfx_minimal_execution.Mpt.Incremental.{Cache, evict_prefixes, evict_dirty}
use cfx_minimal_execution.Mpt.Incremental.Blocks.{under}

pub prefix_of : List ℕ → List ℕ → Bool
prefix_of [] k = true
prefix_of (p ∷ ps) [] = false
prefix_of (p ∷ ps) (x ∷ xs) = p == x && prefix_of ps xs

-- Some dirty key lies at the node or below it.
pub touched : List ℕ → ByteMap (Unit {0}) → Bool
unfolding prefix_of
touched rp [] = false
touched rp ((k, u) ∷ dirty) = prefix_of rp k || touched rp dirty

prefix_take :
    (rp k : List ℕ) → prefix_of rp k ≡ true → (take (length rp) k ≡ rp) × (length rp ≤ length k)
unfolding prefix_of
prefix_take [] k h = (refl, omega arith)
prefix_take (p ∷ ps) [] h = cc
prefix_take (p ∷ ps) (x ∷ xs) h = ground (arith, prefix_take ps xs)

pub under-false : (rp k : List ℕ) → prefix_of rp k ≡ false → under rp k ≡ false
unfolding prefix_of under
under-false [] k h = cc
under-false (p ∷ ps) [] h = refl
under-false (p ∷ ps) (x ∷ xs) h = ground (arith, under-false ps xs)

pub touched-insert :
    (rp k : List ℕ) (dirty : ByteMap (Unit {0}))
    → touched rp (insert k tt dirty) ≡ false
    → (prefix_of rp k ≡ false) × (touched rp dirty ≡ false)
unfolding touched insert
touched-insert rp k [] h = ground arith
touched-insert rp k ((j, u) ∷ dirty) h = ground (arith, eq_of_lex k j, touched-insert rp k dirty)

removed :
    (k rp : List ℕ) (h : H256) (cache : Cache)
    → get rp (remove k cache) ≡ some h
    → (get rp cache ≡ some h) × (k ≢ rp)
removed k rp h cache e = elim (Bool-cases (bytes_eq k rp)) [
  | inl same ↦ ground (arith, get-remove k rp cache)
  | inr other ↦
      (sym (get-remove k rp cache ∙ rw other) ∙ e, λ p. cc (other, (bytes_eq_iff k rp).1 p))
]

get-evict_prefixes :
    (n : ℕ) (ns rp : List ℕ) (h : H256) (cache : Cache)
    → get rp (evict_prefixes n ns cache) ≡ some h
    → (get rp cache ≡ some h) × ((l : ℕ) → l ≤ n → take l ns ≢ rp)
unfolding evict_prefixes
get-evict_prefixes zero ns rp h cache e =
    let (kept, ne) = removed [] rp h cache e in
    (kept, λ l hl p. ne (sym (ap (λ n. take n ns) (let z : l ≡ 0 = omega arith in z)) ∙ p))
get-evict_prefixes (suc n) ns rp h cache e =
    let (kept, ne) = removed (take (suc n) ns) rp h (evict_prefixes n ns cache) e in
    let (kept', gone) = get-evict_prefixes n ns rp h cache kept in
    (
      kept',
      λ l hl p. elim (dec_le l n) [
        | yes le ↦ gone l le p
        | no gt ↦ ne (sym (ap (λ n. take n ns) (let z : l ≡ suc n = omega arith in z)) ∙ p)
      ],
    )

pub get-evict_dirty :
    (dirty : ByteMap (Unit {0})) (rp : List ℕ) (h : H256) (cache : Cache)
    → get rp (evict_dirty dirty cache) ≡ some h
    → (get rp cache ≡ some h) × (touched rp dirty ≡ false)
unfolding evict_dirty touched
get-evict_dirty [] rp h cache e = (e, refl)
get-evict_dirty ((k, u) ∷ dirty) rp h cache e =
    let (e1, clean) = get-evict_dirty dirty rp h _ e in
    let (e2, gone) = get-evict_prefixes (length k) k rp h cache e1 in
    (
      e2,
      elim (Bool-cases (prefix_of rp k)) [
        | inl pre ↦ absurd (gone (length rp) (prefix_take rp k pre).1 (prefix_take rp k pre).0)
        | inr free ↦ rw (free, clean)
      ],
    )
