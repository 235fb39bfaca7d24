-- ===== src/Mpt/Incremental/Blocks.antt =====
-- The block of a node: exactly the entries whose keys continue its routing prefix by a nibble.
use cfx_minimal_execution.Common.{
  ℕ, zero, suc, ◌<◌, ◌≤◌, ◌≡◌, refl, arith, Bool, true, false, ◌&&◌, List, [], ◌∷◌, ◌++◌, ltb, ◌==◌,
  length, take, if◌then◌else◌,
}
use cfx_minimal_execution.Common.ByteMap.{
  lex, eq_of_lex, lex_ltb, in_range, range, get, insert, remove, bytes_eq_iff,
}
use cfx_minimal_execution.Mpt.Trie.{MptValue}
use cfx_minimal_execution.Mpt.Incremental.{Entries, prefix_upper, block}

-- The key continues the prefix by a nibble, or is the prefix.
unfoldable pub under : List ℕ → List ℕ → Bool
under [] [] = true
under [] (x ∷ xs) = ltb x 16
under (p ∷ ps) [] = false
under (p ∷ ps) (x ∷ xs) = p == x && under ps xs

abbrev bounds : List ℕ → List ℕ → Bool
bounds rp k = in_range rp (rp ++ (16 ∷ [])) k

in_range_under : (rp k : List ℕ) → bounds rp k ≡ under rp k
unfolding under lex_ltb lex
in_range_under [] [] = refl
in_range_under [] (x ∷ []) = ground arith
in_range_under [] (x ∷ y ∷ xs) = ground arith
in_range_under (p ∷ ps) [] = refl
in_range_under (p ∷ ps) (x ∷ xs) = ground (arith, in_range_under ps xs)

-- A block as a filter by `under`.
unfoldable pub keep : List ℕ → Entries → Entries
keep rp [] = []
keep rp ((k, v) ∷ m) = let rest = keep rp m in if under rp k then (k, v) ∷ rest else rest

pub block-eq-keep : (rp : List ℕ) (m : Entries) → block rp m ≡ keep rp m
unfolding block range keep prefix_upper
block-eq-keep rp [] = refl
block-eq-keep rp ((k, v) ∷ m) = rw (in_range_under rp k, block-eq-keep rp m)

-- A key outside the block leaves it alone.
pub keep-insert :
    (rp k : List ℕ) (v : MptValue) (m : Entries)
    → under rp k ≡ false
    → keep rp (insert k v m) ≡ keep rp m
unfolding keep insert
keep-insert rp k v [] h = rw h
keep-insert rp k v ((j, w) ∷ m) h = ground (arith, eq_of_lex k j, keep-insert rp k v m)

pub keep-remove :
    (rp k : List ℕ) (m : Entries) → under rp k ≡ false → keep rp (remove k m) ≡ keep rp m
unfolding keep remove
keep-remove rp k [] h = refl
keep-remove rp k ((j, w) ∷ m) h = ground (arith, bytes_eq_iff j k, keep-remove rp k m)

-- What a key of the block reads in the whole map it reads in the block.
pub get-keep : (rp q : List ℕ) (m : Entries) → under rp q ≡ true → get q (keep rp m) ≡ get q m
unfolding keep get
get-keep rp q [] h = refl
get-keep rp q ((j, w) ∷ m) h = ground (arith, bytes_eq_iff j q, get-keep rp q m)

-- The block of a longer prefix is a part of the block.
pub keep-keep :
    (rp q : List ℕ) (m : Entries)
    → ((k : List ℕ) → under q k ≡ true → under rp k ≡ true)
    → keep q (keep rp m) ≡ keep q m
unfolding keep
keep-keep rp q [] h = refl
keep-keep rp q ((j, w) ∷ m) h = ground (arith, h j, keep-keep rp q m h)

-- A prefix is a prefix of itself, and of each way to go on from a key of its block.
pub under-take :
    (rp k : List ℕ) (n : ℕ) → length rp ≤ n → under rp k ≡ true → under rp (take n k) ≡ true
unfolding under
under-take [] [] zero l h = refl
under-take [] [] (suc n) l h = refl
under-take [] (x ∷ xs) zero l h = refl
under-take [] (x ∷ xs) (suc n) l h = h
under-take (p ∷ ps) [] n l h = cc
under-take (p ∷ ps) (x ∷ xs) zero l h = absurd (omega arith)
under-take (p ∷ ps) (x ∷ xs) (suc n) l h = ground (arith, under-take ps xs n (omega arith))

pub under_child :
    (rp fp : List ℕ) (c : ℕ) (k : List ℕ)
    → c < 16
    → under rp fp ≡ true
    → under (fp ++ (c ∷ [])) k ≡ true
    → under rp k ≡ true
unfolding under
under_child [] [] c [] hc h g = cc
under_child [] [] c (x ∷ xs) hc h g = ground arith
under_child [] (f ∷ fs) c [] hc h g = cc
under_child [] (f ∷ fs) c (x ∷ xs) hc h g = ground arith
under_child (p ∷ ps) [] c k hc h g = cc
under_child (p ∷ ps) (f ∷ fs) c [] hc h g = cc
under_child (p ∷ ps) (f ∷ fs) c (x ∷ xs) hc h g = ground (arith, under_child ps fs c xs hc)

-- The first key of a block lies under the prefix.
pub keep_head :
    (rp : List ℕ) (m : Entries) (k : List ℕ) (v : MptValue) (rest : Entries)
    → keep rp m ≡ (k, v) ∷ rest
    → under rp k ≡ true
unfolding keep
keep_head rp [] k v rest e = cc
keep_head rp ((j, w) ∷ m) k v rest e = ground (arith, keep_head rp m k v rest)

pub length-under : (rp k : List ℕ) → under rp k ≡ true → length rp ≤ length k
unfolding under
length-under [] k h = omega arith
length-under (p ∷ ps) [] h = cc
length-under (p ∷ ps) (x ∷ xs) h = ground (arith, length-under ps xs)
