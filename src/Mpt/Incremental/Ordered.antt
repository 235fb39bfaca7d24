-- ===== src/Mpt/Incremental/Ordered.antt =====
-- Maps in the order of their keys, as a `BTreeMap` keeps them, and keys made of nibbles.
use cfx_minimal_execution.Common.{
  ℕ, ◌<◌, ◌≡◌, ◌⊎◌, refl, sym, subst, arith, true, List, [], ◌∷◌, All, inl, inr, lt→ltb,
}
use cfx_minimal_execution.Common.Bits.{bit_and_0f}
use cfx_minimal_execution.Common.Bytes.{IsBytes}
use cfx_minimal_execution.Common.ByteMap.{lex, lex_flip, lex_trans, eq_of_lex, insert, remove}
use Prim.Native.Nat.{Ordering}
use Prim.Native.Nat.Ordering.{lt, eq, gt}
use cfx_minimal_execution.Mpt.Trie.{MptValue, bytes_to_nibbles}
use cfx_minimal_execution.Mpt.Incremental.{Entries}
use cfx_minimal_execution.Mpt.Incremental.Blocks.{under, keep}

pub lex-cases : (o : Ordering) → (o ≡ lt) ⊎ ((o ≡ eq) ⊎ (o ≡ gt))
lex-cases lt = inl refl
lex-cases eq = inr (inl refl)
lex-cases gt = inr (inr refl)

-- The key is below every key of the map.
abbrev pub IsLeast : List ℕ → Entries → Type 0
IsLeast raw m = All (λ e. lex raw e.0 ≡ lt) m

-- The keys ascend.
unfoldable pub IsOrdered : Entries → Type 0
IsOrdered [] = Unit
IsOrdered ((k, v) ∷ m) = IsLeast k m × IsOrdered m

pub IsLeast-insert :
    (j k : List ℕ) (v : MptValue) (m : Entries)
    → lex j k ≡ lt
    → IsLeast j m
    → IsLeast j (insert k v m)
unfolding insert
IsLeast-insert j k v [] h g = (h, tt)
IsLeast-insert j k v ((i, w) ∷ m) h (p, g) = elim (lex-cases (lex k i)) [
  | inl before ↦ rw (insert, before) (h, (p, g))
  | inr (inl here) ↦ rw (insert, here) (h, g)
  | inr (inr after) ↦ rw (insert, after) (p, IsLeast-insert j k v m h g)
]

pub IsLeast-trans : (k j : List ℕ) (m : Entries) → lex k j ≡ lt → IsLeast j m → IsLeast k m
IsLeast-trans k j [] h g = tt
IsLeast-trans k j ((i, w) ∷ m) h (p, g) = (lex_trans k j i h p, IsLeast-trans k j m h g)

pub insert-IsOrdered :
    (k : List ℕ) (v : MptValue) (m : Entries) → IsOrdered m → IsOrdered (insert k v m)
unfolding insert IsOrdered
insert-IsOrdered k v [] h = (tt, tt)
insert-IsOrdered k v ((i, w) ∷ m) (least, h) = elim (lex-cases (lex k i)) [
  | inl before ↦ rw (insert, before) ((before, IsLeast-trans k i m before least), (least, h))
  | inr (inl here) ↦
      rw (insert, here) (subst (λ j. IsLeast j m) (sym (eq_of_lex k i here)) least, h)
  | inr (inr after) ↦
      rw (insert, after)
        (IsLeast-insert i k v m (lex_flip k i after) least, insert-IsOrdered k v m h)
]

IsLeast-remove : (j k : List ℕ) (m : Entries) → IsLeast j m → IsLeast j (remove k m)
unfolding remove
IsLeast-remove j k [] h = tt
IsLeast-remove j k ((i, w) ∷ m) h = ground (arith, IsLeast-remove j k m)

pub remove-IsOrdered : (k : List ℕ) (m : Entries) → IsOrdered m → IsOrdered (remove k m)
unfolding remove IsOrdered
remove-IsOrdered k [] h = tt
remove-IsOrdered k ((i, w) ∷ m) h = ground (arith, IsLeast-remove i k m, remove-IsOrdered k m)

-- A key made of nibbles.
abbrev pub IsNibbles : List ℕ → Type 0
IsNibbles key = All (λ n. n < 16) key

abbrev pub IsNibbleKey : List ℕ × MptValue → Type 0
IsNibbleKey e = IsNibbles e.0

pub bytes_to_nibbles-IsNibbles : (key : List ℕ) → IsBytes key → IsNibbles (bytes_to_nibbles key)
unfolding bytes_to_nibbles
bytes_to_nibbles-IsNibbles [] h = tt
bytes_to_nibbles-IsNibbles (b ∷ bs) (p, h) =
    (omega arith, (omega (arith, bit_and_0f b), bytes_to_nibbles-IsNibbles bs h))

pub IsNibbles-under : (key : List ℕ) → IsNibbles key → under [] key ≡ true
unfolding under
IsNibbles-under [] h = refl
IsNibbles-under (x ∷ xs) (p, h) = lt→ltb x 16 p

pub insert-IsNibbleKey :
    (k : List ℕ) (v : MptValue) (m : Entries)
    → IsNibbles k
    → All IsNibbleKey m
    → All IsNibbleKey (insert k v m)
unfolding insert
insert-IsNibbleKey k v [] h g = (h, tt)
insert-IsNibbleKey k v ((j, w) ∷ m) h g = ground (arith, insert-IsNibbleKey k v m)

pub remove-IsNibbleKey :
    (k : List ℕ) (m : Entries) → All IsNibbleKey m → All IsNibbleKey (remove k m)
unfolding remove
remove-IsNibbleKey k [] g = tt
remove-IsNibbleKey k ((j, w) ∷ m) g = ground (arith, remove-IsNibbleKey k m)

-- The root's block holds every key.
pub keep_root : (m : Entries) → All IsNibbleKey m → keep [] m ≡ m
unfolding keep
keep_root [] h = refl
keep_root ((k, v) ∷ m) (p, h) = rw (IsNibbles-under k p, keep_root m h) refl
