-- ===== src/Common/ByteMap.antt =====
-- Byte strings in their order, and maps keyed by them (`BTreeMap<Vec<u8>, V>`; a hash map with
-- such keys is modelled by the same type, as its order is never read).
use Prim.Native.Nat.{ℕ, compare, Ordering}
use Prim.Native.Nat.Ordering.{lt, eq, gt}
use mathlib.Core.Path.{◌≡◌, refl}
use mathlib.Core.Logic.{◌↔◌}
use mathlib.Core.Bool.{Bool, true, false, not, ◌&&◌}
use mathlib.Core.Option.{Option, none, some}
use mathlib.Core.List.{List, [], ◌∷◌}
use native.Mathlib.Omega.{arith}
use cfx_minimal_execution.Common.Tests.{if◌then◌else◌}

-- The lexicographic order of byte strings.
unfoldable pub lex : List ℕ → List ℕ → Ordering
lex [] [] = eq
lex [] (y ∷ ys) = lt
lex (x ∷ xs) [] = gt
lex (x ∷ xs) (y ∷ ys) = elim (compare x y) [ lt ↦ lt | eq ↦ lex xs ys | gt ↦ gt ]

pub lex_refl : (xs : List ℕ) → lex xs xs ≡ eq
unfolding lex
lex_refl [] = refl
lex_refl (x ∷ xs) = ground (arith, lex_refl xs)

pub eq_of_lex : (xs ys : List ℕ) → lex xs ys ≡ eq → xs ≡ ys
unfolding lex
eq_of_lex [] [] h = refl
eq_of_lex [] (y ∷ ys) h = cc
eq_of_lex (x ∷ xs) [] h = cc
eq_of_lex (x ∷ xs) (y ∷ ys) h = ground (arith, eq_of_lex xs ys)

eq_iff_lex : (xs ys : List ℕ) → (lex xs ys ≡ eq) ↔ (xs ≡ ys)
eq_iff_lex xs ys = (eq_of_lex xs ys, λ e. rw (← e) (lex_refl xs))

-- Equality of byte strings.
unfoldable pub bytes_eq : List ℕ → List ℕ → Bool
unfolding lex
bytes_eq xs ys = elim (lex xs ys) [ eq ↦ true | _ ↦ false ]

pub bytes_eq_iff : (xs ys : List ℕ) → (bytes_eq xs ys ≡ true) ↔ (xs ≡ ys)
unfolding bytes_eq
bytes_eq_iff xs ys = (λ h. eq_of_lex xs ys (ground arith), λ h. ground (arith, lex_refl xs))

pub bytes_eq_refl : (xs : List ℕ) → bytes_eq xs xs ≡ true
bytes_eq_refl xs = (bytes_eq_iff xs xs).1 refl

abbrev pub ByteMap {ℓ} : Type ℓ → Type ℓ
ByteMap V = List (List ℕ × V)

module _ {ℓ} {V : Type ℓ} where
  unfoldable pub get : List ℕ → ByteMap V → Option V
  get k [] = none
  get k ((j, v) ∷ m) = if bytes_eq j k then some v else get k m

  -- The entries stay in the order of their keys.
  unfoldable pub insert : List ℕ → V → ByteMap V → ByteMap V
  insert k v [] = (k, v) ∷ []
  insert k v ((j, w) ∷ m) = elim (lex k j) [
    | lt ↦ (k, v) ∷ (j, w) ∷ m
    | eq ↦ (k, v) ∷ m
    | gt ↦ (j, w) ∷ insert k v m
  ]

  unfoldable pub remove : List ℕ → ByteMap V → ByteMap V
  remove k [] = []
  remove k ((j, w) ∷ m) = let rest = remove k m in if bytes_eq j k then rest else (j, w) ∷ rest

  pub get-insert :
      (k j : List ℕ) (v : V) (m : ByteMap V)
      → get j (insert k v m) ≡ (if bytes_eq k j then some v else get j m)
  unfolding get insert
  get-insert k j v [] = refl
  get-insert k j v ((i, w) ∷ m) =
      ground (arith, eq_iff_lex k i, bytes_eq_iff k j, bytes_eq_iff i j, get-insert k j v m)

  pub get-remove :
      (k j : List ℕ) (m : ByteMap V) → get j (remove k m) ≡ (if bytes_eq k j then none else get j m)
  unfolding get remove
  get-remove k j [] = ground arith
  get-remove k j ((i, w) ∷ m) =
      ground (arith, bytes_eq_iff k j, bytes_eq_iff i j, bytes_eq_iff i k, get-remove k j m)

-- `a < b` for byte strings.
unfoldable pub lex_ltb : List ℕ → List ℕ → Bool
unfolding lex
lex_ltb a b = elim (lex a b) [ lt ↦ true | _ ↦ false ]

abbrev pub in_range : List ℕ → List ℕ → List ℕ → Bool
in_range lo hi k = not (lex_ltb k lo) && lex_ltb k hi

module _ {ℓ} {V : Type ℓ} where
  -- `map.range(lo..hi)`: the entries from `lo` on and below `hi`, in their order.
  unfoldable pub range : List ℕ → List ℕ → ByteMap V → ByteMap V
  unfolding lex_ltb
  range lo hi [] = []
  range lo hi ((k, v) ∷ m) =
      let rest = range lo hi m in if in_range lo hi k then (k, v) ∷ rest else rest

pub lex_flip : (xs ys : List ℕ) → lex xs ys ≡ gt → lex ys xs ≡ lt
unfolding lex
lex_flip [] [] h = cc
lex_flip [] (y ∷ ys) h = cc
lex_flip (x ∷ xs) [] h = refl
lex_flip (x ∷ xs) (y ∷ ys) h = ground (arith, lex_flip xs ys)

pub lex_trans : (xs ys zs : List ℕ) → lex xs ys ≡ lt → lex ys zs ≡ lt → lex xs zs ≡ lt
unfolding lex
lex_trans [] [] zs h g = cc
lex_trans [] (y ∷ ys) [] h g = cc
lex_trans [] (y ∷ ys) (z ∷ zs) h g = refl
lex_trans (x ∷ xs) [] zs h g = cc
lex_trans (x ∷ xs) (y ∷ ys) [] h g = cc
lex_trans (x ∷ xs) (y ∷ ys) (z ∷ zs) h g = ground (arith, lex_trans xs ys zs)
