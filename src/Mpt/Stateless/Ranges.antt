-- ===== src/Mpt/Stateless/Ranges.antt =====
-- The runs of equal nibbles in a node's slice, which `child_ranges` finds, are the blocks of the
-- node's children.
use cfx_minimal_execution.Common.{
  ℕ, zero, suc, ◌+◌, ◌<◌, ◌≤◌, ◌≡◌, refl, sym, ap, ap₂, append-nil, append_assoc, ◌-◌, ◌∙◌, arith,
  true, false, none, some, List, [], ◌∷◌, ◌++◌, ◌==◌, length, get_or, All, Bool-cases, inl, inr,
  if◌then◌else◌,
}
use cfx_minimal_execution.Common.ByteMap.{lex, get, bytes_eq}
use Prim.Native.Nat.Ordering.{lt}
use cfx_minimal_execution.Mpt.Trie.{MptValue}
use cfx_minimal_execution.Mpt.Incremental.{
  Entries, child_ranges, close_run, join_run, grow_run, value_at,
}
use cfx_minimal_execution.Mpt.Incremental.Blocks.{under, keep, length-under}
use cfx_minimal_execution.Mpt.Incremental.Ordered.{IsLeast, IsOrdered, IsNibbles, IsNibbleKey}
use cfx_minimal_execution.Mpt.Stateless.{has_nibble}
use cfx_minimal_execution.Mpt.Stateless.Prefix.{AllUnder}

has_digit : (d c : ℕ) (key : List ℕ) → d < length key → has_nibble d c key ≡ (get_or key d 0 == c)
unfolding has_nibble
has_digit d c [] h = absurd (omega arith)
has_digit zero c (x ∷ key) h = refl
has_digit (suc d) c (x ∷ key) h = has_digit d c key (omega arith)

-- The entries with the nibble at the depth.
unfoldable pub pick : ℕ → ℕ → Entries → Entries
pick d c [] = []
pick d c ((k, v) ∷ m) = let rest = pick d c m in if has_nibble d c k then (k, v) ∷ rest else rest

unfoldable pub cons_run : ℕ → Entries → List (ℕ × Entries) → List (ℕ × Entries)
cons_run c [] runs = runs
cons_run c (e ∷ es) runs = (c, e ∷ es) ∷ runs

cons_run-All :
    (P : ℕ × Entries → Type 0) (c : ℕ) (s : Entries) (rs : List (ℕ × Entries))
    → ((e : List ℕ × MptValue) (es : Entries) → s ≡ e ∷ es → P (c, e ∷ es))
    → All P rs
    → All P (cons_run c s rs)
unfolding cons_run
cons_run-All P c [] rs h g = g
cons_run-All P c (e ∷ es) rs h g = (h e es refl, g)

-- The runs of `n` nibbles from `c` on.
unfoldable pub runs : ℕ → ℕ → ℕ → Entries → List (ℕ × Entries)
unfolding cons_run
runs d c zero m = []
runs d c (suc n) m = cons_run c (pick d c m) (runs d (suc c) n m)

-- The keys are longer than the depth, and their nibbles there ascend from `c`.
unfoldable IsAscending : ℕ → ℕ → Entries → Type 0
IsAscending d c [] = Unit
IsAscending d c ((k, v) ∷ m) =
    (d < length k) × ((c ≤ get_or k d 0) × ((get_or k d 0 < 16) × IsAscending d (get_or k d 0) m))

IsAscending-le : (d a b : ℕ) (m : Entries) → a ≤ b → IsAscending d b m → IsAscending d a m
unfolding IsAscending
IsAscending-le d a b [] h g = tt
IsAscending-le d a b ((k, v) ∷ m) h (p, (q, g)) = (p, (omega arith, g))

pick-IsAscending : (d a b : ℕ) (m : Entries) → a < b → IsAscending d b m → pick d a m ≡ []
unfolding pick IsAscending
pick-IsAscending d a b [] h g = refl
pick-IsAscending d a b ((k, v) ∷ m) h (p, (q, (r, g))) =
    let other : has_nibble d a k ≡ false = has_digit d a k p ∙ ground arith in
    rw (other, pick-IsAscending d a (get_or k d 0) m (omega arith) g) refl

-- An entry below the runs does not count.
runs_above :
    (d c n : ℕ) (k : List ℕ) (v : MptValue) (m : Entries)
    → ((b : ℕ) → c ≤ b → has_nibble d b k ≡ false)
    → runs d c n ((k, v) ∷ m) ≡ runs d c n m
unfolding runs pick
runs_above d c zero k v m h = refl
runs_above d c (suc n) k v m h =
    rw (h c (omega arith), runs_above d (suc c) n k v m (λ b l. h b (omega arith))) refl

-- Nibbles that no key has are passed over.
runs_skip :
    (d c s x n : ℕ) (m : Entries)
    → c ≤ x
    → c + s ≡ x + n
    → IsAscending d x m
    → runs d c s m ≡ runs d x n m
unfolding runs
runs_skip d c zero x n m l e h = let done : n ≡ 0 = omega arith in rw done refl
runs_skip d c (suc s) x n m l e h = elim (Bool-cases (c == x)) [
  | inl here ↦
      ap (λ b. runs d b (suc s) m) (let q : c ≡ x = ground arith in q)
      ∙ ap (λ b. runs d x b m) (let q : suc s ≡ n = ground arith in q)
  | inr before ↦
      let less : c < x = ground arith in
      rw (runs, pick-IsAscending d c x m less h) (runs_skip d (suc c) s x n m less (omega arith) h)
]

-- The run that begins the runs of an ascending slice.
runs_here :
    (d c n : ℕ) (k : List ℕ) (v : MptValue) (m : Entries)
    → d < length k
    → get_or k d 0 ≡ c
    → runs d c (suc n) ((k, v) ∷ m) ≡ (c, (k, v) ∷ pick d c m) ∷ runs d (suc c) n m
unfolding runs pick cons_run
runs_here d c n k v m l e =
    let here : has_nibble d c k ≡ true = has_digit d c k l ∙ ground arith in
    rw (here, runs_above d (suc c) n k v m (λ b q. has_digit d b k l ∙ ground arith)) refl

runs-nil : (d c n : ℕ) → runs d c n [] ≡ []
unfolding runs pick cons_run
runs-nil d c zero = refl
runs-nil d c (suc n) = runs-nil d (suc c) n

-- What holds of each block holds of the runs.
pub runs-All :
    (P : ℕ × Entries → Type 0) (d c n : ℕ) (m : Entries)
    → c + n ≡ 16
    → ((b : ℕ) (e : List ℕ × MptValue) (es : Entries)
        → b < 16
        → pick d b m ≡ e ∷ es
        → P (b, e ∷ es))
    → All P (runs d c n m)
unfolding runs cons_run
runs-All P d c zero m e h = tt
runs-All P d c (suc n) m e h =
    let after = runs-All P d (suc c) n m (omega arith) h in
    cons_run-All P c (pick d c m) (runs d (suc c) n m) (λ x xs. h c x xs (omega arith)) after

-- `child_ranges` behind an open run, and with none open.
open_ranges :
    (d c n : ℕ) (acc m : Entries)
    → c + suc n ≡ 16
    → IsAscending d c m
    → child_ranges d (some (c, acc)) m ≡ (c, acc ++ pick d c m) ∷ runs d (suc c) n m
unfolding child_ranges close_run join_run grow_run IsAscending pick
open_ranges d c n acc [] e h =
    ap₂ (λ es rs. (c, es) ∷ rs) (sym (append-nil acc)) (sym (runs-nil d (suc c) n))
open_ranges d c n acc ((k, v) ∷ m) e (l, (q, (r, g))) = elim (Bool-cases (c == get_or k d 0)) [
  | inl same ↦
      let at_c : get_or k d 0 ≡ c = ground arith in
      let longer : (length k == d) ≡ false = ground arith in
      let has : has_nibble d c k ≡ true = has_digit d c k l ∙ ground arith in
      rw (longer, same, has, runs_above d (suc c) n k v m (λ b q. has_digit d b k l ∙ ground arith))
        (open_ranges d c n (acc ++ ((k, v) ∷ [])) m e (IsAscending-le d c (get_or k d 0) m q g)
          ∙ ap (λ es. (c, es) ∷ runs d (suc c) n m) (append_assoc acc ((k, v) ∷ []) (pick d c m)))
  | inr other ↦
      let longer : (length k == d) ≡ false = ground arith in
      let has : has_nibble d c k ≡ false = has_digit d c k l ∙ ground arith in
      let above : suc c ≤ get_or k d 0 = ground arith in
      let left = 15 - get_or k d 0 in
      rw (longer, other, has, pick-IsAscending d c (get_or k d 0) m above g)
        (ap₂ (λ es rs. (c, es) ∷ rs) (sym (append-nil acc))
          (open_ranges d (get_or k d 0) left ((k, v) ∷ []) m (omega arith) g
            ∙ sym (
                runs_skip d (suc c) n (get_or k d 0) (suc left) ((k, v) ∷ m) above (omega arith)
                  (l, ((omega arith), (r, g)))
                ∙ runs_here d (get_or k d 0) left k v m l refl)))
]

-- With no run open, from any nibble at or below the first.
ascending_ranges :
    (d c n : ℕ) (m : Entries)
    → c + n ≡ 16
    → IsAscending d c m
    → child_ranges d none m ≡ runs d c n m
unfolding child_ranges close_run join_run grow_run IsAscending pick
ascending_ranges d c n [] e h = sym (runs-nil d c n)
ascending_ranges d c n ((k, v) ∷ m) e (l, (q, (r, g))) =
    let longer : (length k == d) ≡ false = ground arith in
    let left = 15 - get_or k d 0 in
    rw longer (
      open_ranges d (get_or k d 0) left ((k, v) ∷ []) m (omega arith) g
      ∙ sym (
          runs_skip d c n (get_or k d 0) (suc left) ((k, v) ∷ m) q (omega arith)
            (l, ((omega arith), (r, g)))
          ∙ runs_here d (get_or k d 0) left k v m l refl))

-- A key below `fp` that is no longer is `fp`.
length_under_eq : (fp k : List ℕ) → under fp k ≡ true → (length k == length fp) ≡ bytes_eq k fp
unfolding under bytes_eq lex
length_under_eq [] [] h = refl
length_under_eq [] (x ∷ k) h = ground arith
length_under_eq (p ∷ fp) [] h = cc
length_under_eq (p ∷ fp) (x ∷ k) h = ground (arith, length_under_eq fp k)

pub value_at-eq-get :
    (fp : List ℕ) (m : Entries) → AllUnder fp m → value_at (length fp) m ≡ get fp m
unfolding value_at get
value_at-eq-get fp [] h = refl
value_at-eq-get fp ((k, v) ∷ m) (p, h) = rw (length_under_eq fp k p, value_at-eq-get fp m h) refl

under-digit :
    (fp k : List ℕ) (c : ℕ)
    → under fp k ≡ true
    → IsNibbles k
    → under (fp ++ (c ∷ [])) k ≡ has_nibble (length fp) c k
unfolding under has_nibble
under-digit [] [] c h g = refl
under-digit [] (x ∷ []) c h g = ground arith
under-digit [] (x ∷ y ∷ k) c h g = ground arith
under-digit (p ∷ fp) [] c h g = cc
under-digit (p ∷ fp) (x ∷ k) c h (q, g) = ground (arith, under-digit fp k c)

-- The block of a child is the entries with its nibble.
pub keep-eq-pick :
    (fp : List ℕ) (c : ℕ) (m : Entries)
    → AllUnder fp m
    → All IsNibbleKey m
    → keep (fp ++ (c ∷ [])) m ≡ pick (length fp) c m
unfolding keep pick
keep-eq-pick fp c [] h g = refl
keep-eq-pick fp c ((k, v) ∷ m) (p, h) (q, g) =
    rw (under-digit fp k c p q, keep-eq-pick fp c m h g) refl

-- The next key below `fp` is longer, and its nibble behind `fp` is no smaller.
next_digit :
    (fp low k : List ℕ)
    → under fp low ≡ true
    → under fp k ≡ true
    → lex low k ≡ lt
    → (length fp < length k) × (get_or low (length fp) 0 ≤ get_or k (length fp) 0)
unfolding under lex
next_digit [] [] [] p q h = cc
next_digit [] [] (y ∷ k) p q h = (omega arith, omega arith)
next_digit [] (x ∷ low) [] p q h = cc
next_digit [] (x ∷ low) (y ∷ k) p q h = (omega arith, ground arith)
next_digit (r ∷ fp) [] k p q h = cc
next_digit (r ∷ fp) (x ∷ low) [] p q h = cc
next_digit (r ∷ fp) (x ∷ low) (y ∷ k) p q h = ground (arith, next_digit fp low k)

short_lacks : (d c : ℕ) (k : List ℕ) → length k ≤ d → has_nibble d c k ≡ false
unfolding has_nibble
short_lacks d c [] h = refl
short_lacks zero c (x ∷ k) h = absurd (omega arith)
short_lacks (suc d) c (x ∷ k) h = short_lacks d c k (omega arith)

digit_bound : (d : ℕ) (k : List ℕ) → IsNibbles k → get_or k d 0 < 16
digit_bound d [] h = omega arith
digit_bound zero (x ∷ k) (p, h) = p
digit_bound (suc d) (x ∷ k) (p, h) = digit_bound d k h

ordered-IsAscending :
    (fp low : List ℕ) (m : Entries)
    → under fp low ≡ true
    → IsLeast low m
    → IsOrdered m
    → AllUnder fp m
    → All IsNibbleKey m
    → IsAscending (length fp) (get_or low (length fp) 0) m
unfolding IsAscending IsOrdered
ordered-IsAscending fp low [] l least o u g = tt
ordered-IsAscending fp low ((k, v) ∷ m) l (p, least) (below, o) (q, u) (n, g) =
    let (longer, up) = next_digit fp low k l q p in
    (longer, (up, (digit_bound (length fp) k n, ordered-IsAscending fp k m q below o u g)))

-- The runs of a slice below `fp`, whose first key may be `fp` itself.
pub node_ranges :
    (fp : List ℕ) (m : Entries)
    → IsOrdered m
    → AllUnder fp m
    → All IsNibbleKey m
    → child_ranges (length fp) none m ≡ runs (length fp) 0 16 m
unfolding IsOrdered child_ranges close_run runs
node_ranges fp [] o u g = ascending_ranges (length fp) 0 16 [] refl (unfold IsAscending in tt)
node_ranges fp ((k, v) ∷ m) (below, o) (q, u) (n, g) =
    let tail = ordered-IsAscending fp k m q below o u g in
    elim (Bool-cases (length k == length fp)) [
      | inl ends ↦
          rw (child_ranges, ends)
            (ascending_ranges (length fp) 0 16 m refl
                (IsAscending-le (length fp) 0 _ m (omega arith) tail)
              ∙ sym (
                  runs_above (length fp) 0 16 k v m
                    (λ b l. short_lacks (length fp) b k (ground arith))))
      | inr longer ↦ ascending_ranges (length fp) 0 16 ((k, v) ∷ m) refl (
          unfold IsAscending in
          (ground (arith, length-under fp k q), (omega arith, (digit_bound (length fp) k n, tail))))
    ]
