-- ===== src/Mpt/Stateless/Slices.antt =====
-- The slice of a node: the entries below its routing prefix, against the node's full prefix.
use cfx_minimal_execution.Common.{
  ℕ, suc, ◌+◌, ◌<◌, ◌≡◌, refl, sym, ap, ◌∙◌, arith, Bool, true, false, none, List, [], ◌∷◌, ◌++◌,
  length, length-append, take, All, Bool-cases, inl, inr, subst,
}
use cfx_minimal_execution.Common.ByteMap.{lex, get}
use Prim.Native.Nat.Ordering.{lt}
use cfx_minimal_execution.Mpt.Trie.{MptValue}
use cfx_minimal_execution.Mpt.Incremental.{Entries, child_ranges, value_at, covered, last_key}
use cfx_minimal_execution.Mpt.Incremental.Blocks.{
  under, keep, get-keep, keep-keep, under-take, under_child,
}
use cfx_minimal_execution.Mpt.Incremental.Ordered.{IsOrdered, IsNibbleKey}
use cfx_minimal_execution.Mpt.Stateless.{node_end}
use cfx_minimal_execution.Mpt.Stateless.Prefix.{AllUnder, shared_prefix_len-eq-common_prefix_len}
use cfx_minimal_execution.Mpt.Stateless.Shared.{node_prefix}
use cfx_minimal_execution.Mpt.Stateless.Ranges.{
  pick, runs, keep-eq-pick, value_at-eq-get, node_ranges,
}

keep-AllUnder : (rp : List ℕ) (m : Entries) → AllUnder rp (keep rp m)
unfolding keep
keep-AllUnder rp [] = tt
keep-AllUnder rp ((k, v) ∷ m) = ground (arith, keep-AllUnder rp m)

keep-All :
    (P : List ℕ × MptValue → Type 0) (rp : List ℕ) (m : Entries) → All P m → All P (keep rp m)
unfolding keep
keep-All P rp [] h = tt
keep-All P rp ((k, v) ∷ m) (p, h) = elim (Bool-cases (under rp k)) [
  | inl inside ↦ rw inside (p, keep-All P rp m h)
  | inr outside ↦ rw outside (keep-All P rp m h)
]

keep-IsOrdered : (rp : List ℕ) (m : Entries) → IsOrdered m → IsOrdered (keep rp m)
unfolding keep IsOrdered
keep-IsOrdered rp [] h = tt
keep-IsOrdered rp ((k, v) ∷ m) (p, h) = elim (Bool-cases (under rp k)) [
  | inl inside ↦ rw inside (keep-All (λ e. lex k e.0 ≡ lt) rp m p, keep-IsOrdered rp m h)
  | inr outside ↦ rw outside (keep-IsOrdered rp m h)
]

same_extent :
    (rp first : List ℕ) (v : MptValue) (rest : Entries) (allow : Bool)
    → IsOrdered ((first, v) ∷ rest)
    → AllUnder rp ((first, v) ∷ rest)
    → node_end allow ((first, v) ∷ rest) (length rp)
      ≡ covered allow first (last_key first rest) (length rp)
same_extent rp first v rest true o u =
    ap (λ n. length rp + n) (shared_prefix_len-eq-common_prefix_len rp first v rest o u)
same_extent rp first v rest false o u = refl

-- A slice holds the entries of the map below the full prefix `fp`, which has length `k`.
pub record IsNodeSlice (m : Entries) (fp : List ℕ) (k : ℕ) (slice : Entries) : Type 0 where
  pub child_slice : (c : ℕ) → c < 16 → pick k c slice ≡ keep (fp ++ (c ∷ [])) m
  pub child_depth : (c : ℕ) → suc k ≡ length (fp ++ (c ∷ []))
  pub slice_value : value_at k slice ≡ get fp m
  pub slice_ranges : child_ranges k none slice ≡ runs k 0 16 slice

module _ (m : Entries) (o : IsOrdered m) (g : All IsNibbleKey m) (rp first : List ℕ) (w : MptValue)
    (rest : Entries) (es : keep rp m ≡ (first, w) ∷ rest) where
  abbrev slice : Entries
  slice = (first, w) ∷ rest

  slice-AllUnder : AllUnder rp slice
  slice-AllUnder = subst (AllUnder rp) es (keep-AllUnder rp m)

  slice-IsOrdered : IsOrdered slice
  slice-IsOrdered = subst IsOrdered es (keep-IsOrdered rp m o)

  slice-IsNibbleKey : All IsNibbleKey slice
  slice-IsNibbleKey = subst (All IsNibbleKey) es (keep-All IsNibbleKey rp m g)

  pub node_end-eq-covered :
      (allow : Bool)
      → node_end allow slice (length rp) ≡ covered allow first (last_key first rest) (length rp)
  node_end-eq-covered allow = same_extent rp first w rest allow slice-IsOrdered slice-AllUnder

  slice_at :
      (k : ℕ)
      → under rp (take k first) ≡ true
      → AllUnder (take k first) slice
      → length (take k first) ≡ k
      → IsNodeSlice m (take k first) k slice
  slice_at k inside u lk =
      let fp = take k first in
      record {
        child_slice = λ c hc.
            ap (λ j. pick j c slice) (sym lk)
            ∙ sym (keep-eq-pick fp c slice u slice-IsNibbleKey)
            ∙ ap (keep (fp ++ (c ∷ []))) (sym es)
            ∙ keep-keep rp (fp ++ (c ∷ [])) m (λ key h. under_child rp fp c key hc inside h);
        child_depth = λ c. omega (arith, lk, length-append fp (c ∷ []));
        slice_value =
            ap (λ j. value_at j slice) (sym lk)
            ∙ value_at-eq-get fp slice u
            ∙ ap (get fp) (sym es)
            ∙ get-keep rp fp m inside;
        slice_ranges =
            subst (λ j. child_ranges j none slice ≡ runs j 0 16 slice) lk
              (node_ranges fp slice slice-IsOrdered u slice-IsNibbleKey);
      }

  pub node_slice :
      (allow : Bool)
      → IsNodeSlice m
          (take (node_end allow slice (length rp)) first)
          (node_end allow slice (length rp))
          slice
  node_slice allow =
      let k = node_end allow slice (length rp) in
      let (u, lk) = node_prefix rp first w rest allow k refl slice-AllUnder slice-IsNibbleKey in
      slice_at k (under-take rp first k (omega arith) slice-AllUnder.0) u lk
