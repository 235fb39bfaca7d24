-- ===== src/Mpt/Incremental/Plain.antt =====
-- The walk without a cache, as the specification of the cached walk: each node's hash from its
-- block alone.
use cfx_minimal_execution.Common.{
  ℕ, zero, suc, ◌+◌, ◌<◌, ◌≡◌, refl, sym, ap, ap₂, ◌∙◌, arith, Bool, true, Option, none, some, List,
  [], ◌∷◌, ◌++◌, length, take, All,
}
use cfx_minimal_execution.Common.Partial.{◌>>=◌, >>=-eq-some}
use cfx_minimal_execution.Mpt.Types.{H256, merkle_null_node}
use cfx_minimal_execution.Mpt.Trie.{merkle_value}
use cfx_minimal_execution.Common.ByteMap.{get}
use cfx_minimal_execution.Mpt.Incremental.{
  Entries, block, covered, last_key, node_hash, child_nibbles,
}
use cfx_minimal_execution.Mpt.Incremental.Blocks.{
  under, keep, block-eq-keep, get-keep, keep-keep, under-take, under_child, keep_head,
}
use mathlib.Core.Option

-- A child without entries has the null hash.
abbrev pub slot_of : Option H256 → Entries → Option H256
slot_of hash [] = some merkle_null_node
slot_of hash (e ∷ es) = hash

unfoldable pub plain_slot : (List ℕ → Option H256) → Entries → List ℕ → Option H256
plain_slot visit entries child_rp = slot_of (visit child_rp) (block child_rp entries)

unfoldable pub plain_slots : (List ℕ → Option H256) → Entries → List ℕ → List ℕ → Option (List H256)
plain_slots visit entries full_prefix [] = some []
plain_slots visit entries full_prefix (c ∷ cs) = do
  hash ← plain_slot visit entries (full_prefix ++ (c ∷ []))
  hashes ← plain_slots visit entries full_prefix cs
  some (hash ∷ hashes)

module _ (keccak : List ℕ → H256) where
  unfoldable pub plain_block :
      (List ℕ → Option H256) → Entries → List ℕ → Bool → Entries → Option H256
  plain_block visit entries rp allow [] = none
  plain_block visit entries rp allow ((first, v) ∷ rest) =
      let depth = length rp in
      let node_depth = covered allow first (last_key first rest) depth in
      let full_prefix = take node_depth first in
      let maybe_value = Option.map merkle_value (get full_prefix entries) in
      do
        children ← plain_slots visit entries full_prefix child_nibbles
        some (node_hash keccak first depth node_depth children maybe_value)

  unfoldable pub plain_node : ℕ → Entries → List ℕ → Bool → Option H256
  plain_node zero entries rp allow = none
  plain_node (suc fuel) entries rp allow =
      plain_block (λ child_rp. plain_node fuel entries child_rp true) entries rp allow
        (block rp entries)

-- More fuel does not change an answer.
module _ (v v' : List ℕ → Option H256)
    (more : (rp : List ℕ) (h : H256) → v rp ≡ some h → v' rp ≡ some h) where
  pub slot_mono :
      (m : Entries) (rp : List ℕ) (h : H256)
      → plain_slot v m rp ≡ some h
      → plain_slot v' m rp ≡ some h
  unfolding plain_slot
  slot_mono m rp h e = by_block (block rp m) e
    where
      by_block : (b : Entries) → slot_of (v rp) b ≡ some h → slot_of (v' rp) b ≡ some h
      by_block [] g = g
      by_block (x ∷ xs) g = more rp h g

  pub slots_mono :
      (m : Entries) (fp cs : List ℕ) (hs : List H256)
      → plain_slots v m fp cs ≡ some hs
      → plain_slots v' m fp cs ≡ some hs
  unfolding plain_slots
  slots_mono m fp [] hs e = e
  slots_mono m fp (c ∷ cs) hs e =
      let (h, eh, e1) = >>=-eq-some (plain_slot v m (fp ++ (c ∷ []))) _ e in
      let (hs', es, e2) = >>=-eq-some (plain_slots v m fp cs) _ e1 in
      rw (slot_mono m (fp ++ (c ∷ [])) h eh, slots_mono m fp cs hs' es) e2

  block_mono :
      (keccak : List ℕ → H256) (m : Entries) (rp : List ℕ) (allow : Bool) (b : Entries) (h : H256)
      → plain_block keccak v m rp allow b ≡ some h
      → plain_block keccak v' m rp allow b ≡ some h
  unfolding plain_block
  block_mono keccak m rp allow [] h e = e
  block_mono keccak m rp allow ((first, w) ∷ rest) h e =
      let fp = take (covered allow first (last_key first rest) (length rp)) first in
      let (hs, es, e1) = >>=-eq-some (plain_slots v m fp child_nibbles) _ e in
      rw (slots_mono m fp child_nibbles hs es) e1

module _ (keccak : List ℕ → H256) where
  node_suc :
      (f : ℕ) (m : Entries) (rp : List ℕ) (allow : Bool) (h : H256)
      → plain_node keccak f m rp allow ≡ some h
      → plain_node keccak (suc f) m rp allow ≡ some h
  unfolding plain_node
  node_suc zero m rp allow h e = cc
  node_suc (suc f) m rp allow h e =
      block_mono (λ child. plain_node keccak f m child true)
        (λ child. plain_node keccak (suc f) m child true) (λ child g. node_suc f m child true g)
        keccak m rp allow (block rp m) h e

  pub node_mono :
      (d f : ℕ) (m : Entries) (rp : List ℕ) (allow : Bool) (h : H256)
      → plain_node keccak f m rp allow ≡ some h
      → plain_node keccak (d + f) m rp allow ≡ some h
  node_mono zero f m rp allow h e = ap (λ n. plain_node keccak n m rp allow) (omega arith) ∙ e
  node_mono (suc d) f m rp allow h e =
      ap (λ n. plain_node keccak n m rp allow) (omega arith)
      ∙ node_suc (d + f) m rp allow h (node_mono d f m rp allow h e)

  -- Some fuel gives the hash.
  abbrev pub IsHash : Entries → List ℕ → Bool → H256 → Type 0
  IsHash m rp allow h = (f : ℕ) × (plain_node keccak f m rp allow ≡ some h)

  -- There is one hash at most.
  pub IsHash-unique :
      (m : Entries) (rp : List ℕ) (allow : Bool) (h g : H256)
      → IsHash m rp allow h
      → IsHash m rp allow g
      → h ≡ g
  IsHash-unique m rp allow h g (a, e) (b, e') =
      let both : ◌≡◌ {A = Option H256} (some h) (some g) =
        sym (node_mono b a m rp allow h e)
        ∙ ap (λ n. plain_node keccak n m rp allow) (omega arith)
        ∙ node_mono a b m rp allow g e' in
      cc

-- Two maps with the same block at a prefix have the same blocks at every longer prefix.
module _ (rp : List ℕ) (m m' : Entries) (same : block rp m ≡ block rp m') where
  same_keep : keep rp m ≡ keep rp m'
  same_keep = sym (block-eq-keep rp m) ∙ same ∙ block-eq-keep rp m'

  module _ (fp : List ℕ) (inside : under rp fp ≡ true) where
    same_get : get fp m ≡ get fp m'
    same_get = sym (get-keep rp fp m inside) ∙ ap (get fp) same_keep ∙ get-keep rp fp m' inside

    same_child : (c : ℕ) → c < 16 → block (fp ++ (c ∷ [])) m ≡ block (fp ++ (c ∷ [])) m'
    same_child c hc =
        let q = fp ++ (c ∷ []) in
        let part = λ (k : List ℕ) (g : under q k ≡ true). under_child rp fp c k hc inside g in
        block-eq-keep q m
        ∙ sym (keep-keep rp q m part)
        ∙ ap (keep q) same_keep
        ∙ keep-keep rp q m' part
        ∙ sym (block-eq-keep q m')

    slot_local :
        (v v' : List ℕ → Option H256) (c : ℕ)
        → c < 16
        → v (fp ++ (c ∷ [])) ≡ v' (fp ++ (c ∷ []))
        → plain_slot v m (fp ++ (c ∷ [])) ≡ plain_slot v' m' (fp ++ (c ∷ []))
    unfolding plain_slot
    slot_local v v' c hc agree = ap₂ slot_of agree (same_child c hc)

    slots_local :
        (v v' : List ℕ → Option H256)
        → ((c : ℕ) → c < 16 → v (fp ++ (c ∷ [])) ≡ v' (fp ++ (c ∷ [])))
        → (cs : List ℕ) → All (λ c. c < 16) cs
        → plain_slots v m fp cs ≡ plain_slots v' m' fp cs
    unfolding plain_slots
    slots_local v v' agree [] h = refl
    slots_local v v' agree (c ∷ cs) (hc, h) =
        rw (slot_local v v' c hc (agree c hc), slots_local v v' agree cs h)

  block_local :
      (keccak : List ℕ → H256) (v v' : List ℕ → Option H256) (allow : Bool)
      → ((q : List ℕ) → block q m ≡ block q m' → v q ≡ v' q)
      → (b : Entries) → block rp m ≡ b
      → plain_block keccak v m rp allow b ≡ plain_block keccak v' m' rp allow b
  unfolding plain_block
  block_local keccak v v' allow agree [] e = refl
  block_local keccak v v' allow agree ((first, w) ∷ rest) e =
      let n = covered allow first (last_key first rest) (length rp) in
      let fp = take n first in
      let inside : under rp fp ≡ true =
        under-take rp first n (omega arith)
          (keep_head rp m first w rest (sym (block-eq-keep rp m) ∙ e)) in
      rw (
        same_get fp inside,
        slots_local fp inside v v' (λ c hc. agree _ (same_child fp inside c hc)) child_nibbles
            (omega arith),
      )

module _ (keccak : List ℕ → H256) where
  -- The hash of a node depends on its block alone.
  node_local :
      (f : ℕ) (m m' : Entries) (rp : List ℕ) (allow : Bool)
      → block rp m ≡ block rp m'
      → plain_node keccak f m rp allow ≡ plain_node keccak f m' rp allow
  unfolding plain_node
  node_local zero m m' rp allow e = refl
  node_local (suc f) m m' rp allow e =
      block_local rp m m' e keccak _ _ allow (λ q same. node_local f m m' q true same) _ refl
      ∙ ap (plain_block keccak (λ q. plain_node keccak f m' q true) m' rp allow) e

  pub IsHash-local :
      (m m' : Entries) (rp : List ℕ) (allow : Bool) (h : H256)
      → block rp m ≡ block rp m'
      → IsHash keccak m rp allow h
      → IsHash keccak m' rp allow h
  IsHash-local m m' rp allow h e (f, p) = (f, sym (node_local f m m' rp allow e) ∙ p)
