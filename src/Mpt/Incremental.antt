-- ===== src/Mpt/Incremental.antt =====
-- crates/minimal-mpt/src/incremental.rs: a trie whose root walk keeps the hashes of its subtrees.
-- A walk answers `none` where the source would panic, or where its fuel ran out; the fuel is the
-- length of the longest key and one, as each step down lengthens the routing prefix.
pub mod Blocks
pub mod Plain
pub mod Ordered
mod CacheSound
mod Total
mod Evict
pub mod Fresh
mod RebuildChildren
mod Rebuild
pub mod Root
use cfx_minimal_execution.Common.{
  ℕ, zero, suc, ◌+◌, ◌∷◌, ◌++◌, max, Bool, true, false, not, ◌&&◌, ◌||◌, Option, none, some, List,
  [], map, length, take, drop, replicate, get_or, set, ◌==◌, leb, if◌then◌else◌,
}
use cfx_minimal_execution.Common.ByteMap.{ByteMap, get, insert, remove, range, bytes_eq}
use cfx_minimal_execution.Common.Partial.{◌>>=◌}
use cfx_minimal_execution.Mpt.Types.{H256, merkle_null_node}
use cfx_minimal_execution.Mpt.Trie.{
  MptValue, value, children_count, visible_value, merkle_value, bytes_to_nibbles, nibbles_to_bytes,
  compute_node_merkle, compute_path_merkle,
}
use mathlib.Core.Option

pub data CachePolicy : Type 0 where
  full skip_singleton : CachePolicy

abbrev pub Entries : Type 0
Entries = ByteMap MptValue

abbrev pub Cache : Type 0
Cache = ByteMap H256

pub record IncrementalTrie : Type 0 where
  pub entries : Entries
  pub cache : Cache
  pub dirty : ByteMap (Unit {0})

-- `IncrementalTrie::default()`.
abbrev pub empty_trie : IncrementalTrie
empty_trie = record { entries = []; cache = []; dirty = [] }

unfoldable pub nibble_entries : Entries → Entries → Entries
nibble_entries [] acc = acc
nibble_entries ((k, v) ∷ delta) acc = nibble_entries delta (insert (bytes_to_nibbles k) v acc)

unfoldable pub from_delta : Entries → IncrementalTrie
unfolding nibble_entries
from_delta delta = record { entries = nibble_entries delta []; cache = []; dirty = [] }

unfoldable pub insert_entry : IncrementalTrie → List ℕ → MptValue → IncrementalTrie
insert_entry t key v =
    let nibbles = bytes_to_nibbles key in
    record t { dirty = insert nibbles tt t.dirty; entries = insert nibbles v t.entries }

unfoldable pub remove_entry : IncrementalTrie → List ℕ → IncrementalTrie
remove_entry t key =
    let nibbles = bytes_to_nibbles key in
    record t { entries = remove nibbles t.entries; dirty = insert nibbles tt t.dirty }

-- `clear`: entries, hashes and dirty keys are all dropped.
unfoldable pub clear : IncrementalTrie → IncrementalTrie
clear t = record t { entries = []; cache = []; dirty = [] }

unfoldable pub snapshot_get : IncrementalTrie → List ℕ → Option (List ℕ)
snapshot_get t canonical = elim (get (bytes_to_nibbles canonical) t.entries) [
  | some v ↦ visible_value v
  | none ↦ none
]

unfoldable pub prefix_upper : List ℕ → List ℕ
prefix_upper rp = rp ++ (children_count ∷ [])

-- The entries of a node, `entries.range(rp..prefix_upper(rp))`.
unfoldable pub block : List ℕ → Entries → Entries
block rp entries = range rp (prefix_upper rp) entries

unfoldable pub count_common : List ℕ → List ℕ → ℕ
count_common (x ∷ xs) (y ∷ ys) = let rest = count_common xs ys in if x == y then suc rest else 0
count_common _ _ = 0

unfoldable pub common_prefix_len : List ℕ → List ℕ → ℕ → ℕ
unfolding count_common
common_prefix_len first last depth = count_common (drop depth first) (drop depth last)

-- The last key of a non-empty block, whose first key is given.
unfoldable pub last_key : List ℕ → Entries → List ℕ
last_key first [] = first
last_key first ((k, v) ∷ rest) = last_key k rest

abbrev pub child_nibbles : List ℕ
child_nibbles = 0 ∷ 1 ∷ 2 ∷ 3 ∷ 4 ∷ 5 ∷ 6 ∷ 7 ∷ 8 ∷ 9 ∷ 10 ∷ 11 ∷ 12 ∷ 13 ∷ 14 ∷ 15 ∷ []

-- Whether a child's hash differs from the null hash: such a child is there.
pub any_child : List H256 → Bool
any_child [] = false
any_child (h ∷ hs) = not (bytes_eq h merkle_null_node) || any_child hs

-- What a node covers: `common` nibbles are taken from its keys by path compression.
abbrev pub covered : Bool → List ℕ → List ℕ → ℕ → ℕ
covered allow first last depth = depth + (if allow then common_prefix_len first last depth else 0)

abbrev keeps_hash : CachePolicy → Bool → Bool
keeps_hash full is_singleton = true
keeps_hash skip_singleton is_singleton = not is_singleton

abbrev is_skip : CachePolicy → Bool
is_skip full = false
is_skip skip_singleton = true

-- One slot of the children array: a cached hash, or a walk where the child has entries.
open_slot :
    (List ℕ → Cache → Option (H256 × Cache)) → List ℕ → Cache → Entries → Option (H256 × Cache)
open_slot visit child_rp cache [] = some (merkle_null_node, cache)
open_slot visit child_rp cache (e ∷ es) = visit child_rp cache

pub child_slot :
    (List ℕ → Cache → Option (H256 × Cache)) → Entries → List ℕ → Cache → Option (H256 × Cache)
unfolding open_slot
child_slot visit entries child_rp cache = elim (get child_rp cache) [
  | some hash ↦ some (hash, cache)
  | none ↦ open_slot visit child_rp cache (block child_rp entries)
]

pub child_slots :
    (List ℕ → Cache → Option (H256 × Cache))
    → Entries
    → List ℕ
    → List ℕ
    → Cache
    → Option (List H256 × Cache)
child_slots visit entries full_prefix [] cache = some ([], cache)
child_slots visit entries full_prefix (c ∷ cs) cache = do
  (hash, cache') ← child_slot visit entries (full_prefix ++ (c ∷ [])) cache
  (hashes, cache'') ← child_slots visit entries full_prefix cs cache'
  some (hash ∷ hashes, cache'')

-- `child_ranges`: the runs of entries with the same nibble at `node_depth`, in order; an entry
-- whose key ends there closes a run. The open run is carried along, its entries in order.
unfoldable pub close_run : Option (ℕ × Entries) → List (ℕ × Entries) → List (ℕ × Entries)
close_run none ranges = ranges
close_run (some run) ranges = run ∷ ranges

unfoldable pub join_run : Option (ℕ × Entries) → ℕ → List ℕ × MptValue → Bool
join_run none child e = false
join_run (some (c, es)) child e = c == child

unfoldable pub grow_run : Option (ℕ × Entries) → ℕ → List ℕ × MptValue → Option (ℕ × Entries)
grow_run none child e = some (child, e ∷ [])
grow_run (some (c, es)) child e = some (c, es ++ (e ∷ []))

unfoldable pub child_ranges : ℕ → Option (ℕ × Entries) → Entries → List (ℕ × Entries)
unfolding close_run join_run grow_run
child_ranges node_depth run [] = close_run run []
child_ranges node_depth run ((key, v) ∷ entries) =
    let child = get_or key node_depth 0 in
    let ended = close_run run (child_ranges node_depth none entries) in
    let joined = child_ranges node_depth (grow_run run child (key, v)) entries in
    let opened = close_run run (child_ranges node_depth (some (child, (key, v) ∷ [])) entries) in
    if length key == node_depth
    then ended
    else if join_run run child (key, v)
    then joined
    else opened

-- The first entry whose key ends at the node.
unfoldable pub value_at : ℕ → Entries → Option MptValue
value_at node_depth [] = none
value_at node_depth ((key, v) ∷ entries) =
    if length key == node_depth then some v else value_at node_depth entries

pub longest_key : Entries → ℕ
longest_key [] = 0
longest_key ((k, v) ∷ entries) = max (length k) (longest_key entries)

-- Every prefix of the key, the shortest first, leaves the cache.
pub evict_prefixes : ℕ → List ℕ → Cache → Cache
evict_prefixes zero nibbles cache = remove [] cache
evict_prefixes (suc len) nibbles cache =
    remove (take (suc len) nibbles) (evict_prefixes len nibbles cache)

pub evict_dirty : ByteMap (Unit {0}) → Cache → Cache
unfolding evict_prefixes
evict_dirty [] cache = cache
evict_dirty ((nibbles, u) ∷ dirty) cache =
    evict_dirty dirty (evict_prefixes (length nibbles) nibbles cache)

pub extend_cache : List (List ℕ × H256) → Cache → Cache
extend_cache [] cache = cache
extend_cache ((rp, hash) ∷ cache_entries) cache = extend_cache cache_entries (insert rp hash cache)

abbrev pub parallel_rebuild_threshold : ℕ
parallel_rebuild_threshold = 4096

abbrev is_empty : Cache → Bool
is_empty [] = true
is_empty (e ∷ es) = false

module _ (keccak : List ℕ → H256) where
  -- The hash of a node from its children and its own value, under its compressed path.
  pub node_hash : List ℕ → ℕ → ℕ → List H256 → Option (List ℕ) → H256
  unfolding any_child
  node_hash first depth node_depth children maybe_value =
      let branch = if any_child children then some children else none in
      compute_path_merkle keccak (drop depth (take node_depth first)) depth
        (compute_node_merkle keccak branch maybe_value)

  -- The body of `memo_node` behind the cache lookup, on the block of the node.
  pub walk_block :
      (List ℕ → Cache → Option (H256 × Cache))
      → CachePolicy
      → Entries
      → List ℕ
      → Bool
      → Cache
      → Entries
      → Option (H256 × Cache)
  walk_block visit policy entries rp allow cache [] = none
  walk_block visit policy entries rp allow cache ((first, v) ∷ rest) =
      let depth = length rp in
      let last = if allow || is_skip policy then last_key first rest else first in
      let is_singleton = bytes_eq first last in
      let node_depth = covered allow first last depth in
      let full_prefix = take node_depth first in
      let maybe_value = Option.map merkle_value (get full_prefix entries) in
      do
        (children, cache') ← child_slots visit entries full_prefix child_nibbles cache
        let hash = node_hash first depth node_depth children maybe_value
        some (hash, if keeps_hash policy is_singleton then insert rp hash cache' else cache')

  pub memo_node : ℕ → CachePolicy → Entries → List ℕ → Bool → Cache → Option (H256 × Cache)
  memo_node zero policy entries rp allow cache = none
  memo_node (suc fuel) policy entries rp allow cache = elim (get rp cache) [
    | some hash ↦ some (hash, cache)
    | none ↦
        walk_block (λ child_rp c. memo_node fuel policy entries child_rp true c) policy entries rp
          allow cache (block rp entries)
  ]

  -- The `for` over the children of a cold rebuild: `children[child] = hash`, and the cache entries
  -- of the children are appended in order. (The parallel branch of the source computes the same
  -- values on other threads.)
  pub rebuild_children :
      (Entries → List ℕ → Option (H256 × List (List ℕ × H256)))
      → List ℕ
      → List (ℕ × Entries)
      → List H256
      → List (List ℕ × H256)
      → Option (List H256 × List (List ℕ × H256))
  rebuild_children visit full_prefix [] children cache_entries = some (children, cache_entries)
  rebuild_children visit full_prefix ((child, slice) ∷ ranges) children cache_entries = do
    (hash, child_cache_entries) ← visit slice (full_prefix ++ (child ∷ []))
    rebuild_children visit full_prefix ranges (set children child hash)
        (cache_entries ++ child_cache_entries)

  -- `memo_node_rebuild` on a slice with the given first entry.
  rebuild_block :
      (Entries → List ℕ → Option (H256 × List (List ℕ × H256)))
      → CachePolicy
      → List ℕ
      → Bool
      → List ℕ
      → Entries
      → Entries
      → Option (H256 × List (List ℕ × H256))
  unfolding node_hash rebuild_children child_ranges value_at last_key
  rebuild_block visit policy rp allow first rest entries =
      let depth = length rp in
      let last = last_key first rest in
      let is_singleton = bytes_eq first last in
      let node_depth = covered allow first last depth in
      let full_prefix = take node_depth first in
      let maybe_value = Option.map merkle_value (value_at node_depth entries) in
      let null_children = replicate children_count merkle_null_node in
      do
        (children, cache_entries) ←
            rebuild_children visit full_prefix (child_ranges node_depth none entries) null_children
              []
        let hash = node_hash first depth node_depth children maybe_value
        some (
          hash,
          if keeps_hash policy is_singleton
              then cache_entries ++ ((rp, hash) ∷ [])
              else cache_entries,
        )

  pub memo_node_rebuild :
      ℕ → CachePolicy → Entries → List ℕ → Bool → Option (H256 × List (List ℕ × H256))
  unfolding rebuild_block
  memo_node_rebuild zero policy entries rp allow = none
  memo_node_rebuild (suc fuel) policy [] rp allow = none
  memo_node_rebuild (suc fuel) policy ((first, v) ∷ rest) rp allow =
      rebuild_block (λ slice child_rp. memo_node_rebuild fuel policy slice child_rp true) policy rp
        allow first rest ((first, v) ∷ rest)

  -- `root_with_policy`: every prefix of a dirty key is evicted, then the walk starts at the root.
  pub root_with_policy : CachePolicy → IncrementalTrie → Option (H256 × IncrementalTrie)
  unfolding evict_dirty memo_node memo_node_rebuild longest_key extend_cache
  root_with_policy policy t =
      let evicted = evict_dirty t.dirty t.cache in
      let fuel = suc (longest_key t.entries) in
      elim t.entries [
        | [] ↦ some (merkle_null_node, record t { cache = []; dirty = [] })
        | e ∷ es ↦
            if is_empty evicted && leb parallel_rebuild_threshold (length t.entries)
            then (do
              (root, cache_entries) ← memo_node_rebuild fuel policy t.entries [] false
              some (root, record t { cache = extend_cache cache_entries evicted; dirty = [] }))
            else (do
              (root, cache') ← memo_node fuel policy t.entries [] false evicted
              some (root, record t { cache = cache'; dirty = [] }))
      ]

  -- `root`, with every hash kept.
  unfoldable pub root : IncrementalTrie → Option (H256 × IncrementalTrie)
  unfolding root_with_policy
  root t = root_with_policy full t
