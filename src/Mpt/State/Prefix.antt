-- ===== src/Mpt/State/Prefix.antt =====
-- crates/minimal-mpt/src/state/prefix.rs: reads and deletes of all keys with a prefix, over the
-- three layers. The keys seen so far are a set of canonical keys.
pub mod Agreement
use cfx_minimal_execution.Common.{
  ℕ, Bool, true, false, Option, none, some, List, [], ◌∷◌, ◌++◌, if◌then◌else◌, ok, err, ◌>>=◌,
}
use cfx_minimal_execution.Common.ByteMap.{ByteMap, get, insert, remove, lex_ltb}
use cfx_minimal_execution.Mpt.Types.{H256, MptResult}
use cfx_minimal_execution.Mpt.KeyCodec.Canonical.{
  StorageKey, address_prefix, StorageKeyWithSpace, to_key_bytes, from_key_bytes, starts_with,
}
use cfx_minimal_execution.Mpt.KeyCodec.Delta.{to_delta_mpt_key_bytes, from_delta_mpt_key}
use cfx_minimal_execution.Mpt.Trie.{MptValue, value, visible_value}
use cfx_minimal_execution.Mpt.Incremental.{Entries, remove_entry}
use cfx_minimal_execution.Mpt.Snapshot.{snapshot_scan_prefix}
use cfx_minimal_execution.Mpt.State.Defs.{State, state_set}
use cfx_minimal_execution.Mpt.State.Commit.{canonical_of}

abbrev pub KeyValues : Type 0
KeyValues = List (List ℕ × List ℕ)

-- `take_while` of `scan_prefix`.
unfoldable pub take_prefixed : List ℕ → Entries → Entries
take_prefixed prefix [] = []
take_prefixed prefix ((k, v) ∷ m) =
    let rest = take_prefixed prefix m in if starts_with k prefix then (k, v) ∷ rest else []

-- `scan_prefix`: from the prefix on, while the keys start with it.
unfoldable pub scan_prefix : List ℕ → Entries → Entries
unfolding take_prefixed
scan_prefix prefix [] = []
scan_prefix prefix ((k, v) ∷ m) =
    let later = scan_prefix prefix m in
    if lex_ltb k prefix then later else take_prefixed prefix ((k, v) ∷ m)

unfoldable pub address_prefix_filter : StorageKeyWithSpace → Option (List ℕ)
address_prefix_filter prefix = elim prefix.key [ address_prefix p ↦ some p | _ ↦ none ]

-- Whether an entry passes the filter on its canonical key.
unfoldable pub passes : Option (List ℕ) → List ℕ → Bool
passes none canonical = true
passes (some prefix) canonical = starts_with canonical prefix

-- The keys that were seen, and the result so far.
abbrev pub Listing : Type 0
Listing = ByteMap (Unit {0}) × KeyValues

unfoldable pub push_visible : List ℕ → MptValue → KeyValues → KeyValues
push_visible canonical v result = elim (visible_value v) [
  | some bytes ↦ result ++ ((canonical, bytes) ∷ [])
  | none ↦ result
]

-- An entry of the delta layer: it counts whether it was seen or not.
unfoldable pub note_delta : List ℕ → MptValue → Listing → Listing
unfolding push_visible
note_delta canonical v (seen, result) = (insert canonical tt seen, push_visible canonical v result)

-- An entry of an older layer: it counts unless a newer layer has its key.
unfoldable pub note_older : List ℕ → MptValue → Listing → Listing
unfolding push_visible
note_older canonical v (seen, result) = elim (get canonical seen) [
  | some _ ↦ (seen, result)
  | none ↦ (insert canonical tt seen, push_visible canonical v result)
]

-- A loop over the raw entries of a layer.
unfoldable pub list_layer :
    (List ℕ → MptValue → Listing → Listing)
    → Option (List ℕ)
    → Entries
    → Listing
    → MptResult Listing
unfolding passes
list_layer note filter [] listing = ok listing
list_layer note filter ((raw_key, v) ∷ m) listing = canonical_of raw_key >>= λ canonical.
    list_layer note filter m (if passes filter canonical then note canonical v listing else listing)

unfoldable pub list_snapshot : KeyValues → Listing → Listing
unfolding note_older
list_snapshot [] listing = listing
list_snapshot ((key, bytes) ∷ kvs) listing =
    list_snapshot kvs (note_older key (value bytes) listing)

-- The delta entries are taken out, and handed on.
unfoldable pub remove_delta : Entries → State → Entries × State
remove_delta [] s = ([], s)
remove_delta ((raw_key, _) ∷ m) s = elim (get raw_key s.delta) [
  | none ↦ remove_delta m s
  | some v ↦
      let (kvs, s') = remove_delta m (record s {
        delta = remove raw_key s.delta;
        delta_inc = remove_entry s.delta_inc raw_key;
      }) in
      ((raw_key, v) ∷ kvs, s')
]

-- A step behind a `?`, on the state that the step before has left.
abbrev pub and_then :
    {A B : Type 0} → MptResult A × State → (A → State → MptResult B × State) → MptResult B × State
and_then (err e, s) next = (err e, s)
and_then (ok a, s) next = next a s

-- `(!values.is_empty()).then_some(values)`.
unfoldable pub nonempty_values : KeyValues → Option KeyValues
nonempty_values [] = none
nonempty_values (kv ∷ kvs) = some (kv ∷ kvs)

module _ (keccak : List ℕ → H256) where
  -- The prefix of the query in its three forms.
  unfoldable pub prefixes_of : StorageKeyWithSpace → State → MptResult (List ℕ × List ℕ × List ℕ)
  prefixes_of prefix s = to_key_bytes prefix >>= λ canonical_prefix.
      (to_delta_mpt_key_bytes keccak prefix s.delta_padding none).0 >>= λ delta_prefix.
      (to_delta_mpt_key_bytes keccak prefix s.intermediate_padding none).0
      >>= λ intermediate_prefix. ok (canonical_prefix, delta_prefix, intermediate_prefix)

  unfoldable pub read_prefix : StorageKeyWithSpace → State → MptResult KeyValues
  unfolding list_layer note_delta note_older list_snapshot scan_prefix address_prefix_filter
  read_prefix prefix s =
      let filter = address_prefix_filter prefix in
      prefixes_of prefix s >>= λ p.
      let (canonical_prefix, delta_prefix, intermediate_prefix) = p in
      list_layer note_delta filter (scan_prefix delta_prefix s.delta) ([], []) >>= λ newest.
      list_layer note_older filter (scan_prefix intermediate_prefix s.intermediate) newest
      >>= λ newer. ok (list_snapshot (snapshot_scan_prefix s.snapshot canonical_prefix) newer).1

  -- `self.set(storage_key, [])` for a value that is visible.
  unfoldable pub hide : StorageKeyWithSpace → MptValue → State → MptResult (Unit {0}) × State
  hide key v s = elim (visible_value v) [ some _ ↦ state_set keccak key [] s | none ↦ (ok tt, s) ]

  -- The loops that hide what the older layers have; an error keeps what has been hidden so far.
  unfoldable pub hide_intermediate :
      Option (List ℕ) → Entries → Listing → State → MptResult Listing × State
  unfolding hide note_older passes
  hide_intermediate filter [] listing s = (ok listing, s)
  hide_intermediate filter ((raw_key, v) ∷ m) listing s =
      and_then (from_delta_mpt_key raw_key, s)
        (λ key s.
          and_then (to_key_bytes key, s)
            (λ canonical s.
              and_then (if passes filter canonical then hide key v s else (ok tt, s)) (λ _ s.
                hide_intermediate filter m
                  (if passes filter canonical then note_older canonical v listing else listing) s)))

  unfoldable pub hide_snapshot : KeyValues → Listing → State → MptResult Listing × State
  unfolding note_older
  hide_snapshot [] listing s = (ok listing, s)
  hide_snapshot ((canonical, bytes) ∷ kvs) listing s =
      and_then (from_key_bytes canonical, s)
        (λ key s.
          and_then (state_set keccak key [] s)
            (λ _ s. hide_snapshot kvs (note_older canonical (value bytes) listing) s))

  unfoldable pub delete_prefix : StorageKeyWithSpace → State → MptResult KeyValues × State
  unfolding prefixes_of remove_delta list_layer note_delta hide_intermediate hide_snapshot
      scan_prefix address_prefix_filter
  delete_prefix prefix s =
      let filter = address_prefix_filter prefix in
      and_then (prefixes_of prefix s, s)
        (λ p s.
          let (canonical_prefix, delta_prefix, intermediate_prefix) = p in
          let (delta_kvs, s') = remove_delta (scan_prefix delta_prefix s.delta) s in
          let intermediate_kvs = scan_prefix intermediate_prefix s'.intermediate in
          let snapshot_kvs = snapshot_scan_prefix s'.snapshot canonical_prefix in
          and_then (list_layer note_delta filter delta_kvs ([], []), s')
            (λ newest s.
              and_then (hide_intermediate filter intermediate_kvs newest s) (λ newer s.
                and_then (hide_snapshot snapshot_kvs newer s) (λ all s. (ok all.1, s)))))

  unfoldable pub get_all_by_prefix : StorageKeyWithSpace → State → MptResult (Option KeyValues)
  unfolding read_prefix nonempty_values
  get_all_by_prefix prefix s = read_prefix prefix s >>= λ values. ok (nonempty_values values)

  unfoldable pub delete_all_by_prefix :
      StorageKeyWithSpace → State → MptResult (Option KeyValues) × State
  unfolding delete_prefix nonempty_values
  delete_all_by_prefix prefix s =
      and_then (delete_prefix prefix s) (λ values s. (ok (nonempty_values values), s))
