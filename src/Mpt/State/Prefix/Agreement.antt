-- ===== src/Mpt/State/Prefix/Agreement.antt =====
-- A delete by prefix lists what a read by prefix lists, and leaves the older layers alone.
use cfx_minimal_execution.Common.{
  ℕ, ◌≡◌, refl, sym, ap, ap₂, ◌∙◌, Bool, true, false, Option, some, List, [], ◌∷◌, All, subst,
  ok_injective, if◌then◌else◌, ok, err, inl, inr, Bool-cases,
}
use cfx_minimal_execution.Common.ByteMap.{
  lex, get, remove, lex_ltb, bytes_eq, bytes_eq_refl, get-remove,
}
use Prim.Native.Nat.Ordering.{lt}
use cfx_minimal_execution.Mpt.Types.{H256, MptResult}
use cfx_minimal_execution.Mpt.KeyCodec.Canonical.{
  StorageKeyWithSpace, DeltaMptKeyPadding, to_key_bytes, from_key_bytes, starts_with,
}
use cfx_minimal_execution.Mpt.KeyCodec.Delta.{from_delta_mpt_key}
use cfx_minimal_execution.Mpt.Trie.{MptValue, value, tombstone, visible_value}
use cfx_minimal_execution.Mpt.Incremental.{Entries, remove_entry}
use cfx_minimal_execution.Mpt.Incremental.Ordered.{IsLeast, IsOrdered}
use cfx_minimal_execution.Mpt.Snapshot.{snapshot_scan_prefix}
use cfx_minimal_execution.Mpt.State.Defs.{State, state_set, set_raw, delta_key_of}
use cfx_minimal_execution.Mpt.State.Commit.{canonical_of}
use cfx_minimal_execution.Mpt.State.Merge.{IsKeyed}
use cfx_minimal_execution.Mpt.State.Rotation.{IsState}
use cfx_minimal_execution.Mpt.State.Prefix.{
  KeyValues, Listing, take_prefixed, scan_prefix, address_prefix_filter, passes, note_delta,
  note_older, list_layer, list_snapshot, prefixes_of, read_prefix, remove_delta, hide, and_then,
  hide_intermediate, hide_snapshot, delete_prefix, get_all_by_prefix, delete_all_by_prefix,
}

-- What holds of a map holds of the part that a scan takes.
take_prefixed-All :
    (P : List ℕ × MptValue → Type 0) (prefix : List ℕ) (m : Entries)
    → All P m
    → All P (take_prefixed prefix m)
unfolding take_prefixed
take_prefixed-All P prefix [] h = tt
take_prefixed-All P prefix ((k, v) ∷ m) (p, h) = elim (Bool-cases (starts_with k prefix)) [
  | inl inside ↦ rw inside (p, take_prefixed-All P prefix m h)
  | inr outside ↦ rw outside tt
]

scan_prefix-All :
    (P : List ℕ × MptValue → Type 0) (prefix : List ℕ) (m : Entries)
    → All P m
    → All P (scan_prefix prefix m)
unfolding scan_prefix
scan_prefix-All P prefix [] h = tt
scan_prefix-All P prefix ((k, v) ∷ m) (p, h) = elim (Bool-cases (lex_ltb k prefix)) [
  | inl before ↦ rw (scan_prefix, before) (scan_prefix-All P prefix m h)
  | inr from ↦ rw (scan_prefix, from) (take_prefixed-All P prefix ((k, v) ∷ m) (p, h))
]

take_prefixed-IsOrdered :
    (prefix : List ℕ) (m : Entries) → IsOrdered m → IsOrdered (take_prefixed prefix m)
unfolding take_prefixed IsOrdered
take_prefixed-IsOrdered prefix [] h = tt
take_prefixed-IsOrdered prefix ((k, v) ∷ m) (p, h) = elim (Bool-cases (starts_with k prefix)) [
  | inl inside ↦
      rw inside
        (take_prefixed-All (λ e. lex k e.0 ≡ lt) prefix m p, take_prefixed-IsOrdered prefix m h)
  | inr outside ↦ rw outside tt
]

scan_prefix-IsOrdered :
    (prefix : List ℕ) (m : Entries) → IsOrdered m → IsOrdered (scan_prefix prefix m)
unfolding scan_prefix IsOrdered
scan_prefix-IsOrdered prefix [] h = tt
scan_prefix-IsOrdered prefix ((k, v) ∷ m) (p, h) = elim (Bool-cases (lex_ltb k prefix)) [
  | inl before ↦ rw (scan_prefix, before) (scan_prefix-IsOrdered prefix m h)
  | inr from ↦ rw (scan_prefix, from) (take_prefixed-IsOrdered prefix ((k, v) ∷ m) (p, h))
]

-- Every entry of the list is what the map has at its key.
abbrev AllFound : Entries → Entries → Type 0
AllFound l m = All (λ e. get e.0 m ≡ some e.1) l

other_key : (k j : List ℕ) → lex k j ≡ lt → bytes_eq k j ≡ false
unfolding bytes_eq
other_key k j h = rw (bytes_eq, h) refl

found_below :
    (k : List ℕ) (v : MptValue) (l m : Entries)
    → IsLeast k l
    → AllFound l m
    → AllFound l ((k, v) ∷ m)
unfolding get
found_below k v [] m h g = tt
found_below k v ((j, w) ∷ l) m (p, h) (q, g) = (rw (other_key k j p) q, found_below k v l m h g)

all_found : (m : Entries) → IsOrdered m → AllFound m m
unfolding IsOrdered get
all_found [] h = tt
all_found ((k, v) ∷ m) (least, h) =
    (rw (bytes_eq_refl k) refl, found_below k v m m least (all_found m h))

found_after_remove :
    (k : List ℕ) (l m : Entries) → IsLeast k l → AllFound l m → AllFound l (remove k m)
found_after_remove k [] m h g = tt
found_after_remove k ((j, w) ∷ l) m (p, h) (q, g) =
    (get-remove k j m ∙ rw (other_key k j p) q, found_after_remove k l m h g)

-- A step that changes the newest layer alone.
record SameOlder (s s' : State) : Type 0 where
  intermediate : s'.intermediate ≡ s.intermediate
  snapshot : s'.snapshot ≡ s.snapshot

SameOlder-trans : (s t u : State) → SameOlder s t → SameOlder t u → SameOlder s u
SameOlder-trans s t u a b = record {
  intermediate = b.intermediate ∙ a.intermediate;
  snapshot = b.snapshot ∙ a.snapshot;
}

SameOlder-refl : (s : State) → SameOlder s s
SameOlder-refl s = record { intermediate = refl; snapshot = refl }

module _ (keccak : List ℕ → H256) where
  remove_delta_lem :
      (l : Entries) (s : State)
      → IsOrdered l
      → AllFound l s.delta
      → ((remove_delta l s).0 ≡ l) × SameOlder s (remove_delta l s).1
  unfolding remove_delta IsOrdered
  remove_delta_lem [] s o f = (refl, SameOlder-refl s)
  remove_delta_lem ((k, v) ∷ l) s (least, o) (hit, f) =
      let s' = record s { delta = remove k s.delta; delta_inc = remove_entry s.delta_inc k } in
      let (same, older) = remove_delta_lem l s' o (found_after_remove k l s.delta least f) in
      rw (remove_delta, hit, same)
        (refl, record { intermediate = older.intermediate; snapshot = older.snapshot })

  set_raw-SameOlder :
      (bytes : List ℕ) (raw : MptResult (List ℕ)) (s : State)
      → SameOlder s (set_raw keccak bytes (raw, s)).1
  unfolding set_raw
  set_raw-SameOlder bytes (err e) s = SameOlder-refl s
  set_raw-SameOlder bytes (ok raw) s = record { intermediate = refl; snapshot = refl }

  state_set-SameOlder :
      (k : StorageKeyWithSpace) (bytes : List ℕ) (s : State)
      → SameOlder s (state_set keccak k bytes s).1
  unfolding state_set delta_key_of
  state_set-SameOlder k bytes s =
      let o = set_raw-SameOlder bytes (delta_key_of keccak k s).0 (delta_key_of keccak k s).1 in
      record { intermediate = o.intermediate; snapshot = o.snapshot }

  hide-SameOlder :
      (k : StorageKeyWithSpace) (v : MptValue) (s : State) → SameOlder s (hide keccak k v s).1
  unfolding hide visible_value
  hide-SameOlder k (value v) s = state_set-SameOlder k [] s
  hide-SameOlder k tombstone s = SameOlder-refl s

  step-SameOlder :
      (k : StorageKeyWithSpace) (v : MptValue) (s : State) (b : Bool)
      → SameOlder s (if b then hide keccak k v s else (ok tt, s)).1
  step-SameOlder k v s true = hide-SameOlder k v s
  step-SameOlder k v s false = SameOlder-refl s

-- A chain that ends well has gone well at each step.
and_then_ok :
    {A B : Type 0} (m : MptResult A × State) (f : A → State → MptResult B × State) (b : B)
    (s' : State)
    → and_then m f ≡ (ok b, s')
    → (a : A) × (m.0 ≡ ok a) × (f a m.1 ≡ (ok b, s'))
and_then_ok (ok a, s) f b s' e = (a, refl, e)
and_then_ok {B = B} (err x, s) f b s' e =
    let refused : ◌≡◌ {A = MptResult B} (err x) (ok b) = ap (λ r. r.0) e in cc

module _ (keccak : List ℕ → H256) where
  -- A loop that hides entries lists them as a read does.
  hide_intermediate_lem :
      (filter : Option (List ℕ)) (m : Entries) (listing listing' : Listing) (s s' : State)
      → hide_intermediate keccak filter m listing s ≡ (ok listing', s')
      → (list_layer note_older filter m listing ≡ ok listing') × SameOlder s s'
  unfolding hide_intermediate list_layer canonical_of
  hide_intermediate_lem filter [] listing listing' s s' e =
      (ap (λ r. r.0) e, subst (SameOlder s) (ap (λ r. r.1) e) (SameOlder-refl s))
  hide_intermediate_lem filter ((raw, v) ∷ m) listing listing' s s' e =
      let (key, ek, e1) = and_then_ok (from_delta_mpt_key raw, s) _ listing' s' e in
      let (canonical, ec, e2) = and_then_ok (to_key_bytes key, s) _ listing' s' e1 in
      let hidden = if passes filter canonical then hide keccak key v s else (ok tt, s) in
      let (u, eu, e3) = and_then_ok hidden _ listing' s' e2 in
      let older : SameOlder s hidden.1 = step-SameOlder keccak key v s (passes filter canonical) in
      let (same, rest) = hide_intermediate_lem filter m _ listing' hidden.1 s' e3 in
      (rw (ek, ec) same, SameOlder-trans s hidden.1 s' older rest)

  hide_snapshot_lem :
      (kvs : KeyValues) (listing listing' : Listing) (s s' : State)
      → hide_snapshot keccak kvs listing s ≡ (ok listing', s')
      → (list_snapshot kvs listing ≡ listing') × SameOlder s s'
  unfolding hide_snapshot list_snapshot
  hide_snapshot_lem [] listing listing' s s' e =
      (ok_injective (ap (λ r. r.0) e), subst (SameOlder s) (ap (λ r. r.1) e) (SameOlder-refl s))
  hide_snapshot_lem ((canonical, bytes) ∷ kvs) listing listing' s s' e =
      let (key, ek, e1) = and_then_ok (from_key_bytes canonical, s) _ listing' s' e in
      let (u, eu, e2) = and_then_ok (state_set keccak key [] s) _ listing' s' e1 in
      let (same, rest) =
        hide_snapshot_lem kvs (note_older canonical (value bytes) listing) listing'
          (state_set keccak key [] s).1 s' e2 in
      (
        same,
        SameOlder-trans s (state_set keccak key [] s).1 s' (state_set-SameOlder keccak key [] s)
            rest,
      )

  -- A delete by prefix that succeeds, on a delta layer whose keys ascend.
  delete_prefix_lem :
      (prefix : StorageKeyWithSpace) (s s' : State) (values : KeyValues)
      → IsOrdered s.delta
      → delete_prefix keccak prefix s ≡ (ok values, s')
      → (read_prefix keccak prefix s ≡ ok values) × SameOlder s s'
  unfolding delete_prefix read_prefix
  delete_prefix_lem prefix s s' values o e =
      let filter = address_prefix_filter prefix in
      let (p, ep, e1) = and_then_ok (prefixes_of keccak prefix s, s) _ values s' e in
      let (canonical_prefix, delta_prefix, intermediate_prefix) = p in
      let l = scan_prefix delta_prefix s.delta in
      let (same, older) =
        remove_delta_lem keccak l s (scan_prefix-IsOrdered delta_prefix s.delta o) (
          scan_prefix-All (λ x. get x.0 s.delta ≡ some x.1) delta_prefix s.delta
            (all_found s.delta o)) in
      let s1 = (remove_delta l s).1 in
      let (newest, en, e2) =
        and_then_ok (list_layer note_delta filter (remove_delta l s).0 ([], []), s1) _ values s'
          e1 in
      let hidden =
        hide_intermediate keccak filter (scan_prefix intermediate_prefix s1.intermediate) newest
          s1 in
      let (newer, ew, e3) = and_then_ok hidden _ values s' e2 in
      let (listed, older2) =
        hide_intermediate_lem filter (scan_prefix intermediate_prefix s1.intermediate) newest newer
          s1 hidden.1 (ap₂ (λ a b. (a, b)) ew refl) in
      let snap =
        hide_snapshot keccak (snapshot_scan_prefix s1.snapshot canonical_prefix) newer hidden.1 in
      let (all, ea, e4) = and_then_ok snap _ values s' e3 in
      let (snapped, older3) =
        hide_snapshot_lem (snapshot_scan_prefix s1.snapshot canonical_prefix) newer all hidden.1
          snap.1 (ap₂ (λ a b. (a, b)) ea refl) in
      let read_newest : list_layer note_delta filter l ([], []) ≡ ok newest =
        ap (λ x. list_layer note_delta filter x ([], [])) (sym same) ∙ en in
      let read_newer : list_layer note_older filter (scan_prefix intermediate_prefix s.intermediate)
            newest
          ≡ ok newer =
        ap (λ m. list_layer note_older filter (scan_prefix intermediate_prefix m) newest)
          (sym older.intermediate)
        ∙ listed in
      let read_all : list_snapshot (snapshot_scan_prefix s.snapshot canonical_prefix) newer ≡ all =
        ap (λ t. list_snapshot (snapshot_scan_prefix t canonical_prefix) newer) (sym older.snapshot)
        ∙ snapped in
      let last : SameOlder hidden.1 s' = subst (SameOlder hidden.1) (ap (λ r. r.1) e4) older3 in
      (
        rw (ep, read_newest, read_newer, read_all) (ap (λ r. r.0) e4),
        SameOlder-trans s s1 s' older (SameOlder-trans s1 hidden.1 s' older2 last),
      )

  IsKeyed-IsOrdered :
      (padding : DeltaMptKeyPadding) (m : Entries) → IsKeyed keccak padding m → IsOrdered m
  unfolding IsKeyed IsOrdered
  IsKeyed-IsOrdered padding [] h = tt
  IsKeyed-IsOrdered padding ((raw, v) ∷ m) (p, (least, h)) = (least, IsKeyed-IsOrdered padding m h)

  -- In a state that keeps the invariant, a `delete_all_by_prefix` that succeeds answers exactly the
  -- keys and values that `get_all_by_prefix` would have answered, and leaves the intermediate
  -- layer and the snapshot as they were.
  pub delete_all_by_prefix-get_all_by_prefix :
      (prefix : StorageKeyWithSpace) (s s' : State) (values : Option KeyValues)
      → IsState keccak s
      → delete_all_by_prefix keccak prefix s ≡ (ok values, s')
      → (get_all_by_prefix keccak prefix s ≡ ok values)
        × (s'.intermediate ≡ s.intermediate)
        × (s'.snapshot ≡ s.snapshot)
  unfolding delete_all_by_prefix get_all_by_prefix
  delete_all_by_prefix-get_all_by_prefix prefix s s' values inv e =
      let deleted = delete_prefix keccak prefix s in
      let (listed, el, e1) = and_then_ok deleted _ values s' e in
      let ordered = IsKeyed-IsOrdered s.delta_padding s.delta inv.delta_keyed in
      let (read, older) =
        delete_prefix_lem prefix s deleted.1 listed ordered (ap₂ (λ a b. (a, b)) el refl) in
      let same : deleted.1 ≡ s' = ap (λ r. r.1) e1 in
      (
        rw read (ap (λ r. r.0) e1),
        ap (λ t. t.intermediate) (sym same) ∙ older.intermediate,
        ap (λ t. t.snapshot) (sym same) ∙ older.snapshot,
      )
