-- ===== src/Mpt/Snapshot/Copies.antt =====
-- Entries that are inserted one by one, in the order of their keys, make the same map again: the
-- snapshot and the delta trie of a state that is built from maps.
use cfx_minimal_execution.Common.{
  ℕ, ◌≡◌, refl, sym, ap, ◌∙◌, List, [], ◌∷◌, ◌++◌, append_assoc, append-nil, arith, subst, All, inl,
  inr,
}
use cfx_minimal_execution.Common.ByteMap.{ByteMap, lex, insert}
use Prim.Native.Nat.Ordering.{lt, gt}
use cfx_minimal_execution.Mpt.Trie.{MptValue, value, bytes_to_nibbles}
use cfx_minimal_execution.Mpt.Incremental.{Entries, nibble_entries}
use cfx_minimal_execution.Mpt.Incremental.Ordered.{IsOrdered, IsLeast, lex-cases}
use cfx_minimal_execution.Mpt.Stateless.{nibble_keys}
use cfx_minimal_execution.Mpt.Stateless.NibbleKeys.{nibble_keys-insert}
use cfx_minimal_execution.Mpt.Snapshot.{snapshot_entries, collect_map}

-- Every entry is inserted in turn.
unfoldable pub insert_each : Entries → Entries → Entries
insert_each [] acc = acc
insert_each ((k, v) ∷ m) acc = insert_each m (insert k v acc)

above_flip : (xs ys : List ℕ) → lex xs ys ≡ lt → lex ys xs ≡ gt
unfolding lex
above_flip [] [] h = cc
above_flip [] (y ∷ ys) h = refl
above_flip (x ∷ xs) [] h = cc
above_flip (x ∷ xs) (y ∷ ys) h = ground (arith, above_flip xs ys)

-- An entry above all others goes to the end.
insert_last :
    (k : List ℕ) (v : MptValue) (m : Entries)
    → All (λ e. lex e.0 k ≡ lt) m
    → insert k v m ≡ m ++ ((k, v) ∷ [])
unfolding insert
insert_last k v [] h = refl
insert_last k v ((j, w) ∷ m) (p, h) =
    rw (insert, above_flip j k p) (ap (λ n. (j, w) ∷ n) (insert_last k v m h))

below_next :
    (acc : Entries) (e : List ℕ × MptValue) (m : Entries)
    → IsOrdered (acc ++ (e ∷ m))
    → All (λ x. lex x.0 e.0 ≡ lt) acc
unfolding IsOrdered
below_next [] e m h = tt
below_next ((k, v) ∷ acc) e m (least, h) = (reach acc least, below_next acc e m h)
  where
    reach : (a : Entries) → IsLeast k (a ++ (e ∷ m)) → lex k e.0 ≡ lt
    reach [] (p, q) = p
    reach (x ∷ a) (p, q) = reach a q

insert_each_after : (m acc : Entries) → IsOrdered (acc ++ m) → insert_each m acc ≡ acc ++ m
unfolding insert_each
insert_each_after [] acc h = sym (append-nil acc)
insert_each_after ((k, v) ∷ m) acc h =
    let one = (k, v) ∷ [] in
    ap (insert_each m) (insert_last k v acc (below_next acc (k, v) m h))
    ∙ insert_each_after m (acc ++ one) (subst IsOrdered (sym (append_assoc acc one m)) h)
    ∙ append_assoc acc one m

pub insert_each_same : (m : Entries) → IsOrdered m → insert_each m [] ≡ m
insert_each_same m h = insert_each_after m [] h

pub nibble_entries-eq-insert_each :
    (delta acc : Entries) → nibble_entries delta acc ≡ insert_each (nibble_keys delta) acc
unfolding nibble_entries insert_each nibble_keys
nibble_entries-eq-insert_each [] acc = refl
nibble_entries-eq-insert_each ((k, v) ∷ delta) acc =
    nibble_entries-eq-insert_each delta (insert (bytes_to_nibbles k) v acc)

-- The values of a canonical map as those of a trie.
unfoldable pub as_values : ByteMap (List ℕ) → Entries
as_values [] = []
as_values ((k, v) ∷ m) = (k, value v) ∷ as_values m

pub snapshot_entries-eq-insert_each :
    (m : ByteMap (List ℕ)) (acc : Entries)
    → snapshot_entries m acc ≡ insert_each (nibble_keys (as_values m)) acc
unfolding snapshot_entries insert_each nibble_keys as_values
snapshot_entries-eq-insert_each [] acc = refl
snapshot_entries-eq-insert_each ((k, v) ∷ m) acc =
    snapshot_entries-eq-insert_each m (insert (bytes_to_nibbles k) (value v) acc)

as_values-insert :
    (k v : List ℕ) (m : ByteMap (List ℕ))
    → as_values (insert k v m) ≡ insert k (value v) (as_values m)
unfolding as_values insert
as_values-insert k v [] = refl
as_values-insert k v ((j, w) ∷ m) = elim (lex-cases (lex k j)) [
  | inl before ↦ rw (insert, before) refl
  | inr (inl here) ↦ rw (insert, here) refl
  | inr (inr after) ↦ rw (insert, after) (ap (λ n. (j, value w) ∷ n) (as_values-insert k v m))
]

-- A map that is collected from entries, as the entries of a trie.
pub collected_values :
    (l acc : ByteMap (List ℕ))
    → nibble_keys (as_values (collect_map l acc))
      ≡ insert_each (nibble_keys (as_values l)) (nibble_keys (as_values acc))
unfolding collect_map insert_each nibble_keys as_values
collected_values [] acc = refl
collected_values ((k, v) ∷ l) acc =
    collected_values l (insert k v acc)
    ∙ ap (insert_each (nibble_keys (as_values l)))
        (ap nibble_keys (as_values-insert k v acc) ∙ nibble_keys-insert k (value v) (as_values acc))
