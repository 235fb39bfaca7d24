-- ===== src/Extractor/Tables/Covers.antt =====
-- The address table (tables.rs) has each address that a record may name.
use cfx_minimal_execution.Common.{
  ℕ, ◌≡◌, refl, ap, ◌∙◌, arith, Bool, true, false, ◌||◌, none, some, List, [], ◌∷◌, ◌++◌, inl, inr,
  Bool-cases,
}
use cfx_minimal_execution.Common.ByteMap.{bytes_eq, bytes_eq_iff}
use cfx_minimal_execution.Extractor.Tables.{
  Counted, Frequency, contains, modify_count, add, add_all, insert_sorted, sort_counts, keys_of,
  into_sorted, empty_frequency, Transaction, RawBlock, transaction_addresses, block_addresses,
  build_address_table,
}

module _ {T : Type 0} (same : T → T → Bool) where
  pub contains-append :
      (v : T) (us ws : List T)
      → contains same v (us ++ ws) ≡ (contains same v us || contains same v ws)
  unfolding contains
  contains-append v [] ws = refl
  contains-append v (x ∷ us) ws = ground (arith, contains-append v us ws)

  -- Sorting keeps the keys.
  pub contains-insert_sorted :
      (v : T) (c : Counted T) (cs : List (Counted T))
      → contains same v (keys_of (insert_sorted c cs))
        ≡ (same c.key v || contains same v (keys_of cs))
  unfolding contains keys_of insert_sorted
  contains-insert_sorted v c [] = refl
  contains-insert_sorted v c (d ∷ cs) = ground (arith, contains-insert_sorted v c cs)

  pub contains-sort_counts :
      (v : T) (cs : List (Counted T))
      → contains same v (keys_of (sort_counts cs)) ≡ contains same v (keys_of cs)
  unfolding contains keys_of sort_counts
  contains-sort_counts v [] = refl
  contains-sort_counts v (c ∷ cs) =
      contains-insert_sorted v c (sort_counts cs)
      ∙ ap (λ b. same c.key v || b) (contains-sort_counts v cs)

  pub keys_of-append : (cs ds : List (Counted T)) → keys_of (cs ++ ds) ≡ keys_of cs ++ keys_of ds
  unfolding keys_of
  keys_of-append [] ds = refl
  keys_of-append (c ∷ cs) ds = ap (λ ks. c.key ∷ ks) (keys_of-append cs ds)

  -- A value is found exactly when it is a key, and no key changes.
  pub modify_count-0 :
      (v : T) (cs : List (Counted T)) → (modify_count same v cs).0 ≡ contains same v (keys_of cs)
  unfolding modify_count contains keys_of
  modify_count-0 v [] = refl
  modify_count-0 v (c ∷ cs) = ground (arith, modify_count-0 v cs)

  pub modify_count-1 :
      (v : T) (cs : List (Counted T)) → keys_of (modify_count same v cs).1 ≡ keys_of cs
  unfolding modify_count keys_of
  modify_count-1 v [] = refl
  modify_count-1 v (c ∷ cs) = ground (arith, modify_count-1 v cs)

  module _ (same_trans : (a b c : T) → same a b ≡ true → same b c ≡ true → same a c ≡ true) where
    contains-same :
        (v w : T) (ks : List T)
        → contains same w ks ≡ true
        → same w v ≡ true
        → contains same v ks ≡ true
    unfolding contains
    contains-same v w [] h e = h
    contains-same v w (k ∷ ks) h e = ground (arith, same_trans k w v, contains-same v w ks)

    -- A value that is added is a key, and so is what was one.
    contains-add :
        (v w : T) (f : Frequency T)
        → contains same v (keys_of (add same w f).counts)
          ≡ (contains same v (keys_of f.counts) || same w v)
    unfolding add contains keys_of
    contains-add v w f = elim (Bool-cases (modify_count same w f.counts).0) [
      | inl e ↦
          rw (e, modify_count-1 w f.counts)
            (ground (arith, contains-same v w (keys_of f.counts), modify_count-0 w f.counts))
      | inr e ↦
          rw
            (
              e,
              keys_of-append (modify_count same w f.counts).1
                  (record { key = w; count = 1; order = f.next_order } ∷ []),
              contains-append v (keys_of (modify_count same w f.counts).1) (w ∷ []),
              modify_count-1 w f.counts,
            )
            (ground arith)
    ]

    contains-add_all :
        (v : T) (vs : List T) (f : Frequency T)
        → contains same v (keys_of (add_all same vs f).counts)
          ≡ (contains same v (keys_of f.counts) || contains same v vs)
    unfolding add_all contains
    contains-add_all v [] f = ground arith
    contains-add_all v (w ∷ vs) f =
        contains-add_all v vs (add same w f) ∙ ground (arith, contains-add v w f)

    contains-into_sorted :
        (v : T) (vs : List T)
        → contains same v (into_sorted (add_all same vs empty_frequency)) ≡ contains same v vs
    unfolding into_sorted contains keys_of
    contains-into_sorted v vs =
        contains-sort_counts v (add_all same vs empty_frequency).counts
        ∙ contains-add_all v vs empty_frequency

pub bytes_eq_trans :
    (a b c : List ℕ) → bytes_eq a b ≡ true → bytes_eq b c ≡ true → bytes_eq a c ≡ true
bytes_eq_trans a b c h k = (bytes_eq_iff a c).1 ((bytes_eq_iff a b).0 h ∙ (bytes_eq_iff b c).0 k)

-- Whether a transaction is from the address or calls it.
unfoldable named_by_body : List ℕ → List Transaction → Bool
named_by_body a [] = false
named_by_body a (tx ∷ body) =
    bytes_eq tx.sender a
    || (elim tx.call [ some address ↦ bytes_eq address a | none ↦ false ])
    || named_by_body a body

-- Whether a block names the address: as its author, or in a transaction.
unfoldable pub named_by : List ℕ → List RawBlock → Bool
unfolding named_by_body
named_by a [] = false
named_by a (b ∷ blocks) = bytes_eq b.author a || named_by_body a b.body || named_by a blocks

contains-transaction_addresses :
    (a : List ℕ) (body : List Transaction)
    → contains bytes_eq a (transaction_addresses body) ≡ named_by_body a body
unfolding contains transaction_addresses named_by_body
contains-transaction_addresses a [] = refl
contains-transaction_addresses a (tx ∷ body) = ground (arith, contains-transaction_addresses a body)

contains-block_addresses :
    (a : List ℕ) (blocks : List RawBlock)
    → contains bytes_eq a (block_addresses blocks) ≡ named_by a blocks
unfolding contains block_addresses named_by
contains-block_addresses a [] = refl
contains-block_addresses a (b ∷ blocks) =
    rw
      (
        contains-append bytes_eq a (transaction_addresses b.body) (block_addresses blocks),
        contains-transaction_addresses a b.body,
        contains-block_addresses a blocks,
      )
      (ground arith)

-- An address is in the table of the blocks exactly when a block names it as its author, as the
-- sender of a transaction or as the address that a transaction calls.
pub contains-build_address_table :
    (a : List ℕ) (blocks : List RawBlock)
    → contains bytes_eq a (build_address_table blocks) ≡ named_by a blocks
unfolding build_address_table
contains-build_address_table a blocks =
    contains-into_sorted bytes_eq bytes_eq_trans a (block_addresses blocks)
    ∙ contains-block_addresses a blocks
