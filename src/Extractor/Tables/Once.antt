-- ===== src/Extractor/Tables/Once.antt =====
-- No address stands twice in the address table (tables.rs).
use cfx_minimal_execution.Common.{
  ℕ, ◌≡◌, refl, sym, ◌∙◌, arith, Bool, true, false, List, [], ◌∷◌, ◌++◌, if◌then◌else◌, inl, inr,
  Bool-cases,
}
use cfx_minimal_execution.Common.ByteMap.{bytes_eq, bytes_eq_iff}
use cfx_minimal_execution.Extractor.Tables.{
  Counted, Frequency, contains, modify_count, add, add_all, insert_sorted, sort_counts, keys_of,
  into_sorted, empty_frequency, RawBlock, block_addresses, build_address_table,
}
use cfx_minimal_execution.Extractor.Tables.Covers.{
  contains-append, contains-insert_sorted, contains-sort_counts, keys_of-append, modify_count-0,
  modify_count-1, named_by, contains-build_address_table,
}

module _ {T : Type 0} (same : T → T → Bool) where
  -- Whether the values are distinct.
  unfoldable pub unique : List T → Bool
  unfolding contains
  unique [] = true
  unique (v ∷ vs) = let rest = unique vs in if contains same v vs then false else rest

  module _ (same_sym : (a b : T) → same a b ≡ same b a) where
    unique-end :
        (w : T) (ks : List T)
        → unique (ks ++ (w ∷ [])) ≡ (if contains same w ks then false else unique ks)
    unfolding unique contains
    unique-end w [] = refl
    unique-end w (k ∷ ks) =
        ground (arith, unique-end w ks, contains-append same k ks (w ∷ []), same_sym k w)

    unique-insert_sorted :
        (c : Counted T) (cs : List (Counted T))
        → unique (keys_of (insert_sorted c cs))
          ≡ (if contains same c.key (keys_of cs) then false else unique (keys_of cs))
    unfolding unique contains keys_of insert_sorted
    unique-insert_sorted c [] = refl
    unique-insert_sorted c (d ∷ cs) = ground (
      arith,
      unique-insert_sorted c cs,
      contains-insert_sorted same d.key c cs,
      same_sym d.key c.key,
    )

    unique-sort_counts :
        (cs : List (Counted T)) → unique (keys_of (sort_counts cs)) ≡ unique (keys_of cs)
    unfolding unique keys_of sort_counts
    unique-sort_counts [] = refl
    unique-sort_counts (c ∷ cs) =
        unique-insert_sorted c (sort_counts cs)
        ∙ rw (contains-sort_counts same c.key cs, unique-sort_counts cs) refl

    unique-add :
        (w : T) (f : Frequency T)
        → unique (keys_of f.counts) ≡ true
        → unique (keys_of (add same w f).counts) ≡ true
    unfolding add keys_of
    unique-add w f h = elim (Bool-cases (modify_count same w f.counts).0) [
      | inl e ↦ rw (e, modify_count-1 same w f.counts) h
      | inr e ↦
          rw
            (
              e,
              keys_of-append same (modify_count same w f.counts).1
                  (record { key = w; count = 1; order = f.next_order } ∷ []),
              modify_count-1 same w f.counts,
              unique-end w (keys_of f.counts),
              sym (modify_count-0 same w f.counts),
              e,
            )
            h
    ]

    unique-add_all :
        (vs : List T) (f : Frequency T)
        → unique (keys_of f.counts) ≡ true
        → unique (keys_of (add_all same vs f).counts) ≡ true
    unfolding add_all
    unique-add_all [] f h = h
    unique-add_all (v ∷ vs) f h = unique-add_all vs (add same v f) (unique-add v f h)

bytes_eq_sym : (a b : List ℕ) → bytes_eq a b ≡ bytes_eq b a
bytes_eq_sym a b = ground (arith, bytes_eq_iff a b, bytes_eq_iff b a)

unique-build_address_table :
    (blocks : List RawBlock) → unique bytes_eq (build_address_table blocks) ≡ true
unfolding build_address_table into_sorted unique
unique-build_address_table blocks =
    unique-sort_counts bytes_eq bytes_eq_sym
      (add_all bytes_eq (block_addresses blocks) empty_frequency).counts
    ∙ unique-add_all bytes_eq bytes_eq_sym (block_addresses blocks) empty_frequency refl

-- The address table of the blocks has no address twice, and an address is in it exactly when a
-- block names it: as its author, as the sender of a transaction or as the address that a
-- transaction calls.
pub build_address_table-named :
    (blocks : List RawBlock)
    → (unique bytes_eq (build_address_table blocks) ≡ true)
      × ((a : List ℕ) → contains bytes_eq a (build_address_table blocks) ≡ named_by a blocks)
build_address_table-named blocks =
    (unique-build_address_table blocks, λ a. contains-build_address_table a blocks)
