-- ===== src/Extractor/Pack/Pending.antt =====
-- The packets that arrived early, of write_containers in extract/pack.rs, as a list of group numbers.
use cfx_minimal_execution.Common.{
  ℕ, suc, ◌≡◌, ◌≢◌, refl, sym, ap, ap₂, ◌∙◌, arith, Bool, true, false, none, some, List, [], ◌∷◌,
  map, length, ◌==◌, if◌then◌else◌, inl, inr, Bool-cases, ==_iff, subst, All,
}
use cfx_minimal_execution.Extractor.Pack.{PacketOut, insert_pending, remove_pending}

unfoldable pub has : ℕ → List ℕ → Bool
has j [] = false
has j (x ∷ xs) = if x == j then true else has j xs

unfoldable pub add : ℕ → List ℕ → List ℕ
add j [] = j ∷ []
add j (x ∷ xs) = let rest = add j xs in if x == j then j ∷ xs else x ∷ rest

unfoldable pub del : ℕ → List ℕ → List ℕ
del j [] = []
del j (x ∷ xs) = let rest = del j xs in if x == j then xs else x ∷ rest

pub nothing : (i : ℕ) → has i [] ≡ false
unfolding has
nothing i = refl

==_refl : (n : ℕ) → (n == n) ≡ true
==_refl n = ground arith

pub has-cons_no : (i x : ℕ) (xs : List ℕ) → (x == i) ≡ false → has i (x ∷ xs) ≡ has i xs
unfolding has
has-cons_no i x xs e = rw e refl

pub has-cons_yes : (i x : ℕ) (xs : List ℕ) → (x == i) ≡ true → has i (x ∷ xs) ≡ true
unfolding has
has-cons_yes i x xs e = rw e refl

pub has-cons : (i x : ℕ) (xs : List ℕ) → has i xs ≡ true → has i (x ∷ xs) ≡ true
has-cons i x xs h = elim (Bool-cases (x == i)) [
  | inl e ↦ has-cons_yes i x xs e
  | inr e ↦ has-cons_no i x xs e ∙ h
]

pub has-add : (j : ℕ) (xs : List ℕ) → has j (add j xs) ≡ true
unfolding add
has-add j [] = has-cons_yes j j [] (==_refl j)
has-add j (x ∷ xs) = elim (Bool-cases (x == j)) [
  | inl e ↦ rw e (has-cons_yes j j xs (==_refl j))
  | inr e ↦ rw e (has-cons_no j x (add j xs) e ∙ has-add j xs)
]

pub has-add_other : (i j : ℕ) (xs : List ℕ) → has i xs ≡ true → has i (add j xs) ≡ true
unfolding add
has-add_other i j [] h = let e : has i [] ≡ false = nothing i in cc
has-add_other i j (x ∷ xs) h = elim (Bool-cases (x == j)) [
  | inl e ↦ rw e (ap (λ (y : ℕ). has i (y ∷ xs)) (sym ((==_iff x j).0 e)) ∙ h)
  | inr e ↦ rw e (elim (Bool-cases (x == i)) [
    | inl f ↦ has-cons_yes i x (add j xs) f
    | inr f ↦ has-cons_no i x (add j xs) f ∙ has-add_other i j xs (sym (has-cons_no i x xs f) ∙ h)
  ])
]

pub has-del_other : (i k : ℕ) (xs : List ℕ) → k ≢ i → has i xs ≡ true → has i (del k xs) ≡ true
unfolding del
has-del_other i k [] n h = h
has-del_other i k (x ∷ xs) n h = elim (Bool-cases (x == k)) [
  | inl e ↦
      let apart : (x == i) ≡ false = elim (Bool-cases (x == i)) [
        | inl f ↦ absurd (n (sym ((==_iff x k).0 e) ∙ (==_iff x i).0 f))
        | inr f ↦ f
      ] in
      rw e (sym (has-cons_no i x xs apart) ∙ h)
  | inr e ↦ rw e (elim (Bool-cases (x == i)) [
    | inl f ↦ has-cons_yes i x (del k xs) f
    | inr f ↦ has-cons_no i x (del k xs) f ∙ has-del_other i k xs n (sym (has-cons_no i x xs f) ∙ h)
  ])
]

module _ (P : ℕ → Type 0) where
  pub All-add : (j : ℕ) (xs : List ℕ) → All P xs → P j → All P (add j xs)
  unfolding add
  All-add j [] h p = (p, tt)
  All-add j (x ∷ xs) (q, h) p = elim (Bool-cases (x == j)) [
    | inl e ↦ rw e (p, h)
    | inr e ↦ rw e (q, All-add j xs h p)
  ]

  pub All-del : (k : ℕ) (xs : List ℕ) → All P xs → All P (del k xs)
  unfolding del
  All-del k [] h = tt
  All-del k (x ∷ xs) (q, h) = elim (Bool-cases (x == k)) [
    | inl e ↦ rw e h
    | inr e ↦ rw e (q, All-del k xs h)
  ]

  pub All-has : (k : ℕ) (xs : List ℕ) → All P xs → has k xs ≡ true → P k
  All-has k [] h m = let e : has k [] ≡ false = nothing k in absurd (cc)
  All-has k (x ∷ xs) (q, h) m = elim (Bool-cases (x == k)) [
    | inl e ↦ subst P ((==_iff x k).0 e) q
    | inr e ↦ All-has k xs h (sym (has-cons_no k x xs e) ∙ m)
  ]

pub length-del : (k : ℕ) (xs : List ℕ) → has k xs ≡ true → suc (length (del k xs)) ≡ length xs
unfolding del
length-del k [] h = let e : has k [] ≡ false = nothing k in cc
length-del k (x ∷ xs) h = elim (Bool-cases (x == k)) [
  | inl e ↦ rw e refl
  | inr e ↦ rw e (ap suc (length-del k xs (sym (has-cons_no k x xs e) ∙ h)))
]

-- Packets known by their group.
module _ (packet : ℕ → PacketOut) (numbered : (i : ℕ) → (packet i).group_index ≡ i) where
  pub insert_pending-add :
      (j : ℕ) (xs : List ℕ) → insert_pending (packet j) (map packet xs) ≡ map packet (add j xs)
  unfolding insert_pending add
  insert_pending-add j [] = refl
  insert_pending-add j (x ∷ xs) = elim (Bool-cases (x == j)) [
    | inl e ↦ rw (ap₂ (λ (a b : ℕ). a == b) (numbered x) (numbered j) ∙ e, e) refl
    | inr e ↦
        rw (ap₂ (λ (a b : ℕ). a == b) (numbered x) (numbered j) ∙ e, e)
          (ap (λ t. packet x ∷ t) (insert_pending-add j xs))
  ]

  pub remove_pending-absent :
      (k : ℕ) (xs : List ℕ) → has k xs ≡ false → remove_pending k (map packet xs) ≡ none
  unfolding remove_pending
  remove_pending-absent k [] h = refl
  remove_pending-absent k (x ∷ xs) h = elim (Bool-cases (x == k)) [
    | inl e ↦ let m = sym (has-cons_yes k x xs e) ∙ h in cc
    | inr e ↦
        rw
          (
            ap (λ (a : ℕ). a == k) (numbered x) ∙ e,
            remove_pending-absent k xs (sym (has-cons_no k x xs e) ∙ h),
          )
          refl
  ]

  pub remove_pending-present :
      (k : ℕ) (xs : List ℕ)
      → has k xs ≡ true
      → remove_pending k (map packet xs) ≡ some (packet k, map packet (del k xs))
  unfolding remove_pending del
  remove_pending-present k [] h = let e : has k [] ≡ false = nothing k in cc
  remove_pending-present k (x ∷ xs) h = elim (Bool-cases (x == k)) [
    | inl e ↦
        rw (ap (λ (a : ℕ). a == k) (numbered x) ∙ e, e)
          (ap (λ (y : ℕ). some (packet y, map packet xs)) ((==_iff x k).0 e))
    | inr e ↦
        rw
          (
            ap (λ (a : ℕ). a == k) (numbered x) ∙ e,
            e,
            remove_pending-present k xs (sym (has-cons_no k x xs e) ∙ h),
          )
          refl
  ]
