-- ===== src/Mpt/Stateless/Children.antt =====
-- The children of a node: the array that `merkle_for_node` fills from the runs of its slice is the
-- one that the walk without a cache makes slot by slot.
use cfx_minimal_execution.Common.{
  ℕ, zero, suc, ◌+◌, ◌<◌, ◌≡◌, refl, sym, ap, ◌∙◌, arith, Option, none, some, List, [], ◌∷◌, ◌++◌,
  length, replicate, set, append_assoc, length-append,
}
use cfx_minimal_execution.Common.Partial.{◌>>=◌, >>=-assoc}
use cfx_minimal_execution.Mpt.Types.{H256, merkle_null_node}
use cfx_minimal_execution.Mpt.Incremental.{Entries, block}
use cfx_minimal_execution.Mpt.Incremental.Plain.{plain_slot, plain_slots, slot_of}
use cfx_minimal_execution.Mpt.Stateless.{child_hashes, fill_children}
use cfx_minimal_execution.Mpt.Stateless.Ranges.{pick, runs, cons_run}

abbrev pub up_from : ℕ → ℕ → List ℕ
up_from c zero = []
up_from c (suc n) = c ∷ up_from (suc c) n

set-append :
    (done : List H256) (h g : H256) (rest : List H256)
    → set (done ++ (g ∷ rest)) (length done) h ≡ done ++ (h ∷ rest)
set-append [] h g rest = refl
set-append (x ∷ done) h g rest = ap (λ l. x ∷ l) (set-append done h g rest)

abbrev pub filled : List H256 → List (ℕ × H256) → Option (List H256)
filled arr hs = some (fill_children hs arr)

abbrev pub behind : List H256 → List H256 → Option (List H256)
behind done hs = some (done ++ hs)

behind_one :
    (done : List H256) (h : H256) (slots : Option (List H256))
    → ((slots >>= λ hs. some (h ∷ hs)) >>= behind done) ≡ (slots >>= behind (done ++ (h ∷ [])))
behind_one done h none = refl
behind_one done h (some hs) = ap some (sym (append_assoc done (h ∷ []) hs))

module _ (visit : Entries → Option H256) (v : List ℕ → Option H256) (d : ℕ) (fp : List ℕ)
    (s m : Entries) (same : (c : ℕ) → c < 16 → pick d c s ≡ block (fp ++ (c ∷ [])) m)
    (agree : (c : ℕ) → c < 16 → visit (pick d c s) ≡ v (fp ++ (c ∷ []))) where
  -- One child: it is absent, or its hash goes to its place.
  one_child :
      (c : ℕ) (done rest : List H256) (runs_after : List (ℕ × Entries))
      (slots_after : Option (List H256)) (slice : Entries) (slot : Option H256)
      → length done ≡ c
      → visit slice ≡ slot
      → ((h : H256)
          → (child_hashes visit runs_after >>= filled ((done ++ (h ∷ [])) ++ rest))
            ≡ (slots_after >>= behind (done ++ (h ∷ []))))
      → (child_hashes visit (cons_run c slice runs_after)
          >>= filled (done ++ (merkle_null_node ∷ rest)))
        ≡ ((slot_of slot slice >>= λ h. slots_after >>= λ hs. some (h ∷ hs)) >>= behind done)
  unfolding child_hashes fill_children cons_run
  one_child c done rest after slots [] slot ec ev next =
      ap (λ arr. child_hashes visit after >>= filled arr)
        (sym (append_assoc done (merkle_null_node ∷ []) rest))
      ∙ next merkle_null_node
      ∙ sym (behind_one done merkle_null_node slots)
  one_child c done rest after slots (e ∷ es) none ec ev next = rw (child_hashes, ev) refl
  one_child c done rest after slots (e ∷ es) (some h) ec ev next =
      let placed : set (done ++ (merkle_null_node ∷ rest)) c h ≡ (done ++ (h ∷ [])) ++ rest =
        ap (λ i. set (done ++ (merkle_null_node ∷ rest)) i h) (sym ec)
        ∙ set-append done h merkle_null_node rest
        ∙ sym (append_assoc done (h ∷ []) rest) in
      rw ev (
        >>=-assoc (child_hashes visit after) _ _
        ∙ ap (λ arr. child_hashes visit after >>= filled arr) placed
        ∙ next h
        ∙ sym (behind_one done h slots))

  pub children_agree :
      (c n : ℕ) (done : List H256)
      → length done ≡ c
      → c + n ≡ 16
      → (child_hashes visit (runs d c n s) >>= filled (done ++ replicate n merkle_null_node))
        ≡ (plain_slots v m fp (up_from c n) >>= behind done)
  unfolding runs plain_slots plain_slot child_hashes fill_children
  children_agree c zero done ec e = refl
  children_agree c (suc n) done ec e =
      rw (plain_slots, ← same c (omega arith))
        (one_child c done (replicate n merkle_null_node) (runs d (suc c) n s)
          (plain_slots v m fp (up_from (suc c) n)) (pick d c s) (v (fp ++ (c ∷ []))) ec
          (agree c (omega arith))
          (λ h.
            children_agree (suc c) n (done ++ (h ∷ [])) (length-append done (h ∷ []) ∙ omega arith)
              (omega arith)))
