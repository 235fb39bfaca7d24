-- ===== src/Cfxpack/Decode/Epochs.antt =====
-- The epochs of the groups: crates/cfxpack/src/decode/mod.rs sets what packet/encode.rs has checked.
use cfx_minimal_execution.Common.{
  ℕ, zero, suc, ◌+◌, ◌≡◌, refl, sym, ap, ap₂, ◌∙◌, some, List, [], ◌∷◌, ◌++◌, length, take, drop,
  take-append-drop, ◌==◌, ok, err, ◌>>◌, ◌>>=◌, >>-ok, ensure_ok, ==_iff, Option-cases, inl, inr,
}
use cfx_minimal_execution.Cfxpack.Codec.{no_pivot}
use cfx_minimal_execution.Cfxpack.Packet.{Packet, Block}
use cfx_minimal_execution.Cfxpack.Packet.Layout.{
  first_pivot, height_at, check_group, check_groups, validate_input,
}
use cfx_minimal_execution.Cfxpack.Decode.Tables.{set_epoch, assign_epochs, assign_epoch_from_pivots}

module _ {Tx : Type 0} where
  first_pivot-set_epoch :
      (e : ℕ) (bs : List (Block Tx)) → first_pivot (set_epoch e bs) ≡ first_pivot bs
  unfolding first_pivot set_epoch
  first_pivot-set_epoch e [] = refl
  first_pivot-set_epoch e (b ∷ bs) = rw (first_pivot-set_epoch e bs) refl

  height_at-set_epoch :
      (e : ℕ) (bs : List (Block Tx)) (i : ℕ) → height_at (set_epoch e bs) i ≡ height_at bs i
  unfolding height_at set_epoch
  height_at-set_epoch e [] i = refl
  height_at-set_epoch e (b ∷ bs) zero = refl
  height_at-set_epoch e (b ∷ bs) (suc i) = height_at-set_epoch e bs i

  take-set_epoch :
      (e n : ℕ) (bs : List (Block Tx)) → take n (set_epoch e bs) ≡ set_epoch e (take n bs)
  unfolding set_epoch
  take-set_epoch e zero bs = refl
  take-set_epoch e (suc n) [] = refl
  take-set_epoch e (suc n) (b ∷ bs) = ap (λ t. record b { epoch = e } ∷ t) (take-set_epoch e n bs)

  drop-set_epoch :
      (e n : ℕ) (bs : List (Block Tx)) → drop n (set_epoch e bs) ≡ set_epoch e (drop n bs)
  unfolding set_epoch
  drop-set_epoch e zero bs = refl
  drop-set_epoch e (suc n) [] = refl
  drop-set_epoch e (suc n) (b ∷ bs) = drop-set_epoch e n bs

  length-set_epoch : (e : ℕ) (bs : List (Block Tx)) → length (set_epoch e bs) ≡ length bs
  unfolding set_epoch
  length-set_epoch e [] = refl
  length-set_epoch e (b ∷ bs) = ap suc (length-set_epoch e bs)

  -- The blocks of a checked group all carry its epoch.
  set_epoch-check_group :
      (bs : List (Block Tx)) (epoch k : ℕ)
      → check_group bs epoch k ≡ ok tt
      → set_epoch epoch (set_epoch 0 bs) ≡ bs
  unfolding check_group set_epoch
  set_epoch-check_group [] epoch k h = refl
  set_epoch-check_group (b ∷ bs) epoch k h =
      let (at_index, h1) = >>-ok h in
      let (reserved, h2) = >>-ok h1 in
      let (same, h3) = >>-ok h2 in
      let e : b.epoch ≡ epoch = (==_iff b.epoch epoch).0 (ensure_ok (b.epoch == epoch) _ same) in
      ap₂ (λ c cs. c ∷ cs) (ap (λ (n : ℕ). record b { epoch = n }) (sym e))
        (set_epoch-check_group bs epoch (suc k) h3)

  -- One round of the loop, on the group of the first `n` blocks.
  group_back :
      (fuel n epoch high : ℕ) (bs : List (Block Tx))
      → high ≡ epoch
      → set_epoch epoch (set_epoch 0 (take n bs)) ≡ take n bs
      → assign_epochs fuel (set_epoch 0 (drop n bs)) ≡ ok (drop n bs)
      → (assign_epochs fuel (drop n (set_epoch 0 bs)) >>= λ later.
          ok (set_epoch high (take n (set_epoch 0 bs)) ++ later))
        ≡ ok bs
  group_back fuel n epoch high bs same group rest =
      rw (same, drop-set_epoch 0 n bs, take-set_epoch 0 n bs, group, rest)
        (ap ok (take-append-drop n bs))

  assign_epochs-check_groups :
      (fuel : ℕ) (bs : List (Block Tx)) (k : ℕ)
      → check_groups fuel bs k ≡ ok tt
      → assign_epochs fuel (set_epoch 0 bs) ≡ ok bs
  unfolding check_groups assign_epochs set_epoch
  assign_epochs-check_groups fuel [] k h = refl
  assign_epochs-check_groups zero (b ∷ bs) k h = cc
  assign_epochs-check_groups (suc fuel) (b ∷ bs) k h = elim (Option-cases (first_pivot (b ∷ bs))) [
    | inl e ↦
        let stuck : check_groups (suc fuel) (b ∷ bs) k ≡ err no_pivot = rw (check_groups, e) refl in
        let absurd : err no_pivot ≡ ok tt = sym stuck ∙ h in cc
    | inr (i, e) ↦
        let group = take (suc i) (b ∷ bs) in
        let epoch = height_at (b ∷ bs) i in
        let rest = drop (suc i) (b ∷ bs) in
        let round : check_groups (suc fuel) (b ∷ bs) k
            ≡ (check_group group epoch k >> check_groups fuel rest (k + length group)) =
          rw (check_groups, e) refl in
        let (checked, later) = >>-ok (sym round ∙ h) in
        let zeroed = record b { epoch = 0 } ∷ set_epoch 0 bs in
        let at : first_pivot zeroed ≡ some i = first_pivot-set_epoch 0 (b ∷ bs) ∙ e in
        let assigned : assign_epochs (suc fuel) zeroed ≡ (
            assign_epochs fuel (drop (suc i) zeroed) >>= λ later.
            ok (set_epoch (height_at zeroed i) (take (suc i) zeroed) ++ later)) =
          rw (assign_epochs, at) refl in
        let high : height_at zeroed i ≡ epoch = height_at-set_epoch 0 (b ∷ bs) i in
        assigned
        ∙ group_back fuel (suc i) epoch (height_at zeroed i) (b ∷ bs) high
            (set_epoch-check_group group epoch k checked)
            (assign_epochs-check_groups fuel rest (k + length group) later)
  ]

  -- What `validate_input` accepts, `assign_epoch_from_pivots` restores: from the blocks with all
  -- epochs set to 0 it makes the blocks with the epochs they had.
  pub assign_epoch_from_pivots-validate_input :
      (input : Packet Tx)
      → validate_input input ≡ ok tt
      → assign_epoch_from_pivots (set_epoch 0 input.blocks) ≡ ok input.blocks
  unfolding validate_input assign_epoch_from_pivots
  assign_epoch_from_pivots-validate_input input h =
      let (some_blocks, h1) = >>-ok h in
      let (fits, h2) = >>-ok h1 in
      rw (length-set_epoch 0 input.blocks)
        (assign_epochs-check_groups (length input.blocks) input.blocks 0 h2)
