-- ===== src/Cfxpack/Decode/Rounds.antt =====
-- The loops over the groups of blocks, in packet/encode.rs and decode/mod.rs, end within their fuel.
use cfx_minimal_execution.Common.{
  ℕ, zero, suc, ◌≤◌, ◌≢◌, arith, Bool, true, false, List, [], ◌∷◌, length, length-drop, take, drop,
  Result, ok, err, err_injective, ap, ensure, ◌>>◌, ◌>>=◌, Option-cases, inl, inr,
}
use cfx_minimal_execution.Cfxpack.Codec.{
  CodecError, out_of_fuel, index_not_sequential, reserved_flag, epoch_mismatch, no_blocks,
  invalid_epoch_range,
}
use cfx_minimal_execution.Cfxpack.Packet.{Packet, Block}
use cfx_minimal_execution.Cfxpack.Packet.Layout.{
  first_pivot, height_at, check_group, check_groups, validate_input,
}
use cfx_minimal_execution.Cfxpack.Decode.Tables.{assign_epochs, assign_epoch_from_pivots}

abbrev Ends {ℓ} : {A : Type ℓ} → Result CodecError A → Type ℓ
Ends m = m ≢ err out_of_fuel

ensure-Ends : (b : Bool) (e : CodecError) → e ≢ out_of_fuel → Ends (ensure b e)
ensure-Ends true e n = λ h. cc
ensure-Ends false e n = λ h. n (err_injective h)

>>=-Ends :
    {A B : Type 0} (m : Result CodecError A) (f : A → Result CodecError B)
    → Ends m
    → ((a : A) → Ends (f a))
    → Ends (m >>= f)
>>=-Ends (ok a) f h k = k a
>>=-Ends (err e) f h k = λ x. h (ap err (err_injective x))

ensure_then-Ends :
    (b : Bool) (e : CodecError) {m : Result CodecError (Unit {0})}
    → e ≢ out_of_fuel
    → Ends m
    → Ends (ensure b e >> m)
ensure_then-Ends b e {m} n k = >>=-Ends (ensure b e) (λ _. m) (ensure-Ends b e n) (λ _. k)

module _ {Tx : Type 0} where
  check_group-Ends : (bs : List (Block Tx)) (epoch k : ℕ) → Ends (check_group bs epoch k)
  unfolding check_group
  check_group-Ends [] epoch k = λ h. cc
  check_group-Ends (b ∷ bs) epoch k =
      ensure_then-Ends _ index_not_sequential (λ h. cc)
        (ensure_then-Ends _ reserved_flag (λ h. cc)
          (ensure_then-Ends _ epoch_mismatch (λ h. cc) (check_group-Ends bs epoch (suc k))))

  check_groups-Ends :
      (fuel : ℕ) (bs : List (Block Tx)) (k : ℕ) → length bs ≤ fuel → Ends (check_groups fuel bs k)
  unfolding check_groups
  check_groups-Ends fuel [] k enough = λ h. cc
  check_groups-Ends zero (b ∷ bs) k enough = absurd (omega (arith, enough))
  check_groups-Ends (suc fuel) (b ∷ bs) k enough = elim (Option-cases (first_pivot (b ∷ bs))) [
    | inl e ↦ rw (check_groups, e) (λ h. cc)
    | inr (i, e) ↦
        let rest = drop (suc i) (b ∷ bs) in
        let shorter = length-drop (suc i) (b ∷ bs) in
        rw (check_groups, e)
          (>>=-Ends (check_group (take (suc i) (b ∷ bs)) (height_at (b ∷ bs) i) k) _
            (check_group-Ends (take (suc i) (b ∷ bs)) (height_at (b ∷ bs) i) k)
            (λ x. check_groups-Ends fuel rest _ (omega (arith, enough, shorter))))
  ]

  assign_epochs-Ends :
      (fuel : ℕ) (bs : List (Block Tx)) → length bs ≤ fuel → Ends (assign_epochs fuel bs)
  unfolding assign_epochs
  assign_epochs-Ends fuel [] enough = λ h. cc
  assign_epochs-Ends zero (b ∷ bs) enough = absurd (omega (arith, enough))
  assign_epochs-Ends (suc fuel) (b ∷ bs) enough = elim (Option-cases (first_pivot (b ∷ bs))) [
    | inl e ↦ rw (assign_epochs, e) (λ h. cc)
    | inr (i, e) ↦
        let rest = drop (suc i) (b ∷ bs) in
        let shorter = length-drop (suc i) (b ∷ bs) in
        rw (assign_epochs, e)
          (>>=-Ends (assign_epochs fuel rest) _
            (assign_epochs-Ends fuel rest (omega (arith, enough, shorter))) (λ x h. cc))
  ]

  -- `validate_input` and `assign_epoch_from_pivots` end on every input: their loops over the groups
  -- take a block in each round, and never run out of the fuel of the model.
  pub groups_in_fuel :
      (input : Packet Tx)
      → (validate_input input ≢ err out_of_fuel)
        × (assign_epoch_from_pivots input.blocks ≢ err out_of_fuel)
  unfolding validate_input assign_epoch_from_pivots
  groups_in_fuel input = (
    ensure_then-Ends _ no_blocks (λ h. cc)
        (ensure_then-Ends _ invalid_epoch_range (λ h. cc)
          (check_groups-Ends (length input.blocks) input.blocks 0 (omega arith))),
    assign_epochs-Ends (length input.blocks) input.blocks (omega arith),
  )
