-- ===== src/Cfxpack/Packet/Layout.antt =====
-- crates/cfxpack/src/packet/encode.rs: where the records and the tables of a packet are placed.
use cfx_minimal_execution.Common.{
  ℕ, zero, suc, ◌+◌, ◌-◌, ◌*◌, ◌/◌, ◌%◌, ◌^◌, min, bit_and, bit_or, Bool, true, false, ◌&&◌, Option,
  none, some, List, [], ◌∷◌, ◌++◌, length, get_or, set, take, drop, replicate, ltb, leb, ◌==◌,
  if◌then◌else◌, Result, ok, err, ensure, ◌>>◌,
}
use cfx_minimal_execution.Cfxpack.Codec.{
  CodecError, put_uleb128, no_pivot, no_blocks, invalid_epoch_range, index_not_sequential,
  reserved_flag, epoch_mismatch, out_of_fuel,
}
use cfx_minimal_execution.Cfxpack.Packet.{Packet, Block, packet_epochs}
use cfx_minimal_execution.Cfxpack.Packet.Encode.{is_pivot}

-- The position of the first pivot block.
unfoldable pub first_pivot : {Tx : Type 0} → List (Block Tx) → Option ℕ
first_pivot [] = none
first_pivot (b ∷ bs) =
    let rest : Option ℕ = elim (first_pivot bs) [ some i ↦ some (suc i) | none ↦ none ] in
    if is_pivot b.flags then some 0 else rest

-- The height of the block at a position, where there is one.
unfoldable pub height_at : {Tx : Type 0} → List (Block Tx) → ℕ → ℕ
height_at [] i = 0
height_at (b ∷ bs) zero = b.height
height_at (b ∷ bs) (suc i) = height_at bs i

-- The checks of the blocks of one epoch group.
unfoldable pub check_group : {Tx : Type 0} → List (Block Tx) → ℕ → ℕ → Result CodecError (Unit {0})
check_group [] epoch expected_index = ok tt
check_group (b ∷ bs) epoch expected_index = do
  ensure (b.index == expected_index) index_not_sequential
  ensure (bit_and b.flags 0x80 == 0) reserved_flag
  ensure (b.epoch == epoch) epoch_mismatch
  check_group bs epoch (suc expected_index)

-- The `while` over the groups. Each round takes a block at least, so the fuel is their number.
unfoldable pub check_groups : {Tx : Type 0} → ℕ → List (Block Tx) → ℕ → Result CodecError (Unit {0})
unfolding check_group
check_groups fuel [] expected_index = ok tt
check_groups zero (b ∷ bs) expected_index = err out_of_fuel
check_groups (suc fuel) (b ∷ bs) expected_index = elim (first_pivot (b ∷ bs)) [
  | none ↦ err no_pivot
  | some relative_pivot ↦
      let group = take (suc relative_pivot) (b ∷ bs) in
      check_group group (height_at (b ∷ bs) relative_pivot) expected_index
      >> check_groups fuel (drop (suc relative_pivot) (b ∷ bs)) (expected_index + length group)
]

abbrev first_epoch_fits : {Tx : Type 0} → List (Block Tx) → Bool
first_epoch_fits [] = false
first_epoch_fits (b ∷ bs) = leb b.epoch ((b.epoch + packet_epochs) % 2 ^ 64)

abbrev has_blocks : {Tx : Type 0} → List (Block Tx) → Bool
has_blocks [] = false
has_blocks (b ∷ bs) = true

unfoldable pub validate_input : {Tx : Type 0} → Packet Tx → Result CodecError (Unit {0})
unfolding check_groups
validate_input input = do
  ensure (has_blocks input.blocks) no_blocks
  ensure (first_epoch_fits input.blocks) invalid_epoch_range
  check_groups (length input.blocks) input.blocks 0

unfoldable pub count_fitting : ℕ → List (List ℕ) → ℕ
count_fitting n [] = 0
count_fitting n (r ∷ records) =
    let rest = count_fitting n records in if leb (length r) n then suc rest else rest

-- The comparisons of `fit / len` with 0.90 and 0.70 in whole numbers; the quotient of two counts is
-- rounded across these bounds only for lists longer than any memory.
unfoldable pub choose_from : ℕ → ℕ → List (List ℕ) → ℕ
unfolding count_fitting
choose_from zero n records = n
choose_from (suc rounds) n records =
    let fit = count_fitting n records in
    let wider = choose_from rounds (n + 8) records in
    if ltb n 80 && ltb (fit * 10) (9 * length records)
    then wider
    else if ltb n 96 && leb 80 n && ltb (fit * 10) (7 * length records)
    then wider
    else n

-- From 64 the size grows to 96 at most, in four rounds.
unfoldable pub choose_prefix_size : List (List ℕ) → ℕ
unfolding choose_from
choose_prefix_size records = choose_from 5 64 records

-- The buffers of `pack_block_body`.
pub record Body : Type 0 where
  pub bitmap : List ℕ
  pub prefixes : List ℕ
  pub overflow : List ℕ

-- `bitmap[i / 8] |= 1 << (i % 8)`.
unfoldable pub mark_overflow : List ℕ → ℕ → List ℕ
mark_overflow bitmap i = set bitmap (i / 8) (bit_or (get_or bitmap (i / 8) 0) (2 ^ (i % 8)))

-- One record: a prefix filled up with zeros, and what does not fit goes to the overflow.
unfoldable pub pack_record : ℕ → ℕ → List ℕ → Body → Body
unfolding mark_overflow
pack_record prefix_size i r body =
    let prefix_len = min (length r) prefix_size in
    let rest = drop prefix_size r in
    record {
      bitmap = if ltb prefix_size (length r) then mark_overflow body.bitmap i else body.bitmap;
      prefixes = (body.prefixes ++ take prefix_len r) ++ replicate (prefix_size - prefix_len) 0;
      overflow =
          if ltb prefix_size (length r)
          then put_uleb128 body.overflow (length rest) ++ rest
          else body.overflow;
    }

unfoldable pub pack_records : ℕ → ℕ → List (List ℕ) → Body → Body
unfolding pack_record
pack_records prefix_size i [] body = body
pack_records prefix_size i (r ∷ records) body =
    pack_records prefix_size (suc i) records (pack_record prefix_size i r body)

-- The block body and the extension bitmap.
unfoldable pub pack_block_body : List (List ℕ) → ℕ → List ℕ × List ℕ
unfolding pack_records
pack_block_body block_records prefix_size =
    let body = pack_records prefix_size 0 block_records (record {
      bitmap = replicate ((length block_records + 7) / 8) 0;
      prefixes = [];
      overflow = [];
    }) in
    (body.prefixes ++ body.overflow, body.bitmap)
