-- ===== src/Extractor/FlagPatch.antt =====
-- crates/replay-data-extractor/src/extract/flagpatch.rs: the pass over a container that sets the
-- flag of each block without a total reward. The reward of a block is read from the node's
-- database, by a parameter. The workers take the blocks in any order; here they are read in the
-- order of the file, and the flips are applied in any order.
pub mod Flips
use cfx_minimal_execution.Common.{
  ℕ, zero, suc, ◌+◌, ◌%◌, ◌^◌, ◌==◌, leb, Bool, true, false, ◌&&◌, ◌||◌, Option, none, some, List,
  [], ◌∷◌, ◌++◌, length, slice, set, get_elem?, bit_and, bit_or, if◌then◌else◌, Result, ok, err,
  ensure, ◌>>◌, ◌>>=◌,
}
use cfx_minimal_execution.Common.ByteMap.{bytes_eq}
use cfx_minimal_execution.Common.Bytes.{from_le_bytes}
use cfx_minimal_execution.Cfxpack.Codec.{
  CodecError, not_a_container, truncated_directory, payload_out_of_bounds,
}
use cfx_minimal_execution.Cfxpack.Container.{magic, container_header_len, dir_entry_len, u64_at}
use cfx_minimal_execution.Cfxpack.Packet.{flag_zero_total_reward}
use cfx_minimal_execution.Cfxpack.Decode.{cut}
use cfx_minimal_execution.Cfxpack.Verify.Sites.{FlagSite, block_flag_sites}

-- The `for` over the directory, with the entry at `pos` next: offset and length of each payload.
unfoldable pub payload_ranges : ℕ → List ℕ → ℕ → Result CodecError (List (ℕ × ℕ))
payload_ranges zero bytes pos = ok []
payload_ranges (suc n) bytes pos = do
  ensure (leb (pos + dir_entry_len) (length bytes)) truncated_directory
  let offset = u64_at bytes (pos + 16)
  let len = u64_at bytes (pos + 24)
  ensure (leb ((offset + len) % 2 ^ 64) (length bytes)) payload_out_of_bounds
  entries ← payload_ranges n bytes (pos + dir_entry_len)
  ok ((offset, len) ∷ entries)

unfoldable pub parse_container : List ℕ → Result CodecError (List (ℕ × ℕ))
unfolding payload_ranges
parse_container bytes = do
  ensure (leb container_header_len (length bytes) && bytes_eq (slice bytes 0 8) magic)
      not_a_container
  payload_ranges (from_le_bytes (slice bytes 12 16)) bytes container_header_len

-- The sites of a payload, at their places in the file.
unfoldable pub absolute_sites : ℕ → List FlagSite → List FlagSite
absolute_sites offset [] = []
absolute_sites offset (s ∷ sites) =
    record { offset = offset + s.offset; hash = s.hash } ∷ absolute_sites offset sites

unfoldable pub collect_sites : List ℕ → List (ℕ × ℕ) → Result CodecError (List FlagSite)
unfolding absolute_sites
collect_sites bytes [] = ok []
collect_sites bytes ((offset, len) ∷ entries) = do
  payload ← cut bytes offset ((offset + len) % 2 ^ 64)
  sites ← block_flag_sites payload
  rest ← collect_sites bytes entries
  ok (absolute_sites offset sites ++ rest)

-- The offsets of the blocks whose total reward is zero; a block without a reward counts as one.
unfoldable pub collect_flips :
    (List ℕ → Result CodecError (Option ℕ)) → List FlagSite → Result CodecError (List ℕ)
collect_flips read_reward [] = ok []
collect_flips read_reward (site ∷ sites) = do
  reward ← read_reward site.hash
  let total_reward : ℕ = elim reward [ some r ↦ r | none ↦ 0 ]
  flips ← collect_flips read_reward sites
  ok (if total_reward == 0 then site.offset ∷ flips else flips)

-- One turn of the loop that sets the flags; `none` is the panic of an index out of bounds.
unfoldable pub flip_at : ℕ → List ℕ × Bool → Option (List ℕ × Bool)
flip_at abs (bytes, changed) = elim (get_elem? bytes abs) [
  | none ↦ none
  | some flags ↦ some (
      if bit_and flags flag_zero_total_reward == 0
      then (set bytes abs (bit_or flags flag_zero_total_reward), true)
      else (bytes, changed))
]

unfoldable pub apply_flips : List ℕ → List ℕ × Bool → Option (List ℕ × Bool)
unfolding flip_at
apply_flips [] patched = some patched
apply_flips (abs ∷ flips) patched = elim (flip_at abs patched) [
  | none ↦ none
  | some next ↦ apply_flips flips next
]

-- `(blocks_seen, blocks_flagged, changed)`, and the bytes.
pub record Patched : Type 0 where
  pub blocks_seen : ℕ
  pub blocks_flagged : ℕ
  pub changed : Bool
  pub bytes : List ℕ

unfoldable pub patched_from : ℕ → ℕ → List ℕ × Bool → Patched
patched_from blocks_seen blocks_flagged (bytes, changed) = record {
  blocks_seen = blocks_seen;
  blocks_flagged = blocks_flagged;
  changed = changed;
  bytes = bytes;
}

-- `patch_container_bytes`; `ok none` is a panic while the flags are set.
unfoldable pub patch_container_bytes :
    (List ℕ → Result CodecError (Option ℕ)) → List ℕ → Result CodecError (Option Patched)
unfolding parse_container collect_sites collect_flips apply_flips patched_from
patch_container_bytes read_reward bytes = do
  entries ← parse_container bytes
  sites ← collect_sites bytes entries
  flips ← collect_flips read_reward sites
  ok (elim (apply_flips flips (bytes, false)) [
    | none ↦ none
    | some patched ↦ some (patched_from (length sites) (length flips) patched)
  ])
