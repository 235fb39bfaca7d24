-- ===== src/Cfxpack/Container.antt =====
-- crates/cfxpack/src/container.rs: the directory of a container file, and the order of its groups.
-- The names of files and the search of a folder are file I/O.
use cfx_minimal_execution.Common.{
  ℕ, zero, suc, ◌+◌, ◌%◌, ◌^◌, ◌&&◌, ◌||◌, Option, none, some, List, [], ◌∷◌, length, slice, leb,
  ◌==◌, Result, ok, ensure, ◌>>◌, ◌>>=◌,
}
use cfx_minimal_execution.Common.ByteMap.{bytes_eq}
use cfx_minimal_execution.Common.Bytes.{from_le_bytes}
use cfx_minimal_execution.Cfxpack.Codec.{
  CodecError, not_a_container, truncated_directory, payload_out_of_bounds, non_contiguous,
  resume_gap,
}

-- `b"CFXPACK1"`.
abbrev pub magic : List ℕ
magic = 67 ∷ 70 ∷ 88 ∷ 80 ∷ 65 ∷ 67 ∷ 75 ∷ 49 ∷ []

abbrev pub format_version : ℕ
format_version = 1

abbrev pub container_header_len : ℕ
container_header_len = 24

abbrev pub dir_entry_len : ℕ
dir_entry_len = 32

-- `(start_epoch, epoch_count, payload_offset, payload_length)`.
pub record GroupEntry : Type 0 where
  pub start_epoch : ℕ
  pub epoch_count : ℕ
  pub offset : ℕ
  pub length : ℕ

pub validate_contiguity : ℕ → Option ℕ → ℕ → Result CodecError (Unit {0})
validate_contiguity start_epoch (some expected) resume_height =
    ensure (start_epoch == expected) non_contiguous
validate_contiguity start_epoch none resume_height =
    ensure (resume_height == 0 || start_epoch == (resume_height + 1) % 2 ^ 64) resume_gap

-- `u64::from_le_bytes(data[at..at + 8])`, where the bounds have been checked.
abbrev pub u64_at : List ℕ → ℕ → ℕ
u64_at bytes at = from_le_bytes (slice bytes at (at + 8))

-- The `for` over the groups, with the entry at `pos` next.
unfoldable pub parse_entries : ℕ → List ℕ → ℕ → Result CodecError (List GroupEntry)
parse_entries zero bytes pos = ok []
parse_entries (suc n) bytes pos = do
  ensure (leb (pos + dir_entry_len) (length bytes)) truncated_directory
  let offset = u64_at bytes (pos + 16)
  let len = u64_at bytes (pos + 24)
  ensure (leb ((offset + len) % 2 ^ 64) (length bytes)) payload_out_of_bounds
  entries ← parse_entries n bytes (pos + dir_entry_len)
  ok (
      record {
        start_epoch = u64_at bytes pos;
        epoch_count = u64_at bytes (pos + 8);
        offset = offset;
        length = len;
      }
      ∷ entries)

unfoldable pub parse_directory : List ℕ → Result CodecError (List GroupEntry)
unfolding parse_entries
parse_directory bytes = do
  ensure (leb container_header_len (length bytes) && bytes_eq (slice bytes 0 8) magic)
      not_a_container
  parse_entries (from_le_bytes (slice bytes 12 16)) bytes container_header_len
