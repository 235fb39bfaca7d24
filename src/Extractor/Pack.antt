-- ===== src/Extractor/Pack.antt =====
-- crates/replay-data-extractor/src/extract/pack.rs: the plan of the groups, the container builder,
-- the bytes of a container file and the writer that puts packets back into the order of the
-- groups. The channel is the list of the packets in the order they arrive, and a written file is a
-- value; the u64 sums wrap around, as in a release build.
pub mod Plan
pub mod Directory
pub mod RoundTrip
pub mod Pending
pub mod Draining
pub mod Order
use cfx_minimal_execution.Common.{
  ℕ, zero, suc, ◌+◌, ◌-◌, ◌*◌, ◌/◌, ◌%◌, ◌^◌, min, arith, Bool, true, false, Option, none, some,
  List, [], ◌∷◌, ◌++◌, length, leb, ◌==◌, if◌then◌else◌,
}
use cfx_minimal_execution.Cfxpack.Codec.{put_u32_le, put_u64_le}
use cfx_minimal_execution.Cfxpack.Container.{
  magic, format_version, container_header_len, dir_entry_len,
}

pub record PackTask : Type 0 where
  pub group_index : ℕ
  pub start_epoch : ℕ
  pub epoch_count : ℕ

pub record PacketOut : Type 0 where
  pub group_index : ℕ
  pub start_epoch : ℕ
  pub epoch_count : ℕ
  pub block_count : ℕ
  pub transaction_count : ℕ
  pub bytes : List ℕ

pub record DirEntry : Type 0 where
  pub start_epoch : ℕ
  pub epoch_count : ℕ
  pub length : ℕ

pub record ContainerBuilder : Type 0 where
  pub start_epoch : Option ℕ
  pub end_epoch : ℕ
  pub entries : List DirEntry
  pub payloads : List (List ℕ)
  pub payload_bytes : ℕ
  pub epoch_count : ℕ
  pub block_count : ℕ
  pub transaction_count : ℕ

-- `ContainerBuilder::default()`.
abbrev pub empty_builder : ContainerBuilder
empty_builder = record {
  start_epoch = none;
  end_epoch = 0;
  entries = [];
  payloads = [];
  payload_bytes = 0;
  epoch_count = 0;
  block_count = 0;
  transaction_count = 0;
}

abbrev pub start_or : Option ℕ → ℕ → Option ℕ
start_or none start = some start
start_or (some old) start = some old

unfoldable pub push : ContainerBuilder → PacketOut → ContainerBuilder
push b packet = record {
  start_epoch = start_or b.start_epoch packet.start_epoch;
  end_epoch = (packet.start_epoch + packet.epoch_count + (2 ^ 64 - 1)) % 2 ^ 64;
  entries =
      b.entries
      ++ (record {
        start_epoch = packet.start_epoch;
        epoch_count = packet.epoch_count;
        length = length packet.bytes;
      }
          ∷ []);
  payloads = b.payloads ++ (packet.bytes ∷ []);
  payload_bytes = (b.payload_bytes + length packet.bytes) % 2 ^ 64;
  epoch_count = (b.epoch_count + packet.epoch_count) % 2 ^ 64;
  block_count = (b.block_count + packet.block_count) % 2 ^ 64;
  transaction_count = (b.transaction_count + packet.transaction_count) % 2 ^ 64;
}

-- The `for` over the directory entries; `offset` is where the next payload will stand.
unfoldable pub put_entries : List ℕ → List DirEntry → ℕ → List ℕ
put_entries out [] offset = out
put_entries out (e ∷ entries) offset =
    put_entries
      (put_u64_le (put_u64_le (put_u64_le (put_u64_le out e.start_epoch) e.epoch_count) offset)
        e.length)
      entries ((offset + e.length) % 2 ^ 64)

unfoldable pub put_payloads : List ℕ → List (List ℕ) → List ℕ
put_payloads out [] = out
put_payloads out (p ∷ payloads) = put_payloads (out ++ p) payloads

abbrev pub payload_base : ContainerBuilder → ℕ
payload_base b = container_header_len + dir_entry_len * (length b.entries % 2 ^ 32)

-- The bytes in front of the directory.
abbrev pub put_container_header : ContainerBuilder → ℕ → List ℕ
put_container_header b shard_epochs =
    put_u32_le
      (put_u32_le (put_u32_le (put_u32_le magic format_version) (length b.entries % 2 ^ 32))
        (shard_epochs % 2 ^ 32))
      0

-- What `flush_container` writes into the file.
unfoldable pub container_bytes : ContainerBuilder → ℕ → List ℕ
unfolding put_entries put_payloads
container_bytes b shard_epochs =
    put_payloads (put_entries (put_container_header b shard_epochs) b.entries (payload_base b))
      b.payloads

-- A file: the epochs of its name and its bytes.
pub record ContainerFile : Type 0 where
  pub start_epoch : Option ℕ
  pub end_epoch : ℕ
  pub bytes : List ℕ

-- The state of `write_containers`: the packets that arrived early, the next group, the open
-- container and the files written.
pub record Writer : Type 0 where
  pub pending : List PacketOut
  pub next_group : ℕ
  pub builder : ContainerBuilder
  pub files : List ContainerFile

unfoldable pub flush_container : ℕ → Writer → Writer
unfolding container_bytes
flush_container shard_epochs w = record w {
  builder = empty_builder;
  files =
      w.files
      ++ (record {
        start_epoch = w.builder.start_epoch;
        end_epoch = w.builder.end_epoch;
        bytes = container_bytes w.builder shard_epochs;
      }
          ∷ []);
}

-- `pending.insert`: a map holds one packet for a group, the last one.
unfoldable pub insert_pending : PacketOut → List PacketOut → List PacketOut
insert_pending p [] = p ∷ []
insert_pending p (q ∷ pending) =
    let rest = insert_pending p pending in
    if q.group_index == p.group_index then p ∷ pending else q ∷ rest

-- `pending.remove`.
unfoldable pub remove_pending : ℕ → List PacketOut → Option (PacketOut × List PacketOut)
remove_pending group [] = none
remove_pending group (q ∷ pending) =
    let rest : Option (PacketOut × List PacketOut) = elim (remove_pending group pending) [
      | some r ↦ some (r.0, q ∷ r.1)
      | none ↦ none
    ] in
    if q.group_index == group then some (q, pending) else rest

-- The body of the `while let`: the packet of the next group goes into the container.
unfoldable pub append_packet : ℕ → ℕ → PacketOut → List PacketOut → Writer → Writer
unfolding push flush_container
append_packet shard_epochs target_bytes packet pending w =
    let pushed = record w {
      pending = pending;
      next_group = w.next_group + 1;
      builder = push w.builder packet;
    } in
    if leb target_bytes (push w.builder packet).payload_bytes
    then flush_container shard_epochs pushed
    else pushed

-- The `while let`: each round takes a packet out of `pending`, so the fuel is their number.
unfoldable pub drain : ℕ → ℕ → ℕ → Writer → Writer
unfolding append_packet
drain zero shard_epochs target_bytes w = w
drain (suc fuel) shard_epochs target_bytes w = elim (remove_pending w.next_group w.pending) [
  | none ↦ w
  | some r ↦
      drain fuel shard_epochs target_bytes (append_packet shard_epochs target_bytes r.0 r.1 w)
]

unfoldable pub receive : ℕ → ℕ → PacketOut → Writer → Writer
unfolding insert_pending drain
receive shard_epochs target_bytes packet w =
    drain (length (insert_pending packet w.pending)) shard_epochs target_bytes
      (record w { pending = insert_pending packet w.pending })

unfoldable pub receive_all : ℕ → ℕ → List PacketOut → Writer → Writer
unfolding receive
receive_all shard_epochs target_bytes [] w = w
receive_all shard_epochs target_bytes (packet ∷ packets) w =
    receive_all shard_epochs target_bytes packets (receive shard_epochs target_bytes packet w)

abbrev has_entries : List DirEntry → Bool
has_entries [] = false
has_entries (e ∷ entries) = true

unfoldable pub write_containers : ℕ → ℕ → List PacketOut → Writer
unfolding receive_all
write_containers shard_epochs target_bytes packets =
    let w =
      receive_all shard_epochs target_bytes packets
        (record { pending = []; next_group = 0; builder = empty_builder; files = [] }) in
    if has_entries w.builder.entries then flush_container shard_epochs w else w
