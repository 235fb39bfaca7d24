-- ===== src/Extractor/Pack/Draining.antt =====
-- extract/pack.rs: the writer on groups that arrive in order, and the single rounds of its loop.
use cfx_minimal_execution.Common.{
  ℕ, zero, suc, ◌+◌, ◌%◌, ◌^◌, ◌≡◌, refl, Bool, true, false, none, some, List, [], length, leb,
  if◌then◌else◌, inl, inr, Bool-cases,
}
use cfx_minimal_execution.Extractor.Pack.{
  PacketOut, Writer, empty_builder, append_packet, flush_container, remove_pending, drain,
  has_entries,
}

abbrev pub start : Writer
start = record { pending = []; next_group = 0; builder = empty_builder; files = [] }

-- The writer on the groups 0 to k - 1, one after the other.
unfoldable pub in_order : ℕ → ℕ → (ℕ → PacketOut) → ℕ → Writer
unfolding append_packet
in_order shard_epochs target_bytes packet zero = start
in_order shard_epochs target_bytes packet (suc k) =
    append_packet shard_epochs target_bytes (packet k) []
      (in_order shard_epochs target_bytes packet k)

-- The last container, where one is open.
unfoldable pub finish : ℕ → Writer → Writer
unfolding flush_container
finish shard_epochs w = if has_entries w.builder.entries then flush_container shard_epochs w else w

pub append_packet-pending :
    (s t : ℕ) (p : PacketOut) (old new : List PacketOut) (w : Writer)
    → append_packet s t p new (record w { pending = old })
      ≡ record (append_packet s t p [] w) { pending = new }
unfolding append_packet flush_container
append_packet-pending s t p old new w =
    elim (Bool-cases (leb t ((w.builder.payload_bytes + length p.bytes) % 2 ^ 64))) [
      | inl full ↦ rw full refl
      | inr room ↦ rw room refl
    ]

pub append_packet-next :
    (s t : ℕ) (p : PacketOut) (new : List PacketOut) (w : Writer)
    → (append_packet s t p new w).next_group ≡ w.next_group + 1
unfolding append_packet flush_container
append_packet-next s t p new w =
    elim (Bool-cases (leb t ((w.builder.payload_bytes + length p.bytes) % 2 ^ 64))) [
      | inl full ↦ rw full refl
      | inr room ↦ rw room refl
    ]

pub drain-some :
    (s t fuel : ℕ) (w : Writer) (r : PacketOut × List PacketOut)
    → remove_pending w.next_group w.pending ≡ some r
    → drain (suc fuel) s t w ≡ drain fuel s t (append_packet s t r.0 r.1 w)
unfolding drain
drain-some s t fuel w r e = rw (drain, e) refl

pub drain-none :
    (s t fuel : ℕ) (w : Writer)
    → remove_pending w.next_group w.pending ≡ none
    → drain (suc fuel) s t w ≡ w
unfolding drain
drain-none s t fuel w e = rw (drain, e) refl

pub contradiction : (b : Bool) → b ≡ true → b ≡ false → ⊥
contradiction b h k = cc
