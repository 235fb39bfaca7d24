-- ===== src/Extractor/Pack/Directory.antt =====
-- The directory of a container: extract/pack.rs writes the entries that container.rs parses.
use cfx_minimal_execution.Common.{
  ℕ, ◌+◌, ◌-◌, ◌%◌, ◌^◌, ◌≤◌, ◌<◌, ◌≡◌, refl, sym, ap, subst, ◌∙◌, arith, true, List, [], ◌∷◌, ◌++◌,
  append-nil, append_assoc, map, length, slice, All, length-append, take-append_at, drop-append_at,
  leb, ok,
}
use cfx_minimal_execution.Common.Bytes.{
  IsU64, to_le_bytes, from_le_bytes, length-to_le_bytes, from_le_bytes-to_le_bytes,
}
use cfx_minimal_execution.Common.Extends.{Extends, Extends-refl, Extends-append, Extends-trans}
use cfx_minimal_execution.Cfxpack.Codec.{put_u64_le}
use cfx_minimal_execution.Cfxpack.Container.{GroupEntry, u64_at, parse_entries}
use cfx_minimal_execution.Extractor.Pack.{DirEntry, PacketOut, ContainerBuilder, push, put_entries}

-- The packets of a container, pushed in their order.
unfoldable pub push_all : ContainerBuilder → List PacketOut → ContainerBuilder
unfolding push
push_all b [] = b
push_all b (p ∷ packets) = push_all (push b p) packets

abbrev pub dir_entry : PacketOut → DirEntry
dir_entry p = record {
  start_epoch = p.start_epoch;
  epoch_count = p.epoch_count;
  length = length p.bytes;
}

abbrev pub payload : PacketOut → List ℕ
payload p = p.bytes

pub push_all-entries :
    (b : ContainerBuilder) (packets : List PacketOut)
    → (push_all b packets).entries ≡ b.entries ++ map dir_entry packets
unfolding push_all push
push_all-entries b [] = sym (append-nil b.entries)
push_all-entries b (p ∷ packets) =
    push_all-entries (push b p) packets
    ∙ append_assoc b.entries (dir_entry p ∷ []) (map dir_entry packets)

pub push_all-payloads :
    (b : ContainerBuilder) (packets : List PacketOut)
    → (push_all b packets).payloads ≡ b.payloads ++ map payload packets
unfolding push_all push
push_all-payloads b [] = sym (append-nil b.payloads)
push_all-payloads b (p ∷ packets) =
    push_all-payloads (push b p) packets
    ∙ append_assoc b.payloads (p.bytes ∷ []) (map payload packets)

length-put_u64_le : (out : List ℕ) (v : ℕ) → length (put_u64_le out v) ≡ length out + 8
unfolding put_u64_le
length-put_u64_le out v =
    length-append out (to_le_bytes 8 v) ∙ ap (λ (n : ℕ). length out + n) (length-to_le_bytes 8 v)

put_u64_le-Extends : (out : List ℕ) (v : ℕ) → Extends out (put_u64_le out v)
unfolding put_u64_le
put_u64_le-Extends out v = Extends-append out (to_le_bytes 8 v)

pub length-Extends : (xs ys : List ℕ) → Extends xs ys → length xs ≤ length ys
length-Extends xs ys x = rw x.whole (omega (arith, length-append xs x.rest))

-- A number of `width` bytes is read back where it was written, whatever follows it.
pub le_at :
    (width : ℕ) (out : List ℕ) (v at : ℕ) (bytes : List ℕ)
    → length out ≡ at
    → v < 256 ^ width
    → Extends (out ++ to_le_bytes width v) bytes
    → from_le_bytes (slice bytes at (at + width)) ≡ v
le_at width out v at bytes e h x =
    let field = to_le_bytes width v in
    let size : at + width - at ≡ width = omega arith in
    let whole : bytes ≡ out ++ (field ++ x.rest) = x.whole ∙ append_assoc out field x.rest in
    rw
      (
        whole,
        drop-append_at at out (field ++ x.rest) e,
        size,
        take-append_at width field x.rest (length-to_le_bytes width v),
      )
      (from_le_bytes-to_le_bytes width v h)

u64_at-put_u64_le :
    (out : List ℕ) (v at : ℕ) (bytes : List ℕ)
    → length out ≡ at
    → IsU64 v
    → Extends (put_u64_le out v) bytes
    → u64_at bytes at ≡ v
unfolding put_u64_le
u64_at-put_u64_le out v at bytes e h x = le_at 8 out v at bytes e (omega (arith, h)) x

-- The entries of the directory, where the first payload stands at `offset`.
abbrev pub places : ℕ → List PacketOut → List GroupEntry
places offset [] = []
places offset (p ∷ packets) =
    record {
      start_epoch = p.start_epoch;
      epoch_count = p.epoch_count;
      offset = offset;
      length = length p.bytes;
    }
    ∷ places (offset + length p.bytes) packets

abbrev pub total_bytes : List PacketOut → ℕ
total_bytes [] = 0
total_bytes (p ∷ packets) = length p.bytes + total_bytes packets

-- The epochs of a packet are u64.
abbrev pub FitsPacket : PacketOut → Type 0
FitsPacket p = IsU64 p.start_epoch × IsU64 p.epoch_count

-- One entry of the directory.
abbrev pub put_entry : List ℕ → DirEntry → ℕ → List ℕ
put_entry out e offset =
    put_u64_le (put_u64_le (put_u64_le (put_u64_le out e.start_epoch) e.epoch_count) offset)
      e.length

pub put_entries-Extends :
    (out : List ℕ) (entries : List DirEntry) (offset : ℕ)
    → Extends out (put_entries out entries offset)
unfolding put_entries
put_entries-Extends out [] offset = Extends-refl out
put_entries-Extends out (e ∷ entries) offset =
    let out1 = put_u64_le out e.start_epoch in
    let out2 = put_u64_le out1 e.epoch_count in
    let out3 = put_u64_le out2 offset in
    let x2 =
      Extends-trans out out1 out2 (put_u64_le-Extends out e.start_epoch)
        (put_u64_le-Extends out1 e.epoch_count) in
    let x3 = Extends-trans out out2 out3 x2 (put_u64_le-Extends out2 offset) in
    Extends-trans out out3 _ x3 (
      Extends-trans out3 (put_u64_le out3 e.length) _ (put_u64_le-Extends out3 e.length)
        (put_entries-Extends (put_u64_le out3 e.length) entries ((offset + e.length) % 2 ^ 64)))

pub length-put_entry :
    (out : List ℕ) (e : DirEntry) (offset : ℕ) → length (put_entry out e offset) ≡ length out + 32
length-put_entry out e offset =
    let out1 = put_u64_le out e.start_epoch in
    let out2 = put_u64_le out1 e.epoch_count in
    let out3 = put_u64_le out2 offset in
    omega (
      arith,
      length-put_u64_le out e.start_epoch,
      length-put_u64_le out1 e.epoch_count,
      length-put_u64_le out2 offset,
      length-put_u64_le out3 e.length,
    )

-- The four fields of an entry are read back where it was written.
record EntryBack (e : DirEntry) (offset pos : ℕ) (bytes : List ℕ) : Type 0 where
  start : u64_at bytes pos ≡ e.start_epoch
  count : u64_at bytes (pos + 8) ≡ e.epoch_count
  offset_at : u64_at bytes (pos + 16) ≡ offset
  length_at : u64_at bytes (pos + 24) ≡ e.length

entry_back :
    (out : List ℕ) (e : DirEntry) (offset : ℕ) (bytes : List ℕ)
    → IsU64 e.start_epoch
    → IsU64 e.epoch_count
    → IsU64 offset
    → IsU64 e.length
    → Extends (put_entry out e offset) bytes
    → EntryBack e offset (length out) bytes
entry_back out e offset bytes h1 h2 h3 h4 x4 =
    let out1 = put_u64_le out e.start_epoch in
    let out2 = put_u64_le out1 e.epoch_count in
    let out3 = put_u64_le out2 offset in
    let l1 = length-put_u64_le out e.start_epoch in
    let l2 = length-put_u64_le out1 e.epoch_count in
    let l3 = length-put_u64_le out2 offset in
    let x3 = Extends-trans out3 _ bytes (put_u64_le-Extends out3 e.length) x4 in
    let x2 = Extends-trans out2 _ bytes (put_u64_le-Extends out2 offset) x3 in
    let x1 = Extends-trans out1 _ bytes (put_u64_le-Extends out1 e.epoch_count) x2 in
    record {
      start = u64_at-put_u64_le out e.start_epoch (length out) bytes refl h1 x1;
      count = u64_at-put_u64_le out1 e.epoch_count (length out + 8) bytes l1 h2 x2;
      offset_at =
          u64_at-put_u64_le out2 offset (length out + 16) bytes (omega (arith, l1, l2)) h3 x3;
      length_at =
          u64_at-put_u64_le out3 e.length (length out + 24) bytes (omega (arith, l1, l2, l3)) h4 x4;
    }

pub parse_entries-put_entries :
    (out : List ℕ) (packets : List PacketOut) (offset : ℕ) (bytes : List ℕ)
    → All FitsPacket packets
    → offset + total_bytes packets < 2 ^ 64
    → offset + total_bytes packets ≤ length bytes
    → Extends (put_entries out (map dir_entry packets) offset) bytes
    → parse_entries (length packets) bytes (length out) ≡ ok (places offset packets)
unfolding parse_entries put_entries
parse_entries-put_entries out [] offset bytes fits small long x = refl
parse_entries-put_entries out (p ∷ packets) offset bytes ((h1, h2), fits) small long x =
    let e = dir_entry p in
    let next = put_entry out e offset in
    let same : (offset + length p.bytes) % 2 ^ 64 ≡ offset + length p.bytes =
      omega (arith, small) in
    let x' = subst (λ (o : ℕ). Extends (put_entries next (map dir_entry packets) o) bytes) same x in
    let xe = Extends-trans next _ bytes (put_entries-Extends next (map dir_entry packets) _) x in
    let b = entry_back out e offset bytes h1 h2 (omega (arith, small)) (omega (arith, small)) xe in
    let size = length-put_entry out e offset in
    let inside : leb (length out + 32) (length bytes) ≡ true =
      ground (arith, size, length-Extends next bytes xe) in
    let stored : leb (offset + length p.bytes) (length bytes) ≡ true = ground (arith, long) in
    let rest =
      subst
        (λ (n : ℕ).
          parse_entries (length packets) bytes n ≡ ok (places (offset + length p.bytes) packets))
        size
        (parse_entries-put_entries next packets (offset + length p.bytes) bytes fits
          (omega (arith, small)) (omega (arith, long)) x') in
    rw (inside, b.start, b.count, b.offset_at, b.length_at, same, stored, rest) refl
