-- ===== src/Extractor/Pack/RoundTrip.antt =====
-- crates/replay-data-extractor/src/extract/pack.rs writes what crates/cfxpack/src/container.rs reads.
use cfx_minimal_execution.Common.{
  ℕ, suc, ◌+◌, ◌-◌, ◌*◌, ◌%◌, ◌^◌, ◌≤◌, ◌<◌, ◌≡◌, refl, ap, ap₂, subst, ◌∙◌, arith, true, List, [],
  ◌∷◌, ◌++◌, append_assoc, map, length, take, slice, All, length-append, take-append_at,
  drop-append_at, leb, ok,
}
use cfx_minimal_execution.Common.ByteMap.{bytes_eq_refl}
use cfx_minimal_execution.Common.Bytes.{to_le_bytes, from_le_bytes}
use cfx_minimal_execution.Common.Extends.{Extends, Extends-refl, Extends-append, Extends-trans}
use cfx_minimal_execution.Cfxpack.Codec.{put_u32_le}
use cfx_minimal_execution.Cfxpack.Container.{GroupEntry, parse_entries, parse_directory, magic}
use cfx_minimal_execution.Extractor.Pack.{
  DirEntry, PacketOut, empty_builder, put_entries, put_payloads, container_bytes,
}
use cfx_minimal_execution.Extractor.Pack.Directory.{
  push_all, dir_entry, payload, push_all-entries, push_all-payloads, length-Extends, le_at, places,
  total_bytes, FitsPacket, put_entry, put_entries-Extends, length-put_entry,
  parse_entries-put_entries,
}

length-put_entries :
    (out : List ℕ) (entries : List DirEntry) (offset : ℕ)
    → length (put_entries out entries offset) ≡ length out + 32 * length entries
unfolding put_entries
length-put_entries out [] offset = omega arith
length-put_entries out (e ∷ entries) offset =
    length-put_entries (put_entry out e offset) entries ((offset + e.length) % 2 ^ 64)
    ∙ omega (arith, length-put_entry out e offset)

put_payloads-Extends :
    (out : List ℕ) (payloads : List (List ℕ)) → Extends out (put_payloads out payloads)
unfolding put_payloads
put_payloads-Extends out [] = Extends-refl out
put_payloads-Extends out (p ∷ payloads) =
    Extends-trans out (out ++ p) _ (Extends-append out p) (put_payloads-Extends (out ++ p) payloads)

length-put_payloads :
    (out : List ℕ) (packets : List PacketOut)
    → length (put_payloads out (map payload packets)) ≡ length out + total_bytes packets
unfolding put_payloads
length-put_payloads out [] = omega arith
length-put_payloads out (p ∷ packets) =
    length-put_payloads (out ++ p.bytes) packets ∙ omega (arith, length-append out p.bytes)

-- The payload that an entry of the directory points at.
abbrev pub payload_of : List ℕ → GroupEntry → List ℕ
payload_of bytes g = slice bytes g.offset (g.offset + g.length)

payloads_back :
    (out : List ℕ) (packets : List PacketOut) (offset : ℕ) (bytes : List ℕ)
    → length out ≡ offset
    → Extends (put_payloads out (map payload packets)) bytes
    → map (payload_of bytes) (places offset packets) ≡ map payload packets
unfolding put_payloads
payloads_back out [] offset bytes e x = refl
payloads_back out (p ∷ packets) offset bytes e x =
    let next = out ++ p.bytes in
    let xp = Extends-trans next _ bytes (put_payloads-Extends next (map payload packets)) x in
    let whole : bytes ≡ out ++ (p.bytes ++ xp.rest) = xp.whole ∙ append_assoc out p.bytes xp.rest in
    let size : offset + length p.bytes - offset ≡ length p.bytes = omega arith in
    let head : slice bytes offset (offset + length p.bytes) ≡ p.bytes =
      rw (whole, drop-append_at offset out (p.bytes ++ xp.rest) e, size)
        (take-append_at (length p.bytes) p.bytes xp.rest refl) in
    ap₂ (λ a b. a ∷ b) head
      (payloads_back next packets (offset + length p.bytes) bytes
        (length-append out p.bytes ∙ ap (λ (n : ℕ). n + length p.bytes) e) x)

length-dir_entries : (packets : List PacketOut) → length (map dir_entry packets) ≡ length packets
length-dir_entries [] = refl
length-dir_entries (p ∷ packets) = ap suc (length-dir_entries packets)

-- The header: its length, its magic and its count of groups, whatever follows.
record HeaderBack (count shard : ℕ) (bytes : List ℕ) : Type 0 where
  long : 24 ≤ length bytes
  tagged : slice bytes 0 8 ≡ magic
  counted : from_le_bytes (slice bytes 12 16) ≡ count

header_back :
    (count shard : ℕ) (bytes : List ℕ)
    → count < 2 ^ 32
    → Extends (put_u32_le (put_u32_le (put_u32_le (put_u32_le magic 1) count) shard) 0) bytes
    → HeaderBack count shard bytes
unfolding put_u32_le to_le_bytes
header_back count shard bytes small x =
    let out1 = put_u32_le magic 1 in
    let out2 = put_u32_le out1 count in
    let out3 = put_u32_le out2 shard in
    let x2 =
      Extends-trans out2 _ bytes (Extends-append out2 (to_le_bytes 4 shard ++ to_le_bytes 4 0)) x in
    record {
      long = omega (arith, length-Extends _ bytes x);
      tagged = ap (take 8) x.whole;
      counted = le_at 4 out1 count 12 bytes refl (omega (arith, small)) x2;
    }

abbrev four_words : ℕ → ℕ → List ℕ
four_words count shard = put_u32_le (put_u32_le (put_u32_le (put_u32_le magic 1) count) shard) 0

length-four_words : (count shard : ℕ) → length (four_words count shard) ≡ 24
unfolding put_u32_le to_le_bytes
length-four_words count shard = refl

-- The file as its header, its directory and its payloads.
abbrev laid : List PacketOut → ℕ → List ℕ
laid packets shard =
    put_payloads
      (put_entries (four_words (length packets) shard) (map dir_entry packets)
        (24 + 32 * length packets))
      (map payload packets)

container_bytes-push_all :
    (packets : List PacketOut) (shard_epochs : ℕ)
    → length packets < 2 ^ 32
    → container_bytes (push_all empty_builder packets) shard_epochs
      ≡ laid packets (shard_epochs % 2 ^ 32)
unfolding container_bytes
container_bytes-push_all packets shard_epochs few =
    let same : length packets % 2 ^ 32 ≡ length packets = omega (arith, few) in
    rw
      (
        push_all-entries empty_builder packets,
        push_all-payloads empty_builder packets,
        length-dir_entries packets,
        same,
      )
      refl

laid_back :
    (packets : List PacketOut) (shard : ℕ)
    → All FitsPacket packets
    → length packets < 2 ^ 32
    → 24 + 32 * length packets + total_bytes packets < 2 ^ 64
    → (parse_directory (laid packets shard) ≡ ok (places (24 + 32 * length packets) packets))
      × (map (payload_of (laid packets shard)) (places (24 + 32 * length packets) packets)
          ≡ map payload packets)
unfolding parse_directory
laid_back packets shard fits few small =
    let n = length packets in
    let file = laid packets shard in
    let front = four_words n shard in
    let directory = put_entries front (map dir_entry packets) (24 + 32 * n) in
    let front_size = length-four_words n shard in
    let directory_size : length directory ≡ 24 + 32 * n = omega (
      arith,
      length-put_entries front (map dir_entry packets) (24 + 32 * n),
      front_size,
      length-dir_entries packets,
    ) in
    let file_size = length-put_payloads directory packets in
    let xd = put_payloads-Extends directory (map payload packets) in
    let xf =
      Extends-trans front directory file
        (put_entries-Extends front (map dir_entry packets) (24 + 32 * n)) xd in
    let h = header_back n shard file few xf in
    let long : leb 24 (length file) ≡ true = ground (arith, h.long) in
    let entries : parse_entries n file 24 ≡ ok (places (24 + 32 * n) packets) =
      subst (λ (pos : ℕ). parse_entries n file pos ≡ ok (places (24 + 32 * n) packets)) front_size
        (parse_entries-put_entries front packets (24 + 32 * n) file fits small
          (omega (arith, file_size, directory_size)) xd) in
    (
      rw (long, h.tagged, bytes_eq_refl magic, h.counted) entries,
      payloads_back directory packets (24 + 32 * n) file directory_size (Extends-refl file),
    )

-- `parse_directory` reads a container file, into which packets were pushed in turn, as the
-- directory of these packets in their order, and each entry points at the bytes of its packet;
-- where the packets are fewer than 2^32, their epochs are u64 and the file is shorter than 2^64.
pub parse_directory-container_bytes :
    (packets : List PacketOut) (shard_epochs : ℕ)
    → All FitsPacket packets
    → length packets < 2 ^ 32
    → 24 + 32 * length packets + total_bytes packets < 2 ^ 64
    → let file = container_bytes (push_all empty_builder packets) shard_epochs in
      let groups = places (24 + 32 * length packets) packets in
      (parse_directory file ≡ ok groups) × (map (payload_of file) groups ≡ map payload packets)
parse_directory-container_bytes packets shard_epochs fits few small =
    let shard = shard_epochs % 2 ^ 32 in
    let e = container_bytes-push_all packets shard_epochs few in
    let b = laid_back packets shard fits few small in
    (
      ap parse_directory e ∙ b.0,
      ap (λ (file : List ℕ). map (payload_of file) (places (24 + 32 * length packets) packets)) e
          ∙ b.1,
    )
