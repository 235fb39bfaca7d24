-- ===== src/Cfxpack/Verify/Sites.antt =====
-- crates/cfxpack/src/decode/mod.rs: block_flag_sites, which finds the flags of each block in place,
-- beside the records that verify.rs puts together.
use cfx_minimal_execution.Common.{
  ℕ, zero, suc, ◌+◌, ◌-◌, ◌*◌, ◌^◌, ◌<◌, ◌≤◌, ◌≡◌, refl, sym, ap, subst, ◌∙◌, arith, true, List, [],
  ◌∷◌, ◌++◌, length, length-drop, get_or, take, drop, slice, ltb, leb, ◌&&◌, Result, ok, ensure,
  ◌>>◌, ◌>>=◌, ensure_ok, >>-ok, >>=-ok, ok_injective,
}
use native.Mathlib.Nat.{suc-mul}
use cfx_minimal_execution.Cfxpack.Codec.{
  CodecError, read_u32_le, packet_too_short, invalid_block_prefix_size, prefix_size_overflow,
  prefix_exceeds_tx_segment, panicked,
}
use cfx_minimal_execution.Cfxpack.Packet.{header_len}
use cfx_minimal_execution.Cfxpack.Decode.{cut}
use cfx_minimal_execution.Cfxpack.Decode.Tables.{
  read_offsets, ensure_offsets, overflow_tail, marked_at, whole_record,
}
use cfx_minimal_execution.Cfxpack.Verify.{collect_from, collect_block_records, is_prefix_size}

-- The offset of a block's flags, and the hash of the block.
pub record FlagSite : Type 0 where
  pub offset : ℕ
  pub hash : List ℕ

unfoldable pub flag_sites_from : ℕ → ℕ → List ℕ → ℕ → ℕ → Result CodecError (List FlagSite)
unfolding cut
flag_sites_from zero index bytes block_body_offset prefix_size = ok []
flag_sites_from (suc n) index bytes block_body_offset prefix_size = do
  let at = block_body_offset + index * prefix_size
  hash ← cut bytes at (at + 32)
  sites ← flag_sites_from n (suc index) bytes block_body_offset prefix_size
  ok (record { offset = at + 44; hash = hash } ∷ sites)

unfoldable pub block_flag_sites : List ℕ → Result CodecError (List FlagSite)
unfolding flag_sites_from read_offsets ensure_offsets
block_flag_sites bytes = do
  ensure (leb header_len (length bytes)) packet_too_short
  let prefix_size = get_or bytes 92 0
  ensure (is_prefix_size prefix_size) invalid_block_prefix_size
  offsets ← read_offsets bytes
  ensure_offsets offsets (length bytes)
  let body_offset = get_or offsets 6 0
  block_count ← read_u32_le bytes (get_or offsets 5 0)
  ensure (ltb (block_count * prefix_size) (2 ^ 64)) prefix_size_overflow
  ensure (leb (body_offset + block_count * prefix_size) (get_or offsets 7 0))
      prefix_exceeds_tx_segment
  flag_sites_from block_count 0 bytes body_offset prefix_size

-- The sites belong to the records: each has the hash of its record, and its offset is where the
-- packet has the flags of the record.
abbrev pub AreSites : List ℕ → List FlagSite → List (List ℕ) → Type 0
AreSites bytes [] [] = Unit
AreSites bytes [] (r ∷ records) = ⊥
AreSites bytes (s ∷ sites) [] = ⊥
AreSites bytes (s ∷ sites) (r ∷ records) =
    (s.hash ≡ take 32 r) × (get_or bytes s.offset 0 ≡ get_or r 44 0) × AreSites bytes sites records

take-take-append :
    (n m : ℕ) (xs ys : List ℕ) → n ≤ m → m ≤ length xs → take n (take m xs ++ ys) ≡ take n xs
take-take-append zero m xs ys h l = refl
take-take-append (suc n) zero xs ys h l = absurd (omega (arith, h))
take-take-append (suc n) (suc m) [] ys h l = absurd (omega (arith, l))
take-take-append (suc n) (suc m) (x ∷ xs) ys h l =
    ap (λ t. x ∷ t) (take-take-append n m xs ys (omega (arith, h)) (omega (arith, l)))

get_or-take-append :
    (i m : ℕ) (xs ys : List ℕ)
    → i < m
    → m ≤ length xs
    → get_or (take m xs ++ ys) i 0 ≡ get_or xs i 0
get_or-take-append i zero xs ys h l = absurd (omega (arith, h))
get_or-take-append i (suc m) [] ys h l = absurd (omega (arith, l))
get_or-take-append zero (suc m) (x ∷ xs) ys h l = refl
get_or-take-append (suc i) (suc m) (x ∷ xs) ys h l =
    get_or-take-append i m xs ys (omega (arith, h)) (omega (arith, l))

get_or-drop_at : (s i : ℕ) (xs : List ℕ) → get_or (drop s xs) i 0 ≡ get_or xs (s + i) 0
get_or-drop_at zero i xs = let e : 0 + i ≡ i = omega arith in rw e refl
get_or-drop_at (suc s) i [] = refl
get_or-drop_at (suc s) i (x ∷ xs) =
    let e : suc s + i ≡ suc (s + i) = omega arith in rw e (get_or-drop_at s i xs)

cut_ok :
    (bytes : List ℕ) (from to : ℕ) (field : List ℕ)
    → cut bytes from to ≡ ok field
    → (from ≤ to) × (to ≤ length bytes) × (field ≡ slice bytes from to)
unfolding cut
cut_ok bytes from to field h =
    let (checked, e) = >>-ok h in
    let both = ensure_ok (leb from to && leb to (length bytes)) panicked checked in
    (ground (arith, both), ground (arith, both), sym (ok_injective e))

-- The prefix of a record that was read stands in the packet as it is.
whole_record_prefix :
    (bytes : List ℕ) (start tx p : ℕ) (bitmap : List ℕ) (i o : ℕ) (r : List ℕ) (end : ℕ)
    → whole_record bytes start tx p bitmap i o ≡ ok (r, end)
    → (tail : List ℕ) × (start + i * p + p ≤ length bytes)
      × (r ≡ take p (drop (start + i * p) bytes) ++ tail)
unfolding whole_record
whole_record_prefix bytes start tx p bitmap i o r end h =
    let (field, cutted, h1) = >>=-ok (cut bytes (start + i * p) (start + (i + 1) * p)) h in
    let (marked, bit, h1') = >>=-ok (marked_at bitmap i) h1 in
    let ((tail, next), read, h2) = >>=-ok (overflow_tail marked bytes o tx) h1' in
    let c = cut_ok bytes (start + i * p) (start + (i + 1) * p) field cutted in
    let up : i + 1 ≡ suc i = omega arith in
    let wide : (i + 1) * p ≡ i * p + p = ap (λ (n : ℕ). n * p) up ∙ suc-mul i p in
    let width : start + (i + 1) * p - (start + i * p) ≡ p = omega (arith, wide) in
    let same : field ++ tail ≡ r = ap (λ (x : List ℕ × ℕ). x.0) (ok_injective h2) in
    (
      tail,
      omega (arith, c.1, wide),
      sym same
          ∙ ap (λ l. l ++ tail) (c.2 ∙ ap (λ (n : ℕ). take n (drop (start + i * p) bytes)) width),
    )

-- One site, where the prefix of the record holds the hash and the flags.
site_at :
    (bytes : List ℕ) (at p : ℕ) (tail r : List ℕ)
    → 44 < p
    → at + p ≤ length bytes
    → r ≡ take p (drop at bytes) ++ tail
    → (cut bytes at (at + 32) ≡ ok (take 32 r)) × (get_or bytes (at + 44) 0 ≡ get_or r 44 0)
unfolding cut
site_at bytes at p tail r wide inside e =
    let room : p ≤ length (drop at bytes) = omega (arith, length-drop at bytes, inside) in
    let low : leb at (at + 32) ≡ true = ground arith in
    let high : leb (at + 32) (length bytes) ≡ true = ground (arith, inside, wide) in
    let width : at + 32 - at ≡ 32 = omega arith in
    (
      rw (low, high, width, e)
          (ap ok (sym (take-take-append 32 p (drop at bytes) tail (omega (arith, wide)) room))),
      sym (get_or-drop_at at 44 bytes)
          ∙ sym (get_or-take-append 44 p (drop at bytes) tail wide room)
          ∙ ap (λ l. get_or l 44 0) (sym e),
    )

sites_from_collected :
    (n i : ℕ) (bytes : List ℕ) (start tx p : ℕ) (bitmap : List ℕ) (o : ℕ) (records : List (List ℕ))
    (end : ℕ)
    → 44 < p
    → collect_from n i bytes start tx p bitmap o ≡ ok (records, end)
    → (sites : List FlagSite) × (flag_sites_from n i bytes start p ≡ ok sites)
      × AreSites bytes sites records
unfolding collect_from flag_sites_from
sites_from_collected zero i bytes start tx p bitmap o records end wide h =
    let none_left : [] ≡ records = ap (λ (x : List (List ℕ) × ℕ). x.0) (ok_injective h) in
    ([], refl, subst (λ (rs : List (List ℕ)). AreSites bytes [] rs) none_left tt)
sites_from_collected (suc n) i bytes start tx p bitmap o records end wide h =
    let ((r, next), read, h1) = >>=-ok (whole_record bytes start tx p bitmap i o) h in
    let ((rest, last), later, h2) =
      >>=-ok (collect_from n (suc i) bytes start tx p bitmap next) h1 in
    let (tail, inside, e) = whole_record_prefix bytes start tx p bitmap i o r next read in
    let here = site_at bytes (start + i * p) p tail r wide inside e in
    let (sites, found, fit) =
      sites_from_collected n (suc i) bytes start tx p bitmap next rest last wide later in
    let same : r ∷ rest ≡ records = ap (λ (x : List (List ℕ) × ℕ). x.0) (ok_injective h2) in
    let sites' : List FlagSite = record { offset = start + i * p + 44; hash = take 32 r } ∷ sites in
    (
      sites',
      rw (here.0, found) refl,
      subst (λ (rs : List (List ℕ)). AreSites bytes sites' rs) same (refl, here.1, fit),
    )

-- Wherever `collect_block_records` of verify.rs puts the records of a packet together, the loop of
-- `block_flag_sites` finds a site for each of them, in their order: the hash of the record, and the
-- place in the packet where its flags stand. The prefixes are longer than 44 bytes.
pub flag_sites_from-collect_block_records :
    (bytes : List ℕ) (start tx_segment_offset count prefix_size : ℕ) (bitmap : List ℕ)
    (records : List (List ℕ))
    → 44 < prefix_size
    → collect_block_records bytes start tx_segment_offset count prefix_size bitmap ≡ ok records
    → (sites : List FlagSite) × (flag_sites_from count 0 bytes start prefix_size ≡ ok sites)
      × AreSites bytes sites records
unfolding collect_block_records
flag_sites_from-collect_block_records bytes start tx count p bitmap records wide h =
    let ((rs, end), collected, h1) =
      >>=-ok (collect_from count 0 bytes start tx p bitmap (start + count * p)) h in
    let (checked, same) = >>-ok h1 in
    let (sites, found, fit) =
      sites_from_collected count 0 bytes start tx p bitmap (start + count * p) rs end wide
        collected in
    (sites, found, subst (λ (l : List (List ℕ)). AreSites bytes sites l) (ok_injective same) fit)
