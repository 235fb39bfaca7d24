-- ===== src/Cfxpack/Decode/Tables/RoundTrip.antt =====
-- The tables of crates/cfxpack/src/decode/mod.rs on the bytes that packet/encode.rs writes for them.
use cfx_minimal_execution.Common.{
  ℕ, zero, suc, ◌+◌, ◌-◌, ◌*◌, ◌/◌, ◌%◌, ◌^◌, ◌<◌, ◌≡◌, refl, sym, ap, ap₂, ◌∙◌, arith, true, false,
  List, [], ◌∷◌, ◌++◌, append-nil, append_assoc, map, length, replicate, slice, All, length-append,
  length-replicate, take-append_at, drop-append_at, take-all, ◌==◌, ok,
}
use native.Mathlib.Nat.{suc-mul}
use cfx_minimal_execution.Common.Bytes.{
  to_le_bytes, from_le_bytes, length-to_le_bytes, from_le_bytes-to_le_bytes,
}
use cfx_minimal_execution.Cfxpack.U256.{U256Bytes, IsU256}
use cfx_minimal_execution.Cfxpack.Packet.{PosLookupEntry}
use cfx_minimal_execution.Cfxpack.Packet.Assemble.{put_addresses, put_pos_entries, put_u256_table}
use cfx_minimal_execution.Cfxpack.Decode.Tables.{
  all_zero, trim_zero_padding, chunks, decode_addresses, pos_entry, decode_pos_entries,
  decode_u256_table,
}

-- The rows of a table, one behind the other.
abbrev flat : List (List ℕ) → List ℕ
flat [] = []
flat (r ∷ rows) = r ++ flat rows

abbrev Rows : ℕ → List (List ℕ) → Type 0
Rows w rows = All (λ r. length r ≡ w) rows

length-flat : (w : ℕ) (rows : List (List ℕ)) → Rows w rows → length (flat rows) ≡ length rows * w
length-flat w [] h = omega arith
length-flat w (r ∷ rows) (p, h) =
    length-append r (flat rows)
    ∙ ap₂ (λ a b. a + b) p (length-flat w rows h)
    ∙ omega (arith, suc-mul (length rows) w)

chunks-flat :
    (w : ℕ) (rows : List (List ℕ)) → Rows w rows → chunks (length rows) w (flat rows) ≡ rows
unfolding chunks
chunks-flat w [] h = refl
chunks-flat w (r ∷ rows) (p, h) =
    ap₂ (λ a b. a ∷ b) (take-append_at w r (flat rows) p)
      (ap (chunks (length rows) w) (drop-append_at w r (flat rows) p) ∙ chunks-flat w rows h)

put_addresses-flat :
    (out : List ℕ) (rows : List (List ℕ)) → put_addresses out rows ≡ out ++ flat rows
unfolding put_addresses
put_addresses-flat out [] = sym (append-nil out)
put_addresses-flat out (r ∷ rows) =
    put_addresses-flat (out ++ r) rows ∙ append_assoc out r (flat rows)

-- `decode_addresses` gets back the addresses, of 20 bytes each, that the packet's address table
-- was written from.
pub decode_addresses-put_addresses :
    (addresses : List (List ℕ))
    → All (λ a. length a ≡ 20) addresses
    → decode_addresses (put_addresses [] addresses) ≡ ok addresses
unfolding decode_addresses
decode_addresses-put_addresses addresses h =
    let size = length-flat 20 addresses h in
    let even : (length (flat addresses) % 20 == 0) ≡ true = ground (arith, size) in
    let count : length (flat addresses) / 20 ≡ length addresses = omega (arith, size) in
    rw (put_addresses-flat [] addresses, even, count) (ap ok (chunks-flat 20 addresses h))

-- A row of the PoS table.
abbrev pos_row : PosLookupEntry → List ℕ
pos_row e = e.hash ++ to_le_bytes 2 e.height_offset

abbrev FitsPosEntry : PosLookupEntry → Type 0
FitsPosEntry e = (length e.hash ≡ 32) × (e.height_offset < 2 ^ 16)

put_pos_entries-flat :
    (out : List ℕ) (entries : List PosLookupEntry)
    → put_pos_entries out entries ≡ out ++ flat (map pos_row entries)
unfolding put_pos_entries
put_pos_entries-flat out [] = sym (append-nil out)
put_pos_entries-flat out (e ∷ entries) =
    put_pos_entries-flat ((out ++ e.hash) ++ to_le_bytes 2 e.height_offset) entries
    ∙ ap (λ l. l ++ flat (map pos_row entries))
        (append_assoc out e.hash (to_le_bytes 2 e.height_offset))
    ∙ append_assoc out (pos_row e) (flat (map pos_row entries))

pos_row-Rows :
    (entries : List PosLookupEntry) → All FitsPosEntry entries → Rows 34 (map pos_row entries)
pos_row-Rows [] h = tt
pos_row-Rows (e ∷ entries) ((long, small), h) = (
  length-append e.hash (to_le_bytes 2 e.height_offset)
      ∙ ap₂ (λ a b. a + b) long (length-to_le_bytes 2 e.height_offset),
  pos_row-Rows entries h,
)

pos_entry-pos_row : (e : PosLookupEntry) → FitsPosEntry e → pos_entry (pos_row e) ≡ e
pos_entry-pos_row e (long, small) =
    let low = to_le_bytes 2 e.height_offset in
    let offset : from_le_bytes (slice (pos_row e) 32 34) ≡ e.height_offset =
      rw (drop-append_at 32 e.hash low long, take-all 2 low (length-to_le_bytes 2 e.height_offset))
        (from_le_bytes-to_le_bytes 2 e.height_offset (omega (arith, small))) in
    ap₂ (λ a b. record { hash = a; height_offset = b }) (take-append_at 32 e.hash low long) offset

pos_entries-back :
    (entries : List PosLookupEntry)
    → All FitsPosEntry entries
    → map pos_entry (map pos_row entries) ≡ entries
pos_entries-back [] h = refl
pos_entries-back (e ∷ entries) (p, h) =
    ap₂ (λ a b. a ∷ b) (pos_entry-pos_row e p) (pos_entries-back entries h)

length-map : {A B : Type 0} (f : A → B) (xs : List A) → length (map f xs) ≡ length xs
length-map f [] = refl
length-map f (x ∷ xs) = ap suc (length-map f xs)

-- `decode_pos_entries` gets back the PoS entries, with hashes of 32 bytes and u16 offsets, that the
-- packet's PoS table was written from.
pub decode_pos_entries-put_pos_entries :
    (entries : List PosLookupEntry)
    → All FitsPosEntry entries
    → decode_pos_entries (put_pos_entries [] entries) ≡ ok entries
unfolding decode_pos_entries
decode_pos_entries-put_pos_entries entries h =
    let rows = map pos_row entries in
    let fits = pos_row-Rows entries h in
    let size = length-flat 34 rows fits in
    let even : (length (flat rows) % 34 == 0) ≡ true = ground (arith, size) in
    let count : length (flat rows) / 34 ≡ length rows = omega (arith, size) in
    rw (put_pos_entries-flat [] entries, even, count, chunks-flat 34 rows fits)
      (ap ok (pos_entries-back entries h))

all_zero-replicate : (n : ℕ) → all_zero (replicate n 0) ≡ true
unfolding all_zero
all_zero-replicate zero = refl
all_zero-replicate (suc n) = all_zero-replicate n

-- Padding that is shorter than the alignment is cut off again.
trim_zero_padding-padded :
    (bytes : List ℕ) (n k : ℕ)
    → length bytes ≡ n * 32
    → k < 32
    → trim_zero_padding (bytes ++ replicate k 0) 32 ≡ ok bytes
unfolding trim_zero_padding
trim_zero_padding-padded bytes n zero size small =
    let e : (n * 32 % 32 == 0) ≡ true = ground arith in rw (append-nil bytes, size, e) refl
trim_zero_padding-padded bytes n (suc k) size small =
    let padded = bytes ++ replicate (suc k) 0 in
    let long = length-append bytes (replicate (suc k) 0) in
    let pad = length-replicate {A = ℕ} (suc k) 0 in
    let some_pad : (length padded % 32 == 0) ≡ false = ground (arith, long, pad, size) in
    let split : length padded - length padded % 32 ≡ n * 32 = omega (arith, long, pad, size) in
    rw
      (
        some_pad,
        split,
        drop-append_at (n * 32) bytes (replicate (suc k) 0) size,
        take-append_at (n * 32) bytes (replicate (suc k) 0) size,
        all_zero-replicate (suc k),
      )
      refl

module _ (u256 : U256Bytes) where
  put_u256_table-flat :
      (out : List ℕ) (values : List ℕ)
      → put_u256_table u256 out values ≡ out ++ flat (map u256.to_big_endian values)
  unfolding put_u256_table
  put_u256_table-flat out [] = sym (append-nil out)
  put_u256_table-flat out (v ∷ values) =
      put_u256_table-flat (out ++ u256.to_big_endian v) values
      ∙ append_assoc out (u256.to_big_endian v) (flat (map u256.to_big_endian values))

  u256-Rows : (values : List ℕ) → All IsU256 values → Rows 32 (map u256.to_big_endian values)
  u256-Rows [] h = tt
  u256-Rows (v ∷ values) (p, h) = (u256.to-length v p, u256-Rows values h)

  from_big_endian-to_big_endian :
      (v : ℕ) → IsU256 v → u256.from_big_endian (u256.to_big_endian v) ≡ v
  from_big_endian-to_big_endian v h =
      u256.from-value (u256.to_big_endian v) (u256.to-IsBytes v) (omega (arith, u256.to-length v h))
      ∙ u256.to-value v h

  u256_back :
      (values : List ℕ)
      → All IsU256 values
      → map u256.from_big_endian (map u256.to_big_endian values) ≡ values
  u256_back [] h = refl
  u256_back (v ∷ values) (p, h) =
      ap₂ (λ a b. a ∷ b) (from_big_endian-to_big_endian v p) (u256_back values h)

  -- `decode_u256_table` gets back the U256 values that a table was written from, also where fewer
  -- than 32 bytes of zero padding follow the table.
  pub decode_u256_table-put_u256_table :
      (values : List ℕ) (padding : ℕ)
      → All IsU256 values
      → padding < 32
      → decode_u256_table u256 (put_u256_table u256 [] values ++ replicate padding 0) ≡ ok values
  unfolding decode_u256_table
  decode_u256_table-put_u256_table values padding h small =
      let rows = map u256.to_big_endian values in
      let fits = u256-Rows values h in
      let size = length-flat 32 rows fits in
      let even : (length (flat rows) % 32 == 0) ≡ true = ground (arith, size) in
      let count : length (flat rows) / 32 ≡ length rows = omega (arith, size) in
      rw
        (
          put_u256_table-flat [] values,
          trim_zero_padding-padded (flat rows) (length rows) padding size small,
          even,
          count,
          chunks-flat 32 rows fits,
        )
        (ap ok (u256_back values h))
