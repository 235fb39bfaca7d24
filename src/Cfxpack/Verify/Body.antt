-- ===== src/Cfxpack/Verify/Body.antt =====
-- The block body: what `pack_block_body` of packet/encode.rs lays out, `collect_block_records` of
-- verify.rs puts together again.
use cfx_minimal_execution.Common.{
  ℕ, zero, suc, ◌+◌, ◌*◌, ◌/◌, ◌%◌, ◌^◌, ◌<◌, ◌≤◌, ◌≡◌, refl, sym, ap, ap₂, subst, ◌∙◌, arith, true,
  false, List, [], ◌∷◌, ◌++◌, append_assoc, map, length, get_or, drop, replicate, length-append,
  length-replicate, ltb, ltb→lt, leb, inl, inr, Bool-cases, ok,
}
use native.Mathlib.Nat.{suc-mul}
use cfx_minimal_execution.Common.Bits.{zero-bit_and}
use cfx_minimal_execution.Common.Extends.{Extends, Extends-append, Extends-trans}
use cfx_minimal_execution.Cfxpack.Codec.{put_uleb128}
use cfx_minimal_execution.Cfxpack.Packet.Layout.{Body, pack_record, pack_records, pack_block_body}
use cfx_minimal_execution.Cfxpack.Decode.{cut}
use cfx_minimal_execution.Cfxpack.Decode.Tables.{is_marked, marked_at, overflow_tail, whole_record}
use cfx_minimal_execution.Cfxpack.Verify.{collect_from, collect_block_records}
use cfx_minimal_execution.Cfxpack.Verify.Overflow.{cut_back, tail_back}
use cfx_minimal_execution.Cfxpack.Verify.Packing.{
  pad, prefix_of, length-prefix_of, prefix_of-short, prefix_of-long, pack_record-prefixes,
  length-bitmap, other_marks, own_mark, pack_records-Packed, long_overflow, short_overflow,
}

marked_at-ok :
    (bitmap : List ℕ) (i : ℕ) → i < 8 * length bitmap → marked_at bitmap i ≡ ok (is_marked bitmap i)
unfolding marked_at
marked_at-ok bitmap i h =
    let inside : ltb (i / 8) (length bitmap) ≡ true = ground (arith, h) in rw inside refl

-- The reader of one record: its prefix stands behind `front` and its overflow behind `back`.
whole_record_back :
    (p i : ℕ) (r : List ℕ) (body : Body) (front back bytes bitmap : List ℕ) (start base tx : ℕ)
    → length front ≡ start
    → length back ≡ base
    → length body.prefixes ≡ i * p
    → marked_at bitmap i ≡ ok (ltb p (length r))
    → Extends (front ++ (pack_record p i r body).prefixes) bytes
    → Extends (back ++ (pack_record p i r body).overflow) bytes
    → base + length (pack_record p i r body).overflow ≤ tx
    → tx ≤ length bytes
    → length bytes < 2 ^ 64
    → whole_record bytes start tx p bitmap i (base + length body.overflow)
      ≡ ok (pad p r, base + length (pack_record p i r body).overflow)
unfolding whole_record
whole_record_back p i r body front back bytes bitmap start base tx e f at mark xp xo inside in_bytes
      small =
    let pre = pack_record-prefixes p i r body in
    let xp' : Extends ((front ++ body.prefixes) ++ prefix_of p r) bytes =
      subst (λ l. Extends l bytes)
        (ap (λ l. front ++ l) pre ∙ sym (append_assoc front body.prefixes (prefix_of p r))) xp in
    let up : i + 1 ≡ suc i = omega arith in
    let next : (i + 1) * p ≡ i * p + p = ap (λ (n : ℕ). n * p) up ∙ suc-mul i p in
    let prefix : cut bytes (start + i * p) (start + (i + 1) * p) ≡ ok (prefix_of p r) =
      cut_back (front ++ body.prefixes) (prefix_of p r) bytes (start + i * p) (start + (i + 1) * p)
        (length-append front body.prefixes ∙ ap₂ (λ a b. a + b) e at)
        (omega (arith, next, length-prefix_of p r)) xp' in
    elim (Bool-cases (ltb p (length r))) [
      | inl long ↦
          let o = long_overflow p i r body long in
          let rest = drop p r in
          let tail : overflow_tail true bytes (base + length body.overflow) tx
              ≡ ok (rest, base + length (put_uleb128 body.overflow (length rest) ++ rest)) =
            tail_back back body.overflow rest bytes base tx f
              (subst (λ l. Extends (back ++ l) bytes) o xo)
              (subst (λ (l : List ℕ). base + length l ≤ tx) o inside) in_bytes small in
          rw
            (
              prefix,
              mark,
              long,
              tail,
              prefix_of-long p r (omega (arith, ltb→lt p (length r) long)),
              o,
            )
            refl
      | inr short ↦
          let fits : length r ≤ p = ground (arith, short) in
          rw (prefix, mark, short, prefix_of-short p r fits, short_overflow p i r body short) refl
    ]

Extends-front : (front xs ys : List ℕ) → Extends xs ys → Extends (front ++ xs) (front ++ ys)
Extends-front front xs ys x = record {
  rest = x.rest;
  whole = ap (λ l. front ++ l) x.whole ∙ sym (append_assoc front xs x.rest);
}

collect_from_back :
    (p i : ℕ) (rs : List (List ℕ)) (body : Body) (front back bytes bitmap : List ℕ)
    (start base tx : ℕ)
    → length front ≡ start
    → length back ≡ base
    → length body.prefixes ≡ i * p
    → i + length rs ≤ 8 * length body.bitmap
    → ((j : ℕ) → i ≤ j → is_marked body.bitmap j ≡ false)
    → bitmap ≡ (pack_records p i rs body).bitmap
    → Extends (front ++ (pack_records p i rs body).prefixes) bytes
    → Extends (back ++ (pack_records p i rs body).overflow) bytes
    → base + length (pack_records p i rs body).overflow ≤ tx
    → tx ≤ length bytes
    → length bytes < 2 ^ 64
    → collect_from (length rs) i bytes start tx p bitmap (base + length body.overflow)
      ≡ ok (map (pad p) rs, base + length (pack_records p i rs body).overflow)
unfolding collect_from pack_records
collect_from_back p i [] body front back bytes bitmap start base tx e f at room fresh same xp xo
      inside in_bytes small =
    refl
collect_from_back p i (r ∷ rs) body front back bytes bitmap start base tx e f at room fresh same xp
      xo inside in_bytes small =
    let next = pack_record p i r body in
    let last = pack_records p (suc i) rs next in
    let room' : suc i + length rs ≤ 8 * length next.bitmap =
      omega (arith, room, length-bitmap p i r body) in
    let k = pack_records-Packed p (suc i) rs next room' in
    let room_here : i < 8 * length bitmap =
      omega (arith, room, ap length same, k.bitmap_length, length-bitmap p i r body) in
    let mark : marked_at bitmap i ≡ ok (ltb p (length r)) =
      marked_at-ok bitmap i room_here
      ∙ ap ok (
          ap (λ l. is_marked l i) same
          ∙ k.marks i (omega arith)
          ∙ own_mark p i r body (omega (arith, room)) (fresh i (omega arith))) in
    let xp1 =
      Extends-trans (front ++ next.prefixes) (front ++ last.prefixes) bytes
        (Extends-front front next.prefixes last.prefixes k.prefixes) xp in
    let xo1 =
      Extends-trans (back ++ next.overflow) (back ++ last.overflow) bytes
        (Extends-front back next.overflow last.overflow k.overflow) xo in
    let grown : length last.overflow ≡ length next.overflow + length k.overflow.rest =
      ap length k.overflow.whole ∙ length-append next.overflow k.overflow.rest in
    let at1 : length next.prefixes ≡ suc i * p =
      ap length (pack_record-prefixes p i r body)
      ∙ length-append body.prefixes (prefix_of p r)
      ∙ omega (arith, at, length-prefix_of p r, suc-mul i p) in
    let fresh1 : (j : ℕ) → suc i ≤ j → is_marked next.bitmap j ≡ false = λ j l.
      other_marks p i j r body (omega (arith, room)) (λ m. absurd (omega (arith, l, m)))
      ∙ fresh j (omega (arith, l)) in
    rw
      (
        whole_record_back p i r body front back bytes bitmap start base tx e f at mark xp1 xo1
            (omega (arith, grown, inside)) in_bytes small,
        collect_from_back p (suc i) rs next front back bytes bitmap start base tx e f at1 room'
            fresh1 same xp xo inside in_bytes small,
      )
      refl

get_or-zeros : (n j : ℕ) → get_or {A = ℕ} (replicate n 0) j 0 ≡ 0
get_or-zeros zero j = refl
get_or-zeros (suc n) zero = refl
get_or-zeros (suc n) (suc j) = get_or-zeros n j

unmarked : (n j : ℕ) → is_marked (replicate n 0) j ≡ false
unmarked n j = rw (get_or-zeros n (j / 8), zero-bit_and (2 ^ (j % 8))) refl

-- The records that `pack_block_body` lays out, `collect_block_records` puts together again from the
-- packet that holds the body at `block_body_offset`: each record with the zeros that filled up its
-- prefix behind it. The transaction segment starts behind the body, inside a packet that is shorter
-- than 2^64 bytes.
pub collect_block_records-pack_block_body :
    (records : List (List ℕ)) (prefix_size : ℕ) (front rest : List ℕ) (tx_segment_offset : ℕ)
    → length (front ++ (pack_block_body records prefix_size).0) ≤ tx_segment_offset
    → tx_segment_offset ≤ length ((front ++ (pack_block_body records prefix_size).0) ++ rest)
    → length ((front ++ (pack_block_body records prefix_size).0) ++ rest) < 2 ^ 64
    → collect_block_records
        ((front ++ (pack_block_body records prefix_size).0) ++ rest)
        (length front)
        tx_segment_offset
        (length records)
        prefix_size
        (pack_block_body records prefix_size).1
      ≡ ok (map (pad prefix_size) records)
unfolding collect_block_records pack_block_body
collect_block_records-pack_block_body records p front rest tx inside in_bytes small =
    let count = length records in
    let start : Body = record {
      bitmap = replicate ((count + 7) / 8) 0;
      prefixes = [];
      overflow = [];
    } in
    let body = pack_records p 0 records start in
    let bytes = (front ++ (body.prefixes ++ body.overflow)) ++ rest in
    let room : 0 + count ≤ 8 * length start.bitmap =
      omega (arith, length-replicate {A = ℕ} ((count + 7) / 8) 0) in
    let k = pack_records-Packed p 0 records start room in
    let size = length-append front (body.prefixes ++ body.overflow) in
    let size2 = length-append body.prefixes body.overflow in
    let back = front ++ body.prefixes in
    let back_size : length back ≡ length front + count * p =
      length-append front body.prefixes ∙ omega (arith, k.prefixes_length) in
    let whole : bytes ≡ (back ++ body.overflow) ++ rest =
      ap (λ l. l ++ rest) (sym (append_assoc front body.prefixes body.overflow)) in
    let xo : Extends (back ++ body.overflow) bytes = record { rest = rest; whole = whole } in
    let xp : Extends back bytes =
      Extends-trans back (back ++ body.overflow) bytes (Extends-append back body.overflow) xo in
    let end : length front + count * p + length body.overflow ≤ tx =
      omega (arith, inside, size, size2, k.prefixes_length) in
    let here : length front + count * p + 0 ≡ length front + count * p = omega arith in
    let all : collect_from count 0 bytes (length front) tx p body.bitmap (length front + count * p)
        ≡ ok (map (pad p) records, length front + count * p + length body.overflow) =
      subst
        (λ (n : ℕ).
          collect_from count 0 bytes (length front) tx p body.bitmap n
          ≡ ok (map (pad p) records, length front + count * p + length body.overflow))
        here
        (collect_from_back p 0 records start front back bytes body.bitmap (length front)
          (length front + count * p) tx refl back_size (omega arith) room
          (λ j l. unmarked ((count + 7) / 8) j) refl xp xo end in_bytes small) in
    let fits : leb (length front + count * p + length body.overflow) tx ≡ true =
      ground (arith, end) in
    rw (all, fits) refl
