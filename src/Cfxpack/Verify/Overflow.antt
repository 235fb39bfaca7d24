-- ===== src/Cfxpack/Verify/Overflow.antt =====
-- The overflow of a record: what packet/encode.rs appends, decode/mod.rs and verify.rs read back.
use cfx_minimal_execution.Common.{
  ℕ, ◌+◌, ◌-◌, ◌%◌, ◌^◌, ◌<◌, ◌≤◌, ◌≡◌, refl, sym, ap, ap₂, subst, ◌∙◌, arith, true, List, ◌++◌,
  append_assoc, length, length-append, take-append_at, drop-append_at, leb, ok,
}
use cfx_minimal_execution.Common.Extends.{Extends, Extends-append, Extends-trans}
use cfx_minimal_execution.Cfxpack.Codec.{put_uleb128, read_uleb128}
use cfx_minimal_execution.Cfxpack.Codec.Reads.{put_uleb128-back, put_uleb128-append}
use cfx_minimal_execution.Cfxpack.Decode.{cut}
use cfx_minimal_execution.Cfxpack.Decode.Tables.{overflow_tail}

-- A slice that stands behind a known front.
pub cut_back :
    (front field bytes : List ℕ) (from to : ℕ)
    → length front ≡ from
    → to ≡ from + length field
    → Extends (front ++ field) bytes
    → cut bytes from to ≡ ok field
unfolding cut
cut_back front field bytes from to e f x =
    let whole : bytes ≡ front ++ (field ++ x.rest) = x.whole ∙ append_assoc front field x.rest in
    let size : length bytes ≡ from + (length field + length x.rest) =
      ap length whole
      ∙ length-append front (field ++ x.rest)
      ∙ ap₂ (λ a b. a + b) e (length-append field x.rest) in
    let low : leb from to ≡ true = ground (arith, f) in
    let high : leb to (length bytes) ≡ true = ground (arith, f, size) in
    let width : to - from ≡ length field = omega (arith, f) in
    rw (low, high)
      (ap ok (
        rw (whole, drop-append_at from front (field ++ x.rest) e, width)
          (take-append_at (length field) field x.rest refl)))

-- The overflow of one record is read back behind what was written before it.
pub tail_back :
    (front o rest bytes : List ℕ) (base tx : ℕ)
    → length front ≡ base
    → Extends (front ++ (put_uleb128 o (length rest) ++ rest)) bytes
    → base + length (put_uleb128 o (length rest) ++ rest) ≤ tx
    → tx ≤ length bytes
    → length bytes < 2 ^ 64
    → overflow_tail true bytes (base + length o) tx
      ≡ ok (rest, base + length (put_uleb128 o (length rest) ++ rest))
unfolding overflow_tail
tail_back front o rest bytes base tx e x inside in_bytes small =
    let v = length rest in
    let coded = put_uleb128 o v in
    let size = length-append coded rest in
    let reassoc : (front ++ coded) ++ rest ≡ front ++ (coded ++ rest) =
      append_assoc front coded rest in
    let x2 : Extends ((front ++ coded) ++ rest) bytes =
      subst (λ l. Extends l bytes) (sym reassoc) x in
    let x1 : Extends (put_uleb128 (front ++ o) v) bytes =
      subst (λ l. Extends l bytes) (sym (put_uleb128-append front o v))
        (Extends-trans (front ++ coded) ((front ++ coded) ++ rest) bytes
          (Extends-append (front ++ coded) rest) x2) in
    let at : length (front ++ o) ≡ base + length o =
      length-append front o ∙ ap (λ (n : ℕ). n + length o) e in
    let next : length (put_uleb128 (front ++ o) v) ≡ base + length coded =
      ap length (put_uleb128-append front o v)
      ∙ length-append front coded
      ∙ ap (λ (n : ℕ). n + length coded) e in
    let read : read_uleb128 bytes (base + length o) ≡ ok (v, base + length coded) =
      ap (read_uleb128 bytes) (sym at)
      ∙ put_uleb128-back (front ++ o) v bytes (omega (arith, size, inside, in_bytes, small)) x1
      ∙ ap (λ (n : ℕ). ok (v, n)) next in
    let end : (base + length coded + v) % 2 ^ 64 ≡ base + length (coded ++ rest) =
      omega (arith, size, inside, in_bytes, small) in
    let fits : leb (base + length (coded ++ rest)) tx ≡ true = ground (arith, inside) in
    let tail : cut bytes (base + length coded) (base + length (coded ++ rest)) ≡ ok rest =
      cut_back (front ++ coded) rest bytes (base + length coded) (base + length (coded ++ rest))
        (length-append front coded ∙ ap (λ (n : ℕ). n + length coded) e) (omega (arith, size)) x2 in
    rw (read, end, fits, tail) refl
