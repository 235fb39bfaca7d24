-- ===== src/Cfxpack/Codec/Uleb.antt =====
-- `put_uleb128`, `read_uleb128` and `uleb128_len` of codec.rs.
use cfx_minimal_execution.Common.{
  ℕ, zero, suc, ◌+◌, ◌-◌, ◌*◌, ◌/◌, ◌%◌, ◌^◌, ◌≤◌, ◌<◌, ◌≡◌, refl, sym, ap, ap₂, ◌∙◌, arith,
  bit_and, bit_or, List, [], ◌∷◌, ◌++◌, append_assoc, length, length-append, drop, length-drop,
  drop-append_length, ok,
}
use cfx_minimal_execution.Common.Extends.{Extends}
use cfx_minimal_execution.Common.Bytes.{IsU64}
use cfx_minimal_execution.Common.Bits.{
  bit_and_7f, bit_and_80, bit_or_80, bit_or_disjoint, bit_or-lt,
}
use cfx_minimal_execution.Common.Loops.{lt_wf}
use cfx_minimal_execution.Cfxpack.Codec.{
  shift_shrinks, high_shrinks, put_uleb128_loop, put_uleb128, read_uleb128_loop, read_uleb128,
  uleb128_len_loop, uleb128_len,
}
use mathlib.Core.WellFounded.{Acc}
use native.Mathlib.Nat.{pow-suc, pow-le-pow_right, mul-le-mul_right}
use native.Mathlib.Numerals.{towards_suc}
use native.Mathlib.Decide.{dec_lt}

low_seven : (v : ℕ) → bit_and v 0x7f % 256 ≡ v % 128
low_seven v = omega (arith, bit_and_7f v)

-- One round of the writer, on either side of its test.
put_last :
    (out : List ℕ) (v : ℕ) (w : Acc ◌<◌ v) → v < 128 → put_uleb128_loop out v w ≡ out ++ (v ∷ [])
unfolding put_uleb128_loop
put_last out v (Acc.intro _ smaller) h = ground (arith, low_seven v)

put_more :
    (out : List ℕ) (v : ℕ) (w : Acc ◌<◌ v)
    → 128 ≤ v
    → (w' : Acc ◌<◌ (v / 128)) × (put_uleb128_loop out v w
        ≡ put_uleb128_loop (out ++ ((v % 128 + 128) ∷ [])) (v / 128) w')
unfolding put_uleb128_loop
put_more out v (Acc.intro _ smaller) h = by_test (dec_lt 0 (v / 2 ^ 7)) refl
  where
    byte : bit_or (bit_and v 0x7f % 256) 0x80 ≡ v % 128 + 128
    byte = rw low_seven (bit_or_80 (v % 128) (omega arith))

    by_test :
        (d : Dec (0 < v / 2 ^ 7))
        → dec_lt 0 (v / 2 ^ 7) ≡ d
        → (w' : Acc ◌<◌ (v / 128)) × (put_uleb128_loop out v (Acc.intro v smaller)
            ≡ put_uleb128_loop (out ++ ((v % 128 + 128) ∷ [])) (v / 128) w')
    by_test (yes more) e = (smaller _ (shift_shrinks v more), rw (e, byte))
    by_test (no stop) e = absurd (stop (omega arith))

len_last : (v : ℕ) (w : Acc ◌<◌ v) (len : ℕ) → v < 128 → uleb128_len_loop v w len ≡ len
unfolding uleb128_len_loop
len_last v (Acc.intro _ smaller) len h = ground arith

len_more :
    (v : ℕ) (w : Acc ◌<◌ v) (len : ℕ)
    → 128 ≤ v
    → (w' : Acc ◌<◌ (v / 128)) × (uleb128_len_loop v w len
        ≡ uleb128_len_loop (v / 128) w' (len + 1))
unfolding uleb128_len_loop
len_more v (Acc.intro _ smaller) len h = by_test (dec_lt 0x7f v) refl
  where
    by_test :
        (d : Dec (0x7f < v))
        → dec_lt 0x7f v ≡ d
        → (w' : Acc ◌<◌ (v / 128)) × (uleb128_len_loop v (Acc.intro v smaller) len
            ≡ uleb128_len_loop (v / 128) w' (len + 1))
    by_test (yes more) e = (smaller _ (high_shrinks v more), rw e)
    by_test (no stop) e = absurd (stop h)

-- The new bits land above the bits that are there.
gather :
    (s v acc byte : ℕ)
    → acc < 2 ^ s
    → acc + v * 2 ^ s < 2 ^ 64
    → byte % 128 ≡ v
    → bit_or acc (bit_and byte 0x7f * 2 ^ s % 2 ^ 64) ≡ acc + v * 2 ^ s
gather s v acc byte fresh fits e =
    let kept : v * 2 ^ s % 2 ^ 64 ≡ v * 2 ^ s = omega arith in
    rw (bit_and_7f byte, e, kept) (bit_or_disjoint s acc v fresh)

-- One round of the reader, on a last byte and on a byte with the top bit set.
module _ (s v acc offset : ℕ) (rest : List ℕ) (fresh : acc < 2 ^ s) where
  read_last :
      v < 128
      → acc + v * 2 ^ s < 2 ^ 64
      → read_uleb128_loop (v ∷ rest) offset s acc ≡ ok (acc + v * 2 ^ s, offset + 1)
  unfolding read_uleb128_loop
  read_last h fits = rw (gather s v acc v fresh fits (omega arith)) (ground (arith, bit_and_80 v))

  read_more :
      v < 128
      → s + 7 < 64
      → acc + v * 2 ^ s < 2 ^ 64
      → read_uleb128_loop ((v + 128) ∷ rest) offset s acc
        ≡ read_uleb128_loop rest (offset + 1) (s + 7) (acc + v * 2 ^ s)
  unfolding read_uleb128_loop
  read_more h room fits =
      rw (gather s v acc (v + 128) fresh fits (omega arith)) (ground (arith, bit_and_80 (v + 128)))

shift_seven : (s : ℕ) → 2 ^ (s + 7) ≡ 128 * 2 ^ s
shift_seven s = simp towards_suc (omega (arith, pow-suc 2 s))

-- Where at least eight bits are left to read, the shift has room for seven more.
room_for_more : (r v : ℕ) → v < 2 ^ r → 128 ≤ v → 7 < r
room_for_more r v h more = elim (dec_lt 7 r) [
  | yes lt ↦ lt
  | no ge ↦
      absurd (omega (arith, pow-le-pow_right {n = 2} (omega arith) {i = r} {j = 7} (omega arith)))
]

split_group : (v s : ℕ) → v * 2 ^ s ≡ v % 128 * 2 ^ s + v / 128 * 2 ^ (s + 7)
split_group v s =
    let parts : v ≡ v % 128 + 128 * (v / 128) = omega arith in
    omega (arith, ap (λ (t : ℕ). t * 2 ^ s) parts, ap (λ (t : ℕ). v / 128 * t) (shift_seven s))

group_fits : (v s acc : ℕ) → acc < 2 ^ s → acc + v % 128 * 2 ^ s < 2 ^ (s + 7)
group_fits v s acc fresh =
    let carry : (v % 128 + 1) * 2 ^ s ≤ 128 * 2 ^ s = mul-le-mul_right (2 ^ s) (omega arith) in
    omega (arith, shift_seven s, carry)

high_group : (v r : ℕ) → 7 < r → v < 2 ^ r → v / 128 < 2 ^ (r - 7)
high_group v r h hv =
    let split : 2 ^ r ≡ 128 * 2 ^ (r - 7) =
      ap (λ (t : ℕ). 2 ^ t) (omega arith) ∙ shift_seven (r - 7) in
    omega (arith, split)

-- `tail` is what the writer appends, as long as `uleb128_len` says, and the reader reads it back.
record Agrees (out rest : List ℕ) (v : ℕ) (w x : Acc ◌<◌ v) (len s acc offset : ℕ) : Type 0 where
  tail : List ℕ
  written : put_uleb128_loop out v w ≡ out ++ tail
  counted : uleb128_len_loop v x len + 1 ≡ len + length tail
  reads : read_uleb128_loop (tail ++ rest) offset s acc ≡ ok (acc + v * 2 ^ s, offset + length tail)

agree_last :
    (s v acc offset : ℕ) (out rest : List ℕ) (w x : Acc ◌<◌ v) (len : ℕ)
    → v < 128
    → acc < 2 ^ s
    → acc + v * 2 ^ s < 2 ^ 64
    → Agrees out rest v w x len s acc offset
agree_last s v acc offset out rest w x len small fresh fits = record {
  tail = v ∷ [];
  written = put_last out v w small;
  counted = rw (len_last v x len small);
  reads = read_last s v acc offset rest fresh small fits;
}

agree_more :
    (s v acc offset : ℕ) (out rest : List ℕ) (w x : Acc ◌<◌ v) (len : ℕ) (w' x' : Acc ◌<◌ (v / 128))
    → put_uleb128_loop out v w ≡ put_uleb128_loop (out ++ ((v % 128 + 128) ∷ [])) (v / 128) w'
    → uleb128_len_loop v x len ≡ uleb128_len_loop (v / 128) x' (len + 1)
    → s + 7 < 64
    → acc < 2 ^ s
    → acc + v * 2 ^ s < 2 ^ 64
    → Agrees
        (out ++ ((v % 128 + 128) ∷ []))
        rest
        (v / 128)
        w'
        x'
        (len + 1)
        (s + 7)
        (acc + v % 128 * 2 ^ s)
        (offset + 1)
    → Agrees out rest v w x len s acc offset
agree_more s v acc offset out rest w x len w' x' ew ex room fresh fits a = record {
  tail = (v % 128 + 128) ∷ a.tail;
  written = ew ∙ a.written ∙ append_assoc out _ a.tail;
  counted = omega (arith, ex, a.counted);
  reads =
      read_more s (v % 128) acc offset (a.tail ++ rest) fresh (omega arith) room
        (omega (arith, split_group v s))
      ∙ a.reads
      ∙ ap₂ (λ u o. ok (u, o)) (omega (arith, split_group v s)) (omega arith);
}

-- `r` bits are left below bit 64, and `k` bounds the rounds.
agree :
    (k r s v acc offset : ℕ) (out rest : List ℕ) (w x : Acc ◌<◌ v) (len : ℕ)
    → r ≤ 7 * k
    → s + r ≡ 64
    → v < 2 ^ r
    → acc < 2 ^ s
    → acc + v * 2 ^ s < 2 ^ 64
    → Agrees out rest v w x len s acc offset
agree zero r s v acc offset out rest w x len hr hs hv fresh fits =
    agree_last s v acc offset out rest w x len
      (omega (arith, ap (λ (t : ℕ). 2 ^ t) (let e : r ≡ 0 = omega arith in e))) fresh fits
agree (suc k) r s v acc offset out rest w x len hr hs hv fresh fits = elim (dec_lt v 128) [
  | yes small ↦ agree_last s v acc offset out rest w x len small fresh fits
  | no large ↦
      let big : 128 ≤ v = omega arith in
      let room : 7 < r = room_for_more r v hv big in
      let (w', ew) = put_more out v w big in
      let (x', ex) = len_more v x len big in
      agree_more s v acc offset out rest w x len w' x' ew ex (omega arith) fresh fits (
        agree k (r - 7) (s + 7) (v / 128) (acc + v % 128 * 2 ^ s) (offset + 1)
          (out ++ ((v % 128 + 128) ∷ [])) rest w' x' (len + 1) (omega arith) (omega arith)
          (high_group v r room hv) (group_fits v s acc fresh) (omega (arith, split_group v s)))
]

agree_whole :
    (v : ℕ) (out rest : List ℕ)
    → IsU64 v
    → Agrees out rest v (lt_wf.apply v) (lt_wf.apply v) 1 0 0 (length out)
agree_whole v out rest h =
    agree 10 64 0 v 0 (length out) out rest _ _ 1 (omega arith) refl h (omega arith) (omega arith)

-- `read_uleb128` at the place where `put_uleb128` wrote a u64 returns that number and the end of
-- what was written, whatever stands before and behind it.
pub read_uleb128-put_uleb128 :
    (out rest : List ℕ) (v : ℕ)
    → IsU64 v
    → read_uleb128 (put_uleb128 out v ++ rest) (length out) ≡ ok (v, length (put_uleb128 out v))
unfolding read_uleb128 put_uleb128
read_uleb128-put_uleb128 out rest v h =
    let a = agree_whole v out rest h in
    rw (a.written, append_assoc out a.tail rest, drop-append_length out (a.tail ++ rest))
      (a.reads ∙ ap₂ (λ u o. ok (u, o)) (omega arith) (sym (length-append out a.tail)))

pub put_uleb128-Extends : (out : List ℕ) (v : ℕ) → IsU64 v → Extends out (put_uleb128 out v)
unfolding put_uleb128
put_uleb128-Extends out v h =
    let a = agree_whole v out [] h in record { rest = a.tail; whole = a.written }

-- `uleb128_len` is the number of bytes that `put_uleb128` appends for a u64.
pub length-put_uleb128 :
    (out : List ℕ) (v : ℕ) → IsU64 v → length (put_uleb128 out v) ≡ length out + uleb128_len v
unfolding put_uleb128 uleb128_len
length-put_uleb128 out v h =
    let a = agree_whole v out [] h in
    rw (a.written, length-append out a.tail) (omega (arith, a.counted))

-- The reader's loop after `j` bytes: the shift is 7 * j, and it never passes 63.
read_loop_bounds :
    (bytes : List ℕ) (offset s acc j v o : ℕ)
    → s ≡ 7 * j
    → j ≤ 9
    → IsU64 acc
    → read_uleb128_loop bytes offset s acc ≡ ok (v, o)
    → IsU64 v × (offset < o) × (o + j ≤ offset + 10) × (o ≤ offset + length bytes)
unfolding read_uleb128_loop
read_loop_bounds [] offset s acc j v o hs hj ha e = cc
read_loop_bounds (b ∷ bytes) offset s acc j v o hs hj ha e = ground (
  arith,
  bit_or-lt 64 acc (bit_and b 0x7f * 2 ^ s % 2 ^ 64),
  read_loop_bounds bytes (offset + 1) (s + 7) (bit_or acc (bit_and b 0x7f * 2 ^ s % 2 ^ 64)) (j + 1)
      v o,
)

-- Whatever the bytes are, a successful `read_uleb128` returns a u64, takes 1 to 10 bytes, and
-- stays inside the buffer.
pub read_uleb128_bounds :
    (bytes : List ℕ) (offset v o : ℕ)
    → read_uleb128 bytes offset ≡ ok (v, o)
    → IsU64 v × (offset < o) × (o ≤ offset + 10) × (o ≤ length bytes)
unfolding read_uleb128
read_uleb128_bounds bytes offset v o e =
    ground (arith, read_loop_bounds (drop offset bytes) offset 0 0 0 v o, length-drop offset bytes)
