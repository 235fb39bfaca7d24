-- ===== src/Cfxpack/Verify/Packing.antt =====
-- The block body of packet/encode.rs: what `pack_records` adds to its buffers and to the bitmap.
use cfx_minimal_execution.Common.{
  ℕ, suc, ◌+◌, ◌-◌, ◌*◌, min, ◌<◌, ◌≤◌, ◌≡◌, ◌≢◌, refl, sym, ap, ap₂, ◌∙◌, arith, true, false, List,
  [], ◌∷◌, ◌++◌, append-nil, append_assoc, length, take, drop, replicate, length-append,
  length-replicate, length-take, take-append-drop, take-all, ltb, inl, inr, Bool-cases,
}
use native.Mathlib.Nat.{suc-mul}
use cfx_minimal_execution.Common.Extends.{Extends, Extends-refl, Extends-append, Extends-trans}
use cfx_minimal_execution.Cfxpack.Codec.{put_uleb128}
use cfx_minimal_execution.Cfxpack.Codec.Reads.{put_uleb128-append}
use cfx_minimal_execution.Cfxpack.Packet.Layout.{Body, pack_record, pack_records}
use cfx_minimal_execution.Cfxpack.Decode.Tables.{is_marked}
use cfx_minimal_execution.Cfxpack.Verify.Marks.{
  length-mark_overflow, is_marked-mark_overflow, is_marked-mark_overflow_other,
}

-- A record filled up with zeros to the length of a prefix.
abbrev pub pad : ℕ → List ℕ → List ℕ
pad prefix_size r = r ++ replicate (prefix_size - length r) 0

-- The prefix of a record.
abbrev pub prefix_of : ℕ → List ℕ → List ℕ
prefix_of p r = take (min (length r) p) r ++ replicate (p - min (length r) p) 0

pub length-prefix_of : (p : ℕ) (r : List ℕ) → length (prefix_of p r) ≡ p
length-prefix_of p r =
    length-append (take (min (length r) p) r) (replicate (p - min (length r) p) 0)
    ∙ ap₂ (λ a b. a + b) (length-take (min (length r) p) r)
        (length-replicate (p - min (length r) p) 0)
    ∙ omega arith

pub prefix_of-short : (p : ℕ) (r : List ℕ) → length r ≤ p → prefix_of p r ++ [] ≡ pad p r
prefix_of-short p r h =
    let e : min (length r) p ≡ length r = omega arith in
    append-nil (prefix_of p r)
    ∙ rw e (ap (λ l. l ++ replicate (p - length r) 0) (take-all (length r) r refl))

pub prefix_of-long : (p : ℕ) (r : List ℕ) → p < length r → prefix_of p r ++ drop p r ≡ pad p r
prefix_of-long p r h =
    let e : min (length r) p ≡ p = omega arith in
    let z : p - p ≡ 0 = omega arith in
    let z' : p - length r ≡ 0 = omega arith in
    rw (e, z, z', append-nil (take p r), append-nil r) (take-append-drop p r)

pub pack_record-prefixes :
    (p i : ℕ) (r : List ℕ) (body : Body)
    → (pack_record p i r body).prefixes ≡ body.prefixes ++ prefix_of p r
unfolding pack_record
pack_record-prefixes p i r body =
    append_assoc body.prefixes (take (min (length r) p) r) (replicate (p - min (length r) p) 0)

-- What the overflow of a record adds.
pack_record-overflow :
    (p i : ℕ) (r : List ℕ) (body : Body) → Extends body.overflow (pack_record p i r body).overflow
unfolding pack_record
pack_record-overflow p i r body =
    let rest = drop p r in
    let coded = put_uleb128 [] (length rest) in
    let e : put_uleb128 body.overflow (length rest) ≡ body.overflow ++ coded =
      ap (λ o. put_uleb128 o (length rest)) (sym (append-nil body.overflow))
      ∙ put_uleb128-append body.overflow [] (length rest) in
    elim (Bool-cases (ltb p (length r))) [
      | inl long ↦
          rw (long, e, append_assoc body.overflow coded rest)
            (Extends-append body.overflow (coded ++ rest))
      | inr short ↦ rw short (Extends-refl body.overflow)
    ]

pub length-bitmap :
    (p i : ℕ) (r : List ℕ) (body : Body)
    → length (pack_record p i r body).bitmap ≡ length body.bitmap
unfolding pack_record
length-bitmap p i r body = elim (Bool-cases (ltb p (length r))) [
  | inl long ↦ rw long (length-mark_overflow body.bitmap i)
  | inr short ↦ rw short refl
]

pub other_marks :
    (p i j : ℕ) (r : List ℕ) (body : Body)
    → i < 8 * length body.bitmap
    → i ≢ j
    → is_marked (pack_record p i r body).bitmap j ≡ is_marked body.bitmap j
unfolding pack_record
other_marks p i j r body h n = elim (Bool-cases (ltb p (length r))) [
  | inl long ↦ rw long (is_marked-mark_overflow_other body.bitmap i j (omega (arith, h)) n)
  | inr short ↦ rw short refl
]

pub own_mark :
    (p i : ℕ) (r : List ℕ) (body : Body)
    → i < 8 * length body.bitmap
    → is_marked body.bitmap i ≡ false
    → is_marked (pack_record p i r body).bitmap i ≡ ltb p (length r)
unfolding pack_record
own_mark p i r body h fresh = elim (Bool-cases (ltb p (length r))) [
  | inl long ↦ rw long (is_marked-mark_overflow body.bitmap i (omega (arith, h)))
  | inr short ↦ rw short fresh
]

-- What the records that follow leave alone.
pub record Packed (p i n : ℕ) (body packed : Body) : Type 0 where
  pub prefixes : Extends body.prefixes packed.prefixes
  pub prefixes_length : length packed.prefixes ≡ length body.prefixes + n * p
  pub overflow : Extends body.overflow packed.overflow
  pub bitmap_length : length packed.bitmap ≡ length body.bitmap
  pub marks : (j : ℕ) → j < i → is_marked packed.bitmap j ≡ is_marked body.bitmap j

pub pack_records-Packed :
    (p i : ℕ) (rs : List (List ℕ)) (body : Body)
    → i + length rs ≤ 8 * length body.bitmap
    → Packed p i (length rs) body (pack_records p i rs body)
unfolding pack_records
pack_records-Packed p i [] body h = record {
  prefixes = Extends-refl body.prefixes;
  prefixes_length = omega arith;
  overflow = Extends-refl body.overflow;
  bitmap_length = refl;
  marks = λ j l. refl;
}
pack_records-Packed p i (r ∷ rs) body h =
    let next = pack_record p i r body in
    let k = pack_records-Packed p (suc i) rs next (omega (arith, h, length-bitmap p i r body)) in
    let pre = pack_record-prefixes p i r body in
    let x : Extends body.prefixes next.prefixes = record { rest = prefix_of p r; whole = pre } in
    let size : length next.prefixes ≡ length body.prefixes + p =
      ap length pre
      ∙ length-append body.prefixes (prefix_of p r)
      ∙ ap (λ (n : ℕ). length body.prefixes + n) (length-prefix_of p r) in
    record {
      prefixes = Extends-trans body.prefixes next.prefixes _ x k.prefixes;
      prefixes_length = omega (arith, k.prefixes_length, size, suc-mul (length rs) p);
      overflow =
          Extends-trans body.overflow next.overflow _ (pack_record-overflow p i r body) k.overflow;
      bitmap_length = k.bitmap_length ∙ length-bitmap p i r body;
      marks = λ j l.
          k.marks j (omega (arith, l))
          ∙ other_marks p i j r body (omega (arith, h)) (λ e. absurd (omega (arith, e, l)));
    }

pub long_overflow :
    (p i : ℕ) (r : List ℕ) (body : Body)
    → ltb p (length r) ≡ true
    → (pack_record p i r body).overflow ≡ put_uleb128 body.overflow (length (drop p r)) ++ drop p r
unfolding pack_record
long_overflow p i r body long = rw long refl

pub short_overflow :
    (p i : ℕ) (r : List ℕ) (body : Body)
    → ltb p (length r) ≡ false
    → (pack_record p i r body).overflow ≡ body.overflow
unfolding pack_record
short_overflow p i r body short = rw short refl
