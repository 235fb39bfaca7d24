-- ===== src/Cfxpack/Codec/Qc/RoundTrip.antt =====
-- Reading a compact number gives back what was written.
use cfx_minimal_execution.Common.{
  ℕ, suc, ◌+◌, ◌-◌, ◌*◌, ◌/◌, ◌^◌, ◌≤◌, ◌<◌, ◌≡◌, ◌≢◌, ◌⊎◌, refl, sym, ap, ap₂, ◌∙◌, subst, arith,
  bit_and, true, false, none, some, List, [], ◌∷◌, ◌++◌, length, length-append, get_or, slice, All,
  get_or-append_at, drop-append_at, take-append_at, append_assoc, leb, ltb, ◌==◌, if◌then◌else◌,
  Result, ok, Bool-cases, inl, inr, lt→ltb,
}
use cfx_minimal_execution.Common.Extends.{Extends}
use cfx_minimal_execution.Common.Bits.{bit_and_3f}
use cfx_minimal_execution.Common.Bytes.{IsBytes, be_value}
use cfx_minimal_execution.Cfxpack.U256.{U256Bytes, IsU256}
use cfx_minimal_execution.Cfxpack.Codec.{
  CodecError, qc8_exceeds_payload, qc8_too_large, qc5e_exceeds_payload, qc5e_too_large,
}
use cfx_minimal_execution.Cfxpack.Codec.Qc.{
  bit_len, compact_of, put_modes, put_qc8, put_qc5e, read_qc8, read_qc5e, qc8_modes, qc5e_modes,
  enum, integer,
}
use cfx_minimal_execution.Cfxpack.Codec.Qc.Bits.{
  IsCompact, compact_of-IsCompact, bit_len_bounds, Marked, put_payload-Marked,
}
use cfx_minimal_execution.Cfxpack.Codec.Reads.{Reads}
use native.Mathlib.Nat.{pow-suc, pow-le-pow_right}
use native.Mathlib.Decide.{dec_lt}

-- A compact number below 2 ^ max has no more than max bits.
fits :
    (c : List ℕ) (max : ℕ)
    → IsBytes c
    → ((c ≢ []) → 0 < get_or c 0 0)
    → be_value c < 2 ^ max
    → bit_len c ≤ max
fits [] max h lead v = unfold bit_len in omega arith
fits (b ∷ bs) max h lead v = elim (dec_lt max (bit_len (b ∷ bs))) [
  | no small ↦ omega arith
  | yes big ↦
      let grows : 2 ^ suc max ≤ 2 ^ bit_len (b ∷ bs) = pow-le-pow_right (omega arith) big in
      let low = (bit_len_bounds (b ∷ bs) h lead).1 (λ e. cc) in
      absurd (omega (arith, pow-suc 2 max))
]

-- An entry of the table of modes: its payload has `base + mode` bytes behind the first.
abbrev IsMode : ℕ → ℕ → ℕ × ℕ × ℕ → Type 0
IsMode base low (mode, total_len, max_bits) =
    (total_len ≡ suc (base + mode)) × (max_bits ≡ (base + mode) * 8 + 6) × (mode < 4) × (low ≤ mode)

abbrev FitsOne : ℕ → List (ℕ × ℕ × ℕ) → Type 0
FitsOne bits [] = ⊥
FitsOne bits ((mode, total_len, max_bits) ∷ modes) = (bits ≤ max_bits) ⊎ FitsOne bits modes

-- What the loop over the modes has written.
record Chosen (out : List ℕ) (base low v : ℕ) (answer : Result CodecError (List ℕ)) : Type 0 where
  mode : ℕ
  small : mode < 4
  no_less : low ≤ mode
  marked : Marked out mode (suc (base + mode)) v answer

-- A writer has appended `least` to `most` bytes.
abbrev pub Appends : ℕ → ℕ → List ℕ → Result CodecError (List ℕ) → Type 0
Appends least most out answer =
    (written : List ℕ) × (answer ≡ ok written)
    × (length out + least ≤ length written)
    × (length written ≤ length out + most)

choose :
    (out c : List ℕ) (e f : CodecError) (base low : ℕ) (modes : List (ℕ × ℕ × ℕ))
    → IsBytes c
    → ((c ≢ []) → 0 < get_or c 0 0)
    → All (IsMode base low) modes
    → FitsOne (bit_len c) modes
    → Chosen out base low (be_value c) (put_modes out c e f modes)
unfolding put_modes
choose out c e f base low [] h lead ms one = absurd one
choose out c e f base low ((mode, total_len, max_bits) ∷ modes) h lead ((et, em, m, l), ms) one =
    elim (Bool-cases (leb (bit_len c) max_bits)) [
      | inl fit ↦
          rw (fit, et)
            (record {
              mode = mode;
              small = m;
              no_less = l;
              marked = put_payload-Marked out c mode (base + mode) e m h lead (ground arith);
            })
      | inr over ↦ rw over (
          choose out c e f base low modes h lead ms
            (elim one [ inl fit ↦ absurd (ground arith) | inr later ↦ later ]))
    ]

-- What a reader finds at the end of `out`.
record Finds (out : List ℕ) (first : ℕ) (rest bytes : List ℕ) (len : ℕ) : Type 0 where
  head : get_or bytes (length out) 0 ≡ first
  inside : ltb (length out) (length bytes) ≡ true
  enough : leb (length out + len) (length bytes) ≡ true
  cut : slice bytes (length out) (length out + len) ≡ first ∷ rest

finds :
    (out rest bytes : List ℕ) (first len : ℕ)
    → suc (length rest) ≡ len
    → Extends (out ++ (first ∷ rest)) bytes
    → Finds out first rest bytes len
finds out rest bytes first len l x =
    let more = x.rest in
    let e : bytes ≡ out ++ (first ∷ (rest ++ more)) =
      x.whole ∙ append_assoc out (first ∷ rest) more in
    let size : length bytes ≡ length out + (suc (length rest) + length more) =
      ap (λ l. length l) e
      ∙ length-append out (first ∷ (rest ++ more))
      ∙ omega (arith, length-append rest more) in
    let width : length out + len - length out ≡ len = omega arith in
    record {
      head = rw e (get_or-append_at (length out) out (first ∷ (rest ++ more)) 0 refl);
      inside = ground arith;
      enough = ground arith;
      cut =
          rw (width, e, drop-append_at (length out) out (first ∷ (rest ++ more)) refl)
            (take-append_at len (first ∷ rest) more l);
    }

unmark :
    (p mode : ℕ) → p < 64 → ((p + mode * 64) / 2 ^ 6 ≡ mode) × (bit_and (p + mode * 64) 0x3f ≡ p)
unmark p mode h = (omega arith, bit_and_3f (p + mode * 64) ∙ omega arith)

module _ (u256 : U256Bytes) where
  IsCompact-ok :
      (v : ℕ) → IsU256 v → IsCompact (u256.to_big_endian v) (compact_of (u256.to_big_endian v))
  IsCompact-ok v h = compact_of-IsCompact (u256.to_big_endian v) (u256.to-IsBytes v)

  number_of : (v : ℕ) → IsU256 v → be_value (compact_of (u256.to_big_endian v)) ≡ v
  number_of v h = (IsCompact-ok v h).same ∙ u256.to-value v h

  fits_u256 :
      (v max : ℕ) → IsU256 v → v < 2 ^ max → bit_len (compact_of (u256.to_big_endian v)) ≤ max
  fits_u256 v max h small =
      let c = IsCompact-ok v h in
      fits (compact_of (u256.to_big_endian v)) max c.bytes_ok c.leading
        (subst (λ (n : ℕ). n < 2 ^ max) (sym (number_of v h)) small)

  from_marked :
      (first v len : ℕ) (rest : List ℕ)
      → IsBytes (first ∷ rest)
      → suc (length rest) ≡ len
      → len ≤ 32
      → be_value (first ∷ rest) ≡ v
      → u256.from_big_endian (first ∷ rest) ≡ v
  from_marked first v len rest h l small e = u256.from-value (first ∷ rest) h (omega arith) ∙ e

  -- How long the answer of `put_qc8` is.
  qc8_size :
      (out : List ℕ) (v : ℕ) (answer : Result CodecError (List ℕ))
      → Chosen out 7 0 v answer
      → Appends 8 11 out answer
  qc8_size out v answer c =
      let m = c.marked in
      let size = length-append out ((m.first + c.mode * 64) ∷ m.rest) in
      (
        out ++ ((m.first + c.mode * 64) ∷ m.rest),
        m.written,
        omega (arith, size, m.width),
        omega (arith, size, m.width, c.small),
      )

  qc8_back :
      (out : List ℕ) (v : ℕ) (answer : Result CodecError (List ℕ))
      → Chosen out 7 0 v answer
      → Reads out (read_qc8 u256) v answer
  unfolding read_qc8
  qc8_back out v answer c =
      let m = c.marked in
      let len = suc (7 + c.mode) in
      record {
        written = out ++ ((m.first + c.mode * 64) ∷ m.rest);
        done = m.written;
        grown = record { rest = (m.first + c.mode * 64) ∷ m.rest; whole = refl };
        back = λ bytes x.
            let f = finds out m.rest bytes (m.first + c.mode * 64) len m.width x in
            let (mode, clear) = unmark m.first c.mode m.low in
            let table : (if c.mode == 0
                  then 8
                  else if c.mode == 1
                  then 9
                  else if c.mode == 2
                  then 10
                  else 11)
                ≡ len =
              ground (arith, c.small) in
            rw (f.head, mode, table, f.inside, f.enough, f.cut, clear)
              (ap₂ (λ v n. ok (v, n))
                (from_marked m.first v len m.rest m.bytes_ok m.width (omega (arith, c.small))
                  m.number)
                (omega (arith, length-append out ((m.first + c.mode * 64) ∷ m.rest), m.width)));
      }

  put_qc8-Chosen : (out : List ℕ) (v : ℕ) → v < 2 ^ 86 → Chosen out 7 0 v (put_qc8 u256 out v)
  unfolding put_qc8
  put_qc8-Chosen out v small =
      let h : IsU256 v = omega arith in
      let c = IsCompact-ok v h in
      subst (λ (n : ℕ). Chosen out 7 0 n (put_qc8 u256 out v)) (number_of v h)
        (choose out (compact_of (u256.to_big_endian v)) qc8_exceeds_payload qc8_too_large 7 0
          qc8_modes c.bytes_ok c.leading
          (
            (refl, refl, omega arith, omega arith),
            (
              (refl, refl, omega arith, omega arith),
              (
                (refl, refl, omega arith, omega arith),
                ((refl, refl, omega arith, omega arith), tt),
              ),
            ),
          )
          (inr (inr (inr (inl (fits_u256 v 86 h small))))))

  -- `put_qc8` succeeds on every number below 2^86 and appends 8 to 11 bytes, from which `read_qc8`
  -- gets the number back, whatever follows.
  pub read_qc8-put_qc8 :
      (out : List ℕ) (v : ℕ)
      → v < 2 ^ 86
      → Reads out (read_qc8 u256) v (put_qc8 u256 out v) × Appends 8 11 out (put_qc8 u256 out v)
  read_qc8-put_qc8 out v small =
      let c = put_qc8-Chosen out v small in
      (qc8_back out v (put_qc8 u256 out v) c, qc8_size out v (put_qc8 u256 out v) c)

  qc5e_back :
      (out : List ℕ) (v : ℕ) (answer : Result CodecError (List ℕ))
      → Chosen out 3 1 v answer
      → Reads out (read_qc5e u256) (integer v) answer
  unfolding read_qc5e
  qc5e_back out v answer c =
      let m = c.marked in
      let len = suc (3 + c.mode) in
      record {
        written = out ++ ((m.first + c.mode * 64) ∷ m.rest);
        done = m.written;
        grown = record { rest = (m.first + c.mode * 64) ∷ m.rest; whole = refl };
        back = λ bytes x.
            let f = finds out m.rest bytes (m.first + c.mode * 64) len m.width x in
            let (mode, clear) = unmark m.first c.mode m.low in
            let wide : (c.mode == 0) ≡ false = ground (arith, c.no_less) in
            let table : (if c.mode == 1 then 5 else if c.mode == 2 then 6 else 7) ≡ len =
              ground (arith, c.small, c.no_less) in
            rw (f.head, mode, table, f.inside, wide, f.enough, f.cut, clear)
              (ap₂ (λ v n. ok (integer v, n))
                (from_marked m.first v len m.rest m.bytes_ok m.width (omega (arith, c.small))
                  m.number)
                (omega (arith, length-append out ((m.first + c.mode * 64) ∷ m.rest), m.width)));
      }

  pub enum_back :
      (out : List ℕ) (v e : ℕ)
      → e < 64
      → Reads out (read_qc5e u256) (enum e) (put_qc5e u256 out v (some e))
  unfolding read_qc5e put_qc5e
  enum_back out v e h = record {
    written = out ++ (e ∷ []);
    done = rw (lt→ltb e 64 h) refl;
    grown = record { rest = e ∷ []; whole = refl };
    back = λ bytes x.
        let f = finds out [] bytes e 1 refl x in
        let mode : e / 2 ^ 6 ≡ 0 = omega arith in
        let clear : bit_and e 0x3f ≡ e = bit_and_3f e ∙ omega arith in
        rw (f.head, mode, f.inside, clear)
          (ap (λ n. ok (enum e, n)) (sym (length-append out (e ∷ []))));
  }

  -- `put_qc5e` succeeds on every number below 2^54 without an enum value, and on every enum value
  -- below 64, and `read_qc5e` gets back the number or the enum value, whatever follows.
  pub read_qc5e-put_qc5e :
      (out : List ℕ) (v e : ℕ)
      → v < 2 ^ 54
      → e < 64
      → Reads out (read_qc5e u256) (integer v) (put_qc5e u256 out v none)
        × Reads out (read_qc5e u256) (enum e) (put_qc5e u256 out v (some e))
  unfolding put_qc5e
  read_qc5e-put_qc5e out v e small he =
      let h : IsU256 v = omega arith in
      let c = IsCompact-ok v h in
      (
        qc5e_back out v (put_qc5e u256 out v none) (
            subst (λ (n : ℕ). Chosen out 3 1 n (put_qc5e u256 out v none)) (number_of v h)
              (choose out (compact_of (u256.to_big_endian v)) qc5e_exceeds_payload qc5e_too_large 3
                1 qc5e_modes c.bytes_ok c.leading
                (
                  (refl, refl, omega arith, omega arith),
                  (
                    (refl, refl, omega arith, omega arith),
                    ((refl, refl, omega arith, omega arith), tt),
                  ),
                )
                (inr (inr (inl (fits_u256 v 54 h small)))))),
        enum_back out v e he,
      )
