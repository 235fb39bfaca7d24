-- ===== src/Cfxpack/Codec/Qc/Bits.antt =====
-- The bit lengths and marked payloads of the compact numbers.
use cfx_minimal_execution.Common.{
  ℕ, zero, suc, ◌+◌, ◌-◌, ◌*◌, ◌/◌, ◌%◌, ◌^◌, ◌≤◌, ◌<◌, ◌≡◌, ◌≢◌, refl, sym, ap, ◌∙◌, arith,
  bit_and, bit_or, List, [], ◌∷◌, ◌++◌, length, length-append, length-replicate, replicate,
  All-append, get_or, set, ◌==◌, ==_iff, ok, ensure, ◌>>◌, Bool-cases, inl, inr, Result, subst,
}
use cfx_minimal_execution.Common.Bits.{bit_and_3, bit_and_step, bit_or_disjoint}
use cfx_minimal_execution.Common.Bytes.{IsByte, IsBytes, be_value, be_value-lt}
use cfx_minimal_execution.Cfxpack.Codec.Qc.{leading_zeros, bit_len, compact_of, put_payload}
use native.Mathlib.Decide.{dec_lt}
use cfx_minimal_execution.Cfxpack.Codec.{CodecError}
use native.Mathlib.Nat.{pow-suc, pow-le-pow_right, mul-le-mul}

-- Bytes without a leading zero, that stand for the same number.
pub record IsCompact (bytes compact : List ℕ) : Type 0 where
  pub bytes_ok : IsBytes compact
  pub same : be_value compact ≡ be_value bytes
  pub shorter : length compact ≤ length bytes
  pub leading : (compact ≢ []) → 0 < get_or compact 0 0

pub compact_of-IsCompact : (bytes : List ℕ) → IsBytes bytes → IsCompact bytes (compact_of bytes)
unfolding compact_of be_value
compact_of-IsCompact [] h = record {
  bytes_ok = tt;
  same = refl;
  shorter = omega arith;
  leading = λ n. absurd (n refl);
}
compact_of-IsCompact (b ∷ bs) (p, h) = elim (Bool-cases (b == 0)) [
  | inl none ↦
      let ih = compact_of-IsCompact bs h in
      let e : b ≡ 0 = (==_iff b 0).0 none in
      rw none (record {
        bytes_ok = ih.bytes_ok;
        same = ih.same ∙ rw e (omega arith);
        shorter = omega (arith, ih.shorter);
        leading = ih.leading;
      })
  | inr some ↦ rw some (record {
    bytes_ok = (p, h);
    same = refl;
    shorter = omega arith;
    leading = λ n. ground arith;
  })
]

-- The bits of a byte: `leading_zeros` finds the highest.
record HasBits (b n : ℕ) : Type 0 where
  below : b < 2 ^ n
  above : 0 < b → 2 ^ n ≤ 2 * b

leading_zeros-HasBits : (b : ℕ) → IsByte b → HasBits b (8 - leading_zeros b)
unfolding leading_zeros
leading_zeros-HasBits b h = record { below = ground arith; above = λ p. ground arith }

leading_zeros-some : (b : ℕ) → 0 < b → 0 < 8 - leading_zeros b
unfolding leading_zeros
leading_zeros-some b h = ground arith

pow-add : (m n : ℕ) → 2 ^ (m + n) ≡ 2 ^ m * 2 ^ n
pow-add m zero = let e : m + 0 ≡ m = omega arith in ap (λ k. 2 ^ k) e ∙ omega arith
pow-add m (suc n) =
    let step : 2 ^ (m + suc n) ≡ 2 ^ suc (m + n) = ap (λ k. 2 ^ k) (omega arith) in
    step ∙ pow-suc 2 (m + n) ∙ ap (λ t. t * 2) (pow-add m n) ∙ grind (arith, pow-suc 2 n)

pow_256 : (k : ℕ) → 256 ^ k ≡ 2 ^ (k * 8)
pow_256 zero = refl
pow_256 (suc k) =
    let split : 2 ^ (suc k * 8) ≡ 2 ^ (k * 8) * 2 ^ 8 =
      ap (λ n. 2 ^ n) (omega arith) ∙ pow-add (k * 8) 8 in
    omega (arith, pow-suc 256 k, pow_256 k, split)

-- `bit_len` of compact bytes counts the bits of their number.
pub bit_len_bounds :
    (c : List ℕ)
    → IsBytes c
    → ((c ≢ []) → 0 < get_or c 0 0)
    → (be_value c < 2 ^ bit_len c) × ((c ≢ []) → 2 ^ bit_len c ≤ 2 * be_value c)
unfolding bit_len be_value
bit_len_bounds [] h lead = (omega arith, λ n. absurd (n refl))
bit_len_bounds (b ∷ bs) (p, h) lead =
    let bits = leading_zeros-HasBits b p in
    let n = 8 - leading_zeros b in
    let scale = 256 ^ length bs in
    let width : 2 ^ (length bs * 8 + n) ≡ scale * 2 ^ n =
      pow-add (length bs * 8) n ∙ ap (λ t. t * 2 ^ n) (sym (pow_256 (length bs))) in
    let small = be_value-lt bs h in
    let high : suc b * scale ≤ 2 ^ n * scale =
      mul-le-mul {n₁ = suc b} {m₁ = scale} {n₂ = 2 ^ n} {m₂ = scale} (omega (arith, bits.below))
        (omega arith) in
    (
      grind (arith, width, small, high),
      λ ne.
          let low : 2 ^ n * scale ≤ 2 * b * scale =
            mul-le-mul {n₁ = 2 ^ n} {m₁ = scale} {n₂ = 2 * b} {m₂ = scale}
              (bits.above (lead (λ e. cc))) (omega arith) in
          grind (arith, width, low),
    )

-- The first byte of a payload has two free bits where the number leaves them free.
bit_and_c0 : (a : ℕ) → a < 64 → bit_and a 0xc0 ≡ 0
bit_and_c0 a h = omega (
  arith,
  bit_and_step a 0xc0,
  bit_and_step (a / 2) 0x60,
  bit_and_step (a / 2 / 2) 0x30,
  bit_and_step (a / 2 / 2 / 2) 0x18,
  bit_and_step (a / 2 / 2 / 2 / 2) 0x0c,
  bit_and_step (a / 2 / 2 / 2 / 2 / 2) 6,
  bit_and_3 (a / 2 / 2 / 2 / 2 / 2 / 2),
)

zeros-IsBytes : (n : ℕ) → IsBytes (replicate n 0)
zeros-IsBytes zero = tt
zeros-IsBytes (suc n) = (omega arith, zeros-IsBytes n)

zeros-value : (n : ℕ) (c : List ℕ) → be_value (replicate n 0 ++ c) ≡ be_value c
unfolding be_value
zeros-value zero c = refl
zeros-value (suc n) c = omega (arith, zeros-value n c)

-- What `put_payload` has written: the mode in the two high bits, then the number.
pub record Marked (out : List ℕ) (mode total v : ℕ) (answer : Result CodecError (List ℕ))
    : Type 0 where
  pub first : ℕ
  pub rest : List ℕ
  pub written : answer ≡ ok (out ++ ((first + mode * 64) ∷ rest))
  pub low : first < 64
  pub bytes_ok : IsBytes (first ∷ rest)
  pub width : suc (length rest) ≡ total
  pub number : be_value (first ∷ rest) ≡ v

mark_payload :
    (out payload : List ℕ) (mode k : ℕ) (e : CodecError)
    → mode < 4
    → IsBytes payload
    → length payload ≡ suc k
    → be_value payload < 64 * 256 ^ k
    → Marked out mode (suc k) (be_value payload) (
        ensure (bit_and (get_or payload 0 0) 0xc0 == 0) e
        >> ok (out ++ set payload 0 (bit_or (get_or payload 0 0) (mode * 2 ^ 6 % 256))))
unfolding be_value
mark_payload out [] mode k e m h l v = absurd (omega arith)
mark_payload out (p ∷ ps) mode k e m (hp, hs) l v =
    let size : length ps ≡ k = omega arith in
    let high : p < 64 = elim (dec_lt p 64) [
      | yes low ↦ low
      | no big ↦
          let scale = 256 ^ length ps in
          let scaled : 64 * scale ≤ p * scale =
            mul-le-mul {n₁ = 64} {m₁ = scale} {n₂ = p} {m₂ = scale} (omega arith) (omega arith) in
          let v' : p * scale + be_value ps < 64 * scale =
            subst (λ (n : ℕ). p * scale + be_value ps < 64 * 256 ^ n) (sym size) v in
          absurd (omega arith)
    ] in
    let marked : bit_or p (mode * 2 ^ 6 % 256) ≡ p + mode * 64 =
      let small : mode * 2 ^ 6 % 256 ≡ mode * 2 ^ 6 = omega arith in
      rw small (bit_or_disjoint 6 p mode high ∙ omega arith) in
    record {
      first = p;
      rest = ps;
      written = rw (bit_and_c0 p high, marked) refl;
      low = high;
      bytes_ok = (hp, hs);
      width = l;
      number = refl;
    }

length-compact :
    (c : List ℕ) (k : ℕ) → ((c ≢ []) → 0 < get_or c 0 0) → bit_len c ≤ k * 8 + 6 → length c ≤ suc k
unfolding bit_len
length-compact [] k lead fits = omega arith
length-compact (b ∷ bs) k lead fits =
    let bit : 0 < 8 - leading_zeros b = leading_zeros-some b (lead (λ e. cc)) in omega arith

pub put_payload-Marked :
    (out c : List ℕ) (mode k : ℕ) (e : CodecError)
    → mode < 4
    → IsBytes c
    → ((c ≢ []) → 0 < get_or c 0 0)
    → bit_len c ≤ k * 8 + 6
    → Marked out mode (suc k) (be_value c) (put_payload out c mode (suc k) e)
unfolding put_payload
put_payload-Marked out c mode k e m h lead fits =
    let payload = replicate (suc k - length c) 0 ++ c in
    let size : length c ≤ suc k = length-compact c k lead fits in
    let total : length payload ≡ suc k =
      length-append (replicate (suc k - length c) 0) c
      ∙ omega (arith, length-replicate {A = ℕ} (suc k - length c) 0) in
    let same = zeros-value (suc k - length c) c in
    let room : 2 ^ (k * 8 + 6) ≡ 256 ^ k * 64 =
      pow-add (k * 8) 6 ∙ ap (λ t. t * 64) (sym (pow_256 k)) in
    let grows : 2 ^ bit_len c ≤ 2 ^ (k * 8 + 6) = pow-le-pow_right (omega arith) fits in
    let small : be_value payload < 64 * 256 ^ k =
      omega (arith, same, (bit_len_bounds c h lead).0, grows, room) in
    subst (λ v. Marked out mode (suc k) v (put_payload out c mode (suc k) e)) same
      (mark_payload out payload mode k e m
        (All-append IsByte (replicate (suc k - length c) 0) c (zeros-IsBytes (suc k - length c)) h)
        total small)
