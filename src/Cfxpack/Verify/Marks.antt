-- ===== src/Cfxpack/Verify/Marks.antt =====
-- The extension bitmap: what `pack_block_body` of packet/encode.rs marks, the readers find.
use cfx_minimal_execution.Common.{
  ℕ, zero, suc, ◌/◌, ◌%◌, ◌^◌, ◌<◌, ◌≡◌, ◌≢◌, refl, sym, ap, arith, bit_or, true, false, List, [],
  ◌∷◌, length, get_or, set, ◌==◌, inl, inr, Bool-cases, ==_iff,
}
use cfx_minimal_execution.Common.Bits.{pow-pos}
use cfx_minimal_execution.Common.Bitmap.{bit_and-bit_or, bit_and-bit_or_other}
use cfx_minimal_execution.Cfxpack.Packet.Layout.{mark_overflow}
use cfx_minimal_execution.Cfxpack.Decode.Tables.{is_marked}

length-set : (xs : List ℕ) (i v : ℕ) → length (set xs i v) ≡ length xs
length-set [] i v = refl
length-set (x ∷ xs) zero v = refl
length-set (x ∷ xs) (suc i) v = ap suc (length-set xs i v)

get_or-set : (xs : List ℕ) (i v : ℕ) → i < length xs → get_or (set xs i v) i 0 ≡ v
get_or-set [] i v h = absurd (omega arith)
get_or-set (x ∷ xs) zero v h = refl
get_or-set (x ∷ xs) (suc i) v h = get_or-set xs i v (omega arith)

get_or-set_other : (xs : List ℕ) (i j v : ℕ) → i ≢ j → get_or (set xs i v) j 0 ≡ get_or xs j 0
get_or-set_other [] i j v n = refl
get_or-set_other (x ∷ xs) zero zero v n = absurd (n refl)
get_or-set_other (x ∷ xs) zero (suc j) v n = refl
get_or-set_other (x ∷ xs) (suc i) zero v n = refl
get_or-set_other (x ∷ xs) (suc i) (suc j) v n = get_or-set_other xs i j v (λ e. n (ap suc e))

pub length-mark_overflow :
    (bitmap : List ℕ) (i : ℕ) → length (mark_overflow bitmap i) ≡ length bitmap
unfolding mark_overflow
length-mark_overflow bitmap i = length-set bitmap (i / 8) _

pub is_marked-mark_overflow :
    (bitmap : List ℕ) (i : ℕ) → i / 8 < length bitmap → is_marked (mark_overflow bitmap i) i ≡ true
unfolding mark_overflow
is_marked-mark_overflow bitmap i h =
    let p = pow-pos (i % 8) in
    let nonzero : (2 ^ (i % 8) == 0) ≡ false = ground (arith, p) in
    rw
      (
        get_or-set bitmap (i / 8) (bit_or (get_or bitmap (i / 8) 0) (2 ^ (i % 8))) h,
        bit_and-bit_or (get_or bitmap (i / 8) 0) (i % 8),
        nonzero,
      )
      refl

pub is_marked-mark_overflow_other :
    (bitmap : List ℕ) (i j : ℕ)
    → i / 8 < length bitmap
    → i ≢ j
    → is_marked (mark_overflow bitmap i) j ≡ is_marked bitmap j
unfolding mark_overflow
is_marked-mark_overflow_other bitmap i j h n = elim (Bool-cases (i / 8 == j / 8)) [
  | inl e ↦
      let same : i / 8 ≡ j / 8 = (==_iff (i / 8) (j / 8)).0 e in
      let other : i % 8 ≢ j % 8 = λ m. n (omega (arith, same, m)) in
      rw
        (
          sym same,
          get_or-set bitmap (i / 8) (bit_or (get_or bitmap (i / 8) 0) (2 ^ (i % 8))) h,
          bit_and-bit_or_other (get_or bitmap (i / 8) 0) (i % 8) (j % 8) other,
        )
        refl
  | inr e ↦
      let apart : i / 8 ≢ j / 8 = λ m. (let b = (==_iff (i / 8) (j / 8)).1 m in cc) in
      rw
        (get_or-set_other bitmap (i / 8) (j / 8) (bit_or (get_or bitmap (i / 8) 0) (2 ^ (i % 8)))
          apart)
        refl
]
