-- ===== src/Common/Bitmap.antt =====
-- Single bits of a number, and a bitmap of bytes.
use Prim.Native.Nat.{ℕ, zero, suc, ◌+◌, ◌*◌, ◌/◌, ◌%◌, ◌^◌, bit_and, bit_or}
use mathlib.Core.Path.{◌≡◌, refl, sym, ap, ◌∙◌}
use mathlib.Core.Logic.{◌≢◌}
use native.Mathlib.Omega.{arith}
use native.Mathlib.Nat.{pow-suc}
use cfx_minimal_execution.Common.Bits.{
  bit_and_step, bit_or_step, bit_and_1, bit_or_comm, zero-bit_or,
}

half_pow : (k : ℕ) → (2 ^ suc k / 2 ≡ 2 ^ k) × (2 ^ suc k % 2 ≡ 0)
half_pow k = omega (arith, pow-suc 2 k)

-- The mask of bit 0, and the masks of the bits above it.
bit_above : (x j : ℕ) → bit_and x (2 ^ suc j) ≡ bit_and (x / 2) (2 ^ j) * 2
bit_above x j = bit_and_step x (2 ^ suc j) ∙ rw ((half_pow j).0, (half_pow j).1) (omega arith)

-- `x | 1 << k`, one bit lower.
or_above :
    (x k : ℕ)
    → (bit_or x (2 ^ suc k) / 2 ≡ bit_or (x / 2) (2 ^ k)) × (bit_or x (2 ^ suc k) % 2 ≡ x % 2)
or_above x k =
    let e : bit_or x (2 ^ suc k) ≡ bit_or (x / 2) (2 ^ k) * 2 + x % 2 =
      bit_or_step x (2 ^ suc k) ∙ rw ((half_pow k).0, (half_pow k).1) (omega arith) in
    omega (arith, e)

or_one : (x : ℕ) → (bit_or x 1 / 2 ≡ x / 2) × (bit_or x 1 % 2 ≡ 1)
or_one x =
    let z : bit_or (x / 2) 0 ≡ x / 2 = bit_or_comm (x / 2) 0 ∙ zero-bit_or (x / 2) in
    omega (arith, bit_or_step x 1, z)

-- The bit that is set is set, and no other one has changed.
pub bit_and-bit_or : (x k : ℕ) → bit_and (bit_or x (2 ^ k)) (2 ^ k) ≡ 2 ^ k
bit_and-bit_or x zero = omega (arith, bit_and_1 (bit_or x 1), or_one x)
bit_and-bit_or x (suc k) =
    bit_above (bit_or x (2 ^ suc k)) k
    ∙ rw ((or_above x k).0, bit_and-bit_or (x / 2) k) (omega (arith, pow-suc 2 k))

pub bit_and-bit_or_other :
    (x k j : ℕ) → k ≢ j → bit_and (bit_or x (2 ^ k)) (2 ^ j) ≡ bit_and x (2 ^ j)
bit_and-bit_or_other x zero zero n = absurd (n refl)
bit_and-bit_or_other x zero (suc j) n =
    bit_above (bit_or x 1) j ∙ rw (or_one x).0 (sym (bit_above x j))
bit_and-bit_or_other x (suc k) zero n =
    omega (arith, bit_and_1 (bit_or x (2 ^ suc k)), or_above x k, bit_and_1 x)
bit_and-bit_or_other x (suc k) (suc j) n =
    bit_above (bit_or x (2 ^ suc k)) j
    ∙ rw ((or_above x k).0, bit_and-bit_or_other (x / 2) k j (λ e. n (ap suc e)))
        (sym (bit_above x j))
