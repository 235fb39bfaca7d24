-- ===== src/Common/Bits.antt =====
-- Laws of the bit operations at variables: one step for the lowest digit, and what follows for
-- masks and for disjoint bits.
use Prim.Native.Nat.{ℕ, zero, suc, ◌+◌, ◌-◌, ◌*◌, ◌/◌, ◌%◌, ◌^◌, ◌≤◌, ◌<◌, min, max}
use Prim.Native.Nat.{bit_and, bit_or, bit_xor, digits, bitwise, differ}
use Prim.Native.Nat.{bit_and-bitwise, bit_or-bitwise, bit_xor-bitwise}
use mathlib.Core.Path.{◌≡◌, refl, sym, ap, ◌∙◌}
use native.Mathlib.Omega.{arith}
use native.Mathlib.Nat.{pow-suc}

-- An operation that means `bitwise`: one step for the lowest digit.
module _ (idle : ℕ → ℕ) (digit : ℕ → ℕ → ℕ) where
  abbrev rounds : ℕ → ℕ → ℕ → ℕ
  rounds fuel x y = digits idle digit fuel x y

  -- Rounds past the size of the first number change nothing.
  spare : (x fuel big y : ℕ) → x ≤ fuel → fuel ≤ big → rounds big x y ≡ rounds fuel x y
  spare zero zero zero y h g = refl
  spare zero zero (suc big) y h g = refl
  spare (suc x) zero big y h g = absurd (omega arith)
  spare x (suc fuel) zero y h g = absurd (omega arith)
  spare zero (suc fuel) (suc big) y h g = refl
  spare (suc x) (suc fuel) (suc big) y h g =
      ap (λ r. r * 2 + digit (suc x % 2) (y % 2))
        (spare (suc x / 2) fuel big (y / 2) (omega arith) (omega arith))

  module _ (op : ℕ → ℕ → ℕ) (meaning : (x y : ℕ) → op x y ≡ bitwise idle digit x y) where
    pub lowest_digit :
        (x y : ℕ)
        → ((u : ℕ) → idle u ≡ idle (u / 2) * 2 + digit 0 (u % 2))
        → op x y ≡ op (x / 2) (y / 2) * 2 + digit (x % 2) (y % 2)
    lowest_digit zero y base =
        meaning 0 y ∙ base y ∙ ap (λ r. r * 2 + digit 0 (y % 2)) (sym (meaning 0 (y / 2)))
    lowest_digit (suc x) y base =
        let half = suc x / 2 in
        let cut = spare half half x (y / 2) (omega arith) (omega arith) in
        meaning (suc x) y
        ∙ ap (λ r. r * 2 + digit (suc x % 2) (y % 2)) (cut ∙ sym (meaning half (y / 2)))

pub zero-bit_or : (y : ℕ) → bit_or 0 y ≡ y
zero-bit_or y = bit_or-bitwise 0 y

pub zero-bit_and : (y : ℕ) → bit_and 0 y ≡ 0
zero-bit_and y = bit_and-bitwise 0 y

pub bit_or_step : (x y : ℕ) → bit_or x y ≡ bit_or (x / 2) (y / 2) * 2 + max (x % 2) (y % 2)
bit_or_step x y = lowest_digit (λ u. u) max bit_or bit_or-bitwise x y (λ u. omega arith)

pub bit_and_step : (x y : ℕ) → bit_and x y ≡ bit_and (x / 2) (y / 2) * 2 + min (x % 2) (y % 2)
bit_and_step x y = lowest_digit (λ u. 0) min bit_and bit_and-bitwise x y (λ u. omega arith)

differ-below : (d : ℕ) → d < 2 → differ 0 d ≡ d
differ-below zero h = refl
differ-below (suc zero) h = refl
differ-below (suc (suc d)) h = absurd (omega arith)

bit_xor_step : (x y : ℕ) → bit_xor x y ≡ bit_xor (x / 2) (y / 2) * 2 + differ (x % 2) (y % 2)
bit_xor_step x y =
    lowest_digit (λ u. u) differ bit_xor bit_xor-bitwise x y
      (λ u. omega (arith, differ-below (u % 2) (omega arith)))

pub pow-pos : (k : ℕ) → 1 ≤ 2 ^ k
pow-pos zero = omega arith
pow-pos (suc k) = omega (arith, pow-pos k, pow-suc 2 k)

half_of_double : (a : ℕ) → ((a * 2) / 2 ≡ a) × ((a * 2) % 2 ≡ 0)
half_of_double a = omega arith

-- `v | (b << s)`, where `v` stays below bit `s`.
pub bit_or_disjoint : (s v b : ℕ) → v < 2 ^ s → bit_or v (b * 2 ^ s) ≡ v + b * 2 ^ s
bit_or_disjoint zero zero b h = omega (arith, zero-bit_or (b * 2 ^ 0))
bit_or_disjoint zero (suc v) b h = absurd (omega arith)
bit_or_disjoint (suc s) v b h =
    let double : b * 2 ^ suc s ≡ b * 2 ^ s * 2 =
      omega (arith, ap (λ (t : ℕ). b * t) (pow-suc 2 s)) in
    rw double (
      bit_or_step v (b * 2 ^ s * 2)
      ∙ rw ((half_of_double (b * 2 ^ s)).0, (half_of_double (b * 2 ^ s)).1)
          (omega (arith, bit_or_disjoint s (v / 2) b (omega (arith, pow-suc 2 s)))))

-- `|` stays within the width of its operands.
pub bit_or-lt : (k a b : ℕ) → a < 2 ^ k → b < 2 ^ k → bit_or a b < 2 ^ k
bit_or-lt zero zero b h g = omega (arith, zero-bit_or b)
bit_or-lt zero (suc a) b h g = absurd (omega arith)
bit_or-lt (suc k) a b h g = omega (
  arith,
  pow-suc 2 k,
  bit_or_step a b,
  bit_or-lt k (a / 2) (b / 2) (omega (arith, pow-suc 2 k)) (omega (arith, pow-suc 2 k)),
)

-- Exclusive or with zeros and with ones.
differ-zero : (x : ℕ) → differ x 0 ≡ x
differ-zero zero = refl
differ-zero (suc x) = refl

differ-one : (x : ℕ) → x < 2 → differ x 1 ≡ 1 - x
differ-one zero h = refl
differ-one (suc zero) h = refl
differ-one (suc (suc x)) h = absurd (omega arith)

pub bit_xor_low : (k x : ℕ) → x < 2 ^ k → bit_xor x 0 ≡ x
bit_xor_low zero zero h = refl
bit_xor_low zero (suc x) h = absurd (omega arith)
bit_xor_low (suc k) x h = omega (
  arith,
  bit_xor_step x 0,
  differ-zero (x % 2),
  bit_xor_low k (x / 2) (omega (arith, pow-suc 2 k)),
)

ones_half : (k : ℕ) → ((2 ^ suc k - 1) / 2 ≡ 2 ^ k - 1) × ((2 ^ suc k - 1) % 2 ≡ 1)
ones_half k = omega (arith, pow-suc 2 k, pow-pos k)

pub bit_xor_ones : (k x : ℕ) → x < 2 ^ k → bit_xor x (2 ^ k - 1) ≡ 2 ^ k - 1 - x
bit_xor_ones zero zero h = refl
bit_xor_ones zero (suc x) h = absurd (omega arith)
bit_xor_ones (suc k) x h =
    bit_xor_step x (2 ^ suc k - 1)
    ∙ rw ((ones_half k).0, (ones_half k).1, differ-one (x % 2) (omega arith))
        (omega (arith, pow-suc 2 k, bit_xor_ones k (x / 2) (omega (arith, pow-suc 2 k))))

-- Masks of ones.
and_zero : (n a : ℕ) → a ≤ n → bit_and a 0 ≡ 0
and_zero n zero h = zero-bit_and 0
and_zero zero (suc a) h = absurd (omega arith)
and_zero (suc n) (suc a) h =
    omega (arith, bit_and_step (suc a) 0, and_zero n (suc a / 2) (omega arith))

pub bit_and-zero : (a : ℕ) → bit_and a 0 ≡ 0
bit_and-zero a = and_zero a a (omega arith)

pub bit_and_1 : (a : ℕ) → bit_and a 1 ≡ a % 2
bit_and_1 a = omega (arith, bit_and_step a 1, bit_and-zero (a / 2))

pub bit_and_3 : (a : ℕ) → bit_and a 3 ≡ a % 4
bit_and_3 a = omega (arith, bit_and_step a 3, bit_and_1 (a / 2))

bit_and_7 : (a : ℕ) → bit_and a 7 ≡ a % 8
bit_and_7 a = omega (arith, bit_and_step a 7, bit_and_3 (a / 2))

pub bit_and_0f : (a : ℕ) → bit_and a 0x0f ≡ a % 16
bit_and_0f a = omega (arith, bit_and_step a 0x0f, bit_and_7 (a / 2))

bit_and_1f : (a : ℕ) → bit_and a 0x1f ≡ a % 32
bit_and_1f a = omega (arith, bit_and_step a 0x1f, bit_and_0f (a / 2))

pub bit_and_3f : (a : ℕ) → bit_and a 0x3f ≡ a % 64
bit_and_3f a = omega (arith, bit_and_step a 0x3f, bit_and_1f (a / 2))

pub bit_and_7f : (a : ℕ) → bit_and a 0x7f ≡ a % 128
bit_and_7f a = omega (arith, bit_and_step a 0x7f, bit_and_3f (a / 2))

-- A single bit as a mask.
pub bit_and_2 : (a : ℕ) → bit_and a 2 ≡ a / 2 % 2 * 2
bit_and_2 a = omega (arith, bit_and_step a 2, bit_and_1 (a / 2))

pub bit_and_4 : (a : ℕ) → bit_and a 4 ≡ a / 4 % 2 * 4
bit_and_4 a = omega (arith, bit_and_step a 4, bit_and_2 (a / 2))

pub bit_and_8 : (a : ℕ) → bit_and a 8 ≡ a / 8 % 2 * 8
bit_and_8 a = omega (arith, bit_and_step a 8, bit_and_4 (a / 2))

pub bit_and_10 : (a : ℕ) → bit_and a 0x10 ≡ a / 16 % 2 * 16
bit_and_10 a = omega (arith, bit_and_step a 0x10, bit_and_8 (a / 2))

pub bit_and_20 : (a : ℕ) → bit_and a 0x20 ≡ a / 32 % 2 * 32
bit_and_20 a = omega (arith, bit_and_step a 0x20, bit_and_10 (a / 2))

pub bit_and_40 : (a : ℕ) → bit_and a 0x40 ≡ a / 64 % 2 * 64
bit_and_40 a = omega (arith, bit_and_step a 0x40, bit_and_20 (a / 2))

pub bit_and_80 : (a : ℕ) → bit_and a 0x80 ≡ a / 128 % 2 * 128
bit_and_80 a = omega (arith, bit_and_step a 0x80, bit_and_40 (a / 2))

pub bit_or_80 : (a : ℕ) → a < 128 → bit_or a 0x80 ≡ a + 128
bit_or_80 a h = bit_or_disjoint 7 a 1 h

or_comm : (n a b : ℕ) → a ≤ n → b ≤ n → bit_or a b ≡ bit_or b a
or_comm zero zero zero p q = refl
or_comm zero zero (suc b) p q = absurd (omega arith)
or_comm zero (suc a) b p q = absurd (omega arith)
or_comm (suc n) a b p q =
    omega (
      arith,
      bit_or_step a b,
      bit_or_step b a,
      or_comm n (a / 2) (b / 2) (omega arith) (omega arith),
    )

pub bit_or_comm : (a b : ℕ) → bit_or a b ≡ bit_or b a
bit_or_comm a b = or_comm (max a b) a b (omega arith) (omega arith)
