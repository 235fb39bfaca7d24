-- ===== src/Cfxpack/ToyU256.antt =====
-- An instance of the byte functions of `U256`, with which the tests run.
use cfx_minimal_execution.Common.{
  ℕ, zero, suc, ◌+◌, ◌*◌, ◌/◌, ◌%◌, ◌^◌, ◌<◌, ◌≡◌, refl, ap, ◌∙◌, arith, List, [], ◌∷◌, ◌++◌,
  length, length-append, All-append,
}
use native.Mathlib.Nat.{pow-suc, mul_assoc}
use cfx_minimal_execution.Common.Bytes.{IsByte, IsBytes, be_value}
use cfx_minimal_execution.Cfxpack.U256.{U256Bytes}

-- The `k` low bytes of `v`, highest first.
abbrev pub to_be_bytes : ℕ → ℕ → List ℕ
to_be_bytes zero v = []
to_be_bytes (suc k) v = to_be_bytes k (v / 256) ++ (v % 256 ∷ [])

pub length-to_be_bytes : (k v : ℕ) → length (to_be_bytes k v) ≡ k
length-to_be_bytes zero v = refl
length-to_be_bytes (suc k) v =
    omega (
      arith,
      length-append (to_be_bytes k (v / 256)) (v % 256 ∷ []),
      length-to_be_bytes k (v / 256),
    )

pub to_be_bytes-IsBytes : (k v : ℕ) → IsBytes (to_be_bytes k v)
to_be_bytes-IsBytes zero v = tt
to_be_bytes-IsBytes (suc k) v =
    All-append IsByte (to_be_bytes k (v / 256)) (v % 256 ∷ []) (to_be_bytes-IsBytes k (v / 256))
      (omega arith, tt)

be_value-append : (bs : List ℕ) (b : ℕ) → be_value (bs ++ (b ∷ [])) ≡ be_value bs * 256 + b
unfolding be_value
be_value-append [] b = omega arith
be_value-append (a ∷ bs) b =
    let size = length-append bs (b ∷ []) in
    let more : 256 ^ length (bs ++ (b ∷ [])) ≡ 256 ^ length bs * 256 =
      ap (λ (n : ℕ). 256 ^ n) (size ∙ omega arith) ∙ pow-suc 256 (length bs) in
    rw more (omega (arith, be_value-append bs b, mul_assoc a (256 ^ length bs) 256))

pub be_value-to_be_bytes : (k v : ℕ) → v < 256 ^ k → be_value (to_be_bytes k v) ≡ v
unfolding be_value
be_value-to_be_bytes zero v h = omega arith
be_value-to_be_bytes (suc k) v h =
    be_value-append (to_be_bytes k (v / 256)) (v % 256)
    ∙ omega (arith, be_value-to_be_bytes k (v / 256) (omega (arith, h, pow-suc 256 k)))

abbrev pub toy_u256 : U256Bytes
toy_u256 = record {
  to_big_endian = to_be_bytes 32;
  from_big_endian = be_value;
  to-length = λ v h. length-to_be_bytes 32 v;
  to-IsBytes = to_be_bytes-IsBytes 32;
  to-value = λ v h. be_value-to_be_bytes 32 v (omega (arith, h));
  from-value = λ bs h l. refl;
}
