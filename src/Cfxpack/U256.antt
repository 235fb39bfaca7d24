-- ===== src/Cfxpack/U256.antt =====
-- `U256` of the crate cfx_types, which stands outside the repository: a number below 2^256, whose
-- big-endian bytes are written and read by two functions that behave as the crate documents.
use cfx_minimal_execution.Common.{ℕ, ◌^◌, ◌<◌, ◌≤◌, ◌≡◌, List, length}
use cfx_minimal_execution.Common.Bytes.{IsBytes, be_value}

abbrev pub IsU256 : ℕ → Type 0
IsU256 v = v < 2 ^ 256

pub record U256Bytes : Type 0 where
  pub to_big_endian : ℕ → List ℕ
  pub from_big_endian : List ℕ → ℕ
  pub to-length : (v : ℕ) → IsU256 v → length (to_big_endian v) ≡ 32
  pub to-IsBytes : (v : ℕ) → IsBytes (to_big_endian v)
  pub to-value : (v : ℕ) → IsU256 v → be_value (to_big_endian v) ≡ v
  pub from-value : (bs : List ℕ) → IsBytes bs → length bs ≤ 32 → from_big_endian bs ≡ be_value bs
