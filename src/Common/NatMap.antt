-- ===== src/Common/NatMap.antt =====
-- Maps keyed by numbers (`HashMap<usize, V>`, and with `U256` keys): an insertion stands in front,
-- and the first entry of a key counts.
use Prim.Native.Nat.{ℕ}
use mathlib.Core.Option.{Option, none, some}
use mathlib.Core.List.{List, [], ◌∷◌}
use cfx_minimal_execution.Common.Tests.{◌==◌, if◌then◌else◌}

abbrev pub NatMap {ℓ} : Type ℓ → Type ℓ
NatMap V = List (ℕ × V)

module _ {ℓ} {V : Type ℓ} where
  unfoldable pub find : ℕ → NatMap V → Option V
  find k [] = none
  find k ((j, v) ∷ m) = let rest = find k m in if j == k then some v else rest

  unfoldable pub put : ℕ → V → NatMap V → NatMap V
  put k v m = (k, v) ∷ m
