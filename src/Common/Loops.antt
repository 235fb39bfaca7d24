-- ===== src/Common/Loops.antt =====
-- `<` on the native numbers is well founded: a loop may recur on any number that falls.
use Prim.Native.Nat.{ℕ, zero, suc, ◌<◌}
use native.Mathlib.Omega.{arith}
use mathlib.Core.WellFounded.{Acc, WellFounded}

acc_of_lt : (bound n : ℕ) → n < bound → Acc ◌<◌ n
acc_of_lt zero n h = absurd (omega arith)
acc_of_lt (suc bound) n h = Acc.intro n (λ m below. acc_of_lt bound m (omega arith))

unfoldable pub lt_wf : WellFounded ◌<◌
unfolding acc_of_lt
lt_wf = record { apply = λ n. acc_of_lt (suc n) n (omega arith) }
