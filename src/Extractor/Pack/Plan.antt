-- ===== src/Extractor/Pack/Plan.antt =====
-- crates/replay-data-extractor/src/extract/pack.rs: the groups that the workers extract.
use cfx_minimal_execution.Common.{
  ℕ, zero, suc, ◌+◌, ◌-◌, ◌*◌, ◌/◌, ◌%◌, ◌^◌, ◌<◌, ◌≤◌, ◌≡◌, refl, subst, min, arith, List, [], ◌∷◌,
}
use native.Mathlib.Nat.{suc-mul, div-mul-le_self, lt-div-mul-add}
use cfx_minimal_execution.Extractor.Pack.{PackTask}

-- The tasks from group `i` on.
unfoldable pub tasks_from : ℕ → ℕ → ℕ → ℕ → ℕ → List PackTask
tasks_from zero i start_epoch epoch_count shard_epochs = []
tasks_from (suc n) i start_epoch epoch_count shard_epochs =
    record {
      group_index = i;
      start_epoch = (start_epoch + i * shard_epochs) % 2 ^ 64;
      epoch_count = min (epoch_count - i * shard_epochs) shard_epochs;
    }
    ∷ tasks_from n (suc i) start_epoch epoch_count shard_epochs

-- `config.epoch_count.div_ceil(shard_epochs)` groups; `i * shard_epochs` stays below the count.
unfoldable pub build_pack_tasks : ℕ → ℕ → ℕ → List PackTask
unfolding tasks_from
build_pack_tasks start_epoch epoch_count shard_epochs =
    tasks_from ((epoch_count + (shard_epochs - 1)) / shard_epochs) 0 start_epoch epoch_count
      shard_epochs

-- The tasks, numbered from `i` on, are non-empty groups of at most `shard_epochs` epochs that lie
-- one behind the other, from epoch `from` up to epoch `to`.
abbrev pub Covers : ℕ → ℕ → List PackTask → ℕ → ℕ → Type 0
Covers shard_epochs i [] from to = from ≡ to
Covers shard_epochs i (t ∷ tasks) from to =
    (t.group_index ≡ i)
    × (t.start_epoch ≡ from)
    × (0 < t.epoch_count)
    × (t.epoch_count ≤ shard_epochs)
    × Covers shard_epochs (suc i) tasks (from + t.epoch_count) to

tasks_from-Covers :
    (n i start_epoch epoch_count shard_epochs : ℕ)
    → 0 < shard_epochs
    → start_epoch + epoch_count < 2 ^ 64
    → epoch_count ≤ i * shard_epochs + n * shard_epochs
    → i * shard_epochs + n * shard_epochs < epoch_count + shard_epochs
    → Covers shard_epochs i
        (tasks_from n i start_epoch epoch_count shard_epochs)
        (start_epoch + min (i * shard_epochs) epoch_count)
        (start_epoch + epoch_count)
unfolding tasks_from
tasks_from-Covers zero i s c w pos fits reach tight = omega (arith, reach)
tasks_from-Covers (suc n) i s c w pos fits reach tight =
    let m = suc-mul n w in
    let k = suc-mul i w in
    let low : i * w < c = omega (arith, tight, m) in
    let next : s + min (suc i * w) c ≡ s + min (i * w) c + min (c - i * w) w =
      omega (arith, low, k) in
    (
      refl,
      omega (arith, low, fits),
      omega (arith, low, pos),
      omega arith,
      subst (λ (from : ℕ). Covers w (suc i) (tasks_from n (suc i) s c w) from (s + c)) next
          (tasks_from-Covers n (suc i) s c w pos fits (omega (arith, reach, m, k))
            (omega (arith, tight, m, k))),
    )

-- The tasks of `build_pack_tasks` are numbered from 0 and split the epochs of the configuration, none
-- left out and none twice, into non-empty groups of at most `shard_epochs` epochs, where
-- `shard_epochs` is not 0 and the end of the epochs is a u64.
pub build_pack_tasks-Covers :
    (start_epoch epoch_count shard_epochs : ℕ)
    → 0 < shard_epochs
    → start_epoch + epoch_count < 2 ^ 64
    → Covers shard_epochs 0
        (build_pack_tasks start_epoch epoch_count shard_epochs)
        start_epoch
        (start_epoch + epoch_count)
unfolding build_pack_tasks
build_pack_tasks-Covers s c w pos fits =
    let n = (c + (w - 1)) / w in
    let below = div-mul-le_self (c + (w - 1)) w in
    let above = lt-div-mul-add {a = c + (w - 1)} {b = w} pos in
    let first : s + min (0 * w) c ≡ s = omega arith in
    subst (λ (from : ℕ). Covers w 0 (tasks_from n 0 s c w) from (s + c)) first
      (tasks_from-Covers n 0 s c w pos fits (omega (arith, above, pos)) (omega (arith, below, pos)))
