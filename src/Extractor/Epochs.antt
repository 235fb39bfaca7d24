-- ===== src/Extractor/Epochs.antt =====
-- crates/replay-data-extractor/src/extract: the shards of extract/shards.rs, the flags
-- of a block in extract/mod.rs.
use cfx_minimal_execution.Common.{
  ℕ, zero, suc, ◌+◌, ◌-◌, ◌*◌, ◌/◌, ◌%◌, ◌^◌, ◌==◌, ◌≡◌, refl, min, bit_or, Bool, true, false, ◌&&◌,
  Option, none, some, List, [], ◌∷◌, if◌then◌else◌,
}
use cfx_minimal_execution.Cfxpack.Packet.{
  flag_adaptive, flag_pivot, flag_espace, flag_skipped_execution, flag_zero_total_reward,
}

-- The output is the file whose name has the two numbers: the first and the last epoch.
pub record ShardTask : Type 0 where
  pub start_epoch : ℕ
  pub epoch_count : ℕ
  pub output : ℕ × ℕ

unfoldable pub shard_tasks_from : ℕ → ℕ → ℕ → ℕ → ℕ → List ShardTask
shard_tasks_from zero i start_epoch epoch_count shard_epochs = []
shard_tasks_from (suc n) i start_epoch epoch_count shard_epochs =
    let first : ℕ = (start_epoch + i * shard_epochs) % 2 ^ 64 in
    let count : ℕ = min (epoch_count - i * shard_epochs) shard_epochs in
    record {
      start_epoch = first;
      epoch_count = count;
      output = (first, (first + count + (2 ^ 64 - 1)) % 2 ^ 64);
    }
    ∷ shard_tasks_from n (suc i) start_epoch epoch_count shard_epochs

-- `config.epoch_count.div_ceil(shard_epochs)` shards; `i * shard_epochs` stays below the count.
unfoldable pub build_shard_tasks : ℕ → ℕ → ℕ → List ShardTask
unfolding shard_tasks_from
build_shard_tasks start_epoch epoch_count shard_epochs =
    shard_tasks_from ((epoch_count + (shard_epochs - 1)) / shard_epochs) 0 start_epoch epoch_count
      shard_epochs

unfoldable pub set_flag : Bool → ℕ → ℕ → ℕ
set_flag set flag flags = if set then bit_or flags flag else flags

-- The arguments are what the source reads of the header, of the reward and of the configuration;
-- `skipped` says whether the set has the hash of the block. A remainder by 0 is a panic.
unfoldable pub block_flags : Bool → ℕ → ℕ → Bool → Bool → ℕ → Option ℕ
unfolding set_flag
block_flags adaptive height total_reward pivot skipped ratio =
    if pivot && ratio == 0
    then none
    else some (
        set_flag (total_reward == 0) flag_zero_total_reward (
          set_flag skipped flag_skipped_execution (
            set_flag (pivot && height % ratio == 0) flag_espace
              (set_flag pivot flag_pivot (set_flag adaptive flag_adaptive 0)))))

shards_run :
    build_shard_tasks 100 5 3
    ≡ record { start_epoch = 100; epoch_count = 3; output = (100, 102) }
      ∷ record { start_epoch = 103; epoch_count = 2; output = (103, 104) }
      ∷ []
unfolding build_shard_tasks
shards_run = refl

flags_run : block_flags true 10 0 true false 5 ≡ some 0x47
unfolding block_flags
flags_run = refl
