-- ===== src/Extractor/Tests.antt =====
-- Runs of the plan and of the container writer on concrete values.
use cfx_minimal_execution.Common.{
  ℕ, zero, suc, true, false, Bool, some, List, length, get_or, if◌then◌else◌, ◌<◌, ◌*◌, refl, ◌+◌,
  ◌≡◌, arith, [], ◌∷◌, map, ok,
}
use cfx_minimal_execution.Cfxpack.Container.{parse_directory}
use cfx_minimal_execution.Extractor.FlagPatch.{apply_flips}
use cfx_minimal_execution.Extractor.FlagPatch.Flips.{is_flip, flagged, apply_flips-any_order}
use cfx_minimal_execution.Extractor.Pack.{PacketOut, empty_builder, container_bytes}
use cfx_minimal_execution.Extractor.Pack.{write_containers}
use cfx_minimal_execution.Extractor.Pack.Pending.{has}
use cfx_minimal_execution.Extractor.Pack.Draining.{in_order, finish}
use cfx_minimal_execution.Extractor.Pack.Order.{write_containers-in_order}
use cfx_minimal_execution.Extractor.Pack.Plan.{Covers, build_pack_tasks, build_pack_tasks-Covers}
use cfx_minimal_execution.Extractor.Pack.Directory.{push_all, places}
use cfx_minimal_execution.Extractor.Pack.RoundTrip.{payload_of, parse_directory-container_bytes}

build_pack_tasks-Covers_example : Covers 2000 0 (build_pack_tasks 1 4500 2000) 1 (1 + 4500)
build_pack_tasks-Covers_example = build_pack_tasks-Covers 1 4500 2000 (omega arith) (omega arith)

abbrev toy_out : PacketOut
toy_out = record {
  group_index = 0;
  start_epoch = 1;
  epoch_count = 2000;
  block_count = 3;
  transaction_count = 0;
  bytes = 5 ∷ 6 ∷ 7 ∷ [];
}

abbrev toy_out2 : PacketOut
toy_out2 = record toy_out { group_index = 1; start_epoch = 2001; bytes = 8 ∷ [] }

parse_directory-container_bytes_example :
    let file = container_bytes (push_all empty_builder (toy_out ∷ toy_out2 ∷ [])) 2000 in
    let groups = places 88 (toy_out ∷ toy_out2 ∷ []) in
    (parse_directory file ≡ ok groups)
    × (map (payload_of file) groups ≡ (5 ∷ 6 ∷ 7 ∷ []) ∷ (8 ∷ []) ∷ [])
parse_directory-container_bytes_example =
    parse_directory-container_bytes (toy_out ∷ toy_out2 ∷ []) 2000
      ((omega arith, omega arith), ((omega arith, omega arith), tt)) (omega arith) (omega arith)

-- Packets of three groups, each of four bytes, in a file of eight bytes at least.
abbrev toy_packet : ℕ → PacketOut
toy_packet i = record {
  group_index = i;
  start_epoch = 1 + i * 2000;
  epoch_count = 2000;
  block_count = 1;
  transaction_count = 0;
  bytes = i ∷ 1 ∷ 2 ∷ 3 ∷ [];
}

toy_arrivals_all : (j : ℕ) → j < 3 → has j (2 ∷ 0 ∷ 1 ∷ []) ≡ true
unfolding has
toy_arrivals_all zero h = refl
toy_arrivals_all (suc zero) h = refl
toy_arrivals_all (suc (suc zero)) h = refl
toy_arrivals_all (suc (suc (suc j))) h = absurd (omega (arith, h))

write_containers-in_order_example :
    (write_containers 2000 8 (toy_packet 2 ∷ toy_packet 0 ∷ toy_packet 1 ∷ [])).files
    ≡ (finish 2000 (in_order 2000 8 toy_packet 3)).files
write_containers-in_order_example =
    write_containers-in_order 2000 8 toy_packet (λ i. refl) 3 (2 ∷ 0 ∷ 1 ∷ [])
      (omega arith, (omega arith, (omega arith, tt))) toy_arrivals_all

-- Two workers found the same two blocks, one of them twice.
toy_flips_same : (i : ℕ) → is_flip i (1 ∷ 3 ∷ []) ≡ is_flip i (3 ∷ 1 ∷ 3 ∷ [])
unfolding is_flip
toy_flips_same i = ground arith

apply_flips-any_order_example :
    (bytes : List ℕ) × (c c' : Bool) × (apply_flips (1 ∷ 3 ∷ []) (7 ∷ 0 ∷ 9 ∷ 0x41 ∷ [], false)
      ≡ some (bytes, c))
    × (apply_flips (3 ∷ 1 ∷ 3 ∷ []) (7 ∷ 0 ∷ 9 ∷ 0x41 ∷ [], false) ≡ some (bytes, c'))
    × (length bytes ≡ 4)
    × ((i : ℕ)
        → get_or bytes i 0 ≡ (
            if is_flip i (1 ∷ 3 ∷ [])
            then flagged (get_or (7 ∷ 0 ∷ 9 ∷ 0x41 ∷ []) i 0)
            else get_or (7 ∷ 0 ∷ 9 ∷ 0x41 ∷ []) i 0))
apply_flips-any_order_example =
    apply_flips-any_order (1 ∷ 3 ∷ []) (3 ∷ 1 ∷ 3 ∷ []) (7 ∷ 0 ∷ 9 ∷ 0x41 ∷ []) false
      (omega arith, (omega arith, tt)) (omega arith, (omega arith, (omega arith, tt)))
      toy_flips_same
