-- ===== src/Cfxpack/Tests.antt =====
-- Runs of the packet format on concrete values.
use cfx_minimal_execution.Common.{true}
use cfx_minimal_execution.Common.{
  ◌≢◌, err, ℕ, ◌+◌, ◌^◌, ◌<◌, ◌≤◌, ◌≡◌, refl, map, length, length-append, arith, some, none, List,
  [], ◌∷◌, ◌++◌, replicate, ok,
}
use cfx_minimal_execution.Common.ByteMap.{get, insert, bytes_eq}
use cfx_minimal_execution.Common.NatMap.{find, put}
use cfx_minimal_execution.Cfxpack.ToyU256.{toy_u256}
use cfx_minimal_execution.Cfxpack.Codec.Reads.{Reads, put_uleb128-back}
use cfx_minimal_execution.Cfxpack.Codec.Uleb.{read_uleb128_bounds}
use cfx_minimal_execution.Cfxpack.Codec.{put_uleb128}
use cfx_minimal_execution.Common.Extends.{Extends-refl}
use cfx_minimal_execution.Cfxpack.Codec.Qc.{
  put_qc8, put_qc5e, read_qc8, read_qc5e, integer, enum, qc5e_gas_limit_enum, qc5e_base_price_enum,
}
use cfx_minimal_execution.Cfxpack.Codec.Qc.RoundTrip.{Appends, read_qc8-put_qc8, read_qc5e-put_qc5e}
use cfx_minimal_execution.Cfxpack.Packet.{Packet, Block, PosLookupEntry, SenderBaseNonce}
use cfx_minimal_execution.Cfxpack.Packet.Encode.{index_addresses, index_u256, is_pivot}
use cfx_minimal_execution.Cfxpack.Packet.Layout.{validate_input, first_pivot, height_at}
use cfx_minimal_execution.Cfxpack.Packet.Assemble.{
  put_pos_entries, put_sender_base_nonces, put_u256_table,
}
use cfx_minimal_execution.Cfxpack.Decode.Record.{IsEncodable}
use cfx_minimal_execution.Cfxpack.Decode.Record.RoundTrip.{
  RecordBack, decode_block_record-encode_block_record,
}
use cfx_minimal_execution.Cfxpack.Decode.Tables.{
  decode_pos_entries, decode_sender_base_nonces, decode_u256_table, set_epoch,
  assign_epoch_from_pivots,
}
use cfx_minimal_execution.Cfxpack.Decode.Tables.RoundTrip.{
  decode_pos_entries-put_pos_entries, decode_u256_table-put_u256_table,
}
use cfx_minimal_execution.Cfxpack.Packet.Layout.{
  pack_block_body, pack_records, pack_record, mark_overflow,
}
use cfx_minimal_execution.Cfxpack.Verify.{collect_block_records}
use cfx_minimal_execution.Cfxpack.Verify.Packing.{pad}
use cfx_minimal_execution.Cfxpack.Verify.Sites.{
  FlagSite, AreSites, flag_sites_from, flag_sites_from-collect_block_records,
}
use cfx_minimal_execution.Cfxpack.Packet.Layout.{choose_from, choose_prefix_size}
use cfx_minimal_execution.Cfxpack.Verify.{is_prefix_size}
use cfx_minimal_execution.Cfxpack.Verify.PrefixSize.{is_prefix_size-choose_prefix_size}
use cfx_minimal_execution.Cfxpack.Codec.{out_of_fuel}
use cfx_minimal_execution.Cfxpack.Decode.Rounds.{groups_in_fuel}
use cfx_minimal_execution.Cfxpack.Verify.Body.{collect_block_records-pack_block_body}
use cfx_minimal_execution.Cfxpack.Decode.Tables.Nonces.{
  decode_sender_base_nonces-put_sender_base_nonces,
}
use cfx_minimal_execution.Cfxpack.Decode.Epochs.{assign_epoch_from_pivots-validate_input}

read_qc8-put_qc8_example :
    Reads (7 ∷ []) (read_qc8 toy_u256) (2 ^ 70 + 5) (put_qc8 toy_u256 (7 ∷ []) (2 ^ 70 + 5))
    × Appends 8 11 (7 ∷ []) (put_qc8 toy_u256 (7 ∷ []) (2 ^ 70 + 5))
read_qc8-put_qc8_example = read_qc8-put_qc8 toy_u256 (7 ∷ []) (2 ^ 70 + 5) (omega arith)

read_qc5e-put_qc5e_example :
    Reads (7 ∷ []) (read_qc5e toy_u256) (integer 123456) (put_qc5e toy_u256 (7 ∷ []) 123456 none)
    × Reads (7 ∷ []) (read_qc5e toy_u256) (enum 2) (put_qc5e toy_u256 (7 ∷ []) 123456 (some 2))
read_qc5e-put_qc5e_example =
    read_qc5e-put_qc5e toy_u256 (7 ∷ []) 123456 2 (omega arith) (omega arith)

-- A hash and an address.
abbrev toy_hash : List ℕ
toy_hash = replicate 32 9

abbrev toy_author : List ℕ
toy_author = replicate 20 3

abbrev toy_block : ℕ → ℕ → ℕ → ℕ → Block ℕ
toy_block epoch index flags height = record {
  epoch = epoch;
  index = index;
  hash = toy_hash;
  deferred_state_root = toy_hash;
  deferred_receipts_root = toy_hash;
  deferred_logs_bloom_hash = toy_hash;
  flags = flags;
  author = toy_author;
  timestamp = 1005;
  difficulty = 77;
  gas_limit = 30000000;
  base_price_core = 1000000000;
  base_price_espace = 5;
  height = height;
  blame = 1;
  finalized_epoch = 12;
  base_reward = 2000000;
  transactions = [];
  transaction_refs = [];
  pos_rewards = [];
  unlock_events = [];
  pos_view = some 44;
}

-- Two groups: a block with its pivot, and a pivot alone.
abbrev toy_packet : Packet ℕ
toy_packet = record {
  prev_last_hash = toy_hash;
  prev_last_deferred_state_root = toy_hash;
  first_block_number = 1;
  min_timestamp = 1000;
  min_height = 19;
  min_pos_height = 40;
  addresses = toy_author ∷ [];
  pos_entries = [];
  difficulties = 77 ∷ [];
  sender_base_nonces = [];
  gas_prices = [];
  blocks = toy_block 20 0 0 19 ∷ toy_block 20 1 2 20 ∷ toy_block 21 2 3 21 ∷ [];
}

toy_packet_valid : validate_input toy_packet ≡ ok tt
unfolding validate_input first_pivot height_at is_pivot
toy_packet_valid = refl

assign_epoch_from_pivots-validate_input_example :
    assign_epoch_from_pivots (set_epoch 0 toy_packet.blocks) ≡ ok toy_packet.blocks
assign_epoch_from_pivots-validate_input_example =
    assign_epoch_from_pivots-validate_input toy_packet toy_packet_valid

abbrev toy_pos_entry : PosLookupEntry
toy_pos_entry = record { hash = toy_hash; height_offset = 300 }

decode_pos_entries-put_pos_entries_example :
    decode_pos_entries (put_pos_entries [] (toy_pos_entry ∷ [])) ≡ ok (toy_pos_entry ∷ [])
decode_pos_entries-put_pos_entries_example =
    decode_pos_entries-put_pos_entries (toy_pos_entry ∷ []) ((refl, omega arith), tt)

decode_u256_table-put_u256_table_example :
    decode_u256_table toy_u256 (put_u256_table toy_u256 [] (77 ∷ 2 ^ 200 ∷ []) ++ replicate 5 0)
    ≡ ok (77 ∷ 2 ^ 200 ∷ [])
decode_u256_table-put_u256_table_example =
    decode_u256_table-put_u256_table toy_u256 (77 ∷ 2 ^ 200 ∷ []) 5 (omega arith, (omega arith, tt))
      (omega arith)

abbrev toy_nonces : List SenderBaseNonce
toy_nonces =
    record { sender_index = 3; base_nonce = 1000 }
    ∷ record { sender_index = 200; base_nonce = 0 }
    ∷ []

decode_sender_base_nonces-put_sender_base_nonces_example :
    decode_sender_base_nonces (put_sender_base_nonces [] toy_nonces) ≡ ok toy_nonces
decode_sender_base_nonces-put_sender_base_nonces_example =
    decode_sender_base_nonces-put_sender_base_nonces toy_nonces
      ((omega arith, omega arith), ((omega arith, omega arith), tt))

toy_block-IsEncodable :
    IsEncodable
      (toy_block 20 0 0 19)
      6
      19
      toy_packet
      (index_addresses toy_packet.addresses)
      (index_u256 toy_packet.difficulties)
unfolding index_addresses index_u256 qc5e_gas_limit_enum qc5e_base_price_enum get insert bytes_eq
    find put
toy_block-IsEncodable = record {
  hash_length = refl;
  state_root_length = refl;
  receipts_root_length = refl;
  bloom_length = refl;
  author_at = 0;
  author_found = refl;
  author_kept = refl;
  author_small = omega arith;
  difficulty_at = 0;
  difficulty_found = refl;
  difficulty_kept = refl;
  difficulty_small = omega arith;
  timestamp_low = omega arith;
  timestamp_small = omega arith;
  height_low = omega arith;
  height_small = omega arith;
  blame_small = omega arith;
  finalized_small = omega arith;
  units_small = omega arith;
  gas_limit_fits = tt;
  core_price_fits = tt;
  espace_price_fits = omega arith;
  base_reward_fits = omega arith;
  pos_view_fits = (omega arith, omega arith, omega arith);
}

decode_block_record-encode_block_record_example :
    RecordBack toy_u256
      (toy_block 20 0 0 19)
      8
      6
      0
      19
      toy_packet
      (index_addresses toy_packet.addresses)
      (index_u256 toy_packet.difficulties)
decode_block_record-encode_block_record_example =
    decode_block_record-encode_block_record toy_u256 (toy_block 20 0 0 19) 8 6 0 19 toy_packet
      (index_addresses toy_packet.addresses) (index_u256 toy_packet.difficulties)
      toy_block-IsEncodable

-- One record within its prefix and one beyond it.
abbrev two_records : List (List ℕ)
two_records = replicate 60 1 ∷ replicate 70 2 ∷ []

-- 8 bytes, two prefixes and an overflow of a length, which takes at most 10 bytes, and 6 bytes.
packet_body :
    (142 < length (replicate 8 7 ++ (pack_block_body two_records 64).0))
    × (length (replicate 8 7 ++ (pack_block_body two_records 64).0) ≤ 152)
unfolding pack_block_body pack_records pack_record mark_overflow
packet_body =
    let coded = put_uleb128 [] 6 in
    let read = put_uleb128-back [] 6 coded (omega arith) (Extends-refl coded) in
    omega (
      arith,
      read_uleb128_bounds coded 0 6 (length coded) read,
      length-append coded (replicate 6 2),
    )

packet_size :
    length ((replicate 8 7 ++ (pack_block_body two_records 64).0) ++ replicate 40 0)
    ≡ length (replicate 8 7 ++ (pack_block_body two_records 64).0) + 40
packet_size = length-append (replicate 8 7 ++ (pack_block_body two_records 64).0) (replicate 40 0)

collect_block_records-pack_block_body_example :
    collect_block_records
      ((replicate 8 7 ++ (pack_block_body two_records 64).0) ++ replicate 40 0)
      8
      160
      2
      64
      (pack_block_body two_records 64).1
    ≡ ok (map (pad 64) two_records)
collect_block_records-pack_block_body_example =
    collect_block_records-pack_block_body two_records 64 (replicate 8 7) (replicate 40 0) 160
      (omega (arith, packet_body)) (omega (arith, packet_body, packet_size))
      (omega (arith, packet_body, packet_size))

abbrev two_blocks : List ℕ
two_blocks = (replicate 8 7 ++ (pack_block_body two_records 64).0) ++ replicate 40 0

two_records_collected :
    collect_block_records two_blocks 8 160 2 64 (pack_block_body two_records 64).1
    ≡ ok (map (pad 64) two_records)
two_records_collected =
    collect_block_records-pack_block_body two_records 64 (replicate 8 7) (replicate 40 0) 160
      (omega (arith, packet_body)) (omega (arith, packet_body, packet_size))
      (omega (arith, packet_body, packet_size))

flag_sites_from-collect_block_records_example :
    (sites : List FlagSite) × (flag_sites_from 2 0 two_blocks 8 64 ≡ ok sites)
    × AreSites two_blocks sites (map (pad 64) two_records)
flag_sites_from-collect_block_records_example =
    flag_sites_from-collect_block_records two_blocks 8 160 2 64 (pack_block_body two_records 64).1
      (map (pad 64) two_records) (omega arith) two_records_collected

is_prefix_size-choose_prefix_size_example :
    (is_prefix_size (choose_prefix_size two_records) ≡ true)
    × ((k : ℕ) → choose_from (5 + k) 64 two_records ≡ choose_prefix_size two_records)
is_prefix_size-choose_prefix_size_example = is_prefix_size-choose_prefix_size two_records

groups_in_fuel_example :
    (validate_input toy_packet ≢ err out_of_fuel)
    × (assign_epoch_from_pivots toy_packet.blocks ≢ err out_of_fuel)
groups_in_fuel_example = groups_in_fuel toy_packet
