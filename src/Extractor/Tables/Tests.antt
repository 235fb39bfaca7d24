-- ===== src/Extractor/Tables/Tests.antt =====
-- The tables of a block with two transactions.
use cfx_minimal_execution.Common.{ℕ, ◌≡◌, refl, true, none, some, List, [], ◌∷◌}
use cfx_minimal_execution.Common.ByteMap.{bytes_eq, get}
use cfx_minimal_execution.Extractor.Tables.{
  RawBlock, Transaction, contains, build_address_table, build_difficulty_table,
  build_gas_price_table,
}
use cfx_minimal_execution.Common.Results.{ok, err}
use cfx_minimal_execution.Extractor.Tables.Lookups.{build_pos_lookup, sender_nonces, view_below_min}
use cfx_minimal_execution.Extractor.Tables.Covers.{named_by}
use cfx_minimal_execution.Extractor.Tables.Once.{unique, build_address_table-named}

abbrev transfer : Transaction
transfer = record {
  sender = 1 ∷ [];
  call = some (2 ∷ []);
  nonce = 300;
  gas_price = 9;
  max_priority_gas_price = 9;
}

abbrev creation : Transaction
creation = record {
  sender = 1 ∷ [];
  call = none;
  nonce = 301;
  gas_price = 9;
  max_priority_gas_price = 7;
}

abbrev two_blocks : List RawBlock
two_blocks =
    record {
      height = 7;
      pos_reference = some (8 ∷ []);
      author = 3 ∷ [];
      difficulty = 50;
      base_price = some (1, 9);
      body = transfer ∷ creation ∷ [];
    }
    ∷ record {
      height = 7;
      pos_reference = some (8 ∷ []);
      author = 3 ∷ [];
      difficulty = 50;
      base_price = none;
      body = transfer ∷ [];
    }
    ∷ []

addresses_run : build_address_table two_blocks ≡ (1 ∷ []) ∷ (3 ∷ []) ∷ (2 ∷ []) ∷ []
unfolding build_address_table bytes_eq
addresses_run = refl

difficulties_run : build_difficulty_table two_blocks ≡ 50 ∷ []
unfolding build_difficulty_table
difficulties_run = refl

gas_prices_run : build_gas_price_table two_blocks ≡ 9 ∷ []
unfolding build_gas_price_table
gas_prices_run = refl

pos_lookup_run :
    build_pos_lookup ((8 ∷ [], 120) ∷ []) 100 5 two_blocks
    ≡ ok (record { hash = 8 ∷ []; height_offset = 20 } ∷ [])
unfolding build_pos_lookup bytes_eq contains get
pos_lookup_run = refl

pos_lookup_below_run : build_pos_lookup ((8 ∷ [], 120) ∷ []) 121 5 two_blocks ≡ err view_below_min
unfolding build_pos_lookup bytes_eq contains get
pos_lookup_below_run = refl

nonces_run : sender_nonces (1 ∷ []) two_blocks ≡ 300 ∷ 301 ∷ 300 ∷ []
unfolding sender_nonces bytes_eq
nonces_run = refl

build_address_table-named_example :
    (unique bytes_eq (build_address_table two_blocks) ≡ true)
    × ((a : List ℕ) → contains bytes_eq a (build_address_table two_blocks) ≡ named_by a two_blocks)
build_address_table-named_example = build_address_table-named two_blocks
