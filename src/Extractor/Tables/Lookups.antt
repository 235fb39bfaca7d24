-- ===== src/Extractor/Tables/Lookups.antt =====
-- crates/replay-data-extractor/src/extract/tables.rs: the table of PoS references and that of the
-- senders' base nonces. `pos_blocks` gives the view of a committed block.
use cfx_minimal_execution.Common.{
  ℕ, suc, ◌+◌, ◌-◌, ◌^◌, ◌%◌, ltb, leb, Bool, true, false, Option, none, some, List, [], ◌∷◌, ◌++◌,
  if◌then◌else◌,
}
use cfx_minimal_execution.Common.ByteMap.{bytes_eq, ByteMap, get}
use cfx_minimal_execution.Common.Results.{Result, ok, err, ◌>>=◌}
use cfx_minimal_execution.Cfxpack.Packet.{PosLookupEntry, SenderBaseNonce}
use cfx_minimal_execution.Cfxpack.Codec.{uleb128_len}
use cfx_minimal_execution.Extractor.Tables.{
  RawBlock, Transaction, contains, build_address_table, build_difficulty_table,
  build_gas_price_table,
}

pub data LookupError : Type 0 where
  missing_committed_block : LookupError
  view_below_min : LookupError
  offset_exceeds_u16 : LookupError

unfoldable pub effective_pos_reference : ℕ → RawBlock → Option (List ℕ)
effective_pos_reference enable b = if ltb b.height enable then none else b.pos_reference

unfoldable pub lookup_entry : ByteMap ℕ → ℕ → List ℕ → Result LookupError PosLookupEntry
lookup_entry pos_blocks min_pos_height reference = elim (get reference pos_blocks) [
  | none ↦ err missing_committed_block
  | some view ↦
      if ltb view min_pos_height
      then err view_below_min
      else if ltb (view - min_pos_height) (2 ^ 16)
      then ok (record { hash = reference; height_offset = view - min_pos_height })
      else err offset_exceeds_u16
]

-- The loop, with the references seen so far and the entries that they have.
unfoldable pub pos_lookup_from :
    ByteMap ℕ
    → ℕ
    → ℕ
    → List (List ℕ)
    → List PosLookupEntry
    → List RawBlock
    → Result LookupError (List PosLookupEntry)
unfolding effective_pos_reference lookup_entry
pos_lookup_from pos_blocks min enable seen out [] = ok out
pos_lookup_from pos_blocks min enable seen out (b ∷ blocks) =
    elim (effective_pos_reference enable b) [
      | none ↦ pos_lookup_from pos_blocks min enable seen out blocks
      | some reference ↦ elim (contains bytes_eq reference seen) [
        | true ↦ pos_lookup_from pos_blocks min enable seen out blocks
        | false ↦ lookup_entry pos_blocks min reference >>= λ e.
            pos_lookup_from pos_blocks min enable (reference ∷ seen) (out ++ (e ∷ [])) blocks
      ]
    ]

unfoldable pub build_pos_lookup :
    ByteMap ℕ → ℕ → ℕ → List RawBlock → Result LookupError (List PosLookupEntry)
unfolding pos_lookup_from
build_pos_lookup pos_blocks min enable blocks = pos_lookup_from pos_blocks min enable [] [] blocks

-- The nonces, as `low_u64`, of the transactions of a sender.
unfoldable pub body_nonces : List ℕ → List Transaction → List ℕ
body_nonces sender [] = []
body_nonces sender (tx ∷ body) =
    let rest = body_nonces sender body in
    if bytes_eq tx.sender sender then tx.nonce % 2 ^ 64 ∷ rest else rest

unfoldable pub sender_nonces : List ℕ → List RawBlock → List ℕ
unfolding body_nonces
sender_nonces sender [] = []
sender_nonces sender (b ∷ blocks) = body_nonces sender b.body ++ sender_nonces sender blocks

-- `values.iter().copied().min().unwrap_or(0)`.
unfoldable pub least : List ℕ → ℕ
least [] = 0
least (v ∷ []) = v
least (v ∷ w ∷ vs) = let m = least (w ∷ vs) in if ltb m v then m else v

-- The bytes of the nonces, and of their distances from a base.
unfoldable pub nonce_bytes : List ℕ → ℕ → ℕ
nonce_bytes [] base = 0
nonce_bytes (v ∷ vs) base = uleb128_len (v - base) + nonce_bytes vs base

-- `saving >= 16`, where the saving is a difference of signed numbers.
unfoldable pub saves_enough : List ℕ → Bool
unfolding least nonce_bytes
saves_enough values = leb (nonce_bytes values (least values) + 16) (nonce_bytes values 0)

-- The source fills a map from the index of a sender to its nonces and sorts what it takes from the
-- map by the index; here the addresses are visited in the order of their indices. A sender without
-- a transaction saves nothing.
unfoldable pub sender_base_nonces_from : ℕ → List (List ℕ) → List RawBlock → List SenderBaseNonce
unfolding sender_nonces saves_enough least
sender_base_nonces_from i [] blocks = []
sender_base_nonces_from i (sender ∷ addresses) blocks =
    let rest = sender_base_nonces_from (suc i) addresses blocks in
    let values = sender_nonces sender blocks in
    if saves_enough values
    then record { sender_index = i; base_nonce = least values } ∷ rest
    else rest

unfoldable pub build_sender_base_nonce_table : List RawBlock → List (List ℕ) → List SenderBaseNonce
unfolding sender_base_nonces_from
build_sender_base_nonce_table blocks addresses = sender_base_nonces_from 0 addresses blocks

pub record Tables : Type 0 where
  pub addresses : List (List ℕ)
  pub pos_entries : List PosLookupEntry
  pub difficulties : List ℕ
  pub sender_base_nonces : List SenderBaseNonce
  pub gas_prices : List ℕ

-- The index of an address that stands once in the table is its position.
unfoldable pub build_tables : List RawBlock → ByteMap ℕ → ℕ → ℕ → Result LookupError Tables
unfolding build_pos_lookup build_sender_base_nonce_table
build_tables blocks pos_blocks min enable =
    build_pos_lookup pos_blocks min enable blocks >>= λ entries. ok (record {
      addresses = build_address_table blocks;
      pos_entries = entries;
      difficulties = build_difficulty_table blocks;
      sender_base_nonces = build_sender_base_nonce_table blocks (build_address_table blocks);
      gas_prices = build_gas_price_table blocks;
    })
