-- ===== src/Cfxpack/Packet/Assemble.antt =====
-- crates/cfxpack/src/packet/encode.rs: the transaction segment beside the records, and the
-- assembly of a packet. Snappy's compressor stands outside the repository, and is a parameter that
-- may fail; the payloads are what `encode_tx_payload` has written for each block.
use cfx_minimal_execution.Common.{
  ℕ, suc, ◌+◌, ◌*◌, ◌/◌, ◌%◌, ◌^◌, bit_and, bit_or, Option, List, [], ◌∷◌, ◌++◌, length, take, drop,
  replicate, ltb, if◌then◌else◌, Result, ok, ensure, ◌>>◌, ◌>>=◌,
}
use cfx_minimal_execution.Common.ByteMap.{ByteMap}
use cfx_minimal_execution.Common.Bytes.{to_le_bytes}
use cfx_minimal_execution.Common.NatMap.{NatMap}
use cfx_minimal_execution.Cfxpack.U256.{U256Bytes}
use cfx_minimal_execution.Cfxpack.Codec.{
  CodecError, put_uleb128, put_u32_le, align_to, packet_offset_too_large, compress_failed,
}
use cfx_minimal_execution.Cfxpack.Packet.{
  Packet, Block, SenderBaseNonce, PosLookupEntry, header_len, header_fixed_len,
  flag_has_transactions, flag_tx_compressed,
}
use cfx_minimal_execution.Cfxpack.Packet.Encode.{
  ok_or, encode_block_record, index_addresses, index_u256,
}
use cfx_minimal_execution.Cfxpack.Packet.Layout.{
  choose_prefix_size, pack_block_body, validate_input,
}

-- `out[at..at + bytes.len()].copy_from_slice(bytes)`.
unfoldable pub write_at : ℕ → List ℕ → List ℕ → List ℕ
write_at at bytes out = take at out ++ (bytes ++ drop (at + length bytes) out)

-- A placed payload: the new segment, the flags and the offset in units of four bytes.
pub record Placed : Type 0 where
  pub segment : List ℕ
  pub flags : ℕ
  pub units : ℕ

unfoldable pub put_payload_bytes : List ℕ → ℕ → List ℕ → Placed
put_payload_bytes segment flags payload = record {
  segment = put_uleb128 (align_to segment 4) (length payload) ++ payload;
  flags = flags;
  units = length (align_to segment 4) / 4;
}

-- The body of the second loop of `encode_blocks`, up to the record. `block.flags & !0x18` on a u8.
unfoldable pub place_payload :
    (List ℕ → Option (List ℕ)) → ℕ → List ℕ → List ℕ → Result CodecError Placed
unfolding put_payload_bytes
place_payload compress block_flags [] segment =
    ok (record { segment = segment; flags = bit_and block_flags 0xe7; units = 0 })
place_payload compress block_flags (p ∷ ps) segment =
    let flags = bit_or (bit_and block_flags 0xe7) flag_has_transactions in
    if ltb 512 (length (p ∷ ps))
    then (ok_or (compress (p ∷ ps)) compress_failed >>= λ payload.
        ok (put_payload_bytes segment (bit_or flags flag_tx_compressed) payload))
    else ok (put_payload_bytes segment flags (p ∷ ps))

unfoldable pub put_addresses : List ℕ → List (List ℕ) → List ℕ
put_addresses out [] = out
put_addresses out (a ∷ addresses) = put_addresses (out ++ a) addresses

unfoldable pub put_pos_entries : List ℕ → List PosLookupEntry → List ℕ
put_pos_entries out [] = out
put_pos_entries out (e ∷ entries) =
    put_pos_entries ((out ++ e.hash) ++ to_le_bytes 2 e.height_offset) entries

unfoldable pub put_sender_base_nonces : List ℕ → List SenderBaseNonce → List ℕ
put_sender_base_nonces out [] = out
put_sender_base_nonces out (e ∷ entries) =
    put_sender_base_nonces (put_uleb128 (put_uleb128 out e.sender_index) e.base_nonce) entries

-- The backfill of the offset table; an offset that is no u32 is an error.
unfoldable pub put_offsets : ℕ → List ℕ → List ℕ → Result CodecError (List ℕ)
unfolding write_at
put_offsets i [] out = ok out
put_offsets i (offset ∷ offsets) out =
    ensure (ltb offset (2 ^ 32)) packet_offset_too_large
    >> put_offsets (suc i) offsets (write_at (header_fixed_len + i * 4) (to_le_bytes 4 offset) out)

-- `input.blocks.iter().zip(tx_payloads.iter())`.
abbrev pub zip : {A B : Type 0} → List A → List B → List (A × B)
zip [] ys = []
zip (x ∷ xs) [] = []
zip (x ∷ xs) (y ∷ ys) = (x, y) ∷ zip xs ys

module _ (u256 : U256Bytes) where
  unfoldable pub put_u256_table : List ℕ → List ℕ → List ℕ
  put_u256_table out [] = out
  put_u256_table out (v ∷ values) = put_u256_table (out ++ u256.to_big_endian v) values

  module _ {Tx : Type 0} where
    -- The loop over the blocks and their payloads.
    unfoldable pub encode_records :
        (List ℕ → Option (List ℕ))
        → Packet Tx
        → ByteMap ℕ
        → NatMap ℕ
        → List (Block Tx × List ℕ)
        → List ℕ
        → Result CodecError (List (List ℕ) × List ℕ)
    unfolding place_payload
    encode_records compress input address_index difficulty_index [] segment = ok ([], segment)
    encode_records compress input address_index difficulty_index ((block, payload) ∷ rest) segment =
        place_payload compress block.flags payload segment >>= λ placed.
        encode_block_record u256 block placed.flags placed.units input address_index
          difficulty_index
        >>= λ r.
            encode_records compress input address_index difficulty_index rest placed.segment
            >>= λ more. ok (r ∷ more.0, more.1)

    unfoldable pub put_header : Packet Tx → ℕ → List ℕ
    unfolding write_at
    put_header input prefix_size = write_at 92 (prefix_size % 256 ∷ []) (
        write_at 88 (to_le_bytes 4 (input.min_pos_height % 2 ^ 32)) (
          write_at 80 (to_le_bytes 8 input.min_height) (
            write_at 72 (to_le_bytes 8 input.min_timestamp) (
              write_at 64 (to_le_bytes 8 input.first_block_number) (
                write_at 32 input.prev_last_deferred_state_root
                  (write_at 0 input.prev_last_hash (replicate header_len 0)))))))

    unfoldable pub assemble_packet :
        Packet Tx → ℕ → ℕ → List ℕ → List ℕ → List ℕ → Result CodecError (List ℕ)
    unfolding put_header put_addresses put_pos_entries put_sender_base_nonces put_u256_table
        put_offsets
    assemble_packet input prefix_size block_count extension_bitmap block_body tx_segment =
        let out0 = put_header input prefix_size in
        let out1 = put_addresses out0 input.addresses in
        let out2 = put_pos_entries out1 input.pos_entries in
        let out3 = put_u256_table out2 input.difficulties in
        let out4 = put_sender_base_nonces out3 input.sender_base_nonces in
        let out5 = align_to (put_u256_table out4 input.gas_prices) 32 in
        let out6 = align_to (put_u32_le out5 (block_count % 2 ^ 32) ++ extension_bitmap) 32 in
        let out7 = align_to (out6 ++ block_body) 64 in
        put_offsets 0
          (length out0
            ∷ length out1
            ∷ length out2
            ∷ length out3
            ∷ length out4
            ∷ length out5
            ∷ length out6
            ∷ length out7
            ∷ [])
          (out7 ++ tx_segment)

    -- `encode_packet`, given what `encode_tx_payload` has made of each block.
    unfoldable pub encode_packet_with :
        (List ℕ → Option (List ℕ)) → Packet Tx → List (List ℕ) → Result CodecError (List ℕ)
    unfolding validate_input encode_records choose_prefix_size pack_block_body assemble_packet
    encode_packet_with compress input tx_payloads =
        validate_input input
        >> (encode_records compress input (index_addresses input.addresses)
              (index_u256 input.difficulties) (zip input.blocks tx_payloads) []
            >>= λ encoded.
                let prefix_size = choose_prefix_size encoded.0 in
                let packed = pack_block_body encoded.0 prefix_size in
                assemble_packet input prefix_size (length encoded.0) packed.1 packed.0 encoded.1)
