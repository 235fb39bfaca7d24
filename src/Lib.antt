-- ===== src/Lib.antt =====
-- The conflux minimal-execution replay tools: a library over the parts that a replay of the chain
-- trusts for its state roots and its packets.
--
-- The program has three crates. crates/minimal-mpt keeps the replayed state: storage keys are
-- written as bytes (key_codec.rs), a state has three layers over one another (state/), each layer
-- with its Merkle trie (incremental.rs, snapshot.rs), and a commit hashes the delta layer and, at a
-- period boundary, merges the intermediate layer into the snapshot and shifts the layers down.
-- crates/cfxpack is the packet format that a replay reads: integers (codec.rs), block records and
-- tables (packet/, decode/), their checks (verify.rs) and the container around the packets of many
-- groups (container.rs). crates/replay-data-extractor plans the groups, writes the containers and
-- patches a flag in files that were written before.
--
-- Files, and the code they are about:
--   Common/                 lists, options, results, bits and bitmaps, bytes, growing buffers, maps
--   Cfxpack/U256            cfx_types' U256 and its bytes, a parameter
--   Cfxpack/Codec           crates/cfxpack/src/codec.rs: fixed width, ULEB128, zigzag, QC8, QC5e
--   Cfxpack/Packet          packet/mod.rs: Block, Packet and the constants
--   Cfxpack/Packet/Encode   packet/encode.rs: encode_block_record
--   Cfxpack/Packet/Layout   packet/encode.rs: validate_input, choose_prefix_size, pack_block_body
--   Cfxpack/Packet/Assemble packet/encode.rs: encode_blocks, assemble_packet, encode_packet
--   Cfxpack/Decode          decode/mod.rs: decode_block_record, peek_tx_offset_units
--   Cfxpack/Decode/Tables   decode/mod.rs: the tables, decode_block_records, the epochs
--   Cfxpack/Verify          verify.rs: verify_packet
--   Cfxpack/Verify/Sites    decode/mod.rs: block_flag_sites
--   Cfxpack/Container       container.rs: parse_directory, validate_contiguity
--   Extractor/Pack          crates/replay-data-extractor/src/extract/pack.rs: ContainerBuilder,
--                           flush_container, write_containers
--   Extractor/Pack/Plan     extract/pack.rs: build_pack_tasks
--   Extractor/FlagPatch     extract/flagpatch.rs: parse_container, patch_container_bytes
--   Extractor/Tables        extract/tables.rs: Frequency and the tables of addresses, difficulties
--                           and gas prices
--   Extractor/Tables/Lookups extract/tables.rs: build_sender_base_nonce_table, build_pos_lookup,
--                           build_tables
--   Extractor/Epochs        extract/shards.rs: build_shard_tasks; extract/mod.rs: block_flags
--   Mpt/Types               crates/minimal-mpt/src/types.rs
--   Mpt/KeyCodec/Canonical  key_codec.rs: to_key_bytes, from_key_bytes
--   Mpt/KeyCodec/Delta      key_codec.rs: to_delta_mpt_key_bytes, from_delta_mpt_key, the cache
--   Mpt/Trie                trie.rs: nibbles, the hashes of a node and of a path
--   Mpt/Incremental         incremental.rs: IncrementalTrie, memo_node, memo_node_rebuild
--   Mpt/Stateless           trie.rs: trie_root, merkle_for_node
--   Mpt/Snapshot            snapshot.rs: the in-memory SnapshotTrie
--   Mpt/State/Defs          state/mod.rs: State, get, set
--   Mpt/State/Commit        state/mod.rs: commit; state/rotation.rs: advance_after_commit
--   Mpt/State/Prefix        state/prefix.rs: read_prefix, delete_prefix
--   Mpt/Store               store.rs: PersistedState, StateStore, MemoryStore
--   Mpt/Manager             state/mod.rs: persisted, from_persisted, StateManager
-- The other files of a directory hold the proofs, named for what they prove, and the tests.
--
-- Conventions. A byte string is a list of numbers; machine words are natural numbers with their
-- wrap-around written out. A map keyed by bytes is an association list in the
-- order of its keys, a map keyed by numbers one in the order of insertion. A method that
-- changes `self` returns the new state beside its result; a `Result` stands for the errors of the
-- source, and `none` of an Option for a panic. keccak is a parameter, and where a theorem needs it,
-- hashes are assumed to be lists of 32 numbers, or of 32 bytes; nothing is assumed about collisions.
-- A read of the state fills its key caches behind a shared reference; here it returns the state
-- with the new caches.
--
-- Bounds and fuel. The walk of a trie (memo_node) runs on fuel, the length of the longest key and
-- one: every step down lengthens the routing prefix by a nibble at least, and the theorems on the
-- root say that the walk answers, for a trie of any size: from 4096 entries on, a cold cache is
-- rebuilt (memo_node_rebuild), here on one thread and in the source on several. The walk of
-- trie_root runs on the same fuel.
-- The loops of the integer codec recurse on the number itself. The loops over groups of blocks and
-- over the table of sender nonces run on fuel, the number of the blocks and of the bytes, since each
-- round takes one at least; running out would be an error that the source does not have. The loop
-- over the packets that wait for their turn (write_containers) runs on their number.
-- The u64 and usize sums of the packet readers and writers wrap around, as in a release build. A
-- sum is written without the wrap-around where it cannot reach 2^64: the sums of u32 offsets and of
-- an offset inside a buffer, which has less than 2^63 bytes, with the few bytes of a field.
--
-- Parameters. U256 of cfx_types is a number below 2^256 with two functions to and from its 32
-- big-endian bytes, of which the documented length and value are assumed. Snappy's compressor and
-- decompressor and the item count of the crate rlp are functions that may fail. The transactions
-- of a block are of any type.
--
-- Not modelled: timing and logging, the checks behind the feature verify-incremental, the LMDB
-- snapshot, files and bincode, the transaction payloads (encode_tx_payload and decode/tx.rs stand on the
-- transaction types and the RLP of external crates), the one function that puts the parts of the
-- decoder together, the names of container files, the worker threads and the extraction from
-- the node's databases.
pub mod Common
pub mod Cfxpack
pub mod Mpt
pub mod Extractor
