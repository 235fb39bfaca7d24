-- ===== src/Mpt/Types.antt =====
-- crates/minimal-mpt/src/types.rs: the types that the other modules share. A hash is its list of
-- 32 bytes. `Io` and `Codec` errors come from the file store, whose causes are not modelled.
use cfx_minimal_execution.Common.{ℕ, List, [], ◌∷◌, ◌++◌}
use cfx_minimal_execution.Common.{Result}
use Prim.Native.String.{String}

abbrev pub H256 : Type 0
H256 = List ℕ

abbrev pub merkle_null_node : H256
merkle_null_node =
    0xc5 ∷ 0xd2 ∷ 0x46 ∷ 0x01 ∷ 0x86 ∷ 0xf7 ∷ 0x23 ∷ 0x3c ∷ 0x92 ∷ 0x7e ∷ 0x7d ∷ 0xb2 ∷ 0xdc ∷ 0xc7
    ∷ 0x03 ∷ 0xc0 ∷ 0xe5 ∷ 0x00 ∷ 0xb6 ∷ 0x53 ∷ 0xca ∷ 0x82 ∷ 0x27 ∷ 0x3b ∷ 0x7b ∷ 0xfa ∷ 0xd8
    ∷ 0x04 ∷ 0x5d ∷ 0x85 ∷ 0xa4 ∷ 0x70 ∷ []

pub data Space : Type 0 where
  native ethereum : Space

pub data Error : Type 0 where
  invalid_key : String → Error
  io codec : Error

abbrev pub MptResult {ℓ} : Type ℓ → Type ℓ
MptResult A = Result Error A

pub record CommitRoot : Type 0 where
  pub snapshot_root : H256
  pub intermediate_delta_root : H256
  pub delta_root : H256
  pub state_root_hash : H256
  pub delta_mpt_key_padding : List ℕ

-- `CommitRoot::new`; the hash function stands outside the repository.
module _ (keccak : List ℕ → H256) where
  unfoldable pub commit_root : H256 → H256 → H256 → List ℕ → CommitRoot
  commit_root snapshot_root intermediate_delta_root delta_root delta_mpt_key_padding = record {
    snapshot_root = snapshot_root;
    intermediate_delta_root = intermediate_delta_root;
    delta_root = delta_root;
    state_root_hash = keccak (snapshot_root ++ (intermediate_delta_root ++ delta_root));
    delta_mpt_key_padding = delta_mpt_key_padding;
  }
