-- ===== src/Cfxpack/Decode/Record.antt =====
-- A block record is read back from what `encode_block_record` writes, whatever padding follows.
pub mod RoundTrip
use cfx_minimal_execution.Common.{
  ℕ, zero, suc, ◌+◌, ◌-◌, ◌*◌, ◌/◌, ◌%◌, ◌^◌, ◌≤◌, ◌<◌, ◌≡◌, ◌≢◌, ◌⊎◌, ◌↔◌, refl, sym, ap, ap₂, ◌∙◌,
  subst, arith, Bool, true, false, not, Option, none, some, List, [], ◌∷◌, ◌++◌, append_assoc,
  length, length-append, length-take, get_or, get_elem?, take, drop, replicate, slice, ltb, leb,
  ◌==◌, if◌then◌else◌, take-append_at, drop-append_at, drop-drop, get_or-drop, get_or-append_at,
  Result, ok, err, ensure, ◌>>◌, ◌>>=◌, Bool-cases, Option-cases, inl, inr, le→leb,
}
use cfx_minimal_execution.Common.Extends.{Extends, Extends-trans, Extends-refl, Extends-append}
use cfx_minimal_execution.Common.Bytes.{IsByte, IsBytes, IsU64}
use cfx_minimal_execution.Common.ByteMap.{ByteMap, get}
use cfx_minimal_execution.Common.NatMap.{NatMap, find}
use cfx_minimal_execution.Cfxpack.U256.{U256Bytes, IsU256}
use cfx_minimal_execution.Cfxpack.Codec.{CodecError, put_uleb128, read_uleb128}
use cfx_minimal_execution.Cfxpack.Codec.Reads.{Reads, put_uleb128-back}
use cfx_minimal_execution.Cfxpack.Codec.Uleb.{put_uleb128-Extends}
use cfx_minimal_execution.Cfxpack.Codec.Qc.{
  Qc5eValue, enum, integer, put_qc8, put_qc5e, read_qc8, read_qc5e, gas_limit_of, base_price_of,
  qc5e_gas_limit_enum, qc5e_base_price_enum,
}
use cfx_minimal_execution.Cfxpack.Codec.Qc.RoundTrip.{
  read_qc8-put_qc8, read_qc5e-put_qc5e, enum_back,
}
use cfx_minimal_execution.Cfxpack.Packet.{Packet, Block}
use cfx_minimal_execution.Cfxpack.Packet.Encode.{
  ok_or, checked_sub, put_pos_view, record_head, encode_block_record,
}
use cfx_minimal_execution.Cfxpack.Decode.{
  table_get, h256_prefix, read_pos_view, decode_block_record,
}

-- The numbers that a QC5e field can hold.
abbrev pub IsQc5e : Option ℕ → ℕ → Type 0
IsQc5e none v = v < 2 ^ 54
IsQc5e (some e) v = Unit

module _ (u256 : U256Bytes) where
  -- A number as a QC5e field: the value read stands for the number by way of `meaning`.
  pub record QcReads (out : List ℕ) (meaning : Qc5eValue → ℕ) (v : ℕ)
      (answer : Result CodecError (List ℕ)) : Type 0 where
    pub field_value : Qc5eValue
    pub means : meaning field_value ≡ v
    pub reads : Reads out (read_qc5e u256) field_value answer

  field-QcReads :
      (out : List ℕ) (v : ℕ) (meaning : Qc5eValue → ℕ) (o : Option ℕ)
      → IsQc5e o v
      → meaning (integer v) ≡ v
      → ((e : ℕ) → o ≡ some e → (meaning (enum e) ≡ v) × (e < 64))
      → QcReads out meaning v (put_qc5e u256 out v o)
  field-QcReads out v meaning none h m g = record {
    field_value = integer v;
    means = m;
    reads = (read_qc5e-put_qc5e u256 out v 0 h (omega arith)).0;
  }
  field-QcReads out v meaning (some e) h m g =
      let (known, small) = g e refl in
      record { field_value = enum e; means = known; reads = enum_back u256 out v e small }

  pub gas_limit-QcReads :
      (out : List ℕ) (v : ℕ)
      → IsQc5e (qc5e_gas_limit_enum v) v
      → QcReads out gas_limit_of v (put_qc5e u256 out v (qc5e_gas_limit_enum v))
  gas_limit-QcReads out v h =
      field-QcReads out v gas_limit_of (qc5e_gas_limit_enum v) h (unfold gas_limit_of in refl)
        (λ e p. unfold qc5e_gas_limit_enum gas_limit_of in (ground arith, ground arith))

  pub base_price-QcReads :
      (out : List ℕ) (v : ℕ) (espace : Bool)
      → IsQc5e (qc5e_base_price_enum v espace) v
      → QcReads out
          (λ q. base_price_of q espace)
          v
          (put_qc5e u256 out v (qc5e_base_price_enum v espace))
  base_price-QcReads out v espace h =
      field-QcReads out v (λ q. base_price_of q espace) (qc5e_base_price_enum v espace) h
        (unfold base_price_of in refl)
        (λ e p. unfold qc5e_base_price_enum base_price_of in (ground arith, ground arith))

-- What a pos view must be for the height from which the reader expects one.
abbrev pub PosFits : ℕ → ℕ → ℕ → Option ℕ → Type 0
PosFits enable_height min_pos_height height none = height < enable_height
PosFits enable_height min_pos_height height (some view) =
    (enable_height ≤ height) × (min_pos_height ≤ view) × IsU64 view

pub record PosReads (out : List ℕ) (min_pos_height : ℕ) (present : Bool) (view : Option ℕ)
    (final : List ℕ) : Type 0 where
  pub grown : Extends out final
  pub back :
      (bytes : List ℕ)
      → Extends final bytes
      → read_pos_view bytes (length out) present min_pos_height ≡ ok view

pub pos_view-PosReads :
    (out : List ℕ) (enable_height min_pos_height height : ℕ) (view : Option ℕ)
    → PosFits enable_height min_pos_height height view
    → PosReads out min_pos_height
        (leb enable_height height)
        view
        (put_pos_view out view min_pos_height)
pos_view-PosReads out enable_height min_pos_height height none h =
    let early : leb enable_height height ≡ false = ground arith in
    record { grown = Extends-refl out; back = λ bytes x. rw early refl }
pos_view-PosReads out enable_height min_pos_height height (some view) (late, low, small) =
    let fits : IsU64 (view - min_pos_height) = omega arith in
    let sum : (min_pos_height + (view - min_pos_height)) % 2 ^ 64 ≡ view = omega arith in
    record {
      grown = put_uleb128-Extends out (view - min_pos_height) fits;
      back = λ bytes x.
          rw
            (
              le→leb enable_height height late,
              put_uleb128-back out (view - min_pos_height) bytes fits x,
              sum,
            )
            refl;
    }

four : (h : List ℕ) → length h ≡ 32 → length (take 4 h) ≡ 4
four h e = length-take 4 h ∙ omega arith

module _ {Tx : Type 0} where
  -- What a record keeps of a block: four bytes of each deferred hash, and no transactions.
  unfoldable pub stored : Block Tx → ℕ → ℕ → Block Tx
  stored block flags index = record block {
    epoch = 0;
    index = index;
    deferred_state_root = h256_prefix (take 4 block.deferred_state_root);
    deferred_receipts_root = h256_prefix (take 4 block.deferred_receipts_root);
    deferred_logs_bloom_hash = h256_prefix (take 4 block.deferred_logs_bloom_hash);
    flags = flags;
    transactions = [];
    transaction_refs = [];
    pos_rewards = [];
    unlock_events = [];
  }

  -- The blocks that a record can hold, with the tables and the minima of the packet.
  pub record IsEncodable (block : Block Tx) (units enable_height : ℕ) (input : Packet Tx)
      (address_index : ByteMap ℕ) (difficulty_index : NatMap ℕ) : Type 0 where
    pub hash_length : length block.hash ≡ 32
    pub state_root_length : length block.deferred_state_root ≡ 32
    pub receipts_root_length : length block.deferred_receipts_root ≡ 32
    pub bloom_length : length block.deferred_logs_bloom_hash ≡ 32
    pub author_at : ℕ
    pub author_found : get block.author address_index ≡ some author_at
    pub author_kept : get_elem? input.addresses author_at ≡ some block.author
    pub author_small : IsU64 author_at
    pub difficulty_at : ℕ
    pub difficulty_found : find block.difficulty difficulty_index ≡ some difficulty_at
    pub difficulty_kept : get_elem? input.difficulties difficulty_at ≡ some block.difficulty
    pub difficulty_small : IsU64 difficulty_at
    pub timestamp_low : input.min_timestamp ≤ block.timestamp
    pub timestamp_small : IsU64 block.timestamp
    pub height_low : input.min_height ≤ block.height
    pub height_small : IsU64 block.height
    pub blame_small : IsU64 block.blame
    pub finalized_small : IsU64 block.finalized_epoch
    pub units_small : IsU64 units
    pub gas_limit_fits : IsQc5e (qc5e_gas_limit_enum block.gas_limit) block.gas_limit
    pub core_price_fits :
        IsQc5e (qc5e_base_price_enum block.base_price_core false) block.base_price_core
    pub espace_price_fits :
        IsQc5e (qc5e_base_price_enum block.base_price_espace true) block.base_price_espace
    pub base_reward_fits : block.base_reward < 2 ^ 86
    pub pos_view_fits : PosFits enable_height input.min_pos_height block.height block.pos_view

  -- The fixed places of the head.
  pub record HasHead (block : Block Tx) (flags : ℕ) (bytes : List ℕ) : Type 0 where
    pub long : leb 45 (length bytes) ≡ true
    pub hash : take 32 bytes ≡ block.hash
    pub state_root : slice bytes 32 36 ≡ take 4 block.deferred_state_root
    pub receipts_root : slice bytes 36 40 ≡ take 4 block.deferred_receipts_root
    pub bloom : slice bytes 40 44 ≡ take 4 block.deferred_logs_bloom_hash
    pub flags_at : get_or bytes 44 0 ≡ flags

  pub length-record_head :
      (block : Block Tx) (flags : ℕ)
      → length block.hash ≡ 32
      → length block.deferred_state_root ≡ 32
      → length block.deferred_receipts_root ≡ 32
      → length block.deferred_logs_bloom_hash ≡ 32
      → length (record_head block flags) ≡ 45
  unfolding record_head
  length-record_head block flags a b c d =
      let p = take 4 block.deferred_state_root in
      let q = take 4 block.deferred_receipts_root in
      let r = take 4 block.deferred_logs_bloom_hash in
      omega (
        arith,
        length-append block.hash (p ++ (q ++ (r ++ (flags ∷ [])))),
        length-append p (q ++ (r ++ (flags ∷ []))),
        length-append q (r ++ (flags ∷ [])),
        length-append r (flags ∷ []),
        four block.deferred_state_root b,
        four block.deferred_receipts_root c,
        four block.deferred_logs_bloom_hash d,
      )

  pub record_head-HasHead :
      (block : Block Tx) (flags : ℕ) (bytes : List ℕ)
      → length block.hash ≡ 32
      → length block.deferred_state_root ≡ 32
      → length block.deferred_receipts_root ≡ 32
      → length block.deferred_logs_bloom_hash ≡ 32
      → Extends (record_head block flags) bytes
      → HasHead block flags bytes
  unfolding record_head
  record_head-HasHead block flags bytes a b c d x =
      let p = take 4 block.deferred_state_root in
      let q = take 4 block.deferred_receipts_root in
      let r = take 4 block.deferred_logs_bloom_hash in
      let lp = four block.deferred_state_root b in
      let lq = four block.deferred_receipts_root c in
      let lr = four block.deferred_logs_bloom_hash d in
      let more = x.rest in
      let e : bytes ≡ block.hash ++ (p ++ (q ++ (r ++ (flags ∷ more)))) =
        x.whole
        ∙ append_assoc block.hash _ more
        ∙ ap (λ l. block.hash ++ l)
            (append_assoc p _ more
              ∙ ap (λ l. p ++ l)
                  (append_assoc q _ more ∙ ap (λ l. q ++ l) (append_assoc r _ more))) in
      let at_p : drop 32 bytes ≡ p ++ (q ++ (r ++ (flags ∷ more))) =
        ap (drop 32) e ∙ drop-append_at 32 block.hash _ a in
      let at_q : drop 36 bytes ≡ q ++ (r ++ (flags ∷ more)) =
        sym (drop-drop 32 4 bytes) ∙ ap (drop 4) at_p ∙ drop-append_at 4 p _ lp in
      let at_r : drop 40 bytes ≡ r ++ (flags ∷ more) =
        sym (drop-drop 36 4 bytes) ∙ ap (drop 4) at_q ∙ drop-append_at 4 q _ lq in
      let at_f : drop 44 bytes ≡ flags ∷ more =
        sym (drop-drop 40 4 bytes) ∙ ap (drop 4) at_r ∙ drop-append_at 4 r _ lr in
      record {
        long =
            let size : length bytes ≡ 45 + length more =
              ap (λ l. length l) x.whole
              ∙ length-append (record_head block flags) more
              ∙ ap (λ n. n + length more) (length-record_head block flags a b c d) in
            le→leb 45 (length bytes) (omega arith);
        hash = ap (take 32) e ∙ take-append_at 32 block.hash _ a;
        state_root = ap (take 4) at_p ∙ take-append_at 4 p _ lp;
        receipts_root = ap (take 4) at_q ∙ take-append_at 4 q _ lq;
        bloom = ap (take 4) at_r ∙ take-append_at 4 r _ lr;
        flags_at = get_or-drop 44 bytes 0 ∙ ap (λ l. get_or l 0 0) at_f;
      }
