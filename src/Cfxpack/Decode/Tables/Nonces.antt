-- ===== src/Cfxpack/Decode/Tables/Nonces.antt =====
-- The table of sender nonces of decode/mod.rs on the bytes that packet/encode.rs writes for it.
use cfx_minimal_execution.Common.{
  ℕ, zero, suc, ◌+◌, ◌≤◌, ◌<◌, ◌≡◌, refl, arith, true, false, List, [], ◌∷◌, length, All, ltb, ok,
}
use cfx_minimal_execution.Common.Bytes.{IsU64}
use cfx_minimal_execution.Common.Extends.{Extends, Extends-refl, Extends-trans}
use cfx_minimal_execution.Cfxpack.Codec.{put_uleb128, read_uleb128}
use cfx_minimal_execution.Cfxpack.Codec.Reads.{put_uleb128-back}
use cfx_minimal_execution.Cfxpack.Codec.Uleb.{put_uleb128-Extends, read_uleb128_bounds}
use cfx_minimal_execution.Cfxpack.Packet.{SenderBaseNonce}
use cfx_minimal_execution.Cfxpack.Packet.Assemble.{put_sender_base_nonces}
use cfx_minimal_execution.Cfxpack.Decode.Tables.{
  decode_sender_base_nonces_from, decode_sender_base_nonces,
}

abbrev FitsNonce : SenderBaseNonce → Type 0
FitsNonce e = IsU64 e.sender_index × IsU64 e.base_nonce

put_sender_base_nonces-Extends :
    (out : List ℕ) (entries : List SenderBaseNonce)
    → All FitsNonce entries
    → Extends out (put_sender_base_nonces out entries)
unfolding put_sender_base_nonces
put_sender_base_nonces-Extends out [] h = Extends-refl out
put_sender_base_nonces-Extends out (e ∷ entries) ((p, q), h) =
    let out1 = put_uleb128 out e.sender_index in
    let out2 = put_uleb128 out1 e.base_nonce in
    Extends-trans out out1 _ (put_uleb128-Extends out e.sender_index p) (
      Extends-trans out1 out2 _ (put_uleb128-Extends out1 e.base_nonce q)
        (put_sender_base_nonces-Extends out2 entries h))

-- What the reader's loop finds where one entry was written.
record EntryRead (out : List ℕ) (e : SenderBaseNonce) (bytes : List ℕ) : Type 0 where
  first :
      read_uleb128 bytes (length out) ≡ ok (e.sender_index, length (put_uleb128 out e.sender_index))
  second :
      read_uleb128 bytes (length (put_uleb128 out e.sender_index))
      ≡ ok (e.base_nonce, length (put_uleb128 (put_uleb128 out e.sender_index) e.base_nonce))
  grows : length out < length (put_uleb128 (put_uleb128 out e.sender_index) e.base_nonce)
  inside : length (put_uleb128 (put_uleb128 out e.sender_index) e.base_nonce) ≤ length bytes

entry_read :
    (out : List ℕ) (e : SenderBaseNonce) (bytes : List ℕ)
    → IsU64 e.sender_index
    → IsU64 e.base_nonce
    → Extends (put_uleb128 (put_uleb128 out e.sender_index) e.base_nonce) bytes
    → EntryRead out e bytes
entry_read out e bytes p q x2 =
    let out1 = put_uleb128 out e.sender_index in
    let out2 = put_uleb128 out1 e.base_nonce in
    let x1 = Extends-trans out1 out2 bytes (put_uleb128-Extends out1 e.base_nonce q) x2 in
    let read1 = put_uleb128-back out e.sender_index bytes p x1 in
    let read2 = put_uleb128-back out1 e.base_nonce bytes q x2 in
    let bounds1 = read_uleb128_bounds bytes (length out) e.sender_index (length out1) read1 in
    let bounds2 = read_uleb128_bounds bytes (length out1) e.base_nonce (length out2) read2 in
    record {
      first = read1;
      second = read2;
      grows = omega (arith, bounds1, bounds2);
      inside = omega (arith, bounds2);
    }

-- The reader's loop where the writer has come to, with at least one round for each byte left.
nonces_back :
    (fuel : ℕ) (out : List ℕ) (entries : List SenderBaseNonce)
    → All FitsNonce entries
    → length (put_sender_base_nonces out entries) ≤ length out + fuel
    → decode_sender_base_nonces_from fuel (put_sender_base_nonces out entries) (length out)
      ≡ ok entries
unfolding put_sender_base_nonces decode_sender_base_nonces_from
nonces_back zero out [] h enough =
    let e : ltb (length out) (length out) ≡ false = ground arith in rw e refl
nonces_back (suc fuel) out [] h enough =
    let e : ltb (length out) (length out) ≡ false = ground arith in rw e refl
nonces_back zero out (e ∷ entries) ((p, q), h) enough =
    let r =
      entry_read out e (put_sender_base_nonces _ entries) p q
        (put_sender_base_nonces-Extends _ entries h) in
    ground (arith, r.grows, enough)
nonces_back (suc fuel) out (e ∷ entries) ((p, q), h) enough =
    let out2 = put_uleb128 (put_uleb128 out e.sender_index) e.base_nonce in
    let bytes = put_sender_base_nonces out2 entries in
    let r = entry_read out e bytes p q (put_sender_base_nonces-Extends out2 entries h) in
    let more : ltb (length out) (length bytes) ≡ true = ground (arith, r.grows, r.inside) in
    rw (more, r.first, r.second, nonces_back fuel out2 entries h (omega (arith, r.grows, enough)))
      refl

-- `decode_sender_base_nonces` gets back the entries, of two u64 each, that the packet's table of
-- sender nonces was written from: its loop ends at the end of the table.
pub decode_sender_base_nonces-put_sender_base_nonces :
    (entries : List SenderBaseNonce)
    → All FitsNonce entries
    → decode_sender_base_nonces (put_sender_base_nonces [] entries) ≡ ok entries
unfolding decode_sender_base_nonces
decode_sender_base_nonces-put_sender_base_nonces entries h =
    nonces_back (length (put_sender_base_nonces [] entries)) [] entries h (omega arith)
