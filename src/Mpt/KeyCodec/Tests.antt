-- ===== src/Mpt/KeyCodec/Tests.antt =====
-- Runs of the key codec on concrete keys.
use cfx_minimal_execution.Common.{◌≡◌, refl, none, some, [], ◌∷◌, replicate, ok, ◌>>=◌}
use cfx_minimal_execution.Mpt.Types.{native, ethereum}
use cfx_minimal_execution.Mpt.KeyCodec.Canonical.{
  StorageKeyWithSpace, storage, vote_list, to_key_bytes, from_key_bytes,
}
use cfx_minimal_execution.Mpt.KeyCodec.Canonical.RoundTrip.{
  from_key_bytes-to_key_bytes, to_key_bytes_injective,
}
use cfx_minimal_execution.Mpt.KeyCodec.Delta.{
  empty_cache, from_delta_mpt_key, to_delta_mpt_key_bytes,
}
use cfx_minimal_execution.Mpt.KeyCodec.Delta.Cache.{
  empty_cache-IsFaithful, Transparent, to_delta_mpt_key_bytes-cache,
}
use cfx_minimal_execution.Mpt.KeyCodec.Delta.RoundTrip.{
  from_delta_mpt_key-to_delta_mpt_key_bytes, to_delta_mpt_key_bytes_injective,
}
use cfx_minimal_execution.Mpt.ToyHash.{toy_hash, length-toy_hash}

abbrev slot : StorageKeyWithSpace
slot = record { key = storage (replicate 20 2) (7 ∷ 8 ∷ []); space = ethereum }

abbrev votes : StorageKeyWithSpace
votes = record { key = vote_list (replicate 20 3); space = native }

from_key_bytes-to_key_bytes_example : (to_key_bytes slot >>= from_key_bytes) ≡ ok slot
from_key_bytes-to_key_bytes_example = from_key_bytes-to_key_bytes slot (refl, λ e. cc)

to_key_bytes_injective_example : slot ≡ slot
to_key_bytes_injective_example =
    to_key_bytes_injective slot slot (refl, λ e. cc) (refl, λ e. cc) refl

from_delta_mpt_key-to_delta_mpt_key_bytes_example :
    ((to_delta_mpt_key_bytes toy_hash slot (replicate 32 4) none).0 >>= from_delta_mpt_key)
    ≡ ok slot
from_delta_mpt_key-to_delta_mpt_key_bytes_example =
    from_delta_mpt_key-to_delta_mpt_key_bytes toy_hash length-toy_hash slot (replicate 32 4) refl

to_delta_mpt_key_bytes_injective_example : votes ≡ votes
to_delta_mpt_key_bytes_injective_example =
    to_delta_mpt_key_bytes_injective toy_hash length-toy_hash votes votes (replicate 32 4) refl refl
      refl

to_delta_mpt_key_bytes-cache_example :
    Transparent toy_hash
      (to_delta_mpt_key_bytes toy_hash slot (replicate 32 4) (some (empty_cache toy_hash)))
      (to_delta_mpt_key_bytes toy_hash slot (replicate 32 4) none)
to_delta_mpt_key_bytes-cache_example =
    to_delta_mpt_key_bytes-cache toy_hash slot (replicate 32 4) (empty_cache toy_hash)
      (empty_cache-IsFaithful toy_hash)
