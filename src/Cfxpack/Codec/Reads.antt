-- ===== src/Cfxpack/Codec/Reads.antt =====
-- Writers that append to a buffer, and the readers that find the value again at the same place.
use cfx_minimal_execution.Common.{
  ℕ, ◌/◌, ◌%◌, ◌^◌, bit_and, bit_or, ◌<◌, ◌≡◌, append_assoc, ap, ◌∙◌, List, [], ◌∷◌, ◌++◌, length,
  Result, ok,
}
use cfx_minimal_execution.Common.Bytes.{IsU64}
use cfx_minimal_execution.Common.Extends.{Extends}
use cfx_minimal_execution.Common.Loops.{lt_wf}
use mathlib.Core.Logic.{dite}
use mathlib.Core.WellFounded.{Acc}
use native.Mathlib.Decide.{dec_lt}
use cfx_minimal_execution.Cfxpack.Codec.{
  CodecError, put_uleb128, put_uleb128_loop, read_uleb128, shift_shrinks,
}
use cfx_minimal_execution.Cfxpack.Codec.Uleb.{read_uleb128-put_uleb128}

-- A writer has appended bytes from which `read` gets `value` back, whatever follows.
pub record Reads {V : Type 0} (out : List ℕ) (read : List ℕ → ℕ → Result CodecError (V × ℕ))
    (value : V) (answer : Result CodecError (List ℕ)) : Type 0 where
  pub written : List ℕ
  pub done : answer ≡ ok written
  pub grown : Extends out written
  pub back :
      (bytes : List ℕ)
      → Extends written bytes
      → read bytes (length out) ≡ ok (value, length written)

pub put_uleb128-back :
    (out : List ℕ) (v : ℕ) (bytes : List ℕ)
    → IsU64 v
    → Extends (put_uleb128 out v) bytes
    → read_uleb128 bytes (length out) ≡ ok (v, length (put_uleb128 out v))
put_uleb128-back out v bytes h x =
    ap (λ l. read_uleb128 l (length out)) x.whole ∙ read_uleb128-put_uleb128 out x.rest v h

-- A function behind a decision, taken into both branches.
dite_map :
    {P : Type 0} {C : Type 0} {a b : P → C} {c e : ¬ P → C} (d : Dec P) (f : C → C)
    → ((p : P) → a p ≡ f (b p))
    → ((n : ¬ P) → c n ≡ f (e n))
    → dite d a c ≡ f (dite d b e)
dite_map (yes p) f h k = h p
dite_map (no n) f h k = k n

-- `put_uleb128` leaves what stands in front alone.
put_uleb128_loop-append :
    (front out : List ℕ) (v : ℕ) (a : Acc ◌<◌ v)
    → put_uleb128_loop (front ++ out) v a ≡ front ++ put_uleb128_loop out v a
unfolding put_uleb128_loop
put_uleb128_loop-append front out v (Acc.intro _ smaller) =
    let byte = bit_and v 0x7f % 256 in
    dite_map (dec_lt 0 (v / 2 ^ 7)) (λ l. front ++ l)
      (λ more.
        ap (λ l. put_uleb128_loop l (v / 2 ^ 7) (smaller (v / 2 ^ 7) (shift_shrinks v more)))
          (append_assoc front out (bit_or byte 0x80 ∷ []))
        ∙ put_uleb128_loop-append front (out ++ (bit_or byte 0x80 ∷ [])) (v / 2 ^ 7)
            (smaller (v / 2 ^ 7) (shift_shrinks v more)))
      (λ last. append_assoc front out (byte ∷ []))

pub put_uleb128-append :
    (front out : List ℕ) (v : ℕ) → put_uleb128 (front ++ out) v ≡ front ++ put_uleb128 out v
unfolding put_uleb128
put_uleb128-append front out v = put_uleb128_loop-append front out v (lt_wf.apply v)
