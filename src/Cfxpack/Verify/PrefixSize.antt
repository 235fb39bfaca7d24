-- ===== src/Cfxpack/Verify/PrefixSize.antt =====
-- The prefix size that packet/encode.rs chooses, and the sizes that the readers accept.
use cfx_minimal_execution.Common.{
  ℕ, suc, ◌+◌, ◌*◌, ◌≡◌, refl, arith, true, List, length, ltb, leb, ◌&&◌, inl, inr, Bool-cases,
}
use cfx_minimal_execution.Cfxpack.Packet.Layout.{count_fitting, choose_from, choose_prefix_size}
use cfx_minimal_execution.Cfxpack.Verify.{is_prefix_size}

-- The loop from `n` on has come to the same accepted size, in `rounds` rounds and in more.
record Settles (rounds n : ℕ) (records : List (List ℕ)) : Type 0 where
  same : (k : ℕ) → choose_from (rounds + k) n records ≡ choose_from rounds n records
  accepted : is_prefix_size (choose_from rounds n records) ≡ true

last_size : (records : List (List ℕ)) → Settles 1 96 records
unfolding choose_from
last_size records = record {
  same = λ k. let e : 1 + k ≡ suc k = omega arith in rw e refl;
  accepted = refl;
}

-- One round more, below the last size.
size_before :
    (rounds n : ℕ) (records : List (List ℕ))
    → is_prefix_size n ≡ true
    → Settles rounds (n + 8) records
    → Settles (suc rounds) n records
unfolding choose_from
size_before rounds n records good s = record {
  same = λ k. let e : suc rounds + k ≡ suc (rounds + k) = omega arith in rw (e, s.same k) refl;
  accepted =
      elim (Bool-cases (ltb n 80 && ltb (count_fitting n records * 10) (9 * length records))) [
        | inl few ↦ rw few s.accepted
        | inr enough ↦
            elim (Bool-cases
              (ltb n 96 && leb 80 n && ltb (count_fitting n records * 10) (7 * length records))) [
                | inl few ↦ rw (enough, few) s.accepted
                | inr last ↦ rw (enough, last) good
              ]
      ];
}

-- `choose_prefix_size` always chooses one of the sizes that `verify_packet` and `decode_packet`
-- accept, and its loop has ended by then: more rounds than the model allows change nothing.
pub is_prefix_size-choose_prefix_size :
    (records : List (List ℕ))
    → (is_prefix_size (choose_prefix_size records) ≡ true)
      × ((k : ℕ) → choose_from (5 + k) 64 records ≡ choose_prefix_size records)
unfolding choose_prefix_size
is_prefix_size-choose_prefix_size records =
    let s88 = size_before 1 88 records refl (last_size records) in
    let s80 = size_before 2 80 records refl s88 in
    let s72 = size_before 3 72 records refl s80 in
    let s64 = size_before 4 64 records refl s72 in (s64.accepted, s64.same)
