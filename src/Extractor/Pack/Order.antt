-- ===== src/Extractor/Pack/Order.antt =====
-- crates/replay-data-extractor/src/extract/pack.rs: write_containers puts the packets of the workers
-- back into the order of their groups.
use cfx_minimal_execution.Common.{
  ℕ, zero, suc, ◌<◌, ◌≤◌, ◌≡◌, refl, sym, ap, subst, ◌∙◌, arith, true, false, none, some, List, [],
  ◌∷◌, map, length, All, inl, inr, Bool-cases, ==_iff, ◌==◌,
}
use native.Mathlib.Decide.{dec_lt}
use cfx_minimal_execution.Extractor.Pack.{
  PacketOut, Writer, append_packet, flush_container, remove_pending, drain, receive, receive_all,
  has_entries, write_containers,
}
use cfx_minimal_execution.Extractor.Pack.Pending.{
  has, add, del, nothing, has-cons, has-cons_no, has-cons_yes, has-add, has-add_other,
  has-del_other, All-add, All-del, All-has, length-del, insert_pending-add, remove_pending-absent,
  remove_pending-present,
}
use cfx_minimal_execution.Extractor.Pack.Draining.{
  start, in_order, finish, append_packet-pending, append_packet-next, drain-some, drain-none,
  contradiction,
}

module _ (s t : ℕ) (packet : ℕ → PacketOut) (numbered : (i : ℕ) → (packet i).group_index ≡ i) where
  in_order-next : (k : ℕ) → (in_order s t packet k).next_group ≡ k
  unfolding in_order
  in_order-next zero = refl
  in_order-next (suc k) =
      append_packet-next s t (packet k) [] (in_order s t packet k) ∙ omega (arith, in_order-next k)

  -- The writer with groups 0 to k - 1 written and the groups of `early` waiting.
  abbrev at : ℕ → List ℕ → Writer
  at k early = record (in_order s t packet k) { pending = map packet early }

  at-step :
      (k : ℕ) (old new : List PacketOut)
      → append_packet s t (packet k) new (record (in_order s t packet k) { pending = old })
        ≡ record (in_order s t packet (suc k)) { pending = new }
  unfolding in_order
  at-step k old new = append_packet-pending s t (packet k) old new (in_order s t packet k)

  -- Every group seen is written or waits, and the next one does not wait.
  record Caught (n : ℕ) (seen : List ℕ) (w : Writer) : Type 0 where
    k : ℕ
    early : List ℕ
    is_at : w ≡ at k early
    within : k ≤ n
    bounded : All (λ j. j < n) early
    waits : (j : ℕ) → k ≤ j → has j seen ≡ true → has j early ≡ true
    next_missing : has k early ≡ false

  drain-Caught :
      (fuel n k : ℕ) (seen early : List ℕ)
      → length early ≤ fuel
      → k ≤ n
      → All (λ j. j < n) early
      → ((j : ℕ) → k ≤ j → has j seen ≡ true → has j early ≡ true)
      → Caught n seen (drain fuel s t (at k early))
  unfolding drain
  drain-Caught zero n k seen [] enough within bounded waits = record {
    k = k;
    early = [];
    is_at = refl;
    within = within;
    bounded = tt;
    waits = waits;
    next_missing = nothing k;
  }
  drain-Caught zero n k seen (x ∷ early) enough within bounded waits =
      absurd (omega (arith, enough))
  drain-Caught (suc fuel) n k seen early enough within bounded waits =
      elim (Bool-cases (has k early)) [
        | inl e ↦
            let rest = del k early in
            let found : remove_pending (in_order s t packet k).next_group (map packet early)
                ≡ some (packet k, map packet rest) =
              ap (λ (m : ℕ). remove_pending m (map packet early)) (in_order-next k)
              ∙ remove_pending-present packet numbered k early e in
            let step : append_packet s t (packet k) (map packet rest) (at k early)
                ≡ at (suc k) rest =
              at-step k (map packet early) (map packet rest) in
            let ih =
              drain-Caught fuel n (suc k) seen rest (omega (arith, length-del k early e, enough))
                (All-has (λ j. j < n) k early bounded e) (All-del (λ j. j < n) k early bounded)
                (λ j l h.
                  has-del_other j k early (λ m. absurd (omega (arith, l, m)))
                    (waits j (omega (arith, l)) h)) in
            record {
              k = ih.k;
              early = ih.early;
              is_at =
                  drain-some s t fuel (at k early) (packet k, map packet rest) found
                  ∙ ap (drain fuel s t) step
                  ∙ ih.is_at;
              within = ih.within;
              bounded = ih.bounded;
              waits = ih.waits;
              next_missing = ih.next_missing;
            }
        | inr e ↦
            let absent : remove_pending (in_order s t packet k).next_group (map packet early)
                ≡ none =
              ap (λ (m : ℕ). remove_pending m (map packet early)) (in_order-next k)
              ∙ remove_pending-absent packet numbered k early e in
            record {
              k = k;
              early = early;
              is_at = drain-none s t fuel (at k early) absent;
              within = within;
              bounded = bounded;
              waits = waits;
              next_missing = e;
            }
      ]

  length-packets : (xs : List ℕ) → length (map packet xs) ≡ length xs
  length-packets [] = refl
  length-packets (x ∷ xs) = ap suc (length-packets xs)

  -- What waited still waits, and so does the packet that has arrived.
  waits-add :
      (k j : ℕ) (seen early : List ℕ)
      → ((i : ℕ) → k ≤ i → has i seen ≡ true → has i early ≡ true)
      → (i : ℕ) → k ≤ i
      → has i (j ∷ seen) ≡ true
      → has i (add j early) ≡ true
  waits-add k j seen early waits i l h = elim (Bool-cases (j == i)) [
    | inl e ↦ ap (λ (m : ℕ). has m (add j early)) (sym ((==_iff j i).0 e)) ∙ has-add j early
    | inr e ↦ has-add_other i j early (waits i l (sym (has-cons_no i j seen e) ∙ h))
  ]

  receive-at :
      (j k : ℕ) (early : List ℕ)
      → receive s t (packet j) (at k early)
        ≡ drain (length (map packet (add j early))) s t (at k (add j early))
  unfolding receive
  receive-at j k early =
      ap
        (λ (l : List PacketOut).
          drain (length l) s t (record (in_order s t packet k) { pending = l }))
        (insert_pending-add packet numbered j early)

  receive-Caught :
      (n j : ℕ) (seen : List ℕ) (w : Writer)
      → j < n
      → Caught n seen w
      → Caught n (j ∷ seen) (receive s t (packet j) w)
  receive-Caught n j seen w small c =
      let early = add j c.early in
      let d =
        drain-Caught (length (map packet early)) n c.k (j ∷ seen) early
          (omega (arith, length-packets early)) c.within
          (All-add (λ i. i < n) j c.early c.bounded small) (waits-add c.k j seen c.early c.waits) in
      subst (Caught n (j ∷ seen))
        (sym (ap (receive s t (packet j)) c.is_at ∙ receive-at j c.k c.early)) d

  -- Groups in the order they are seen, the last one first.
  abbrev onto : List ℕ → List ℕ → List ℕ
  onto [] seen = seen
  onto (j ∷ arrivals) seen = onto arrivals (j ∷ seen)

  has-onto :
      (i : ℕ) (arrivals seen : List ℕ) → has i seen ≡ true → has i (onto arrivals seen) ≡ true
  has-onto i [] seen h = h
  has-onto i (j ∷ arrivals) seen h = has-onto i arrivals (j ∷ seen) (has-cons i j seen h)

  has-onto_new :
      (i : ℕ) (arrivals seen : List ℕ) → has i arrivals ≡ true → has i (onto arrivals seen) ≡ true
  has-onto_new i [] seen h = let e : has i [] ≡ false = nothing i in cc
  has-onto_new i (j ∷ arrivals) seen h = elim (Bool-cases (j == i)) [
    | inl e ↦ has-onto i arrivals (j ∷ seen) (has-cons_yes i j seen e)
    | inr e ↦ has-onto_new i arrivals (j ∷ seen) (sym (has-cons_no i j arrivals e) ∙ h)
  ]

  receive_all-Caught :
      (n : ℕ) (arrivals seen : List ℕ) (w : Writer)
      → All (λ j. j < n) arrivals
      → Caught n seen w
      → Caught n (onto arrivals seen) (receive_all s t (map packet arrivals) w)
  unfolding receive_all
  receive_all-Caught n [] seen w h c = c
  receive_all-Caught n (j ∷ arrivals) seen w (small, h) c =
      receive_all-Caught n arrivals (j ∷ seen) (receive s t (packet j) w) h
        (receive-Caught n j seen w small c)

  -- All groups are written once the last one has arrived.
  all_written :
      (n : ℕ) (arrivals : List ℕ) (w : Writer)
      → ((j : ℕ) → j < n → has j arrivals ≡ true)
      → Caught n (onto arrivals []) w
      → (early : List ℕ) × (w ≡ at n early)
  all_written n arrivals w all c = elim (dec_lt c.k n) [
    | yes short ↦
        let waiting = c.waits c.k (omega arith) (has-onto_new c.k arrivals [] (all c.k short)) in
        let missing = c.next_missing in absurd (contradiction (has c.k c.early) waiting missing)
    | no done ↦
        let e : c.k ≡ n = omega (arith, c.within, done) in
        (c.early, c.is_at ∙ ap (λ (k : ℕ). at k c.early) e)
  ]

  finish-pending :
      (w : Writer) (waiting : List PacketOut)
      → (finish s (record w { pending = waiting })).files ≡ (finish s w).files
  unfolding finish flush_container
  finish-pending w waiting = elim (Bool-cases (has_entries w.builder.entries)) [
    | inl e ↦ rw e refl
    | inr e ↦ rw e refl
  ]

  -- The files of `write_containers` do not depend on the order in which the packets of the workers
  -- arrive: where every group below `n` arrives, and no other, they are the files of the writer that
  -- gets the groups one after the other from 0 to n - 1. So no packet stays behind.
  pub write_containers-in_order :
      (n : ℕ) (arrivals : List ℕ)
      → All (λ j. j < n) arrivals
      → ((j : ℕ) → j < n → has j arrivals ≡ true)
      → (write_containers s t (map packet arrivals)).files
        ≡ (finish s (in_order s t packet n)).files
  unfolding write_containers finish in_order
  write_containers-in_order n arrivals small all =
      let first : Caught n [] (at 0 []) = record {
        k = 0;
        early = [];
        is_at = refl;
        within = omega arith;
        bounded = tt;
        waits = λ j l h. h;
        next_missing = nothing 0;
      } in
      let (early, e) =
        all_written n arrivals (receive_all s t (map packet arrivals) start) all
          (receive_all-Caught n arrivals [] start small first) in
      ap (λ (w : Writer). (finish s w).files) e
      ∙ finish-pending (in_order s t packet n) (map packet early)
