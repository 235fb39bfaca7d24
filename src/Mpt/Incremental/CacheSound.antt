-- ===== src/Mpt/Incremental/CacheSound.antt =====
-- A walk over a cache that holds true hashes answers the true hash and leaves such a cache.
use cfx_minimal_execution.Common.{
  ℕ, zero, suc, ◌+◌, ◌-◌, ◌≤◌, ◌≡◌, refl, sym, ap, subst, ◌∙◌, arith, Bool, true, false, Option,
  none, some, List, [], ◌∷◌, ◌++◌, length, take, ◌⊎◌, Bool-cases, inl, inr, if◌then◌else◌,
}
use cfx_minimal_execution.Common.Partial.{◌>>=◌, >>=-eq-some}
use cfx_minimal_execution.Common.ByteMap.{get, insert, get-insert, bytes_eq, bytes_eq_iff}
use cfx_minimal_execution.Mpt.Types.{H256}
use cfx_minimal_execution.Mpt.Trie.{MptValue, merkle_value}
use cfx_minimal_execution.Mpt.Incremental.{
  Entries, Cache, CachePolicy, block, covered, last_key, node_hash, child_nibbles, child_slot,
  child_slots, open_slot, walk_block, memo_node,
}
use cfx_minimal_execution.Mpt.Incremental.Plain.{
  plain_slot, plain_slots, plain_block, plain_node, slot_of, slot_mono, slots_mono, node_mono,
  IsHash,
}
use mathlib.Core.Option
use mathlib.Core.Option.{some_inj}

-- The children of a node are compressed, the root is not.
abbrev pub nonempty : List ℕ → Bool
nonempty [] = false
nonempty (x ∷ xs) = true

pub nonempty_child : (fp : List ℕ) (c : ℕ) → nonempty (fp ++ (c ∷ [])) ≡ true
nonempty_child [] c = refl
nonempty_child (x ∷ xs) c = refl

module _ (keccak : List ℕ → H256) (m : Entries) where
  -- Each cached hash is the hash of its node.
  pub record IsValidCache (cache : Cache) : Type 0 where
    pub true_hash :
        (rp : List ℕ) (h : H256) → get rp cache ≡ some h → IsHash keccak m rp (nonempty rp) h

  -- A walk at `rp` has answered the hash of the node, and left a valid cache.
  pub record NodeGood (rp : List ℕ) (allow : Bool) (answer : H256 × Cache) : Type 0 where
    pub hash : IsHash keccak m rp allow answer.0
    pub valid : IsValidCache answer.1

  visited :
      (f : ℕ) (q : List ℕ) (h : H256)
      → plain_node keccak f m q true ≡ some h
      → plain_slot (λ r. plain_node keccak f m r true) m q ≡ some h
  unfolding plain_slot plain_node plain_block
  visited zero q h e = cc
  visited (suc f) q h e = by_block (block q m) refl e
    where
      by_block :
          (b : Entries)
          → block q m ≡ b
          → plain_block keccak (λ r. plain_node keccak f m r true) m q true b ≡ some h
          → slot_of (plain_node keccak (suc f) m q true) b ≡ some h
      by_block [] eb g = cc
      by_block (x ∷ xs) eb g = e

  -- A cache stays valid with one more true hash.
  pub remember :
      (rp : List ℕ) (h : H256) (cache : Cache) (keep_it : Bool)
      → IsHash keccak m rp (nonempty rp) h
      → IsValidCache cache
      → IsValidCache (if keep_it then insert rp h cache else cache)
  remember rp h cache false p valid = valid
  remember rp h cache true p valid = record {
    true_hash = λ q g e. by_key q g (Bool-cases (bytes_eq rp q)) e;
  }
    where
      by_key :
          (q : List ℕ) (g : H256)
          → (bytes_eq rp q ≡ true) ⊎ (bytes_eq rp q ≡ false)
          → get q (insert rp h cache) ≡ some g
          → IsHash keccak m q (nonempty q) g
      by_key q g (inl same) e =
          let at_key : ◌≡◌ {A = Option H256} (some h) (some g) =
            sym (get-insert rp q h cache ∙ rw same) ∙ e in
          subst (λ p. IsHash keccak m p (nonempty p) g) ((bytes_eq_iff rp q).0 same)
            (subst (IsHash keccak m rp (nonempty rp)) (some_inj.0 at_key) p)
      by_key q g (inr other) e = valid.true_hash q g (sym (get-insert rp q h cache ∙ rw other) ∙ e)

  module _ (visit : List ℕ → Cache → Option (H256 × Cache))
      (sound : (q : List ℕ) (c : Cache) (r : H256 × Cache)
        → nonempty q ≡ true
        → IsValidCache c
        → visit q c ≡ some r
        → NodeGood q true r) where
    -- An answer for a slot, against the slot of the plain walk.
    record SlotGood (q : List ℕ) (answer : H256 × Cache) : Type 0 where
      fuel : ℕ
      hash : plain_slot (λ p. plain_node keccak fuel m p true) m q ≡ some answer.0
      valid : IsValidCache answer.1

    slot_sound :
        (q : List ℕ) (cache : Cache) (r : H256 × Cache)
        → nonempty q ≡ true
        → IsValidCache cache
        → child_slot visit m q cache ≡ some r
        → SlotGood q r
    unfolding child_slot
    slot_sound q cache r ne valid e = by_cache (get q cache) refl e
      where
        by_block : (b : Entries) → block q m ≡ b → open_slot visit q cache b ≡ some r → SlotGood q r
        by_block [] eb g =
            subst (SlotGood q) (some_inj.0 g)
              (record { fuel = 0; hash = unfold plain_slot in rw eb; valid = valid })
        by_block (x ∷ xs) eb g =
            let good = sound q cache r ne valid g in
            record {
              fuel = good.hash.0;
              hash = visited good.hash.0 q r.0 good.hash.1;
              valid = good.valid;
            }

        by_cache :
            (o : Option H256)
            → get q cache ≡ o
            → (elim o [
              | some hash ↦ some (hash, cache)
              | none ↦ open_slot visit q cache (block q m)
            ])
              ≡ some r
            → SlotGood q r
        by_cache none eo g = by_block (block q m) refl g
        by_cache (some h) eo g =
            let (f, p) = (rw ne at (valid.true_hash q h eo)) in
            subst (SlotGood q) (some_inj.0 g)
              (record { fuel = f; hash = visited f q h p; valid = valid })

    record SlotsGood (fp cs : List ℕ) (answer : List H256 × Cache) : Type 0 where
      fuel : ℕ
      hashes : plain_slots (λ p. plain_node keccak fuel m p true) m fp cs ≡ some answer.0
      valid : IsValidCache answer.1

    more_fuel :
        (g f : ℕ) (rp : List ℕ) (h : H256)
        → f ≤ g
        → plain_node keccak f m rp true ≡ some h
        → plain_node keccak g m rp true ≡ some h
    more_fuel g f rp h l e =
        ap (λ n. plain_node keccak n m rp true) (let p : g ≡ (g - f) + f = omega arith in p)
        ∙ node_mono keccak (g - f) f m rp true h e

    slots_sound :
        (fp cs : List ℕ) (cache : Cache) (r : List H256 × Cache)
        → IsValidCache cache
        → child_slots visit m fp cs cache ≡ some r
        → SlotsGood fp cs r
    unfolding child_slots plain_slots
    slots_sound fp [] cache r valid e =
        subst (SlotsGood fp []) (some_inj.0 e) (record { fuel = 0; hashes = refl; valid = valid })
    slots_sound fp (c ∷ cs) cache r valid e =
        let q = fp ++ (c ∷ []) in
        let (r1, e1, g1) = >>=-eq-some (child_slot visit m q cache) _ e in
        let (r2, e2, g2) = >>=-eq-some (child_slots visit m fp cs r1.1) _ g1 in
        let a = slot_sound q cache r1 (nonempty_child fp c) valid e1 in
        let b = slots_sound fp cs r1.1 r2 a.valid e2 in
        let n = a.fuel + b.fuel in
        subst (SlotsGood fp (c ∷ cs)) (some_inj.0 g2) (record {
          fuel = n;
          hashes = rw (
            slot_mono _ _ (λ p h. more_fuel n a.fuel p h (omega arith)) m q r1.0 a.hash,
            slots_mono _ _ (λ p h. more_fuel n b.fuel p h (omega arith)) m fp cs r2.0 b.hashes,
          );
          valid = b.valid;
        })

    -- The walk behind its choice of the last key, at the depth `n` that the node covers.
    finish :
        (rp : List ℕ) (allow : Bool) (cache : Cache) (r : H256 × Cache) (first : List ℕ)
        (v : MptValue) (rest : Entries) (keep_it : Bool) (n : ℕ)
        → allow ≡ nonempty rp
        → block rp m ≡ (first, v) ∷ rest
        → IsValidCache cache
        → covered allow first (last_key first rest) (length rp) ≡ n
        → (child_slots visit m (take n first) child_nibbles cache >>= λ s.
            let hash =
              node_hash keccak first
                (length rp)
                n
                s.0
                (Option.map merkle_value (get (take n first) m)) in
            some (hash, if keep_it then insert rp hash s.1 else s.1))
          ≡ some r
        → NodeGood rp allow r
    finish rp allow cache r first v rest keep_it n ea eb valid en e =
        let (s, es, g) = >>=-eq-some (child_slots visit m (take n first) child_nibbles cache) _ e in
        let a = slots_sound (take n first) child_nibbles cache s valid es in
        let hash =
          node_hash keccak first (length rp) n s.0
            (Option.map merkle_value (get (take n first) m)) in
        let found : IsHash keccak m rp allow hash = (
          suc a.fuel,
          unfold plain_node plain_block in rw (eb, plain_block) (rw en (rw a.hashes)),
        ) in
        subst (NodeGood rp allow) (some_inj.0 g) (record {
          hash = found;
          valid =
              remember rp hash s.1 keep_it (subst (λ b. IsHash keccak m rp b hash) ea found)
                a.valid;
        })

    walk_sound :
        (policy : CachePolicy) (rp : List ℕ) (allow : Bool) (cache : Cache) (r : H256 × Cache)
        (b : Entries)
        → allow ≡ nonempty rp
        → block rp m ≡ b
        → IsValidCache cache
        → walk_block keccak visit policy m rp allow cache b ≡ some r
        → NodeGood rp allow r
    unfolding walk_block
    walk_sound policy rp allow cache r [] ea eb valid e = cc
    walk_sound policy rp true cache r ((first, v) ∷ rest) ea eb valid e =
        finish rp true cache r first v rest _ _ ea eb valid refl e
    walk_sound policy rp false cache r ((first, v) ∷ rest) ea eb valid e =
        finish rp false cache r first v rest _ _ ea eb valid refl e

  pub memo_sound :
      (f : ℕ) (policy : CachePolicy) (rp : List ℕ) (allow : Bool) (cache : Cache) (r : H256 × Cache)
      → allow ≡ nonempty rp
      → IsValidCache cache
      → memo_node keccak f policy m rp allow cache ≡ some r
      → NodeGood rp allow r
  unfolding memo_node
  memo_sound zero policy rp allow cache r ea valid e = cc
  memo_sound (suc f) policy rp allow cache r ea valid e =
      by_cache (λ q c r' ne valid' e'. memo_sound f policy q true c r' (sym ne) valid' e')
        (get rp cache) refl e
    where
      visit : List ℕ → Cache → Option (H256 × Cache)
      visit q c = memo_node keccak f policy m q true c

      by_cache :
          ((q : List ℕ) (c : Cache) (r' : H256 × Cache)
            → nonempty q ≡ true
            → IsValidCache c
            → visit q c ≡ some r'
            → NodeGood q true r')
          → (o : Option H256) → get rp cache ≡ o
          → (elim o [
            | some hash ↦ some (hash, cache)
            | none ↦ walk_block keccak visit policy m rp allow cache (block rp m)
          ])
            ≡ some r
          → NodeGood rp allow r
      by_cache ih none eo g =
          walk_sound visit ih policy rp allow cache r (block rp m) ea refl valid g
      by_cache ih (some h) eo g = subst (NodeGood rp allow) (some_inj.0 g) (record {
        hash = subst (λ b. IsHash keccak m rp b h) (sym ea) (valid.true_hash rp h eo);
        valid = valid;
      })
