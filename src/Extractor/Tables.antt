-- ===== src/Extractor/Tables.antt =====
-- crates/replay-data-extractor/src/extract/tables.rs: the tables of a packet that the records refer
-- to by index. Of a header and of a transaction, which are types of the crate primitives, a record
-- holds what the source reads of them. A hash map or set of the source is a list in the order of
-- insertion; what depends on the order of its entries is sorted by the source.

mod Covers
mod Once
mod Lookups
mod Tests
use cfx_minimal_execution.Common.{
  ℕ, zero, suc, ◌+◌, ◌==◌, ltb, Bool, true, false, ◌&&◌, ◌||◌, Option, none, some, List, [], ◌∷◌,
  ◌++◌, take, if◌then◌else◌,
}
use cfx_minimal_execution.Common.ByteMap.{bytes_eq}

-- The transaction of a block, with the address that it calls; none for a creation.
pub record Transaction : Type 0 where
  pub sender : List ℕ
  pub call : Option (List ℕ)
  pub nonce : ℕ
  pub gas_price : ℕ
  pub max_priority_gas_price : ℕ

-- Of the fields of a block, those that the tables read. The base price is that of the native and
-- that of the Ethereum space.
pub record RawBlock : Type 0 where
  pub height : ℕ
  pub pos_reference : Option (List ℕ)
  pub author : List ℕ
  pub difficulty : ℕ
  pub base_price : Option (ℕ × ℕ)
  pub body : List Transaction

-- A value of the map `counts`: its count, and the order in which it was seen first.
pub record Counted (T : Type 0) : Type 0 where
  pub key : T
  pub count : ℕ
  pub order : ℕ

pub record Frequency (T : Type 0) : Type 0 where
  pub counts : List (Counted T)
  pub next_order : ℕ

abbrev pub empty_frequency : {T : Type 0} → Frequency T
empty_frequency = record { counts = []; next_order = 0 }

module _ {T : Type 0} (same : T → T → Bool) where
  -- `seen.contains`.
  unfoldable pub contains : T → List T → Bool
  contains v [] = false
  contains v (w ∷ ws) = same w v || contains v ws

  -- `entry(value).and_modify(…)`, with whether there was an entry.
  unfoldable pub modify_count : T → List (Counted T) → Bool × List (Counted T)
  modify_count v [] = (false, [])
  modify_count v (c ∷ counts) =
      let (found, rest) = modify_count v counts in
      if same c.key v then (true, record c { count = suc c.count } ∷ counts) else (found, c ∷ rest)

  -- `Frequency::add`.
  unfoldable pub add : T → Frequency T → Frequency T
  unfolding modify_count
  add v f =
      let (found, counts) = modify_count v f.counts in
      if found then record f { counts = counts } else record {
        counts = counts ++ (record { key = v; count = 1; order = f.next_order } ∷ []);
        next_order = suc f.next_order;
      }

  unfoldable pub add_all : List T → Frequency T → Frequency T
  unfolding add
  add_all [] f = f
  add_all (v ∷ vs) f = add_all vs (add v f)

  -- The loop of `build_difficulty_table`: a value goes to the table where it is new.
  unfoldable pub distinct : List T → List T → List T
  unfolding contains
  distinct [] out = out
  distinct (v ∷ vs) out = distinct vs (if contains v out then out else out ++ (v ∷ []))

-- The comparison of `into_sorted_with_counts`: the higher count first, then what was seen first.
unfoldable pub comes_first : {T : Type 0} → Counted T → Counted T → Bool
comes_first a b = ltb b.count a.count || (a.count == b.count && ltb a.order b.order)

unfoldable pub insert_sorted : {T : Type 0} → Counted T → List (Counted T) → List (Counted T)
unfolding comes_first
insert_sorted c [] = c ∷ []
insert_sorted c (d ∷ ds) = if comes_first d c then d ∷ insert_sorted c ds else c ∷ d ∷ ds

unfoldable pub sort_counts : {T : Type 0} → List (Counted T) → List (Counted T)
unfolding insert_sorted
sort_counts [] = []
sort_counts (c ∷ cs) = insert_sorted c (sort_counts cs)

unfoldable pub keys_of : {T : Type 0} → List (Counted T) → List T
keys_of [] = []
keys_of (c ∷ cs) = c.key ∷ keys_of cs

-- `Frequency::into_sorted`.
unfoldable pub into_sorted : {T : Type 0} → Frequency T → List T
unfolding sort_counts keys_of
into_sorted f = keys_of (sort_counts f.counts)

unfoldable pub transaction_addresses : List Transaction → List (List ℕ)
transaction_addresses [] = []
transaction_addresses (tx ∷ body) =
    let rest = transaction_addresses body in
    elim tx.call [ some address ↦ tx.sender ∷ address ∷ rest | none ↦ tx.sender ∷ rest ]

-- The addresses that the blocks name, in the order of the loops.
unfoldable pub block_addresses : List RawBlock → List (List ℕ)
unfolding transaction_addresses
block_addresses [] = []
block_addresses (b ∷ blocks) = b.author ∷ (transaction_addresses b.body ++ block_addresses blocks)

unfoldable pub build_address_table : List RawBlock → List (List ℕ)
unfolding block_addresses add_all into_sorted
build_address_table blocks = into_sorted (add_all bytes_eq (block_addresses blocks) empty_frequency)

unfoldable pub difficulties : List RawBlock → List ℕ
difficulties [] = []
difficulties (b ∷ blocks) = b.difficulty ∷ difficulties blocks

unfoldable pub build_difficulty_table : List RawBlock → List ℕ
unfolding difficulties distinct
build_difficulty_table blocks = distinct (λ a b. a == b) (difficulties blocks) []

unfoldable pub transaction_prices : List Transaction → List ℕ
transaction_prices [] = []
transaction_prices (tx ∷ body) = tx.gas_price ∷ tx.max_priority_gas_price ∷ transaction_prices body

unfoldable pub block_prices : List RawBlock → List ℕ
unfolding transaction_prices
block_prices [] = []
block_prices (b ∷ blocks) =
    let rest = transaction_prices b.body ++ block_prices blocks in
    elim b.base_price [ some (core, espace) ↦ core ∷ espace ∷ rest | none ↦ rest ]

-- `filter(|(_, count)| *count > 3)`.
unfoldable pub frequent : {T : Type 0} → List (Counted T) → List (Counted T)
frequent [] = []
frequent (c ∷ cs) = let rest = frequent cs in if ltb 3 c.count then c ∷ rest else rest

unfoldable pub build_gas_price_table : List RawBlock → List ℕ
unfolding block_prices add_all sort_counts frequent keys_of
build_gas_price_table blocks = keys_of (
    take 16 (
      frequent
        (sort_counts (add_all (λ a b. a == b) (block_prices blocks) empty_frequency).counts)))
