-- ===== src/Extractor/FlagPatch/Flips.antt =====
-- What setting the flags does to the bytes, and that the order of the blocks does not matter.
use cfx_minimal_execution.Common.{
  ℕ, zero, suc, ◌<◌, ◌==◌, ◌≡◌, refl, sym, ap, ap₂, subst, ◌∙◌, arith, Bool, true, false, ◌||◌,
  some, List, [], ◌∷◌, length, set, get_or, get_elem?, All, bit_and, bit_or, if◌then◌else◌, inl,
  inr, Bool-cases,
}
use cfx_minimal_execution.Common.Bitmap.{bit_and-bit_or}
use cfx_minimal_execution.Cfxpack.Packet.{flag_zero_total_reward}
use cfx_minimal_execution.Extractor.FlagPatch.{flip_at, apply_flips}

-- Whether a byte of the file is the flags of a block to flag.
unfoldable pub is_flip : ℕ → List ℕ → Bool
is_flip i [] = false
is_flip i (abs ∷ flips) = abs == i || is_flip i flips

-- Flags with the flag set.
unfoldable pub flagged : ℕ → ℕ
flagged flags =
    if bit_and flags flag_zero_total_reward == 0 then bit_or flags flag_zero_total_reward else flags

flagged_twice : (b : ℕ) → flagged (flagged b) ≡ flagged b
unfolding flagged
flagged_twice b = elim (Bool-cases (bit_and b 64 == 0)) [
  | inl unset ↦ rw (unset, bit_and-bit_or b 6) refl
  | inr present ↦ rw (present, present) refl
]

-- The byte at the position, flagged.
abbrev flag_at : List ℕ → ℕ → List ℕ
flag_at bytes abs = set bytes abs (flagged (get_or bytes abs 0))

set_same : (bytes : List ℕ) (i : ℕ) → set bytes i (get_or bytes i 0) ≡ bytes
set_same [] i = refl
set_same (b ∷ bytes) zero = refl
set_same (b ∷ bytes) (suc i) = ap (λ l. b ∷ l) (set_same bytes i)

found_at : (bytes : List ℕ) (i : ℕ) → i < length bytes → get_elem? bytes i ≡ some (get_or bytes i 0)
found_at [] i h = absurd (omega arith)
found_at (b ∷ bytes) zero h = refl
found_at (b ∷ bytes) (suc i) h = found_at bytes i (omega arith)

length_set : (bytes : List ℕ) (i v : ℕ) → length (set bytes i v) ≡ length bytes
length_set [] i v = refl
length_set (b ∷ bytes) zero v = refl
length_set (b ∷ bytes) (suc i) v = ap suc (length_set bytes i v)

read_back :
    (bytes : List ℕ) (i j : ℕ) (v : ℕ)
    → i < length bytes
    → get_or (set bytes i v) j 0 ≡ (if i == j then v else get_or bytes j 0)
read_back [] i j v h = absurd (omega arith)
read_back (b ∷ bytes) zero zero v h = ground arith
read_back (b ∷ bytes) zero (suc j) v h = ground arith
read_back (b ∷ bytes) (suc i) zero v h = ground arith
read_back (b ∷ bytes) (suc i) (suc j) v h = ground (arith, read_back bytes i j v)

flip_at_lem :
    (abs : ℕ) (bytes : List ℕ) (changed : Bool)
    → abs < length bytes
    → (c : Bool) × (flip_at abs (bytes, changed) ≡ some (flag_at bytes abs, c))
unfolding flip_at flagged
flip_at_lem abs bytes changed h = elim (Bool-cases (bit_and (get_or bytes abs 0) 64 == 0)) [
  | inl unset ↦ (true, rw (flip_at, found_at bytes abs h, unset) refl)
  | inr present ↦ (
    changed,
    rw (flip_at, found_at bytes abs h, present)
        (ap (λ l. some (l, changed)) (sym (set_same bytes abs))),
  )
]

-- The byte `b` at position `j`, once the flips are applied.
abbrev flipped : Bool → ℕ → ℕ
flipped here b = if here then flagged b else b

flipped_more :
    (here later : Bool) (b : ℕ) → flipped later (flipped here b) ≡ flipped (here || later) b
flipped_more true true b = flagged_twice b
flipped_more true false b = refl
flipped_more false later b = refl

flag_at_read :
    (bytes : List ℕ) (abs j : ℕ)
    → abs < length bytes
    → get_or (flag_at bytes abs) j 0 ≡ flipped (abs == j) (get_or bytes j 0)
flag_at_read bytes abs j h = elim (Bool-cases (abs == j)) [
  | inl here ↦
      let e : abs ≡ j = ground arith in
      read_back bytes abs j (flagged (get_or bytes abs 0)) h
      ∙ rw here (ap (λ i. flagged (get_or bytes i 0)) e)
  | inr other ↦ read_back bytes abs j (flagged (get_or bytes abs 0)) h ∙ rw other refl
]

-- The bytes after the flips.
record Flips (flips bytes bytes' : List ℕ) : Type 0 where
  size : length bytes' ≡ length bytes
  bytes_flipped : (j : ℕ) → get_or bytes' j 0 ≡ flipped (is_flip j flips) (get_or bytes j 0)

apply_flips_lem :
    (flips bytes : List ℕ) (changed : Bool)
    → All (λ abs. abs < length bytes) flips
    → (bytes' : List ℕ) × (changed' : Bool) × (apply_flips flips (bytes, changed)
        ≡ some (bytes', changed'))
      × Flips flips bytes bytes'
unfolding apply_flips is_flip
apply_flips_lem [] bytes changed h =
    (bytes, changed, refl, record { size = refl; bytes_flipped = λ j. refl })
apply_flips_lem (abs ∷ flips) bytes changed (p, h) =
    let (c, e) = flip_at_lem abs bytes changed p in
    let same = length_set bytes abs (flagged (get_or bytes abs 0)) in
    let (bytes', c', e', done) =
      apply_flips_lem flips (flag_at bytes abs) c
        (subst (λ n. All (λ a. a < n) flips) (sym same) h) in
    (
      bytes',
      c',
      rw (e, apply_flips) e',
      record {
        size = done.size ∙ same;
        bytes_flipped = λ j.
            done.bytes_flipped j
            ∙ ap (flipped (is_flip j flips)) (flag_at_read bytes abs j p)
            ∙ flipped_more (abs == j) (is_flip j flips) (get_or bytes j 0);
      },
    )

-- Strings of the same length with the same bytes are the same.
same_bytes :
    (xs ys : List ℕ) → length xs ≡ length ys → ((j : ℕ) → get_or xs j 0 ≡ get_or ys j 0) → xs ≡ ys
same_bytes [] [] l h = refl
same_bytes [] (y ∷ ys) l h = absurd (omega (arith, l))
same_bytes (x ∷ xs) [] l h = absurd (omega (arith, l))
same_bytes (x ∷ xs) (y ∷ ys) l h =
    ap₂ (λ b bs. b ∷ bs) (h 0) (same_bytes xs ys (omega (arith, l)) (λ j. h (suc j)))

-- Where the offsets to flag lie in the file, setting the flags succeeds, in whatever order and
-- however often the workers list them: two lists with the same offsets give the same bytes. The
-- file keeps its length, each byte at an offset has its flag set, and every other byte is as it
-- was.
pub apply_flips-any_order :
    (flips flips' bytes : List ℕ) (changed : Bool)
    → All (λ abs. abs < length bytes) flips
    → All (λ abs. abs < length bytes) flips'
    → ((i : ℕ) → is_flip i flips ≡ is_flip i flips')
    → (bytes' : List ℕ) × (c c' : Bool) × (apply_flips flips (bytes, changed) ≡ some (bytes', c))
      × (apply_flips flips' (bytes, changed) ≡ some (bytes', c'))
      × (length bytes' ≡ length bytes)
      × ((i : ℕ)
          → get_or bytes' i 0
            ≡ (if is_flip i flips then flagged (get_or bytes i 0) else get_or bytes i 0))
apply_flips-any_order flips flips' bytes changed h h' same =
    let (one, c, e, done) = apply_flips_lem flips bytes changed h in
    let (two, c', e', done') = apply_flips_lem flips' bytes changed h' in
    let equal : two ≡ one = same_bytes two one (done'.size ∙ sym done.size) (λ j.
      done'.bytes_flipped j
      ∙ ap (λ b. flipped b (get_or bytes j 0)) (sym (same j))
      ∙ sym (done.bytes_flipped j)) in
    (one, c, c', e, e' ∙ ap (λ b. some (b, c')) equal, done.size, done.bytes_flipped)
