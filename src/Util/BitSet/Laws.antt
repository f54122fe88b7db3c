-- ===== src/Util/BitSet/Laws.antt =====
-- A bit set as a function from indices to Booleans: in range, every operation returns, and a write
-- changes the one bit.
use native.Mathlib.Decide.{ℕ_discrete}
use native.Mathlib.Nat.{one-le-pow}
use lamb_os.Base.{
  ℕ, ◌+◌, ◌-◌, ◌*◌, ◌/◌, ◌%◌, ◌^◌, ◌≤◌, ◌<◌, ◌≡◌, ◌≢◌, refl, ap, ap₂, ◌∙◌, inl, inr, Bool, true,
  false, not, List, arith, length, get_or, length-set, get_or-set_self, get_or-set_ne,
  length-replicate, bit_and, bit_or, ◌==◌, if◌then◌else◌, ltb, Bool-cases, sym,
}
use lamb_os.Base as Base
use lamb_os.Base.Bits.{
  bit, bit-lt, bit-bit_and, bit-bit_or, bit-pow_self, bit-pow_ne, bit-complement_self,
  bit-complement_ne, bit_and_pow,
}
use lamb_os.Base.Outcome.{done, load_in, store_in}
use lamb_os.Util.BitSet.{BitSet, bitmask, test, set, unset, assign}

-- The number of bits that the array holds.
abbrev pub capacity : BitSet → ℕ
capacity s = length s.bits * 32

-- Bit `i`, as the source reads it.
abbrev pub at : BitSet → ℕ → Bool
at s i = bit (i % 32) (get_or s.bits (i / 32) 0) == 1

-- The set with the word of bit `i` replaced.
abbrev put_word : BitSet → ℕ → ℕ → BitSet
put_word s i w = record s { bits = Base.set s.bits (i / 32) w }

at_mask : (w k : ℕ) → not (bit_and w (2 ^ k) == 0) ≡ (bit k w == 1)
at_mask w k = ground (arith, bit_and_pow k w, bit-lt k w, one-le-pow k 2)

pub test_returns : (s : BitSet) (i : ℕ) → i < capacity s → test s i ≡ done (at s i)
unfolding test
test_returns s i h =
    rw (load_in s.bits (i / 32) 0 (omega arith))
      (ap done (at_mask (get_or s.bits (i / 32) 0) (i % 32)))

-- The set after a write of `b` at `i`.
pub written : BitSet → ℕ → Bool → BitSet
written s i b =
    put_word s i
      (if b then bit_or (word s i) (bitmask i) else bit_and (word s i) (2 ^ 32 - 1 - bitmask i))
  where
    word : BitSet → ℕ → ℕ
    word s i = get_or s.bits (i / 32) 0

pub set_returns : (s : BitSet) (i : ℕ) → i < capacity s → set s i ≡ done (at s i, written s i true)
unfolding set written
set_returns s i h = rw (
  test_returns s i h,
  load_in s.bits (i / 32) 0 (omega arith),
  store_in s.bits (i / 32) (bit_or (get_or s.bits (i / 32) 0) (bitmask i)) (omega arith),
)

pub unset_returns :
    (s : BitSet) (i : ℕ) → i < capacity s → unset s i ≡ done (at s i, written s i false)
unfolding unset written
unset_returns s i h = rw (
  test_returns s i h,
  load_in s.bits (i / 32) 0 (omega arith),
  store_in s.bits (i / 32) (bit_and (get_or s.bits (i / 32) 0) (2 ^ 32 - 1 - bitmask i))
      (omega arith),
)

pub assign_returns :
    (s : BitSet) (i : ℕ) (b : Bool) → i < capacity s → assign s i b ≡ done (written s i b)
unfolding assign
assign_returns s i true h = rw (set_returns s i h)
assign_returns s i false h = rw (unset_returns s i h)

pub capacity-written : (s : BitSet) (i : ℕ) (b : Bool) → capacity (written s i b) ≡ capacity s
unfolding written
capacity-written s i b = ap (λ n. n * 32) (length-set s.bits (i / 32) _)

bit-or_mask :
    (w i j : ℕ) → (bit j (bit_or w (2 ^ i)) == 1) ≡ (if i == j then true else (bit j w == 1))
bit-or_mask w i j = elim (ℕ_discrete i j) [
  | yes e ↦
      ground (arith, bit-bit_or j w (2 ^ i), ap (λ k. bit j (2 ^ k)) e, bit-pow_self j, bit-lt j w)
  | no ne ↦ ground (arith, bit-bit_or j w (2 ^ i), bit-pow_ne j i (λ e. ne (sym e)))
]

bit-and_mask :
    (w i j : ℕ)
    → i < 32
    → j < 32
    → (bit j (bit_and w (2 ^ 32 - 1 - 2 ^ i)) == 1) ≡ (if i == j then false else (bit j w == 1))
bit-and_mask w i j hi hj = elim (ℕ_discrete i j) [
  | yes e ↦ ground (
    arith,
    bit-bit_and j w (2 ^ 32 - 1 - 2 ^ i),
    ap (λ k. bit j (2 ^ 32 - 1 - 2 ^ k)) e,
    bit-complement_self 32 j hj,
  )
  | no ne ↦ ground (
    arith,
    bit-bit_and j w (2 ^ 32 - 1 - 2 ^ i),
    bit-complement_ne 32 i j hi hj (λ e. ne (sym e)),
    bit-lt j w,
  )
]

at_same_word :
    (s : BitSet) (i j w : ℕ)
    → i < capacity s
    → i / 32 ≡ j / 32
    → at (put_word s i w) j ≡ (bit (j % 32) w == 1)
at_same_word s i j w h e =
    ap (λ u. bit (j % 32) u == 1)
      (ap (λ k. get_or (Base.set s.bits (i / 32) w) k 0) (sym e)
        ∙ get_or-set_self s.bits (i / 32) w 0 (omega arith))

-- A write changes the one bit, and no other.
pub at-written :
    (s : BitSet) (i j : ℕ) (b : Bool)
    → i < capacity s
    → at (written s i b) j ≡ (if i == j then b else at s j)
unfolding written
at-written s i j b h = elim (ℕ_discrete (i / 32) (j / 32)) [
  | no ne ↦
      ap (λ u. bit (j % 32) u == 1) (get_or-set_ne s.bits (i / 32) (j / 32) _ 0 ne) ∙ ground arith
  | yes e ↦ at_same_word s i j _ h e ∙ same b e
]
  where
    w : ℕ
    w = get_or s.bits (i / 32) 0

    here : i / 32 ≡ j / 32 → at s j ≡ (bit (j % 32) w == 1)
    here e = ap (λ k. bit (j % 32) (get_or s.bits k 0) == 1) (sym e)

    index : i / 32 ≡ j / 32 → (i % 32 == j % 32) ≡ (i == j)
    index e = ground arith

    same :
        (b : Bool)
        → i / 32 ≡ j / 32
        → (bit (j % 32) (if b then bit_or w (bitmask i) else bit_and w (2 ^ 32 - 1 - bitmask i))
            == 1)
          ≡ (if i == j then b else at s j)
    same true e =
        bit-or_mask w (i % 32) (j % 32)
        ∙ ap₂ (λ t u. if t then true else u) (index e) (sym (here e))
    same false e =
        bit-and_mask w (i % 32) (j % 32) (omega arith) (omega arith)
        ∙ ap₂ (λ t u. if t then false else u) (index e) (sym (here e))

-- In range, `bits[i] = b` returns, and gives a set of the same size that differs at most in bit
-- `i`, which is `b`.
pub assign_correct :
    (s : BitSet) (i : ℕ) (b : Bool)
    → i < capacity s
    → (s' : BitSet) × (assign s i b ≡ done s')
      × (capacity s' ≡ capacity s)
      × ((j : ℕ) → at s' j ≡ (if i == j then b else at s j))
assign_correct s i b h =
    (written s i b, assign_returns s i b h, capacity-written s i b, λ j. at-written s i j b h)
