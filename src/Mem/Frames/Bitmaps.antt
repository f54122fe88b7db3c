-- ===== src/Mem/Frames/Bitmaps.antt =====
-- The loops over the bitmaps: in range they return, and they read or write one run of frames.
use lamb_os.Base.{
  ℕ, zero, suc, ◌+◌, ◌*◌, ◌/◌, ◌%◌, ◌^◌, ◌≤◌, ◌<◌, ◌≡◌, refl, ◌∙◌, Bool, true, false, not, ◌&&◌,
  ◌==◌, ltb, leb, if◌then◌else◌, arith, Bool-cases, inl, inr,
}
use lamb_os.Base.Bits.{bit_and_page}
use lamb_os.Base.Outcome.{done}
use lamb_os.Util.BitSet.{BitSet}
use lamb_os.Util.BitSet.Laws.{
  capacity, at, written, test_returns, assign_returns, capacity-written, at-written,
}
use lamb_os.Mem.Frames.{
  Bitmap, frame_to_index, index_to_frame, inc32, usable_and_free, assign_run, check_run,
}

-- Whether `j` lies in the run of `n` frames from `i`.
abbrev pub within : ℕ → ℕ → ℕ → Bool
within i n j = leb i j && ltb j (i + n)

abbrev pub free_at : Bitmap → ℕ → Bool
free_at b i = at b.usable i && not (at b.used i)

-- Whether all `n` frames from `i` are free.
pub all_free : Bitmap → ℕ → ℕ → Bool
all_free b zero i = true
all_free b (suc n) i = free_at b i && all_free b n (i + 1)

pub frame_to_index_lem : (f : ℕ) → f < 2 ^ 32 → frame_to_index f ≡ f / 4096
unfolding frame_to_index
frame_to_index_lem f h = omega (arith, bit_and_page f h)

-- A page number below 2 ^ 20 survives the way to a frame and back.
pub frame_to_index-index_to_frame :
    (i : ℕ)
    → i < 2 ^ 20
    → (frame_to_index (index_to_frame i) ≡ i)
      × (index_to_frame i ≡ i * 4096)
      × (index_to_frame i < 2 ^ 32)
unfolding index_to_frame
frame_to_index-index_to_frame i h =
    omega (arith, frame_to_index_lem (i * 4096 % 2 ^ 32) (omega arith))

pub usable_and_free_returns :
    (b : Bitmap) (i : ℕ)
    → i < capacity b.usable
    → i < capacity b.used
    → usable_and_free b i ≡ done (free_at b i)
unfolding usable_and_free
usable_and_free_returns b i hu hf = elim (Bool-cases (at b.usable i)) [
  | inl e ↦ rw (test_returns b.usable i hu, e, test_returns b.used i hf)
  | inr e ↦ rw (test_returns b.usable i hu, e)
]

-- The record of a run of writes.
pub record IsAssigned (s : BitSet) (n i : ℕ) (b : Bool) (s' : BitSet) : Type 0 where
  pub capacity_kept : capacity s' ≡ capacity s
  pub bits : (j : ℕ) → at s' j ≡ (if within i n j then b else at s j)

pub assign_run_returns :
    (n i : ℕ) (b : Bool) (s : BitSet)
    → i + n ≤ capacity s
    → i + n < 2 ^ 32
    → (s' : BitSet) × (assign_run n i b s ≡ done s') × IsAssigned s n i b s'
unfolding assign_run
assign_run_returns zero i b s h w =
    (s, refl, record { capacity_kept = refl; bits = λ j. ground arith })
assign_run_returns (suc n) i b s h w =
    let (s', e, r) =
      assign_run_returns n (i + 1) b (written s i b) (rw (capacity-written s i b) (omega arith))
        (omega arith) in
    let next : inc32 i ≡ i + 1 = omega arith in
    (
      s',
      rw (assign_returns s i b (omega arith), next) e,
      record {
        capacity_kept = r.capacity_kept ∙ capacity-written s i b;
        bits = λ j. ground (arith, r.bits j, at-written s i j b (omega arith));
      },
    )

pub check_run_returns :
    (b : Bitmap) (n i : ℕ) (found : Bool)
    → i + n ≤ capacity b.usable
    → i + n ≤ capacity b.used
    → i + n < 2 ^ 32
    → check_run b n i found ≡ done (found && all_free b n i)
unfolding check_run all_free
check_run_returns b zero i found hu hf w = ground arith
check_run_returns b (suc n) i found hu hf w =
    let next : inc32 i ≡ i + 1 = omega arith in
    rw (usable_and_free_returns b i (omega arith) (omega arith), next)
      (check_run_returns b n (i + 1) (found && free_at b i) (omega arith) (omega arith)
          (omega arith)
        ∙ ground arith)

pub single : (b : Bitmap) (j : ℕ) → all_free b 1 j ≡ false → free_at b j ≡ false
unfolding all_free
single b j h = ground arith

-- Every frame of a free run is free.
pub free_of_all_free :
    (b : Bitmap) (n i k : ℕ) → all_free b n i ≡ true → i ≤ k → k < i + n → free_at b k ≡ true
unfolding all_free
free_of_all_free b zero i k h lo hi = absurd (omega arith)
free_of_all_free b (suc n) i k h lo hi = elim (Bool-cases (i == k)) [
  | inl e ↦ ground arith
  | inr ne ↦ ground (arith, free_of_all_free b n (i + 1) k)
]
