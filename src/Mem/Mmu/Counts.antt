-- ===== src/Mem/Mmu/Counts.antt =====
-- How many frames are free, and how many page tables a part of the directory lacks.
use lamb_os.Base.{
  ℕ, zero, suc, ◌+◌, ◌-◌, ◌/◌, ◌%◌, ◌<◌, ◌≤◌, ◌≡◌, ◌≢◌, refl, ap, ◌∙◌, Bool, true, false, not,
  if◌then◌else◌, arith,
}
use native.Mathlib.Decide.{ℕ_discrete}
use lamb_os.Mem.Frames.{Frames}
use lamb_os.Mem.Frames.Inv.{Allocated}
use lamb_os.Mem.Frames.Bitmaps.{free_at}
use lamb_os.Mem.Mmu.{Mmu}
use lamb_os.Mem.Mmu.Walk.{pde_of, present}

-- How many of the first `n` numbers have a property.
unfoldable pub count : (ℕ → Bool) → ℕ → ℕ
count p zero = 0
count p (suc n) = (if p n then 1 else 0) + count p n

pub count_none : (p : ℕ → Bool) (n : ℕ) → ((j : ℕ) → j < n → p j ≡ false) → count p n ≡ 0
unfolding count
count_none p zero h = refl
count_none p (suc n) h =
    rw (h n (omega arith)) (omega (arith, count_none p n (λ j lt. h j (omega arith))))

pub count_same : (p p' : ℕ → Bool) (n : ℕ) → ((j : ℕ) → j < n → p' j ≡ p j) → count p' n ≡ count p n
unfolding count
count_same p p' zero h = refl
count_same p p' (suc n) h = rw (h n (omega arith), count_same p p' n (λ j lt. h j (omega arith)))

-- One of them loses the property, and the others keep what they have.
pub count_one_less :
    (p p' : ℕ → Bool) (i n : ℕ)
    → i < n
    → p i ≡ true
    → p' i ≡ false
    → ((j : ℕ) → j < n → j ≢ i → p' j ≡ p j)
    → count p n ≡ suc (count p' n)
unfolding count
count_one_less p p' i zero lt was is_not others = absurd (omega arith)
count_one_less p p' i (suc n) lt was is_not others = elim (ℕ_discrete n i) [
  | yes e ↦
      let same : count p' n ≡ count p n =
        count_same p p' n (λ j h. others j (omega arith) (omega arith)) in
      rw (ap p e ∙ was, ap p' e ∙ is_not, same) (omega arith)
  | no ne ↦
      let rest =
        count_one_less p p' i n (omega arith) was is_not
          (λ j h apart. others j (omega arith) apart) in
      rw (others n (omega arith) ne) (omega (arith, rest))
]

count_pos : (p : ℕ → Bool) (i n : ℕ) → i < n → p i ≡ true → 0 < count p n
unfolding count
count_pos p i zero lt h = absurd (omega arith)
count_pos p i (suc n) lt h = elim (ℕ_discrete n i) [
  | yes e ↦ rw (ap p e ∙ h) (omega arith)
  | no ne ↦ omega (arith, count_pos p i n (omega arith) h)
]

-- The frames that the allocator can give away.
abbrev pub free_frames : ℕ → Frames → ℕ
free_frames pages a = count (free_at a.bitmap) pages

-- The page tables that are not there, of `n` from the one of index `low` on.
abbrev pub missing : ℕ → ℕ → Mmu → ℕ
missing low n m = count (λ i. not (present (pde_of m (low + i)))) n

-- From one state to the next, as many frames are spent as tables made in that part of the directory.
abbrev pub Spends : ℕ → ℕ → ℕ → Mmu → Mmu → Type 0
Spends pages low n m m' =
    free_frames pages m.page_frame_allocator + missing low n m'
    ≡ free_frames pages m'.page_frame_allocator + missing low n m

-- How many page tables hold the entries of `n` pages.
abbrev pub tables_of : ℕ → ℕ → ℕ
tables_of page n = (page % 1024 + n + 1023) / 1024

pub free_frames-none :
    (pages : ℕ) (a : Frames)
    → ((j : ℕ) → j < pages → free_at a.bitmap j ≡ false)
    → free_frames pages a ≡ 0
free_frames-none pages a busy = count_none (free_at a.bitmap) pages busy

pub free_frames-alloc :
    {pages : ℕ} {a : Frames} {f : ℕ} {a' : Frames}
    → Allocated pages a 1 f a'
    → free_frames pages a ≡ suc (free_frames pages a')
free_frames-alloc {pages} {a} {f} {a'} al =
    count_one_less (free_at a.bitmap) (free_at a'.bitmap) al.index pages (omega (arith, al.inside))
      (al.was_free al.index (omega arith) (omega arith))
      (ground (arith, al.taken.bits al.index, al.usable_kept))
      (λ j lt ne. ground (arith, al.taken.bits j, al.usable_kept))

pub missing_same :
    (low n : ℕ) (m m' : Mmu)
    → ((j : ℕ) → present (pde_of m' j) ≡ present (pde_of m j))
    → missing low n m' ≡ missing low n m
missing_same low n m m' same =
    count_same (λ i. not (present (pde_of m (low + i)))) (λ i. not (present (pde_of m' (low + i))))
      n (λ j lt. ap not (same (low + j)))

-- A table is made.
pub missing-made :
    (low n i : ℕ) (m m' : Mmu)
    → low ≤ i
    → i < low + n
    → present (pde_of m i) ≡ false
    → present (pde_of m' i) ≡ true
    → ((j : ℕ) → j ≢ i → present (pde_of m' j) ≡ present (pde_of m j))
    → missing low n m ≡ suc (missing low n m')
missing-made low n i m m' le lt was is_there others =
    let d : low + (i - low) ≡ i = omega arith in
    count_one_less (λ k. not (present (pde_of m (low + k))))
      (λ k. not (present (pde_of m' (low + k)))) (i - low) n (omega arith)
      (ap (λ k. not (present (pde_of m k))) d ∙ ap not was)
      (ap (λ k. not (present (pde_of m' k))) d ∙ ap not is_there)
      (λ j h ne. ap not (others (low + j) (omega arith)))

pub missing_pos :
    (low n i : ℕ) (m : Mmu)
    → low ≤ i
    → i < low + n
    → present (pde_of m i) ≡ false
    → 0 < missing low n m
missing_pos low n i m le lt absent =
    let d : low + (i - low) ≡ i = omega arith in
    count_pos (λ k. not (present (pde_of m (low + k)))) (i - low) n (omega arith)
      (ap (λ k. not (present (pde_of m k))) d ∙ ap not absent)
