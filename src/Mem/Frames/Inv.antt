-- ===== src/Mem/Frames/Inv.antt =====
-- The allocator's invariant, and what one try of `findFrames` at a frame does.
use lamb_os.Base.{
  ℕ, zero, suc, ◌+◌, ◌-◌, ◌*◌, ◌/◌, ◌%◌, ◌^◌, ◌≤◌, ◌<◌, ◌≡◌, ◌≢◌, refl, ◌∙◌, Bool, true, false,
  ◌&&◌, arith, none, some, get_elem?-none,
}
use native.Mathlib.Decide.{dec_lt}
use lamb_os.Base.Outcome.{done, fault, load}
use lamb_os.Util.BitSet.{test}
use lamb_os.Util.BitSet.Laws.{capacity}
use lamb_os.Mem.Frames.{
  Bitmap, Frames, frame_to_index, index_to_frame, inc32, usable_and_free, check_run, find_frames,
}
use lamb_os.Mem.Frames.Bitmaps.{
  free_at, all_free, IsAssigned, assign_run_returns, check_run_returns, free_of_all_free,
  usable_and_free_returns, frame_to_index-index_to_frame,
}

pub record IsValid (pages : ℕ) (a : Frames) : Type 0 where
  pub usable_size : capacity a.bitmap.usable ≡ pages
  pub used_size : capacity a.bitmap.used ≡ pages
  pub small : pages ≤ 2 ^ 20
  pub last_in : frame_to_index a.last_alloc_frame < pages

-- `frame` is the first of `n` frames that were free and are now taken; no other frame changed.
pub record Allocated (pages : ℕ) (a : Frames) (n frame : ℕ) (a' : Frames) : Type 0 where
  pub index : ℕ
  pub frame_at : frame ≡ index * 4096
  pub inside : index + n ≤ pages
  pub was_free : (k : ℕ) → index ≤ k → k < index + n → free_at a.bitmap k ≡ true
  pub usable_kept : a'.bitmap.usable ≡ a.bitmap.usable
  pub taken : IsAssigned a.bitmap.used n index true a'.bitmap.used
  pub valid : IsValid pages a'

module _ (pages : ℕ) where
  past_end :
      (b : Bitmap) (i : ℕ) → capacity b.usable ≡ pages → pages ≤ i → usable_and_free b i ≡ fault
  unfolding usable_and_free test load
  past_end b i e h = rw (get_elem?-none b.usable.bits (i / 32) (omega arith))

  pub check_run_faults :
      (b : Bitmap) (n i : ℕ) (found : Bool)
      → capacity b.usable ≡ pages
      → capacity b.used ≡ pages
      → pages ≤ 2 ^ 20
      → i ≤ pages
      → pages < i + n
      → check_run b n i found ≡ fault
  unfolding check_run
  check_run_faults b zero i found eu ef small hi h = absurd (omega arith)
  check_run_faults b (suc n) i found eu ef small hi h = elim (dec_lt i pages) [
    | yes lt ↦
        let next : inc32 i ≡ i + 1 = omega arith in
        rw (usable_and_free_returns b i (omega arith) (omega arith), next)
          (check_run_faults b n (i + 1) (found && free_at b i) eu ef small (omega arith)
            (omega arith))
    | no ge ↦ rw (past_end b i eu (omega arith))
  ]

  module _ (a : Frames) (v : IsValid pages a) (n : ℕ) (some_frames : n ≢ 0) where
    pub find_faults : (i : ℕ) → i ≤ pages → pages < i + n → find_frames a n i ≡ fault
    unfolding find_frames
    find_faults i hi h =
        rw (check_run_faults a.bitmap n i true v.usable_size v.used_size v.small hi h)

    in_range : (i : ℕ) → i + n ≤ pages → check_run a.bitmap n i true ≡ done (all_free a.bitmap n i)
    in_range i h =
        check_run_returns a.bitmap n i true (omega (arith, v.usable_size))
          (omega (arith, v.used_size)) (omega (arith, v.small))

    pub find_none :
        (i : ℕ) → i + n ≤ pages → all_free a.bitmap n i ≡ false → find_frames a n i ≡ done (none, a)
    unfolding find_frames
    find_none i h e = rw (in_range i h, e)

    pub find_some :
        (i : ℕ)
        → i + n ≤ pages
        → all_free a.bitmap n i ≡ true
        → (f : ℕ) × (a' : Frames) × (find_frames a n i ≡ done (some f, a'))
          × Allocated pages a n f a'
    unfolding find_frames
    find_some i h e =
        let (used', returns, assigned) =
          assign_run_returns n i true a.bitmap.used (omega (arith, v.used_size))
            (omega (arith, v.small)) in
        let last : (i + n - 1) % 2 ^ 32 ≡ i + n - 1 = omega (arith, v.small) in
        (
          index_to_frame i,
          record {
            bitmap = record { usable = a.bitmap.usable; used = used' };
            last_alloc_frame = index_to_frame ((i + n - 1) % 2 ^ 32);
          },
          rw (in_range i h, e, returns) refl,
          record {
            index = i;
            frame_at = (frame_to_index-index_to_frame i (omega (arith, v.small))).1;
            inside = h;
            was_free = λ k lo hi. free_of_all_free a.bitmap n i k e lo hi;
            usable_kept = refl;
            taken = assigned;
            valid = record {
              usable_size = v.usable_size;
              used_size = assigned.capacity_kept ∙ v.used_size;
              small = v.small;
              last_in =
                  rw (last, (frame_to_index-index_to_frame (i + n - 1) (omega (arith, v.small))).0)
                    (omega arith);
            };
          },
        )
