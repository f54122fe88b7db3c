-- ===== src/Mem/Frames/Release.antt =====
-- `free` and `requestFrame`, and that live allocations never overlap.
use lamb_os.Base.{
  ℕ, ◌+◌, ◌*◌, ◌/◌, ◌≤◌, ◌<◌, ◌≡◌, ◌≢◌, ◌⊎◌, refl, sym, ◌∙◌, Bool, true, false, ◌&&◌, if◌then◌else◌,
  arith, Bool-cases, inl, inr, ◌==◌, max, false≢true,
}
use native.Mathlib.Decide.{dec_le}
use lamb_os.Base.Outcome.{done}
use lamb_os.Util.BitSet.{BitSet}
use lamb_os.Util.BitSet.Laws.{at, written, assign_returns, at-written, capacity-written}
use lamb_os.Mem.Frames.{
  Bitmap, Frames, frame_to_index, alloc, free, request_frame, request_frame_index, assign_run,
}
use lamb_os.Mem.Frames.Bitmaps.{
  within, free_at, assign_run_returns, frame_to_index_lem, usable_and_free_returns,
}
use lamb_os.Mem.Frames.Inv.{IsValid, Allocated}
use lamb_os.Mem.Frames.Alloc.{alloc_sound}

unused_of_free : (b : Bitmap) (j : ℕ) → free_at b j ≡ true → at b.used j ≡ false
unused_of_free b j h = ground arith

free_returns :
    (a : Frames) (f n i : ℕ) (u : BitSet)
    → frame_to_index f ≡ i
    → assign_run n i false a.bitmap.used ≡ done u
    → free a f n ≡ done (record a { bitmap = record { usable = a.bitmap.usable; used = u } })
unfolding free
free_returns a f n i u e h = rw (e, h)

-- `free` of what `alloc` just returned succeeds, and makes `used` what it was before, frame by
-- frame; `usable` is as before, and the allocator stays valid.
pub free-alloc :
    (pages : ℕ) (a : Frames) (n f : ℕ) (a' : Frames)
    → IsValid pages a
    → n ≢ 0
    → alloc pages a n ≡ done (f, a')
    → (a'' : Frames) × (free a' f n ≡ done a'')
      × IsValid pages a''
      × (a''.bitmap.usable ≡ a.bitmap.usable)
      × ((j : ℕ) → at a''.bitmap.used j ≡ at a.bitmap.used j)
free-alloc pages a n f a' v ne e =
    let al = alloc_sound pages a n f a' v ne e in
    let index : frame_to_index f ≡ al.index =
      omega (arith, frame_to_index_lem f, al.frame_at, al.inside, v.small) in
    let (used', returns, r) =
      assign_run_returns n al.index false a'.bitmap.used
        (omega (arith, al.inside, al.valid.used_size)) (omega (arith, al.inside, v.small)) in
    (
      record a' { bitmap = record { usable = a'.bitmap.usable; used = used' } },
      free_returns a' f n al.index used' index returns,
      record {
        usable_size = al.valid.usable_size;
        used_size = r.capacity_kept ∙ al.valid.used_size;
        small = v.small;
        last_in = al.valid.last_in;
      },
      al.usable_kept,
      λ j. elim (Bool-cases (within al.index n j)) [
        | inl inside ↦ ground (arith, r.bits j, al.was_free j, unused_of_free a.bitmap j)
        | inr outside ↦ ground (arith, r.bits j, al.taken.bits j)
      ],
    )

inside_run :
    (i n j : ℕ) → i ≤ j → j < i + n → (b : Bool) → (if within i n j then true else b) ≡ true
inside_run i n j lo hi b = ground arith

-- Two allocations with no `free` between them never overlap.
pub allocs_disjoint :
    (pages : ℕ) (a : Frames) (n m f g : ℕ) (a' a'' : Frames)
    → IsValid pages a
    → n ≢ 0
    → m ≢ 0
    → alloc pages a n ≡ done (f, a')
    → alloc pages a' m ≡ done (g, a'')
    → (f + n * 4096 ≤ g) ⊎ (g + m * 4096 ≤ f)
allocs_disjoint pages a n m f g a' a'' v hn hm e e' =
    let al = alloc_sound pages a n f a' v hn e in
    let al' = alloc_sound pages a' m g a'' al.valid hm e' in apart al al'
  where
    apart :
        Allocated pages a n f a'
        → Allocated pages a' m g a''
        → (f + n * 4096 ≤ g) ⊎ (g + m * 4096 ≤ f)
    apart al al' = elim (dec_le (al.index + n) al'.index) [
      | yes before ↦ inl (omega (arith, al.frame_at, al'.frame_at))
      | no not_before ↦ elim (dec_le (al'.index + m) al.index) [
        | yes after ↦ inr (omega (arith, al.frame_at, al'.frame_at))
        | no not_after ↦
            let j = max al.index al'.index in
            absurd (
              false≢true (
                sym (unused_of_free a'.bitmap j (al'.was_free j (omega arith) (omega arith)))
                ∙ al.taken.bits j
                ∙ inside_run al.index n j (omega arith) (omega arith) (at a.bitmap.used j)))
      ]
    ]

-- `requestFrame` of a frame in memory returns whether it was usable and not in use, and then marks
-- it; no other frame changes.
pub request_frame_lem :
    (pages : ℕ) (a : Frames) (f : ℕ)
    → IsValid pages a
    → f < pages * 4096
    → (a' : Frames) × (request_frame a f ≡ done (free_at a.bitmap (f / 4096), a'))
      × IsValid pages a'
      × (a'.bitmap.usable ≡ a.bitmap.usable)
      × ((j : ℕ)
          → at a'.bitmap.used j
            ≡ (if free_at a.bitmap (f / 4096) && (f / 4096 == j) then true else at a.bitmap.used j))
unfolding request_frame request_frame_index
request_frame_lem pages a f v h =
    let index : frame_to_index f ≡ f / 4096 = frame_to_index_lem f (omega (arith, v.small)) in
    let reads =
      usable_and_free_returns a.bitmap (f / 4096) (omega (arith, v.usable_size))
        (omega (arith, v.used_size)) in
    elim (Bool-cases (free_at a.bitmap (f / 4096))) [
      | inr no_frame ↦ (a, rw (index, reads, no_frame), v, refl, λ j. rw no_frame)
      | inl is_free ↦ (
        record a {
          bitmap = record {
            usable = a.bitmap.usable;
            used = written a.bitmap.used (f / 4096) true;
          };
        },
        rw (
          index,
          reads,
          is_free,
          assign_returns a.bitmap.used (f / 4096) true (omega (arith, v.used_size)),
        ),
        record {
          usable_size = v.usable_size;
          used_size = capacity-written a.bitmap.used (f / 4096) true ∙ v.used_size;
          small = v.small;
          last_in = v.last_in;
        },
        refl,
        λ j. rw is_free (at-written a.bitmap.used (f / 4096) j true (omega (arith, v.used_size))),
      )
    ]
