-- ===== src/Mem/Mmu/Mapping.antt =====
-- Mapping pages that have a page table: each gets a frame of its own.
use lamb_os.Base.{
  ℕ, zero, suc, ◌+◌, ◌*◌, ◌/◌, ◌%◌, ◌^◌, ◌≤◌, ◌<◌, ◌≡◌, ◌≢◌, ◌⊎◌, inl, inr, refl, sym, ap, ap₂, ◌∙◌,
  true, false, ◌==◌, if◌then◌else◌, arith, ltb, ne→==, false≢true, subst,
}
use native.Mathlib.Decide.{ℕ_discrete}
use lamb_os.Base.Outcome.{done, panic}
use lamb_os.Mem.Frames.{Frames, alloc}
use lamb_os.Mem.Frames.Inv.{Allocated}
use lamb_os.Mem.Frames.Alloc.{alloc_one}
use lamb_os.Mem.Frames.Bitmaps.{free_at, within}
use lamb_os.Mem.Mmu.Counts.{free_frames, free_frames-none, free_frames-alloc}
use lamb_os.Mem.PageEntry.{set_flags, page_entry}
use lamb_os.Mem.PageEntry.Laws.{get_flag-present, frame_entry}
use lamb_os.Mem.Mmu.{
  Mmu, write, translate, set_entry, page_table_for_directory_index, alloc_frame, map_pages,
}
use lamb_os.Mem.Mmu.Walk.{
  pde_of, table_of, pte_of, present, IsValid, IsUnmapped, Walked, Walked-translate,
  translate-Walked, table_page, translate-write, write_self,
}

-- What an allocation of frames does to what is free.
pub free_after :
    {pages : ℕ} {a : Frames} {n f : ℕ} {a' : Frames}
    → (al : Allocated pages a n f a') → (j : ℕ)
    → free_at a'.bitmap j ≡ (if within al.index n j then false else free_at a.bitmap j)
free_after al j = ground (arith, al.taken.bits j, al.usable_kept)

pub marked : (i : ℕ) → present (i * 4096 + 3) ≡ true
marked i =
    get_flag-present (i * 4096 + 3)
    ∙ ap (λ n. n == 1) {x = (i * 4096 + 3) % 2} {y = 1} (omega arith)

-- The unit after `alloc_frame` and the write of an entry.
abbrev pub entered : Mmu → Frames → ℕ → ℕ → ℕ → Mmu
entered m a t i e = record m { page_frame_allocator = a; words = write m.words t i e }

pub translate_allocator :
    (m : Mmu) (a : Frames) (p : ℕ)
    → translate (record m { page_frame_allocator = a }) p ≡ translate m p
unfolding translate
translate_allocator m a p = refl

next_pde :
    (page : ℕ)
    → (if ltb 1023 (page % 1024 + 1) then page / 1024 + 1 else page / 1024) ≡ (page + 1) / 1024
next_pde page = ground arith

next_pte :
    (page : ℕ) → (if ltb 1023 (page % 1024 + 1) then 0 else page % 1024 + 1) ≡ (page + 1) % 1024
next_pte page = ground arith

module _ (pages : ℕ) (m : Mmu) (v : IsValid pages m) (page : ℕ) (low : page < 1023 * 1024)
    (un : IsUnmapped m page) {f : ℕ} {a : Frames}
    (al : Allocated pages m.page_frame_allocator 1 f a) where
  abbrev spot : ℕ
  spot = table_of m (page / 1024)

  abbrev mapped : Mmu
  mapped = entered m a spot (page % 1024) (al.index * 4096 + 3)

  not_directory : m.directory ≢ spot
  not_directory e = absurd (
      omega (
        arith,
        v.apart (page / 1024) 1023 (omega arith) (omega arith) un.table v.self_present
            (sym e ∙ sym v.self_map),
      ))

  same_pde : (i : ℕ) → pde_of mapped i ≡ pde_of m i
  same_pde i = rw (ne→== m.directory spot not_directory)

  still_held :
      (j : ℕ) → free_at m.page_frame_allocator.bitmap j ≡ false → free_at a.bitmap j ≡ false
  still_held j h = ground (arith, free_after al j)

  mapped-IsValid : IsValid pages mapped
  mapped-IsValid = record {
    frames = al.valid;
    self_present = ap present (same_pde 1023) ∙ v.self_present;
    self_map = ap (λ e. e / 4096) (same_pde 1023) ∙ v.self_map;
    held = λ i lt h.
        ap (λ e. free_at a.bitmap (e / 4096)) (same_pde i)
        ∙ still_held (table_of m i) (v.held i lt (sym (ap present (same_pde i)) ∙ h));
    apart = λ i j hi hj pi pj e.
        v.apart i j hi hj (sym (ap present (same_pde i)) ∙ pi) (sym (ap present (same_pde j)) ∙ pj)
          (sym (ap (λ e. e / 4096) (same_pde i)) ∙ e ∙ ap (λ e. e / 4096) (same_pde j));
  }

  mapped-Walked : Walked mapped page al.index
  mapped-Walked = record {
    table = ap present (same_pde (page / 1024)) ∙ un.table;
    entry = ap present there ∙ marked al.index;
    frame = ap (λ e. e / 4096) there ∙ omega arith;
  }
    where
      there : pte_of mapped page ≡ al.index * 4096 + 3
      there =
          ap (λ e. mapped.words (e / 4096) (page % 1024)) (same_pde (page / 1024))
          ∙ write_self m.words spot (page % 1024) (al.index * 4096 + 3)

  elsewhere :
      (q : ℕ)
      → q < 1023 * 1024
      → q ≢ page
      → present (pde_of m (q / 1024)) ≡ true
      → write m.words spot (page % 1024) (al.index * 4096 + 3) (table_of m (q / 1024)) (q % 1024)
        ≡ pte_of m q
  elsewhere q lq ne h = elim (ℕ_discrete (table_of m (q / 1024)) spot) [
    | no ne' ↦ rw (ne→== (table_of m (q / 1024)) spot ne')
    | yes e ↦
        let same : q / 1024 ≡ page / 1024 =
          v.apart (q / 1024) (page / 1024) (omega arith) (omega arith) h un.table e in
        let other : q % 1024 ≢ page % 1024 = λ e'. ne (omega arith) in ground arith
  ]

  still-IsUnmapped : (q : ℕ) → q < 1023 * 1024 → q ≢ page → IsUnmapped m q → IsUnmapped mapped q
  still-IsUnmapped q lq ne h = record {
    table = ap present (same_pde (q / 1024)) ∙ h.table;
    absent =
        ap (λ e. present (mapped.words (e / 4096) (q % 1024))) (same_pde (q / 1024))
        ∙ ap present (elsewhere q lq ne h.table)
        ∙ h.absent;
  }

  spot_reached :
      translate
        (record m { page_frame_allocator = a })
        (page_table_for_directory_index (page / 1024))
      ≡ done spot
  spot_reached =
      translate_allocator m a (page_table_for_directory_index (page / 1024))
      ∙ table_page pages m (page / 1024) v (omega arith) un.table

  new_entry : set_flags (page_entry f) 3 ≡ al.index * 4096 + 3
  new_entry =
      ap (λ x. set_flags (page_entry x) 3) al.frame_at
      ∙ frame_entry al.index (omega (arith, al.inside, v.frames.small))

  one_step :
      (n : ℕ)
      → alloc pages m.page_frame_allocator 1 ≡ done (f, a)
      → map_pages pages (suc n) (page / 1024) (page % 1024) m
        ≡ map_pages pages n ((page + 1) / 1024) ((page + 1) % 1024) mapped
  unfolding map_pages alloc_frame set_entry
  one_step n e =
      rw (e, spot_reached, new_entry)
        (ap₂ (λ d i. map_pages pages n d i mapped) (next_pde page) (next_pte page))

-- What mapping `n` pages from `page` on does.
pub record IsMapped (pages : ℕ) (m : Mmu) (page n : ℕ) (m' : Mmu) : Type 0 where
  pub valid : IsValid pages m'
  pub vacant : (k f : ℕ) → k < n → translate m (page + k) ≢ done f
  pub fresh :
      (k : ℕ)
      → k < n
      → (f : ℕ) × (translate m' (page + k) ≡ done f)
        × (free_at m.page_frame_allocator.bitmap f ≡ true)
  pub distinct :
      (j k f g : ℕ)
      → j < k
      → k < n
      → translate m' (page + j) ≡ done f
      → translate m' (page + k) ≡ done g
      → f ≢ g
  pub kept : (q f : ℕ) → q < 2 ^ 20 → translate m q ≡ done f → translate m' q ≡ done f
  pub held :
      (j : ℕ)
      → free_at m.page_frame_allocator.bitmap j ≡ false
      → free_at m'.page_frame_allocator.bitmap j ≡ false

at_page : (m : Mmu) (p q f : ℕ) → p ≡ q → translate m p ≡ done f → translate m q ≡ done f
at_page m p q f e h = ap (translate m) (sym e) ∙ h

same_frame : (m : Mmu) (p f g : ℕ) → translate m p ≡ done f → translate m p ≡ done g → f ≡ g
same_frame m p f g h k = cc

module _ (pages : ℕ) (m : Mmu) (v : IsValid pages m) (page : ℕ) (low : page < 1023 * 1024)
    (un : IsUnmapped m page) {f : ℕ} {a : Frames}
    (al : Allocated pages m.page_frame_allocator 1 f a) (n : ℕ) {m' : Mmu}
    (rest : IsMapped pages (mapped pages m v page low un al) (page + 1) n m') where
  was_free : (j : ℕ) → free_at a.bitmap j ≡ true → free_at m.page_frame_allocator.bitmap j ≡ true
  was_free j h = ground (arith, free_after al j)

  now_taken : free_at a.bitmap al.index ≡ false
  now_taken = ground (arith, free_after al al.index)

  first_maps : translate m' page ≡ done al.index
  first_maps = rest.kept page al.index (omega arith) (
      Walked-translate (mapped pages m v page low un al) page al.index
        (mapped-Walked pages m v page low un al))

  later_fresh :
      (k : ℕ)
      → k < suc n
      → (g : ℕ) × (translate m' (page + k) ≡ done g)
        × (free_at m.page_frame_allocator.bitmap g ≡ true)
  later_fresh zero h = (
    al.index,
    at_page m' page (page + 0) al.index (omega arith) first_maps,
    al.was_free al.index (omega arith) (omega arith),
  )
  later_fresh (suc k) h =
      let (g, maps, is_free) = rest.fresh k (omega arith) in
      (g, at_page m' (page + 1 + k) (page + suc k) g (omega arith) maps, was_free g is_free)

  later_distinct :
      (j k g h : ℕ)
      → j < k
      → k < suc n
      → translate m' (page + j) ≡ done g
      → translate m' (page + k) ≡ done h
      → g ≢ h
  later_distinct j zero g h lt lk eg eh = absurd (omega arith)
  later_distinct zero (suc k) g h lt lk eg eh = λ same.
      let (g', maps, is_free) = rest.fresh k (omega arith) in
      let first : g ≡ al.index =
        same_frame m' page g al.index (at_page m' (page + 0) page g (omega arith) eg) first_maps in
      let second : h ≡ g' =
        same_frame m' (page + suc k) h g' eh
          (at_page m' (page + 1 + k) (page + suc k) g' (omega arith) maps) in
      let whose : al.index ≡ g' = omega arith in
      false≢true (sym now_taken ∙ ap (free_at a.bitmap) whose ∙ is_free)
  later_distinct (suc j) (suc k) g h lt lk eg eh =
      rest.distinct j k g h (omega arith) (omega arith)
        (at_page m' (page + suc j) (page + 1 + j) g (omega arith) eg)
        (at_page m' (page + suc k) (page + 1 + k) h (omega arith) eh)

  no_frame_yet : (k g : ℕ) → k < suc n → translate m (page + k) ≢ done g
  no_frame_yet zero g h e = false≢true (
      sym un.absent
      ∙ (translate-Walked m page g (at_page m (page + 0) page g (omega arith) e)).entry)
  no_frame_yet (suc k) g h e = rest.vacant k g (omega arith) (
      translate-write m a (spot pages m v page low un al) (page % 1024) (al.index * 4096 + 3)
        (page + 1 + k) g un.absent (at_page m (page + suc k) (page + 1 + k) g (omega arith) e))

  all-IsMapped : IsMapped pages m page (suc n) m'
  all-IsMapped = record {
    valid = rest.valid;
    vacant = no_frame_yet;
    fresh = later_fresh;
    distinct = later_distinct;
    kept = λ q g lq h. rest.kept q g lq (
        translate-write m a (spot pages m v page low un al) (page % 1024) (al.index * 4096 + 3) q g
          un.absent h);
    held = λ j h. rest.held j (still_held pages m v page low un al j h);
  }

out_of_frames :
    (pages n d i : ℕ) (m : Mmu)
    → alloc pages m.page_frame_allocator 1 ≡ panic
    → map_pages pages (suc n) d i m ≡ panic
unfolding map_pages alloc_frame
out_of_frames pages n d i m e = rw (e)

-- The loop maps `n` pages that have a page table and no frame, or panics where fewer
-- frames are free.
pub map_pages-IsMapped :
    (pages n : ℕ) (m : Mmu) (page : ℕ)
    → IsValid pages m
    → page + n ≤ 1023 * 1024
    → ((k : ℕ) → k < n → IsUnmapped m (page + k))
    → ((map_pages pages n (page / 1024) (page % 1024) m ≡ panic)
        × (free_frames pages m.page_frame_allocator < n))
      ⊎ ((m' : Mmu) × (map_pages pages n (page / 1024) (page % 1024) m ≡ done m')
          × IsMapped pages m page n m')
unfolding map_pages
map_pages-IsMapped pages zero m page v low un = inr (
  m,
  refl,
  record {
    valid = v;
    vacant = λ k f h. absurd (omega arith);
    fresh = λ k h. absurd (omega arith);
    distinct = λ j k f g lt h. absurd (omega arith);
    kept = λ q f lq h. h;
    held = λ j h. h;
  },
)
map_pages-IsMapped pages (suc n) m page v low un =
    elim (alloc_one pages m.page_frame_allocator v.frames) [
      | inr (e, busy) ↦ inl (
        out_of_frames pages n (page / 1024) (page % 1024) m e,
        omega (arith, free_frames-none pages m.page_frame_allocator busy),
      )
      | inl (f, a, e, al) ↦
          let here : IsUnmapped m page =
            subst (IsUnmapped m) {x = page + 0} {y = page} (omega arith) (un 0 (omega arith)) in
          let lt : page < 1023 * 1024 = omega arith in
          let step = one_step pages m v page lt here al n e in
          elim (map_pages-IsMapped pages n (mapped pages m v page lt here al) (page + 1)
            (mapped-IsValid pages m v page lt here al) (omega arith)
            (λ k h.
              still-IsUnmapped pages m v page lt here al (page + 1 + k) (omega arith) (omega arith)
                (subst (IsUnmapped m) {x = page + suc k} {y = page + 1 + k} (omega arith)
                  (un (suc k) (omega arith))))) [
                    | inl (p, few) ↦ inl (step ∙ p, omega (arith, few, free_frames-alloc al))
                    | inr (m', q, rest) ↦
                        inr (m', step ∙ q, all-IsMapped pages m v page lt here al n rest)
                  ]
    ]
