-- ===== src/Mem/Mmu/Tests.antt =====
-- A small unit: 32 frames, the directory in frame 2, which is also mapped at page 2, and one page
-- table in frame 3.
use lamb_os.Base.{
  ℕ, ◌+◌, ◌*◌, ◌/◌, ◌%◌, ◌^◌, ◌<◌, ◌≤◌, ◌≡◌, ◌≢◌, ◌⊎◌, refl, sym, ap, ◌∙◌, inl, inr, ne→==, Bool,
  true, false, ◌&&◌, [], ◌∷◌, ◌==◌, if◌then◌else◌, arith,
}
use lamb_os.Base.Outcome.{done, panic}
use lamb_os.Mem.Frames.{frame_to_index}
use lamb_os.Mem.Frames.Inv
use native.Mathlib.Decide.{ℕ_discrete}
use lamb_os.Mem.Frames.Bitmaps.{free_at}
use lamb_os.Mem.PageEntry.{get_flag}
use lamb_os.Mem.Mmu.{
  Mmu, translate, page_table_for_directory_index, get_or_create_table, palloc, palloc_at,
}
use lamb_os.Mem.Mmu.Walk.{pde_of, table_of, present, IsValid}
use lamb_os.Mem.Mmu.NewTable.{Extends}
use lamb_os.Mem.Mmu.Tables.{get_or_create_table_lem}
use lamb_os.Mem.Mmu.Mapping.{IsMapped}
use lamb_os.Mem.Mmu.Counts.{Spends, free_frames, missing, tables_of}
use lamb_os.Mem.Mmu.Absent.{HasFrame}
use lamb_os.Mem.Mmu.Pages.{palloc_at_lem}
use lamb_os.Mem.Mmu.Search.{palloc_lem}

abbrev small : Mmu
small = record {
  page_frame_allocator = record {
    bitmap = record {
      usable = record { bits = 0xFFFFFFFF ∷ [] };
      used = record { bits = 15 ∷ [] };
    };
    last_alloc_frame = 0;
  };
  directory = 2;
  words = λ f i.
      if f == 2 && i == 1023
      then 2 * 4096 + 3
      else if f == 2 && i == 0
      then 3 * 4096 + 3
      else if f == 3 && i == 2
      then 2 * 4096 + 3
      else 0;
}

small_frames : Inv.IsValid 32 small.page_frame_allocator
unfolding frame_to_index
small_frames = record {
  usable_size = refl;
  used_size = refl;
  small = omega arith;
  last_in = omega arith;
}

absent_zero : ◌≢◌ {A = Bool} (present 0) true
unfolding get_flag
absent_zero e = cc

-- Only these two tables are there.
small_tables : (i : ℕ) → present (pde_of small i) ≡ true → (i ≡ 1023) ⊎ (i ≡ 0)
small_tables i h = elim (ℕ_discrete i 1023) [
  | yes last ↦ inl last
  | no nl ↦ elim (ℕ_discrete i 0) [
    | yes first ↦ inr first
    | no nf ↦
        let empty : pde_of small i ≡ 0 = rw (ne→== i 1023 nl, ne→== i 0 nf) in
        absurd (absent_zero (ap present (sym empty) ∙ h))
  ]
]

small-IsValid : IsValid 32 small
unfolding get_flag
small-IsValid = record {
  frames = small_frames;
  self_present = refl;
  self_map = refl;
  held = λ i lt h. elim (small_tables i h) [
    | inl last ↦ ap (λ j. free_at small.page_frame_allocator.bitmap (table_of small j)) last
    | inr first ↦ ap (λ j. free_at small.page_frame_allocator.bitmap (table_of small j)) first
  ];
  apart = λ i j hi hj pi pj e. elim (small_tables i pi) [
    | inl il ↦ elim (small_tables j pj) [
      | inl jl ↦ il ∙ sym jl
      | inr jf ↦ absurd (differ (sym (ap (table_of small) il) ∙ e ∙ ap (table_of small) jf))
    ]
    | inr if' ↦ elim (small_tables j pj) [
      | inl jl ↦ absurd (differ (sym (ap (table_of small) jl) ∙ sym e ∙ ap (table_of small) if'))
      | inr jf ↦ if' ∙ sym jf
    ]
  ];
}
  where
    differ : table_of small 1023 ≢ table_of small 0
    differ e = absurd (omega (arith, e))

small_space : translate small 2 ≡ done 2
unfolding translate get_flag
small_space = refl

get_or_create_table_lem_example :
    ((get_or_create_table 32 small 2 1 ≡ panic)
      × (present (pde_of small 1) ≡ false)
      × ((j : ℕ) → j < 32 → free_at small.page_frame_allocator.bitmap j ≡ false))
    ⊎ ((m' : Mmu) × (get_or_create_table 32 small 2 1 ≡ done (page_table_for_directory_index 1, m'))
        × Extends 32 small m'
        × (present (pde_of m' 1) ≡ true)
        × (present (pde_of small 1) ≡ true → m' ≡ small)
        × (present (pde_of small 1) ≡ false → (k : ℕ) → m'.words (table_of m' 1) k ≡ 0)
        × ((low n : ℕ) → low ≤ 1 → 1 < low + n → Spends 32 low n small m'))
get_or_create_table_lem_example =
    get_or_create_table_lem 32 small 2 1 small-IsValid small_space (omega arith)

palloc_at_lem_example :
    ((palloc_at 32 small 2 0x5000 3 ≡ panic)
      × (free_frames 32 small.page_frame_allocator < 3 + missing 0 (tables_of 5 3) small))
    ⊎ ((m' : Mmu) × (((palloc_at 32 small 2 0x5000 3 ≡ done (0, m'))
            × Extends 32 small m'
            × ((◌≢◌ {A = ℕ} (0x5000 % 4096) 0) ⊎ ((◌≡◌ {A = ℕ} 0x5000 0) ⊎ HasFrame small 5 3)))
          ⊎ ((palloc_at 32 small 2 0x5000 3 ≡ done (0x5000, m'))
              × (◌≢◌ {A = ℕ} 0x5000 0)
              × IsMapped 32 small 5 3 m')))
palloc_at_lem_example =
    palloc_at_lem 32 3 small 2 0x5000 small-IsValid small_space (omega arith) (omega arith)

-- 28 frames are free, and the one table that these pages need is there: it does not panic.
enough_frames :
    (free_frames 32 small.page_frame_allocator ≡ 28) × (missing 0 (tables_of 5 3) small ≡ 0)
unfolding lamb_os.Mem.Mmu.Counts.count get_flag
enough_frames = (refl, refl)

palloc_lem_example :
    ((palloc 32 small 2 4 ≡ panic)
      × (free_frames 32 small.page_frame_allocator < 4 + missing 0 1024 small))
    ⊎ ((m' : Mmu) × (((palloc 32 small 2 4 ≡ done (0, m'))
            × Extends 32 small m'
            × (((k f : ℕ) → k < 4 → translate small k ≢ done f)
                ⊎ ((q : ℕ) → q + 4 ≤ 1023 * 1024 → HasFrame small q 4)))
          ⊎ ((va : ℕ) × (palloc 32 small 2 4 ≡ done (va, m'))
              × (va ≢ 0)
              × (va % 4096 ≡ 0)
              × (va + 4 * 4096 ≤ 1023 * 2 ^ 22)
              × IsMapped 32 small (va / 4096) 4 m')))
palloc_lem_example = palloc_lem 32 4 small 2 small-IsValid small_space (omega arith)
