-- ===== src/Mem/Mmu/Tables.antt =====
-- Making page tables: `getOrCreateTable`.
use lamb_os.Base.{
  ℕ, ◌+◌, ◌<◌, ◌≤◌, ◌≡◌, ◌⊎◌, inl, inr, refl, sym, ◌∙◌, true, false, arith, Bool-cases, false≢true,
  le→ltb,
}
use lamb_os.Base.Outcome.{done, panic}
use lamb_os.Mem.Frames.Alloc.{alloc_one}
use lamb_os.Mem.Frames.Bitmaps.{free_at}
use lamb_os.Mem.Mmu.{
  Mmu, translate, entry_at_index, page_table_for_directory_index, alloc_frame, get_or_create_table,
}
use lamb_os.Mem.Mmu.Walk.{pde_of, table_of, present, IsValid}
use lamb_os.Mem.Mmu.Counts.{Spends}
use lamb_os.Mem.Mmu.NewTable.{
  Extends, Extends-self, made, made-Extends, made-present, made_empty, made-Spends, creates,
}

-- `getOrCreateTable` at an index of the directory ends, or panics where the table is not there and
-- no frame is free. It keeps every page that has a frame, and gives none to another page below the
-- last table; a table that is there stays as it is, and a new one is empty and takes one frame.
pub get_or_create_table_lem :
    (pages : ℕ) (m : Mmu) (space i : ℕ)
    → IsValid pages m
    → translate m space ≡ done m.directory
    → i < 1024
    → ((get_or_create_table pages m space i ≡ panic)
        × (present (pde_of m i) ≡ false)
        × ((j : ℕ) → j < pages → free_at m.page_frame_allocator.bitmap j ≡ false))
      ⊎ ((m' : Mmu) × (get_or_create_table pages m space i
            ≡ done (page_table_for_directory_index i, m'))
          × Extends pages m m'
          × (present (pde_of m' i) ≡ true)
          × (present (pde_of m i) ≡ true → m' ≡ m)
          × (present (pde_of m i) ≡ false → (k : ℕ) → m'.words (table_of m' i) k ≡ 0)
          × ((low n : ℕ) → low ≤ i → i < low + n → Spends pages low n m m'))
unfolding get_or_create_table entry_at_index alloc_frame
get_or_create_table_lem pages m space i v at lt = elim (Bool-cases (present (pde_of m i))) [
  | inl there ↦ inr (
    m,
    rw (le→ltb 1023 i (omega arith), at, there),
    Extends-self pages m v,
    there,
    λ _. refl,
    λ absent k. absurd (false≢true (sym absent ∙ there)),
    λ low n le lt'. refl,
  )
  | inr absent ↦ elim (alloc_one pages m.page_frame_allocator v.frames) [
    | inr (e, busy) ↦ inl (rw (le→ltb 1023 i (omega arith), at, absent, e), absent, busy)
    | inl (f, a, e, al) ↦ inr (
      made pages m v i lt absent al,
      creates pages m v i lt absent al space at e,
      made-Extends pages m v i lt absent al,
      made-present pages m v i lt absent al,
      λ there. absurd (false≢true (sym absent ∙ there)),
      λ _ k. made_empty pages m v i lt absent al k,
      made-Spends pages m v i lt absent al,
    )
  ]
]
