-- ===== src/Mem/Mmu/Pages.antt =====
-- Allocating pages at an address.
use lamb_os.Base.{
  ℕ, ◌+◌, ◌*◌, ◌/◌, ◌%◌, ◌^◌, ◌≤◌, ◌<◌, ◌≡◌, ◌≢◌, ◌⊎◌, inl, inr, refl, sym, ap₂, ◌∙◌, Bool, true,
  false, not, ◌&&◌, ◌==◌, arith, Bool-cases, false≢true, bit_and,
}
use lamb_os.Base.Outcome.{done, panic}
use lamb_os.Base.Bits.{bit_and_index, bit_and_offset}
use lamb_os.Mem.Frames.Bitmaps.{free_at}
use lamb_os.Mem.Mmu.{Mmu, translate, map_pages, allocate_pages, palloc_at}
use lamb_os.Mem.Mmu.Walk.{IsValid, IsUnmapped}
use lamb_os.Mem.Mmu.Counts.{free_frames, missing, tables_of}
use lamb_os.Mem.Mmu.NewTable.{Extends, Extends-self}
use lamb_os.Mem.Mmu.Mapping.{IsMapped, map_pages-IsMapped}
use lamb_os.Mem.Mmu.Absent.{HasFrame, Looked, all_absent_returns}

-- Mapping after tables were made.
pub after_tables :
    (pages : ℕ) (m m₁ m₂ : Mmu) (page n : ℕ)
    → page + n ≤ 2 ^ 20
    → Extends pages m m₁
    → IsMapped pages m₁ page n m₂
    → IsMapped pages m page n m₂
after_tables pages m m₁ m₂ page n h x y = record {
  valid = y.valid;
  vacant = λ k f lt e. y.vacant k f lt (x.kept (page + k) f (omega arith) e);
  fresh = λ k lt. let (f, maps, is_free) = y.fresh k lt in (f, maps, earlier f is_free);
  distinct = y.distinct;
  kept = λ q f lq h. y.kept q f lq (x.kept q f lq h);
  held = λ j h. y.held j (x.held j h);
}
  where
    earlier :
        (f : ℕ)
        → free_at m₁.page_frame_allocator.bitmap f ≡ true
        → free_at m.page_frame_allocator.bitmap f ≡ true
    earlier f h = elim (Bool-cases (free_at m.page_frame_allocator.bitmap f)) [
      | inl e ↦ e
      | inr e ↦ absurd (false≢true (sym (x.held f e) ∙ h))
    ]

pub allocate_pages-IsMapped :
    (pages n : ℕ) (m : Mmu) (va : ℕ)
    → IsValid pages m
    → va + n * 4096 ≤ 1023 * 2 ^ 22
    → ((k : ℕ) → k < n → IsUnmapped m (va / 4096 + k))
    → ((allocate_pages pages m va n ≡ panic) × (free_frames pages m.page_frame_allocator < n))
      ⊎ ((m' : Mmu) × (allocate_pages pages m va n ≡ done m') × IsMapped pages m (va / 4096) n m')
unfolding allocate_pages
allocate_pages-IsMapped pages n m va v h un =
    let same : map_pages pages n (va / 2 ^ 22) (bit_and (va / 2 ^ 12) 0x03FF) m
        ≡ map_pages pages n (va / 4096 / 1024) (va / 4096 % 1024) m =
      ap₂ (λ d i. map_pages pages n d i m) {x = va / 2 ^ 22} {y = va / 4096 / 1024} (omega arith)
        (bit_and_index (va / 2 ^ 12)) in
    elim (map_pages-IsMapped pages n m (va / 4096) v (omega arith) un) [
      | inl (p, few) ↦ inl (same ∙ p, few)
      | inr (m', e, r) ↦ inr (m', same ∙ e, r)
    ]

-- `palloc` at an address, for pages below the last page table, never faults. It panics only where
-- fewer frames are free than pages are asked for and page tables are missing for them. It returns
-- the null pointer only for an address that is no multiple of the page size or is 0, or where one
-- of the pages has a frame, and has then at most made page tables. Or it returns the address, and
-- each of the pages, which had no frame, has one of its own that was free. Whatever had a frame
-- keeps it.
pub palloc_at_lem :
    (pages n : ℕ) (m : Mmu) (space va : ℕ)
    → IsValid pages m
    → translate m space ≡ done m.directory
    → space < 2 ^ 20
    → va + n * 4096 ≤ 1023 * 2 ^ 22
    → ((palloc_at pages m space va n ≡ panic)
        × (free_frames pages m.page_frame_allocator
            < n + missing (va / 2 ^ 22) (tables_of (va / 4096) n) m))
      ⊎ ((m' : Mmu) × (((palloc_at pages m space va n ≡ done (0, m'))
              × Extends pages m m'
              × ((va % 4096 ≢ 0) ⊎ ((va ≡ 0) ⊎ HasFrame m (va / 4096) n)))
            ⊎ ((palloc_at pages m space va n ≡ done (va, m'))
                × (va ≢ 0)
                × IsMapped pages m (va / 4096) n m')))
unfolding palloc_at
palloc_at_lem pages n m space va v at lq h = elim (Bool-cases (bit_and va 0xFFF == 0)) [
  | inr odd ↦ inr (
    m,
    inl (
      rw (odd),
      Extends-self pages m v,
      inl (λ e. absurd (true_false (bit_and va 0xFFF) (bit_and_offset va ∙ e) odd)),
    ),
  )
  | inl even ↦
      elim (all_absent_returns pages (va / 2 ^ 22) (tables_of (va / 4096) n) n m space va v at lq h
        (omega arith) (omega arith)) [
          | inl (p, few) ↦ inl (rw (even, p), omega (arith, few))
          | inr (b, m₁, e, l) ↦ elim (Bool-cases (b && not (va == 0))) [
            | inr null ↦ inr (m₁, inl (rw (even, e, null), l.extends, inr (refused b m₁ l null)))
            | inl good ↦
                let all_free : b ≡ true = ground arith in
                elim (allocate_pages-IsMapped pages n m₁ va l.extends.valid h
                  (l.free_pages all_free)) [
                    | inl (p, few) ↦ inl (rw (even, e, good, p), omega (arith, few, l.spends))
                    | inr (m₂, r, mapped) ↦ inr (
                      m₂,
                      inr (
                        rw (even, e, good, r),
                        not_null b good,
                        after_tables pages m m₁ m₂ (va / 4096) n (omega arith) l.extends mapped,
                      ),
                    )
                  ]
          ]
        ]
]
  where
    true_false : (x : ℕ) → x ≡ 0 → (x == 0) ≡ false → ⊥
    true_false x e h = ground arith

    not_null : (b : Bool) → (b && not (va == 0)) ≡ true → va ≢ 0
    not_null b g e = ground arith

    refused :
        (b : Bool) (m₁ : Mmu)
        → Looked pages (va / 2 ^ 22) (tables_of (va / 4096) n) m va n b m₁
        → (b && not (va == 0)) ≡ false
        → (va ≡ 0) ⊎ HasFrame m (va / 4096) n
    refused true m₁ l null = inl (ground arith)
    refused false m₁ l null = inr (l.taken_page refl)
