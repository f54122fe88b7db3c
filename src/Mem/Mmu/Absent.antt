-- ===== src/Mem/Mmu/Absent.antt =====
-- The loop of `palloc` at an address that looks whether a page has a frame.
use lamb_os.Base.{
  ℕ, zero, suc, ◌+◌, ◌*◌, ◌/◌, ◌%◌, ◌^◌, ◌≤◌, ◌<◌, ◌≡◌, ◌⊎◌, inl, inr, refl, sym, ap, ◌∙◌, Bool,
  true, false, arith, Bool-cases, false≢true, subst,
}
use lamb_os.Base.Outcome.{done, panic}
use lamb_os.Base.Bits.{bit_and_index}
use lamb_os.Mem.Frames.Bitmaps.{free_at}
use lamb_os.Mem.Mmu.{
  Mmu, translate, entry_at_index, table_for_address, page_for_address, all_absent,
}
use lamb_os.Mem.Mmu.Walk.{
  pde_of, pte_of, present, IsValid, IsUnmapped, Walked-translate, table_page,
}
use lamb_os.Mem.Mmu.Counts.{Spends, free_frames, missing, free_frames-none, missing_pos}
use lamb_os.Mem.Mmu.NewTable.{Extends, Extends-self, Extends-trans}
use lamb_os.Mem.Mmu.Tables.{get_or_create_table_lem}

pub space_kept :
    (pages : ℕ) (m m' : Mmu) (space : ℕ)
    → space < 2 ^ 20
    → Extends pages m m'
    → translate m space ≡ done m.directory
    → translate m' space ≡ done m'.directory
space_kept pages m m' space lq x at =
    x.kept space m.directory lq at ∙ ap done (sym x.same_directory)

page_for_returns :
    (pages : ℕ) (m : Mmu) (space va : ℕ)
    → IsValid pages m
    → translate m space ≡ done m.directory
    → va < 2 ^ 32
    → ((page_for_address pages m space va ≡ panic)
        × (present (pde_of m (va / 2 ^ 22)) ≡ false)
        × ((j : ℕ) → j < pages → free_at m.page_frame_allocator.bitmap j ≡ false))
      ⊎ ((m' : Mmu) × (page_for_address pages m space va ≡ done (pte_of m' (va / 4096), m'))
          × Extends pages m m'
          × (present (pde_of m' (va / 4096 / 1024)) ≡ true)
          × ((low n : ℕ) → low ≤ va / 2 ^ 22 → va / 2 ^ 22 < low + n → Spends pages low n m m'))
unfolding page_for_address table_for_address entry_at_index
page_for_returns pages m space va v at h =
    elim (get_or_create_table_lem pages m space (va / 2 ^ 22) v at (omega arith)) [
      | inl (p, absent, busy) ↦ inl (rw (p), absent, busy)
      | inr (m', e, x, there, same, empty, spends) ↦
          let i : va / 2 ^ 22 ≡ va / 4096 / 1024 = omega arith in
          let reached = table_page pages m' (va / 2 ^ 22) x.valid (omega arith) there in
          inr (
            m',
            rw (e, reached, bit_and_index (va / 2 ^ 12)) (rw (i)),
            x,
            ap (λ j. present (pde_of m' j)) (sym i) ∙ there,
            spends,
          )
    ]

-- A page that has a frame, among `n` pages from one on.
abbrev pub HasFrame : Mmu → ℕ → ℕ → Type 0
HasFrame m page n = (k : ℕ) × (f : ℕ) × (k < n) × (translate m (page + k) ≡ done f)

-- What the loop over `n` pages from `va` on finds, and the frames it takes for the tables of a
-- part of the directory in which all the pages are.
pub record Looked (pages low tables : ℕ) (m : Mmu) (va n : ℕ) (b : Bool) (m' : Mmu) : Type 0 where
  pub extends : Extends pages m m'
  pub spends : Spends pages low tables m m'
  pub free_pages : b ≡ true → (k : ℕ) → k < n → IsUnmapped m' (va / 4096 + k)
  pub taken_page : b ≡ false → HasFrame m (va / 4096) n

module _ (pages low tables : ℕ) where
  -- The first page is free, and then those behind it.
  each :
      (n va : ℕ) (m₁ m₂ : Mmu)
      → va + suc n * 4096 ≤ 1023 * 2 ^ 22
      → Extends pages m₁ m₂
      → present (pte_of m₁ (va / 4096)) ≡ false
      → present (pde_of m₁ (va / 4096 / 1024)) ≡ true
      → ((j : ℕ) → j < n → IsUnmapped m₂ ((va + 4096) / 4096 + j))
      → (k : ℕ) → k < suc n
      → IsUnmapped m₂ (va / 4096 + k)
  each n va m₁ m₂ h x absent there later zero lt =
      subst (IsUnmapped m₂) {x = va / 4096} {y = va / 4096 + 0} (omega arith)
        (x.unmapped (va / 4096) (omega arith) (record { table = there; absent = absent }))
  each n va m₁ m₂ h x absent there later (suc k) lt =
      subst (IsUnmapped m₂) {x = (va + 4096) / 4096 + k} {y = va / 4096 + suc k} (omega arith)
        (later k (omega arith))

  first_taken :
      (n va : ℕ) (m m₁ : Mmu)
      → va + suc n * 4096 ≤ 1023 * 2 ^ 22
      → Extends pages m m₁
      → present (pte_of m₁ (va / 4096)) ≡ true
      → present (pde_of m₁ (va / 4096 / 1024)) ≡ true
      → HasFrame m (va / 4096) (suc n)
  first_taken n va m m₁ h x taken there = (
    0,
    pte_of m₁ (va / 4096) / 4096,
    omega arith,
    x.nothing_new (va / 4096 + 0) (pte_of m₁ (va / 4096) / 4096) (omega arith) (
        subst (λ p. translate m₁ p ≡ done (pte_of m₁ (va / 4096) / 4096)) {x = va / 4096}
          (omega arith)
          (Walked-translate m₁ (va / 4096) (pte_of m₁ (va / 4096) / 4096)
            (record { table = there; entry = taken; frame = refl }))),
  )

  later_taken :
      (n va : ℕ) (m m₁ : Mmu)
      → va + suc n * 4096 ≤ 1023 * 2 ^ 22
      → Extends pages m m₁
      → HasFrame m₁ ((va + 4096) / 4096) n
      → HasFrame m (va / 4096) (suc n)
  later_taken n va m m₁ h x (k, f, lt, maps) = (
    suc k,
    f,
    omega arith,
    x.nothing_new (va / 4096 + suc k) f (omega arith)
        (subst (λ p. translate m₁ p ≡ done f) {x = (va + 4096) / 4096 + k} (omega arith) maps),
  )

  pub all_absent_returns :
      (n : ℕ) (m : Mmu) (space va : ℕ)
      → IsValid pages m
      → translate m space ≡ done m.directory
      → space < 2 ^ 20
      → va + n * 4096 ≤ 1023 * 2 ^ 22
      → low ≤ va / 2 ^ 22
      → va / 4096 + n ≤ (low + tables) * 1024
      → ((all_absent pages n m space va ≡ panic)
          × (free_frames pages m.page_frame_allocator < missing low tables m))
        ⊎ ((b : Bool) × (m' : Mmu) × (all_absent pages n m space va ≡ done (b, m'))
            × Looked pages low tables m va n b m')
  unfolding all_absent
  all_absent_returns zero m space va v at lq h le covers = inr (
    true,
    m,
    refl,
    record {
      extends = Extends-self pages m v;
      spends = refl;
      free_pages = λ _ k lt. absurd (omega arith);
      taken_page = λ e. absurd (false≢true (sym e));
    },
  )
  all_absent_returns (suc n) m space va v at lq h le covers =
      elim (page_for_returns pages m space va v at (omega arith)) [
        | inl (p, absent, busy) ↦ inl (
          rw (p),
          omega (
            arith,
            free_frames-none pages m.page_frame_allocator busy,
            missing_pos low tables (va / 2 ^ 22) m le (omega arith) absent,
          ),
        )
        | inr (m₁, e, x, there, spends) ↦
            let spent = spends low tables le (omega arith) in
            elim (Bool-cases (present (pte_of m₁ (va / 4096)))) [
              | inl taken ↦ inr (
                false,
                m₁,
                rw (e, taken),
                record {
                  extends = x;
                  spends = spent;
                  free_pages = λ no_run k lt. absurd (false≢true no_run);
                  taken_page = λ _. first_taken n va m m₁ h x taken there;
                },
              )
              | inr absent ↦
                  let next : (va + 0x1000) % 2 ^ 32 ≡ va + 4096 = omega arith in
                  elim (all_absent_returns n m₁ space (va + 4096) x.valid
                    (space_kept pages m m₁ space lq x at) lq (omega arith) (omega arith)
                    (omega arith)) [
                      | inl (p, few) ↦ inl (rw (e, absent, next) p, omega (arith, few, spent))
                      | inr (b, m₂, r, l) ↦ inr (
                        b,
                        m₂,
                        rw (e, absent, next) r,
                        record {
                          extends = Extends-trans pages m m₁ m₂ x l.extends;
                          spends = omega (arith, spent, l.spends);
                          free_pages = λ yes_run.
                              each n va m₁ m₂ h l.extends absent there (l.free_pages yes_run);
                          taken_page = λ no_run. later_taken n va m m₁ h x (l.taken_page no_run);
                        },
                      )
                    ]
            ]
      ]
