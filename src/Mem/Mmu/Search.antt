-- ===== src/Mem/Mmu/Search.antt =====
-- The search for free pages in a row over the directory, and `palloc`.
use lamb_os.Base.{
  ℕ, zero, suc, ◌+◌, ◌*◌, ◌/◌, ◌%◌, ◌^◌, ◌≤◌, ◌<◌, ◌≡◌, ◌≢◌, ◌⊎◌, inl, inr, refl, sym, ap, ◌∙◌,
  true, false, ◌==◌, arith, ne→==, false≢true, subst,
}
use native.Mathlib.Decide.{ℕ_discrete}
use lamb_os.Base.Outcome.{done, panic}
use lamb_os.Mem.Mmu.{
  Mmu, PageSearch, none_found, translate, page_table_for_directory_index, search_directory, palloc,
}
use lamb_os.Mem.Mmu.Walk.{
  pde_of, table_of, present, IsValid, IsUnmapped, translate-Walked, table_page,
}
use lamb_os.Mem.Mmu.Counts.{Spends, free_frames, missing, free_frames-none, missing_pos}
use lamb_os.Mem.Mmu.NewTable.{Extends, Extends-self, Extends-trans}
use lamb_os.Mem.Mmu.Tables.{get_or_create_table_lem}
use lamb_os.Mem.Mmu.Mapping.{IsMapped}
use lamb_os.Mem.Mmu.Absent.{HasFrame, space_kept}
use lamb_os.Mem.Mmu.Pages.{after_tables, allocate_pages-IsMapped}
use lamb_os.Mem.Mmu.Runs.{start, Looking, Found, table_search}

Found-ends :
    (pages n k space pde : ℕ) (m : Mmu) (s : PageSearch)
    → Found n m s
    → search_directory pages k n space pde m s ≡ done (s, m)
unfolding search_directory
Found-ends pages n zero space pde m s found = refl
Found-ends pages n (suc k) space pde m s found =
    let test : (s.contiguous_found_pages == n) ≡ true = ground (arith, found.enough) in rw (test)

-- A run is not lost where tables are made.
Looking-on :
    (pages n pde : ℕ) (m m' : Mmu) (s : PageSearch)
    → pde < 1024
    → Extends pages m m'
    → Looking n m (pde * 1024) s
    → Looking n m' (pde * 1024) s
Looking-on pages n pde m m' s lt x look = record {
  few = look.few;
  no_result = look.no_result;
  run_end = look.run_end;
  run_free = λ k lk.
      x.unmapped (start s + k) (omega (arith, look.run_end (omega arith))) (look.run_free k lk);
  edge = λ h. let (r, f, at, maps) = look.edge h in (r, f, at, x.kept r f (omega arith) maps);
  window = λ q h.
      let (k, f, lk, maps) = look.window q h in (k, f, lk, x.kept (q + k) f (omega arith) maps);
}

-- Where all other tables are there, the directory as a table has no free page.
last_is_full :
    (pages : ℕ) (m : Mmu) (pde : ℕ)
    → IsValid pages m
    → pde < 1024
    → ((j : ℕ) → j < pde → present (pde_of m j) ≡ true)
    → (i : ℕ) → i < 1024
    → present (m.words (table_of m pde) i) ≡ false
    → pde < 1023
last_is_full pages m pde v lt tables i hi absent = elim (ℕ_discrete pde 1023) [
  | no ne ↦ omega arith
  | yes top ↦
      let own : m.words (table_of m pde) i ≡ pde_of m i =
        ap (λ d. m.words (table_of m d) i) top ∙ ap (λ f. m.words f i) v.self_map in
      absurd (
        false≢true (
          sym absent ∙ ap present own ∙ (elim (ℕ_discrete i 1023) [
            | yes last ↦ ap (λ j. present (pde_of m j)) last ∙ v.self_present
            | no ne ↦ tables i (omega arith)
          ])))
]

-- No `n` pages in a row below the last page table are without a frame.
abbrev NoRun : Mmu → ℕ → Type 0
NoRun m n = (q : ℕ) → q + n ≤ 1023 * 1024 → HasFrame m q n

-- How the search ends.
abbrev Searched : ℕ → ℕ → Mmu → PageSearch → Mmu → Type 0
Searched pages n m s' m' =
    Extends pages m m' × Spends pages 0 1024 m m' × (Found n m' s' ⊎ ((s'.retval ≡ 0) × NoRun m' n))

directory_search :
    (pages n k pde : ℕ) (m : Mmu) (space : ℕ) (s : PageSearch)
    → pde + k ≡ 1024
    → IsValid pages m
    → translate m space ≡ done m.directory
    → space < 2 ^ 20
    → ((j : ℕ) → j < pde → present (pde_of m j) ≡ true)
    → Looking n m (pde * 1024) s
    → ((search_directory pages k n space pde m s ≡ panic)
        × (free_frames pages m.page_frame_allocator < missing 0 1024 m))
      ⊎ ((s' : PageSearch) × (m' : Mmu) × (search_directory pages k n space pde m s ≡ done (s', m'))
          × Searched pages n m s' m')
unfolding search_directory
directory_search pages n zero pde m space s e v at lq tables look = inr (
  s,
  m,
  refl,
  (Extends-self pages m v, refl, inr (look.no_result, λ q h. look.window q (omega arith))),
)
directory_search pages n (suc k) pde m space s e v at lq tables look =
    let go_on = ne→== s.contiguous_found_pages n (omega (arith, look.few)) in
    elim (get_or_create_table_lem pages m space pde v at (omega arith)) [
      | inl (p, absent, busy) ↦ inl (
        rw (go_on, p),
        omega (
          arith,
          free_frames-none pages m.page_frame_allocator busy,
          missing_pos 0 1024 pde m (omega arith) (omega arith) absent,
        ),
      )
      | inr (m₁, r, x, there, _, _, spends) ↦
          let spent = spends 0 1024 (omega arith) (omega arith) in
          let reach = table_page pages m₁ pde x.valid (omega arith) there in
          let tables₁ = λ (j : ℕ) (lt : j < pde). x.tables j (tables j lt) in
          let (s₁, r₁, ends) =
            table_search n 1024 pde (page_table_for_directory_index pde) 0 m₁ s refl reach there
              (last_is_full pages m₁ pde x.valid (omega arith) tables₁)
              (subst (λ p. Looking n m₁ p s) (omega arith)
                (Looking-on pages n pde m m₁ s (omega arith) x look)) in
          elim ends [
            | inl found ↦ inr (
              s₁,
              m₁,
              rw (go_on, r, r₁) (Found-ends pages n k space (pde + 1) m₁ s₁ found),
              (x, spent, inl found),
            )
            | inr look₁ ↦
                elim (directory_search pages n k (pde + 1) m₁ space s₁ (omega arith) x.valid
                  (space_kept pages m m₁ space lq x at) lq
                  (λ j lt. elim (ℕ_discrete j pde) [
                    | yes same ↦ ap (λ i. present (pde_of m₁ i)) same ∙ there
                    | no ne ↦ tables₁ j (omega arith)
                  ])
                  look₁) [
                    | inl (p, few) ↦ inl (rw (go_on, r, r₁) p, omega (arith, few, spent))
                    | inr (s₂, m₂, r₂, (x₂, spent₂, last)) ↦ inr (
                      s₂,
                      m₂,
                      rw (go_on, r, r₁) r₂,
                      (Extends-trans pages m m₁ m₂ x x₂, omega (arith, spent, spent₂), last),
                    )
                  ]
          ]
    ]

from_start :
    (pages n : ℕ) (m : Mmu) (space : ℕ)
    → IsValid pages m
    → translate m space ≡ done m.directory
    → space < 2 ^ 20
    → ((search_directory pages 1024 n space 0 m none_found ≡ panic)
        × (free_frames pages m.page_frame_allocator < missing 0 1024 m))
      ⊎ ((s' : PageSearch) × (m' : Mmu) × (search_directory pages 1024 n space 0 m none_found
            ≡ done (s', m'))
          × Searched pages n m s' m')
from_start pages zero m space v at lq =
    let nothing : Found 0 m none_found = record {
      enough = refl;
      low = omega arith;
      result = refl;
      run_free = λ k lk. absurd (omega arith);
    } in
    inr (
      none_found,
      m,
      Found-ends pages 0 1024 space 0 m none_found nothing,
      (Extends-self pages m v, refl, inl nothing),
    )
from_start pages (suc n) m space v at lq =
    directory_search pages (suc n) 1024 0 m space none_found refl v at lq
      (λ j lt. absurd (omega arith))
      (record {
        few = omega arith;
        no_result = refl;
        run_end = λ ne. absurd (ne refl);
        run_free = λ k lk. absurd (omega arith);
        edge = λ h. absurd (omega arith);
        window = λ q h. absurd (omega arith);
      })

-- A page that has no frame after tables were made had none before.
had_none :
    (pages : ℕ) (m m' : Mmu) (q f : ℕ)
    → q < 2 ^ 20
    → Extends pages m m'
    → IsUnmapped m' q
    → translate m q ≢ done f
had_none pages m m' q f lq x un e =
    false≢true (sym un.absent ∙ (translate-Walked m' q f (x.kept q f lq e)).entry)

-- Why the search found no address: the run starts at page 0, whose address is the null pointer, or
-- there is no run.
no_address :
    (pages n : ℕ) (m m' : Mmu) (s : PageSearch)
    → Extends pages m m'
    → s.retval ≡ 0
    → Found n m' s ⊎ ((s.retval ≡ 0) × NoRun m' n)
    → ((k f : ℕ) → k < n → translate m k ≢ done f) ⊎ NoRun m n
no_address pages n m m' s x null (inl found) = inl (λ k f lk.
    had_none pages m m' k f (omega (arith, found.low)) x
      (subst (IsUnmapped m') {x = start s + k} (omega (arith, found.result)) (found.run_free k lk)))
no_address pages n m m' s x null (inr (_, none)) = inr (λ q h.
    let (k, f, lk, maps) = none q h in (k, f, lk, x.nothing_new (q + k) f (omega arith) maps))

-- `palloc` never faults. It panics only where fewer frames are free than pages are asked for and
-- page tables are missing. It returns the null pointer only where each run of as many pages below
-- the last page table has a page with a frame, or where the first pages of the space have none,
-- since page 0 has that address; it has then at most made page tables. Or it returns the address
-- of pages below the last page table that had no frame, and each of them has a frame of its own
-- that was free. Whatever had a frame keeps it.
pub palloc_lem :
    (pages n : ℕ) (m : Mmu) (space : ℕ)
    → IsValid pages m
    → translate m space ≡ done m.directory
    → space < 2 ^ 20
    → ((palloc pages m space n ≡ panic)
        × (free_frames pages m.page_frame_allocator < n + missing 0 1024 m))
      ⊎ ((m' : Mmu) × (((palloc pages m space n ≡ done (0, m'))
              × Extends pages m m'
              × (((k f : ℕ) → k < n → translate m k ≢ done f)
                  ⊎ ((q : ℕ) → q + n ≤ 1023 * 1024 → HasFrame m q n)))
            ⊎ ((va : ℕ) × (palloc pages m space n ≡ done (va, m'))
                × (va ≢ 0)
                × (va % 4096 ≡ 0)
                × (va + n * 4096 ≤ 1023 * 2 ^ 22)
                × IsMapped pages m (va / 4096) n m')))
unfolding palloc
palloc_lem pages n m space v at lq = elim (from_start pages n m space v at lq) [
  | inl (p, few) ↦ inl (rw (p), omega (arith, few))
  | inr (s, m₁, r, (x, spent, ends)) ↦ elim (ℕ_discrete s.retval 0) [
    | yes null ↦
        let test : (s.retval == 0) ≡ true = ground arith in
        inr (m₁, inl (rw (r, test), x, no_address pages n m m₁ s x null ends))
    | no ne ↦ elim ends [
      | inr (null, _) ↦ absurd (ne null)
      | inl found ↦
          elim (allocate_pages-IsMapped pages n m₁ s.retval x.valid
            (omega (arith, found.low, found.result))
            (λ k lk.
              subst (IsUnmapped m₁) {x = start s + k} (omega (arith, found.result))
                (found.run_free k lk))) [
                  | inl (p, few) ↦ inl (rw (r, ne→== s.retval 0 ne, p), omega (arith, few, spent))
                  | inr (m₂, q, mapped) ↦ inr (
                    m₂,
                    inr (
                      s.retval,
                      rw (r, ne→== s.retval 0 ne, q),
                      ne,
                      omega (arith, found.result),
                      omega (arith, found.low, found.result),
                      after_tables pages m m₁ m₂ (s.retval / 4096) n
                          (omega (arith, found.low, found.result)) x mapped,
                    ),
                  )
                ]
    ]
  ]
]
