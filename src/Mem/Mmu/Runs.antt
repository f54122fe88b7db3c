-- ===== src/Mem/Mmu/Runs.antt =====
-- The search for free pages in a row, page by page in one page table.
use lamb_os.Base.{
  ℕ, zero, suc, ◌+◌, ◌-◌, ◌*◌, ◌/◌, ◌%◌, ◌^◌, ◌≤◌, ◌<◌, ◌≡◌, ◌≢◌, ◌⊎◌, inl, inr, refl, sym, ap, ap₂,
  ◌∙◌, true, false, ◌==◌, if◌then◌else◌, arith, Bool-cases, ne→==, subst,
}
use native.Mathlib.Decide.{ℕ_discrete}
use lamb_os.Base.Outcome.{done}
use lamb_os.Mem.Mmu.{Mmu, PageSearch, translate, entry_at_index, search_page, search_table}
use lamb_os.Mem.Mmu.Walk.{pde_of, table_of, pte_of, present, IsUnmapped, Walked-translate}
use lamb_os.Mem.Mmu.Absent.{HasFrame}

-- The first page of the run.
abbrev pub start : PageSearch → ℕ
start s = s.retpde * 1024 + s.retpte

-- Before page `p`: the run so far ends there, and is too short. Before the run is a page that has
-- a frame, or nothing, and each `n` pages in a row up to `p` hold one that has a frame.
pub record Looking (n : ℕ) (m : Mmu) (p : ℕ) (s : PageSearch) : Type 0 where
  pub few : s.contiguous_found_pages < n
  pub no_result : s.retval ≡ 0
  pub run_end : s.contiguous_found_pages ≢ 0 → start s + s.contiguous_found_pages ≡ p
  pub run_free : (k : ℕ) → k < s.contiguous_found_pages → IsUnmapped m (start s + k)
  pub edge :
      s.contiguous_found_pages < p
      → (r : ℕ) × (f : ℕ) × (suc r + s.contiguous_found_pages ≡ p) × (translate m r ≡ done f)
  pub window : (q : ℕ) → q + n ≤ p → HasFrame m q n

-- A run that is long enough.
pub record Found (n : ℕ) (m : Mmu) (s : PageSearch) : Type 0 where
  pub enough : s.contiguous_found_pages ≡ n
  pub low : start s + n ≤ 1023 * 1024
  pub result : s.retval ≡ start s * 4096
  pub run_free : (k : ℕ) → k < n → IsUnmapped m (start s + k)

-- The search after a page that is free.
abbrev longer : ℕ → ℕ → PageSearch → ℕ → PageSearch
longer pde pte s v = record {
  contiguous_found_pages = s.contiguous_found_pages + 1;
  retpde = if s.contiguous_found_pages == 0 then pde else s.retpde;
  retpte = if s.contiguous_found_pages == 0 then pte else s.retpte;
  retval = v;
}

module _ (n : ℕ) (m : Mmu) (pde pte : ℕ) (s : PageSearch) (lt : pte < 1024)
    (look : Looking n m (pde * 1024 + pte) s) where
  start-longer : (v : ℕ) → start (longer pde pte s v) + s.contiguous_found_pages ≡ pde * 1024 + pte
  start-longer v = elim (ℕ_discrete s.contiguous_found_pages 0) [
    | yes e ↦ ground arith
    | no ne ↦ ground (arith, look.run_end ne)
  ]

  longer_free :
      (v : ℕ)
      → IsUnmapped m (pde * 1024 + pte)
      → (k : ℕ) → k < s.contiguous_found_pages + 1
      → IsUnmapped m (start (longer pde pte s v) + k)
  longer_free v here k lk = elim (ℕ_discrete k s.contiguous_found_pages) [
    | yes e ↦ subst (IsUnmapped m) {x = pde * 1024 + pte} (omega (arith, start-longer v)) here
    | no ne ↦
        subst (IsUnmapped m) {x = start s + k}
          (omega (arith, start-longer v, look.run_end (omega arith)))
          (look.run_free k (omega arith))
  ]

  here-IsUnmapped :
      present (pde_of m pde) ≡ true
      → present (m.words (table_of m pde) pte) ≡ false
      → IsUnmapped m (pde * 1024 + pte)
  here-IsUnmapped there absent =
      let d : (pde * 1024 + pte) / 1024 ≡ pde = omega arith in
      let i : (pde * 1024 + pte) % 1024 ≡ pte = omega arith in
      record {
        table = ap (λ j. present (pde_of m j)) d ∙ there;
        absent = ap₂ (λ j k. present (m.words (table_of m j) k)) d i ∙ absent;
      }

  abbrev run_address : ℕ
  run_address = (longer pde pte s 0).retpde * 2 ^ 22 + (longer pde pte s 0).retpte * 2 ^ 12

  here_maps :
      (e : ℕ)
      → e ≡ m.words (table_of m pde) pte
      → present (pde_of m pde) ≡ true
      → present e ≡ true
      → translate m (pde * 1024 + pte) ≡ done (e / 4096)
  here_maps e same there taken =
      let d : (pde * 1024 + pte) / 1024 ≡ pde = omega arith in
      let i : (pde * 1024 + pte) % 1024 ≡ pte = omega arith in
      let entry : pte_of m (pde * 1024 + pte) ≡ e =
        ap₂ (λ j k. m.words (table_of m j) k) d i ∙ sym same in
      Walked-translate m (pde * 1024 + pte) (e / 4096) (record {
        table = ap (λ j. present (pde_of m j)) d ∙ there;
        entry = ap present entry ∙ taken;
        frame = ap (λ x. x / 4096) entry;
      })

  -- The windows that end behind this page, where it has a frame, and where it has none and the
  -- run is still too short.
  window_taken :
      (f : ℕ)
      → translate m (pde * 1024 + pte) ≡ done f
      → (q : ℕ) → q + n ≤ pde * 1024 + (pte + 1)
      → HasFrame m q n
  window_taken f maps q h = elim (ℕ_discrete (q + n) (pde * 1024 + (pte + 1))) [
    | no ne ↦ look.window q (omega arith)
    | yes e ↦ (
      n - 1,
      f,
      omega (arith, look.few),
      subst (λ p. translate m p ≡ done f) {x = pde * 1024 + pte} (omega (arith, look.few)) maps,
    )
  ]

  window_absent :
      s.contiguous_found_pages + 1 < n → (q : ℕ) → q + n ≤ pde * 1024 + (pte + 1) → HasFrame m q n
  window_absent short q h = elim (ℕ_discrete (q + n) (pde * 1024 + (pte + 1))) [
    | no ne ↦ look.window q (omega arith)
    | yes e ↦
        let (r, f, at, maps) = look.edge (omega arith) in
        (r - q, f, omega arith, subst (λ p. translate m p ≡ done f) {x = r} (omega arith) maps)
  ]

  edge_absent :
      s.contiguous_found_pages + 1 < pde * 1024 + (pte + 1)
      → (r : ℕ) × (f : ℕ) × (suc r + (s.contiguous_found_pages + 1) ≡ pde * 1024 + (pte + 1))
        × (translate m r ≡ done f)
  edge_absent h = let (r, f, at, maps) = look.edge (omega arith) in (r, f, omega arith, maps)

  edge_taken :
      (f : ℕ)
      → translate m (pde * 1024 + pte) ≡ done f
      → 0 < pde * 1024 + (pte + 1)
      → (r : ℕ) × (g : ℕ) × (suc r + 0 ≡ pde * 1024 + (pte + 1)) × (translate m r ≡ done g)
  edge_taken f maps h = (pde * 1024 + pte, f, omega arith, maps)

  -- One page.
  page_step :
      (e : ℕ)
      → e ≡ m.words (table_of m pde) pte
      → present (pde_of m pde) ≡ true
      → (present e ≡ false → pde < 1023)
      → (s' : PageSearch) × (((search_page n pde pte e s ≡ (true, s')) × Found n m s')
          ⊎ ((search_page n pde pte e s ≡ (false, s')) × Looking n m (pde * 1024 + (pte + 1)) s'))
  unfolding search_page
  page_step e same there low = elim (Bool-cases (present e)) [
    | inl taken ↦ elim (ℕ_discrete s.contiguous_found_pages 0) [
      | yes none_yet ↦
          let test : (s.contiguous_found_pages == 0) ≡ true = ground arith in
          (
            s,
            inr (
              rw (taken, test),
              record {
                few = look.few;
                no_result = look.no_result;
                run_end = λ ne. absurd (ne none_yet);
                run_free = look.run_free;
                edge = λ h.
                    let (r, f, at, maps) =
                      edge_taken (e / 4096) (here_maps e same there taken) (omega arith) in
                    (r, f, omega arith, maps);
                window = window_taken (e / 4096) (here_maps e same there taken);
              },
            ),
          )
      | no some_yet ↦ (
        record s { contiguous_found_pages = 0; retval = 0 },
        inr (
          rw (taken, ne→== s.contiguous_found_pages 0 some_yet),
          record {
            few = omega (arith, look.few);
            no_result = refl;
            run_end = λ ne. absurd (ne refl);
            run_free = λ k lk. absurd (omega arith);
            edge = edge_taken (e / 4096) (here_maps e same there taken);
            window = window_taken (e / 4096) (here_maps e same there taken);
          },
        ),
      )
    ]
    | inr absent ↦
        let here = here-IsUnmapped there (ap present (sym same) ∙ absent) in
        elim (ℕ_discrete (s.contiguous_found_pages + 1) n) [
          | yes full ↦
              let test : (s.contiguous_found_pages + 1 == n) ≡ true = ground arith in
              (
                longer pde pte s run_address,
                inl (
                  rw (absent, test),
                  record {
                    enough = full;
                    low = omega (arith, start-longer run_address, low absent);
                    result = omega arith;
                    run_free = λ k lk. longer_free run_address here k (omega arith);
                  },
                ),
              )
          | no ne ↦ (
            longer pde pte s s.retval,
            inr (
              rw (absent, ne→== (s.contiguous_found_pages + 1) n ne),
              record {
                few = omega (arith, look.few);
                no_result = look.no_result;
                run_end = λ _. omega (arith, start-longer s.retval);
                run_free = λ k lk. longer_free s.retval here k lk;
                edge = edge_absent;
                window = window_absent (omega (arith, look.few));
              },
            ),
          )
        ]
  ]

-- One page table.
pub table_search :
    (n k pde table pte : ℕ) (m : Mmu) (s : PageSearch)
    → pte + k ≡ 1024
    → translate m table ≡ done (table_of m pde)
    → present (pde_of m pde) ≡ true
    → ((i : ℕ) → i < 1024 → present (m.words (table_of m pde) i) ≡ false → pde < 1023)
    → Looking n m (pde * 1024 + pte) s
    → (s' : PageSearch) × (search_table k n pde table pte m s ≡ done s')
      × (Found n m s' ⊎ Looking n m ((pde + 1) * 1024) s')
unfolding search_table entry_at_index
table_search n zero pde table pte m s e reach there low look =
    (s, refl, inr (subst (λ p. Looking n m p s) (omega arith) look))
table_search n (suc k) pde table pte m s e reach there low look =
    let entry = m.words (table_of m pde) pte in
    let (s', step) =
      page_step n m pde pte s (omega arith) look entry refl there (low pte (omega arith)) in
    elim step [
      | inl (r, found) ↦ (s', rw (reach, r), inl found)
      | inr (r, look') ↦
          let (s'', r', last) =
            table_search n k pde table (pte + 1) m s' (omega arith) reach there low look' in
          (s'', rw (reach, r) r', last)
    ]
