-- ===== src/Mem/Mmu/NewTable.antt =====
-- A page table that is made: the state behind it, and what it leaves alone.
use lamb_os.Base.{
  ℕ, ◌+◌, ◌*◌, ◌/◌, ◌%◌, ◌^◌, ◌<◌, ◌≤◌, ◌≡◌, ◌≢◌, refl, sym, ap, ◌∙◌, true, false, ◌==◌,
  if◌then◌else◌, arith, ne→==, false≢true, le→ltb,
}
use native.Mathlib.Decide.{ℕ_discrete}
use lamb_os.Base.Outcome.{done}
use lamb_os.Mem.Frames.{Frames, alloc}
use lamb_os.Mem.Frames.Inv.{Allocated}
use lamb_os.Mem.Frames.Bitmaps.{free_at}
use lamb_os.Mem.PageEntry.{get_flag, set_flags, page_entry}
use lamb_os.Mem.PageEntry.Laws.{frame_entry}
use lamb_os.Mem.Mmu.{
  Mmu, write, translate, entry_at_index, set_entry, clear, page_table_for_directory_index,
  alloc_frame, get_or_create_table,
}
use lamb_os.Mem.Mmu.Walk.{
  pde_of, table_of, pte_of, present, IsValid, IsUnmapped, Walked, Walked-translate,
  translate-Walked, table_page, write_other,
}
use lamb_os.Mem.Mmu.Counts.{Spends, free_frames-alloc, missing-made}
use lamb_os.Mem.Mmu.Mapping.{free_after, marked, translate_allocator}

-- What the unit keeps while it makes tables: its order, its directory, every page that has a
-- frame, every frame that is taken, every page with a table and no frame, and it gives no page
-- below the last table a frame.
pub record Extends (pages : ℕ) (m m' : Mmu) : Type 0 where
  pub valid : IsValid pages m'
  pub same_directory : m'.directory ≡ m.directory
  pub kept : (q f : ℕ) → q < 2 ^ 20 → translate m q ≡ done f → translate m' q ≡ done f
  pub held :
      (j : ℕ)
      → free_at m.page_frame_allocator.bitmap j ≡ false
      → free_at m'.page_frame_allocator.bitmap j ≡ false
  pub tables : (j : ℕ) → present (pde_of m j) ≡ true → present (pde_of m' j) ≡ true
  pub unmapped : (q : ℕ) → q < 1023 * 1024 → IsUnmapped m q → IsUnmapped m' q
  pub nothing_new : (q f : ℕ) → q < 1023 * 1024 → translate m' q ≡ done f → translate m q ≡ done f

pub Extends-self : (pages : ℕ) (m : Mmu) → IsValid pages m → Extends pages m m
Extends-self pages m v = record {
  valid = v;
  same_directory = refl;
  kept = λ q f lt h. h;
  held = λ j h. h;
  tables = λ j h. h;
  unmapped = λ q lt h. h;
  nothing_new = λ q f lt h. h;
}

pub Extends-trans :
    (pages : ℕ) (m m' m'' : Mmu) → Extends pages m m' → Extends pages m' m'' → Extends pages m m''
Extends-trans pages m m' m'' x y = record {
  valid = y.valid;
  same_directory = y.same_directory ∙ x.same_directory;
  kept = λ q f lt h. y.kept q f lt (x.kept q f lt h);
  held = λ j h. y.held j (x.held j h);
  tables = λ j h. y.tables j (x.tables j h);
  unmapped = λ q lt h. y.unmapped q lt (x.unmapped q lt h);
  nothing_new = λ q f lt h. x.nothing_new q f lt (y.nothing_new q f lt h);
}

zero_absent : present 0 ≡ false
unfolding get_flag
zero_absent = refl

module _ (pages : ℕ) (m : Mmu) (v : IsValid pages m) (i : ℕ) (lt : i < 1024)
    (absent : present (pde_of m i) ≡ false) {f : ℕ} {a : Frames}
    (al : Allocated pages m.page_frame_allocator 1 f a) where
  abbrev new_pde : ℕ
  new_pde = al.index * 4096 + 3

  -- After the entry in the directory, and after the table is cleared.
  abbrev entered : Mmu
  entered = record m { page_frame_allocator = a; words = write m.words m.directory i new_pde }

  abbrev pub made : Mmu
  made = record entered { words = λ g k. if g == al.index then 0 else entered.words g k }

  new_free : free_at m.page_frame_allocator.bitmap al.index ≡ true
  new_free = al.was_free al.index (omega arith) (omega arith)

  new_taken : free_at a.bitmap al.index ≡ false
  new_taken = ground (arith, free_after al al.index)

  old_held : (j : ℕ) → free_at m.page_frame_allocator.bitmap j ≡ false → free_at a.bitmap j ≡ false
  old_held j h = ground (arith, free_after al j)

  not_new : (t : ℕ) → free_at m.page_frame_allocator.bitmap t ≡ false → t ≢ al.index
  not_new t h e = false≢true (sym h ∙ ap (free_at m.page_frame_allocator.bitmap) e ∙ new_free)

  not_directory : m.directory ≢ al.index
  not_directory = not_new m.directory (
      ap (free_at m.page_frame_allocator.bitmap) (sym v.self_map)
      ∙ v.held 1023 (omega arith) v.self_present)

  not_last : 1023 ≢ i
  not_last e = false≢true (sym absent ∙ ap (λ j. present (pde_of m j)) (sym e) ∙ v.self_present)

  other_of_present : (j : ℕ) → present (pde_of m j) ≡ true → j ≢ i
  other_of_present j h e = false≢true (sym absent ∙ ap (λ j. present (pde_of m j)) (sym e) ∙ h)

  entered_pde : (j : ℕ) → pde_of entered j ≡ (if j == i then new_pde else pde_of m j)
  entered_pde j = ground arith

  made_pde : (j : ℕ) → pde_of made j ≡ (if j == i then new_pde else pde_of m j)
  made_pde j = rw (ne→== m.directory al.index not_directory) (entered_pde j)

  new_table : (new_pde) / 4096 ≡ al.index
  new_table = omega arith

  if_new : (j : ℕ) (x : ℕ) → j ≡ i → (if j == i then new_pde else x) ≡ new_pde
  if_new j x e = ground arith

  if_old : (j : ℕ) (x : ℕ) → j ≢ i → (if j == i then new_pde else x) ≡ x
  if_old j x ne = ground arith

  -- A state whose directory is the old one with the new entry is in order.
  module _ (w : ℕ → ℕ → ℕ)
      (pdes : (j : ℕ) → w m.directory j ≡ (if j == i then new_pde else pde_of m j)) where
    abbrev after : Mmu
    after = record m { page_frame_allocator = a; words = w }

    old_pde : (j : ℕ) → j ≢ i → pde_of after j ≡ pde_of m j
    old_pde j ne = pdes j ∙ if_old j (pde_of m j) ne

    the_pde : (j : ℕ) → j ≡ i → pde_of after j ≡ new_pde
    the_pde j e = pdes j ∙ if_new j (pde_of m j) e

    old_present : (j : ℕ) → j ≢ i → present (pde_of after j) ≡ true → present (pde_of m j) ≡ true
    old_present j ne h = ap present (sym (old_pde j ne)) ∙ h

    table_held :
        (j : ℕ)
        → j < 1024
        → present (pde_of after j) ≡ true
        → free_at a.bitmap (table_of after j) ≡ false
    table_held j hj h = elim (ℕ_discrete j i) [
      | yes e ↦
          ap (λ e. free_at a.bitmap (e / 4096)) (the_pde j e)
          ∙ ap (free_at a.bitmap) new_table
          ∙ new_taken
      | no ne ↦
          ap (λ e. free_at a.bitmap (e / 4096)) (old_pde j ne)
          ∙ old_held (table_of m j) (v.held j hj (old_present j ne h))
    ]

    clash :
        (j k : ℕ)
        → j ≡ i
        → k ≢ i
        → k < 1024
        → present (pde_of after k) ≡ true
        → table_of after j ≢ table_of after k
    clash j k e ne hk h same = not_new (table_of m k) (v.held k hk (old_present k ne h)) (
        sym (ap (λ e. e / 4096) (old_pde k ne))
        ∙ sym same
        ∙ ap (λ e. e / 4096) (the_pde j e)
        ∙ new_table)

    tables_apart :
        (j k : ℕ)
        → j < 1024
        → k < 1024
        → present (pde_of after j) ≡ true
        → present (pde_of after k) ≡ true
        → table_of after j ≡ table_of after k
        → j ≡ k
    tables_apart j k hj hk pj pk same = elim (ℕ_discrete j i) [
      | yes ej ↦ elim (ℕ_discrete k i) [
        | yes ek ↦ ej ∙ sym ek
        | no nk ↦ absurd (clash j k ej nk hk pk same)
      ]
      | no nj ↦ elim (ℕ_discrete k i) [
        | yes ek ↦ absurd (clash k j ek nj hj pj (sym same))
        | no nk ↦
            v.apart j k hj hk (old_present j nj pj) (old_present k nk pk)
              (sym (ap (λ e. e / 4096) (old_pde j nj)) ∙ same ∙ ap (λ e. e / 4096) (old_pde k nk))
      ]
    ]

    after-IsValid : IsValid pages after
    after-IsValid = record {
      frames = al.valid;
      self_present = ap present (old_pde 1023 not_last) ∙ v.self_present;
      self_map = ap (λ e. e / 4096) (old_pde 1023 not_last) ∙ v.self_map;
      held = table_held;
      apart = tables_apart;
    }

  entered-IsValid : IsValid pages entered
  entered-IsValid = after-IsValid (write m.words m.directory i new_pde) entered_pde

  made-IsValid : IsValid pages made
  made-IsValid = after-IsValid made.words made_pde

  made_old : (j : ℕ) → present (pde_of m j) ≡ true → pde_of made j ≡ pde_of m j
  made_old j h = made_pde j ∙ if_old j (pde_of m j) (other_of_present j h)

  -- An entry of an old table, by its page.
  made_pte :
      (q : ℕ)
      → q < 2 ^ 20
      → present (pde_of m (q / 1024)) ≡ true
      → (q / 1024 ≡ 1023 → present (pte_of m q) ≡ true)
      → pte_of made q ≡ pte_of m q
  made_pte q lq h special =
      let t = table_of m (q / 1024) in
      ap (λ e. made.words (e / 4096) (q % 1024)) (made_old (q / 1024) h)
      ∙ (rw (ne→== t al.index (not_new t (v.held (q / 1024) (omega arith) h)))
          (elim (ℕ_discrete t m.directory) [
            | no ne ↦ rw (ne→== t m.directory ne)
            | yes e ↦ write_other m.words m.directory i new_pde t (q % 1024) absent (
                special (
                  v.apart (q / 1024) 1023 (omega arith) (omega arith) h v.self_present
                    (e ∙ sym v.self_map)))
          ]))

  pub made-present : present (pde_of made i) ≡ true
  made-present = ap present (made_pde i ∙ if_new i (pde_of m i) refl) ∙ marked al.index

  pub made_empty : (k : ℕ) → made.words (table_of made i) k ≡ 0
  made_empty k =
      ap (λ e. made.words (e / 4096) k) (made_pde i ∙ if_new i (pde_of m i) refl)
      ∙ ap (λ t. made.words t k) new_table
      ∙ ground arith

  -- A walk that succeeds now is one of before: the new table is empty.
  old_walk : (q g : ℕ) → q < 1023 * 1024 → Walked made q g → translate m q ≡ done g
  old_walk q g lq met = elim (ℕ_discrete (q / 1024) i) [
    | yes e ↦
        let none_there : pte_of made q ≡ 0 =
          ap (λ d. made.words (table_of made d) (q % 1024)) e ∙ made_empty (q % 1024) in
        absurd (false≢true (sym zero_absent ∙ ap present (sym none_there) ∙ met.entry))
    | no ne ↦
        let there : present (pde_of m (q / 1024)) ≡ true =
          sym (ap present (made_pde (q / 1024) ∙ if_old (q / 1024) (pde_of m (q / 1024)) ne))
          ∙ met.table in
        let same = made_pte q (omega arith) there (λ top. absurd (omega arith)) in
        Walked-translate m q g (record {
          table = there;
          entry = ap present (sym same) ∙ met.entry;
          frame = ap (λ e. e / 4096) (sym same) ∙ met.frame;
        })
  ]

  pub made-Extends : Extends pages m made
  made-Extends = record {
    valid = made-IsValid;
    same_directory = refl;
    kept = λ q g lq h.
        let met = translate-Walked m q g h in
        let same = made_pte q lq met.table (λ _. met.entry) in
        Walked-translate made q g (record {
          table = ap present (made_old (q / 1024) met.table) ∙ met.table;
          entry = ap present same ∙ met.entry;
          frame = ap (λ e. e / 4096) same ∙ met.frame;
        });
    held = old_held;
    tables = λ j h. ap present (made_old j h) ∙ h;
    unmapped = λ q lq h. record {
      table = ap present (made_old (q / 1024) h.table) ∙ h.table;
      absent =
          ap present (made_pte q (omega arith) h.table (λ top. absurd (omega arith))) ∙ h.absent;
    };
    nothing_new = λ q g lq h. old_walk q g lq (translate-Walked made q g h);
  }

  -- It takes one frame, and one table is no longer missing.
  pub made-Spends : (low n : ℕ) → low ≤ i → i < low + n → Spends pages low n m made
  made-Spends low n le lt' =
      let fewer =
        missing-made low n i m made le lt' absent made-present
          (λ j ne. ap present (made_pde j ∙ if_old j (pde_of m j) ne)) in
      omega (arith, free_frames-alloc al, fewer)

  entered-present : present (pde_of entered i) ≡ true
  entered-present = ap present (entered_pde i ∙ if_new i (pde_of m i) refl) ∙ marked al.index

  entered_reached : translate entered (page_table_for_directory_index i) ≡ done al.index
  entered_reached =
      table_page pages entered i entered-IsValid lt entered-present
      ∙ ap (λ e. done (e / 4096)) (entered_pde i ∙ if_new i (pde_of m i) refl)
      ∙ ap done new_table

  frame_word : set_flags (page_entry f) 3 ≡ new_pde
  frame_word =
      ap (λ x. set_flags (page_entry x) 3) al.frame_at
      ∙ frame_entry al.index (omega (arith, al.inside, v.frames.small))

  pub creates :
      (space : ℕ)
      → translate m space ≡ done m.directory
      → alloc pages m.page_frame_allocator 1 ≡ done (f, a)
      → get_or_create_table pages m space i ≡ done (page_table_for_directory_index i, made)
  unfolding get_or_create_table entry_at_index alloc_frame set_entry clear
  creates space at e = rw (
    le→ltb 1023 i (omega arith),
    at,
    absent,
    e,
    translate_allocator m a space,
    at,
    frame_word,
    entered_reached,
  )
