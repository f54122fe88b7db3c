-- ===== src/Mem/Mmu/Walk.antt =====
-- How a page is found, and what a write to a table changes.
use lamb_os.Base.{
  ℕ, ◌+◌, ◌/◌, ◌%◌, ◌^◌, ◌<◌, ◌≡◌, refl, ap, ◌∙◌, Bool, true, false, if◌then◌else◌, arith,
}
use lamb_os.Base.Outcome.{done, fault}
use lamb_os.Mem.Frames.{Frames}
use lamb_os.Mem.Frames.Inv
use lamb_os.Mem.Frames.Bitmaps.{free_at}
use lamb_os.Mem.PageEntry.{get_flag}
use lamb_os.Mem.Mmu.{Mmu, write, translate, page_table_for_directory_index}

-- The entry of a page table in the directory.
abbrev pub pde_of : Mmu → ℕ → ℕ
pde_of m i = m.words m.directory i

-- The frame of the page table number `i`, and the entry of a page in it.
abbrev pub table_of : Mmu → ℕ → ℕ
table_of m i = pde_of m i / 4096

abbrev pub pte_of : Mmu → ℕ → ℕ
pte_of m page = m.words (table_of m (page / 1024)) (page % 1024)

abbrev pub present : ℕ → Bool
present e = get_flag e 1

-- The unit is in order: the directory is its own last table, and each page table that is present
-- has a frame of its own, which the allocator does not give away.
pub record IsValid (pages : ℕ) (m : Mmu) : Type 0 where
  pub frames : Inv.IsValid pages m.page_frame_allocator
  pub self_present : present (pde_of m 1023) ≡ true
  pub self_map : table_of m 1023 ≡ m.directory
  pub held :
      (i : ℕ)
      → i < 1024
      → present (pde_of m i) ≡ true
      → free_at m.page_frame_allocator.bitmap (table_of m i) ≡ false
  pub apart :
      (i j : ℕ)
      → i < 1024
      → j < 1024
      → present (pde_of m i) ≡ true
      → present (pde_of m j) ≡ true
      → table_of m i ≡ table_of m j
      → i ≡ j

-- The page has a page table, and no frame.
pub record IsUnmapped (m : Mmu) (page : ℕ) : Type 0 where
  pub table : present (pde_of m (page / 1024)) ≡ true
  pub absent : present (pte_of m page) ≡ false

-- The walk, with the indices of the page computed.
translate_at :
    (m : Mmu) (page d i : ℕ)
    → page / 1024 ≡ d
    → page % 1024 ≡ i
    → present (pde_of m d) ≡ true
    → present (m.words (table_of m d) i) ≡ true
    → translate m page ≡ done (m.words (table_of m d) i / 4096)
unfolding translate
translate_at m page d i ed ei h k = rw (ed, ei, h, k)

-- What a successful walk has met.
pub record Walked (m : Mmu) (page f : ℕ) : Type 0 where
  pub table : present (pde_of m (page / 1024)) ≡ true
  pub entry : present (pte_of m page) ≡ true
  pub frame : pte_of m page / 4096 ≡ f

both_present :
    (a b : Bool) (v f : ℕ)
    → (if a then (if b then done v else fault) else fault) ≡ done f
    → (a ≡ true) × (b ≡ true) × (v ≡ f)
both_present true true v f e = (refl, refl, cc)
both_present true false v f e = (cc, cc, cc)
both_present false b v f e = (cc, cc, cc)

pub translate-Walked : (m : Mmu) (page f : ℕ) → translate m page ≡ done f → Walked m page f
unfolding translate
translate-Walked m page f e =
    let (a, b, c) =
      both_present (present (pde_of m (page / 1024))) (present (pte_of m page))
        (pte_of m page / 4096) f e in
    record { table = a; entry = b; frame = c }

pub Walked-translate : (m : Mmu) (page f : ℕ) → Walked m page f → translate m page ≡ done f
Walked-translate m page f w =
    translate_at m page (page / 1024) (page % 1024) refl refl w.table w.entry ∙ ap done w.frame

pub table_page :
    (pages : ℕ) (m : Mmu) (i : ℕ)
    → IsValid pages m
    → i < 1024
    → present (pde_of m i) ≡ true
    → translate m (page_table_for_directory_index i) ≡ done (table_of m i)
unfolding page_table_for_directory_index
table_page pages m i v lt h =
    let own : m.words (table_of m 1023) i ≡ pde_of m i = ap (λ f. m.words f i) v.self_map in
    translate_at m ((0xFFC00 + i) % 2 ^ 20) 1023 i (omega arith) (omega arith) v.self_present
      (ap present own ∙ h)
    ∙ ap (λ e. done (e / 4096)) own

-- A write leaves every entry that is present alone, if the entry in its place is not.
pub write_other :
    (words : ℕ → ℕ → ℕ) (t i e f j : ℕ)
    → present (words t i) ≡ false
    → present (words f j) ≡ true
    → write words t i e f j ≡ words f j
write_other words t i e f j h k = ground arith

pub write_self : (words : ℕ → ℕ → ℕ) (t i e : ℕ) → write words t i e t i ≡ e
write_self words t i e = ground arith

-- A write in place of an entry that is not present changes no walk that succeeds.
pub translate-write :
    (m : Mmu) (a : Frames) (t i e page f : ℕ)
    → present (m.words t i) ≡ false
    → translate m page ≡ done f
    → translate (record m { page_frame_allocator = a; words = write m.words t i e }) page ≡ done f
translate-write m a t i e page f h w =
    let met = translate-Walked m page f w in
    let m' : Mmu = record m { page_frame_allocator = a; words = write m.words t i e } in
    let same_pde : pde_of m' (page / 1024) ≡ pde_of m (page / 1024) =
      write_other m.words t i e m.directory (page / 1024) h met.table in
    let same_pte : pte_of m' page ≡ pte_of m page =
      ap (λ d. m'.words (d / 4096) (page % 1024)) same_pde
      ∙ write_other m.words t i e (table_of m (page / 1024)) (page % 1024) h met.entry in
    Walked-translate m' page f (record {
      table = ap present same_pde ∙ met.table;
      entry = ap present same_pte ∙ met.entry;
      frame = ap (λ e. e / 4096) same_pte ∙ met.frame;
    })
