-- ===== src/Mem/Mmu.antt =====
-- The memory management unit: kernel/src/arch/i386/mem/MMU.cpp, with the page tables of
-- kernel/include/mem/PageTable.hpp. Physical memory is a word for each frame and each of its 1024
-- places, and the processor finds the frame of a virtual page by the directory that is installed.
-- It reads the tables at every access: the cache of translations is not modelled.
pub mod Walk
pub mod Counts
pub mod NewTable
pub mod Tables
pub mod Mapping
pub mod Absent
pub mod Pages
pub mod Runs
pub mod Search
pub mod Install
mod Tests
use lamb_os.Base.{
  ℕ, zero, suc, ◌+◌, ◌-◌, ◌*◌, ◌/◌, ◌%◌, ◌^◌, bit_and, Bool, true, false, not, ◌&&◌, ◌==◌, ltb,
  if◌then◌else◌,
}
use lamb_os.Base.Outcome.{Outcome, done, panic, fault, ◌>>=◌}
use lamb_os.Mem.Frames.{Frames, alloc, free, mark_frame_usable, request_frame}
use lamb_os.Mem.PageEntry.{page_entry, get_flag, set_flags, address, present_bit, read_write_bit}

-- `directory` is the frame in the register CR3.
pub record Mmu : Type 0 where
  pub page_frame_allocator : Frames
  pub directory : ℕ
  pub words : ℕ → ℕ → ℕ

abbrev pub write : (ℕ → ℕ → ℕ) → ℕ → ℕ → ℕ → ℕ → ℕ → ℕ
write words frame index entry f i = if f == frame && i == index then entry else words f i

-- How the processor finds the frame of a page. An entry that is not present is a page fault.
pub translate : Mmu → ℕ → Outcome ℕ
translate m page =
    let pde = m.words m.directory (page / 1024) in
    let pte = m.words (pde / 4096) (page % 1024) in
    if get_flag pde present_bit
    then (if get_flag pte present_bit then done (pte / 4096) else fault)
    else fault

-- A page table is the number of the virtual page at which it is read and written.
pub entry_at_index : Mmu → ℕ → ℕ → Outcome ℕ
entry_at_index m table index = do frame ← translate m table; done (m.words frame index)

pub set_entry : Mmu → ℕ → ℕ → ℕ → Outcome Mmu
set_entry m table index entry = do
  frame ← translate m table
  done (record m { words = write m.words frame index entry })

-- `memset` with 0 over the page.
pub clear : Mmu → ℕ → Outcome Mmu
clear m table = do
  frame ← translate m table
  done (record m { words = λ f i. if f == frame then 0 else m.words f i })

-- The directory is also entered in its own last place.
pub page_table_for_directory_index : ℕ → ℕ
page_table_for_directory_index index = (0xFFC00 + index) % 2 ^ 20

-- The search of `palloc`: how many free pages in a row, the indices of the first of them, and
-- the address of the run once it is long enough.
pub record PageSearch : Type 0 where
  pub contiguous_found_pages : ℕ
  pub retpde : ℕ
  pub retpte : ℕ
  pub retval : ℕ

abbrev none_found : PageSearch
none_found = record { contiguous_found_pages = 0; retpde = 0; retpte = 0; retval = 0 }

-- One page of the inner loop, and whether it breaks.
pub search_page : ℕ → ℕ → ℕ → ℕ → PageSearch → Bool × PageSearch
search_page n pde pte entry s =
    if not (get_flag entry present_bit)
    then (let first = s.contiguous_found_pages == 0 in
        let retpde = (if first then pde else s.retpde) in
        let retpte = (if first then pte else s.retpte) in
        let found = s.contiguous_found_pages + 1 in
        if found == n
        then (
          true,
          record {
            contiguous_found_pages = found;
            retpde = retpde;
            retpte = retpte;
            retval = retpde * 2 ^ 22 + retpte * 2 ^ 12;
          },
        )
        else (
          false,
          record {
            contiguous_found_pages = found;
            retpde = retpde;
            retpte = retpte;
            retval = s.retval;
          },
        ))
    else if s.contiguous_found_pages == 0
    then (false, s)
    else (false, record s { contiguous_found_pages = 0; retval = 0 })

-- for (pte = ...; pte < 1024; ++pte), with `k` rounds to go.
pub search_table : ℕ → ℕ → ℕ → ℕ → ℕ → Mmu → PageSearch → Outcome PageSearch
search_table zero n pde table pte m s = done s
search_table (suc k) n pde table pte m s = do
  entry ← entry_at_index m table pte
  let step = search_page n pde pte entry s
  (let later = search_table k n pde table (pte + 1) m step.1 in
      if step.0 then done step.1 else later)

-- `pages` is the number of frames of the allocator.
module _ (pages : ℕ) where
  pub alloc_frame : Mmu → Outcome (ℕ × Mmu)
  alloc_frame m = do
    (frame, a) ← alloc pages m.page_frame_allocator 1
    done (frame, record m { page_frame_allocator = a })

  pub get_or_create_table : Mmu → ℕ → ℕ → Outcome (ℕ × Mmu)
  get_or_create_table m space directory_index = if ltb 1023 directory_index then panic else (do
    pde ← entry_at_index m space directory_index
    let table = page_table_for_directory_index directory_index
    (if not (get_flag pde present_bit)
        then (do
          (frame, m₁) ← alloc_frame m
          let pde' = set_flags (page_entry frame) (present_bit + read_write_bit)
          m₂ ← set_entry m₁ space directory_index pde'
          m₃ ← clear m₂ table
          done (table, m₃))
        else done (table, m)))

  pub table_for_address : Mmu → ℕ → ℕ → Outcome (ℕ × Mmu)
  table_for_address m space virtual_address = get_or_create_table m space (virtual_address / 2 ^ 22)

  pub page_for_address : Mmu → ℕ → ℕ → Outcome (ℕ × Mmu)
  page_for_address m space virtual_address = do
    (table, m') ← table_for_address m space virtual_address
    entry ← entry_at_index m' table (bit_and (virtual_address / 2 ^ 12) 0x03FF)
    done (entry, m')

  -- while (pagesLeft > 0), at the indices `pde` and `pte`.
  pub map_pages : ℕ → ℕ → ℕ → Mmu → Outcome Mmu
  map_pages zero pde pte m = done m
  map_pages (suc n) pde pte m = do
    (frame, m₁) ← alloc_frame m
    let entry = set_flags (page_entry frame) (present_bit + read_write_bit)
    m₂ ← set_entry m₁ (page_table_for_directory_index pde) pte entry
    map_pages n (if ltb 1023 (pte + 1) then pde + 1 else pde)
        (if ltb 1023 (pte + 1) then 0 else pte + 1) m₂

  pub allocate_pages : Mmu → ℕ → ℕ → Outcome Mmu
  allocate_pages m virtual_address n =
      map_pages n (virtual_address / 2 ^ 22) (bit_and (virtual_address / 2 ^ 12) 0x03FF) m

  -- The loop of `palloc` at an address, with `n` rounds to go: whether no page is present.
  pub all_absent : ℕ → Mmu → ℕ → ℕ → Outcome (Bool × Mmu)
  all_absent zero m space virtual_address = done (true, m)
  all_absent (suc n) m space virtual_address = do
    (page, m') ← page_for_address m space virtual_address
    (let later = all_absent n m' space ((virtual_address + 0x1000) % 2 ^ 32) in
        if get_flag page present_bit then done (false, m') else later)

  -- `palloc` at an address; 0 is the null pointer.
  pub palloc_at : Mmu → ℕ → ℕ → ℕ → Outcome (ℕ × Mmu)
  palloc_at m space virtual_address n =
      if not (bit_and virtual_address 0xFFF == 0) then done (0, m) else (do
        (absent, m') ← all_absent n m space virtual_address
        (if absent && not (virtual_address == 0)
            then (do m'' ← allocate_pages m' virtual_address n; done (virtual_address, m''))
            else done (0, m')))

  -- for (pde = ...; pde < 1024 && found != n; ++pde), with `k` rounds to go.
  pub search_directory : ℕ → ℕ → ℕ → ℕ → Mmu → PageSearch → Outcome (PageSearch × Mmu)
  search_directory zero n space pde m s = done (s, m)
  search_directory (suc k) n space pde m s =
      let step = (do
        (table, m') ← get_or_create_table m space pde
        s' ← search_table 1024 n pde table 0 m' s
        search_directory k n space (pde + 1) m' s') in
      if s.contiguous_found_pages == n then done (s, m) else step

  pub palloc : Mmu → ℕ → ℕ → Outcome (ℕ × Mmu)
  palloc m space n = do
    (s, m') ← search_directory 1024 n space 0 m none_found
    (if s.retval == 0
        then done (0, m')
        else (do m'' ← allocate_pages m' s.retval n; done (s.retval, m'')))

  pub clone_directory : Mmu → ℕ → Outcome (ℕ × Mmu)
  clone_directory m src = do
    (page, m') ← palloc m src 1
    m'' ← clear m' (page / 4096)
    done (page, m'')

-- while (numberOfPages--), from an address.
pub unmap_pages : ℕ → ℕ → Mmu → Outcome Mmu
unmap_pages zero virtual_address m = done m
unmap_pages (suc n) virtual_address m = do
  let table = page_table_for_directory_index (virtual_address / 2 ^ 22)
  let pte_index = bit_and (virtual_address / 2 ^ 12) 0x03FF
  pte ← entry_at_index m table pte_index
  a ← free m.page_frame_allocator (address pte) 1
  m' ← set_entry (record m { page_frame_allocator = a }) table pte_index (page_entry 0)
  unmap_pages n ((virtual_address + 0x1000) % 2 ^ 32) m'

-- The result is whether it returns 0, and not -1.
pub pfree : Mmu → ℕ → ℕ → Outcome (Bool × Mmu)
pfree m start_of_memory_range zero = done (false, m)
pfree m start_of_memory_range (suc n) = do
  m' ← unmap_pages (suc n) start_of_memory_range m
  done (true, m')

-- for (; i < 0x100000; i += 0x1000), with `n` rounds to go.
pub reserve_low : ℕ → ℕ → Frames → Outcome Frames
reserve_low zero i a = done a
reserve_low (suc n) i a = do a' ← mark_frame_usable a i false; reserve_low n (i + 0x1000) a'

-- for (; i <= kernel_end_addr; i += 0x1000), with at most `n` rounds to go.
pub reserve_kernel : ℕ → ℕ → ℕ → Frames → Outcome Frames
reserve_kernel zero kernel_end i a = done a
reserve_kernel (suc n) kernel_end i a =
    let step = (do
      (retval, a') ← request_frame a i
      (let later = reserve_kernel n kernel_end ((i + 0x1000) % 2 ^ 32) a' in
          if retval then later else panic)) in
    if ltb kernel_end i then done a else step
