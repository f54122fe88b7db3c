-- ===== src/Mem/Mmu/Install.antt =====
-- `install` of the memory management unit, which fills the first directory while paging is off: the
-- tables are read and written at their physical addresses, a directory is given by its own, and 0
-- is no table.
use lamb_os.Base.{ℕ, zero, suc, ◌+◌, ◌*◌, ◌/◌, ◌%◌, ◌^◌, max, ◌||◌, ◌==◌, ltb, if◌then◌else◌}
use lamb_os.Base.Outcome.{Outcome, done, fault, ◌>>=◌}
use lamb_os.Mem.PageEntry.{page_entry, set_flag, present_bit, read_write_bit}
use lamb_os.Mem.Mmu.{Mmu, write, alloc_frame}

abbrev pub vga_page : ℕ
vga_page = 0xB8

abbrev pub self_map_index : ℕ
self_map_index = 1023

pub record Install : Type 0 where
  pub mmu : Mmu
  pub table : ℕ
  pub table_directory_index : ℕ
  pub last_used_frame : ℕ

pub add_to_directory : ℕ → ℕ → ℕ → Mmu → Mmu
add_to_directory space i table m =
    let entry = set_flag (set_flag (page_entry table) present_bit) read_write_bit in
    record m { words = write m.words (space / 4096) i entry }

pub clear_frame : ℕ → Mmu → Mmu
clear_frame table m = record m { words = λ f i. if f == table / 4096 then 0 else m.words f i }

-- A page is read-only up to `read_only_end`, except for the one of the screen.
pub identity_entry : ℕ → ℕ → ℕ
identity_entry read_only_end frame =
    let entry = set_flag (page_entry (frame * 0x1000 % 2 ^ 32)) present_bit in
    if ltb read_only_end frame || frame == vga_page then set_flag entry read_write_bit else entry

-- `if (table) { addToDirectory(tableDirectoryIndex++, table); }`
pub finish_table : ℕ → Install → Install
finish_table space s = if s.table == 0 then s else record s {
  mmu = add_to_directory space s.table_directory_index s.table s.mmu;
  table_directory_index = (s.table_directory_index + 1) % 2 ^ 16;
}

-- `pages` is the number of frames of the allocator.
module _ (pages : ℕ) where
  pub create_next_table : Install → Outcome Install
  create_next_table s = do
    (table, m) ← alloc_frame pages s.mmu
    done (record s {
      mmu = clear_frame table m;
      table = table;
      last_used_frame = max s.last_used_frame (table / 0x1000);
    })

  -- One frame: a new table for each 1024 of them.
  pub map_frame : ℕ → ℕ → ℕ → Install → Outcome Install
  map_frame space read_only_end frame s = do
    s₁ ← (if frame % 0x400 == 0 then create_next_table (finish_table space s) else done s)
    done (record s₁ {
      mmu = record s₁.mmu {
        words =
            write s₁.mmu.words (s₁.table / 4096) (frame % 0x400)
              (identity_entry read_only_end frame);
      };
    })

  -- for (frame = 0; frame <= lastUsedFrame; ++frame), for at most `n` rounds; `fault` stands for a
  -- loop that goes on after them.
  pub map_frames : ℕ → ℕ → ℕ → ℕ → Install → Outcome Install
  map_frames zero space read_only_end frame s = fault
  map_frames (suc n) space read_only_end frame s =
      let step = (do
        s' ← map_frame space read_only_end frame s
        map_frames n space read_only_end (frame + 1) s') in
      if ltb s.last_used_frame frame then done s else step

  pub install : ℕ → ℕ → ℕ → Mmu → Outcome Mmu
  install n space readonly_end m = do
    let read_only_end = readonly_end / 0x1000
    s ← map_frames n space read_only_end 0 (record {
      mmu = clear_frame space m;
      table = 0;
      table_directory_index = 0;
      last_used_frame = read_only_end;
    })
    let m₁ = (finish_table space s).mmu
    done (record (add_to_directory space self_map_index space m₁) { directory = space / 4096 })
