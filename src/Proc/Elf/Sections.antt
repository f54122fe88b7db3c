-- ===== src/Proc/Elf/Sections.antt =====
-- The table of sections of kernel/src/proc/elf/Executable.cpp: loadSections and loadNameTable.
pub mod Tables
use lamb_os.Base.{
  ℕ, zero, suc, ◌+◌, ◌*◌, ◌%◌, ◌^◌, Bool, ◌||◌, List, [], ◌∷◌, Option, none, some, ◌==◌, ltb,
  if◌then◌else◌, drop,
}
use lamb_os.Base.Outcome.{Outcome, done, panic, fault, ◌>>=◌}
use lamb_os.Io.InputStream.{InputStream}
use lamb_os.Io.FileReader.{FileReader}
use lamb_os.Proc.Elf.{word_at, read_object}

-- The fields of the packed `SectionHeader32` that are read.
pub record SectionHeader32 : Type 0 where
  pub name_index : ℕ
  pub section_type : ℕ
  pub address : ℕ
  pub offset : ℕ
  pub size : ℕ

abbrev pub section_header_size : ℕ
section_header_size = 40

unfoldable pub section_header_of : List ℕ → SectionHeader32
section_header_of bytes = record {
  name_index = word_at bytes 0;
  section_type = word_at bytes 4;
  address = word_at bytes 12;
  offset = word_at bytes 16;
  size = word_at bytes 20;
}

-- `data` is null or how far behind the start of the file's bytes it points.
pub record Section : Type 0 where
  pub name : List ℕ
  pub data_at : Option ℕ
  pub vaddress : ℕ
  pub size : ℕ

-- The types of the enumeration.
unfoldable pub is_section_type : ℕ → Bool
is_section_type t =
    ltb t 12 || (t == 0x70000000 || (t == 0x7FFFFFFF || (t == 0x80000000 || t == 0xFFFFFFFF)))

abbrev pub no_bits : ℕ
no_bits = 8

-- The characters of a C string at `p` in the bytes of the file.
unfoldable pub string_from : List ℕ → Outcome (List ℕ)
string_from [] = fault
string_from (c ∷ cs) =
    let rest = string_from cs in if c == 0 then done [] else (rest >>= λ s. done (c ∷ s))

unfoldable pub section_of : List ℕ → Option ℕ → SectionHeader32 → Outcome Section
section_of bytes name_table h = name_at name_table >>= λ name. done (record {
  name = name;
  data_at = if h.section_type == no_bits then none else some h.offset;
  vaddress = h.address;
  size = h.size;
})
  where
    name_at : Option ℕ → Outcome (List ℕ)
    name_at none = done []
    name_at (some table) = string_from (drop (table + h.name_index) bytes)

-- The section that `loadNameTable` appends; its size stays 0.
unfoldable pub name_table_section : List ℕ → SectionHeader32 → Outcome Section
name_table_section bytes h = string_from (drop (h.offset + h.name_index) bytes) >>= λ name.
    done (record { name = name; data_at = some h.offset; vaddress = h.address; size = 0 })

module _ {S : Type 0} (input : InputStream S) where
  -- `loadNameTable`: the section that is appended, if there is one, and where its data starts.
  unfoldable pub load_name_table :
      FileReader S → List ℕ → ℕ → ℕ → Outcome (Option (Section × ℕ) × FileReader S)
  load_name_table r object offset entry_index =
      read_object input r object ((offset + section_header_size * entry_index) % 2 ^ 32)
        section_header_size
      >>= λ x.
          (if x.0 == section_header_size
            then (name_table_section x.2.file_bytes.cells (section_header_of x.1) >>= λ s.
                done (some (s, (section_header_of x.1).offset), x.2))
            else done (none, x.2))

  -- The loop of `loadSections` with `n` entries to go: the sections that it appends.
  unfoldable pub load_section_headers :
      ℕ → FileReader S → List ℕ → ℕ → Option ℕ → Outcome (List Section × FileReader S)
  load_section_headers zero r object offset name_table = done ([], r)
  load_section_headers (suc n) r object offset name_table =
      read_object input r object offset section_header_size >>= λ x.
      (if is_section_type (section_header_of x.1).section_type
        then (section_of x.2.file_bytes.cells name_table (section_header_of x.1) >>= λ section.
            load_section_headers n x.2 object (offset + x.0) name_table >>= λ y.
            done (section ∷ y.0, y.1))
        else panic)

  -- `loadSections` on an executable that has no sections yet.
  unfoldable pub load_sections :
      FileReader S → List ℕ → ℕ → ℕ → ℕ → Outcome (List Section × FileReader S)
  load_sections r object offset entry_count name_table_index =
      load_name_table r object offset name_table_index >>= λ x. with_name_table (x.0) (x.1)
    where
      with_name_table : Option (Section × ℕ) → FileReader S → Outcome (List Section × FileReader S)
      with_name_table none r' = load_section_headers entry_count r' object offset none
      with_name_table (some t) r' =
          load_section_headers entry_count r' object offset (some t.1) >>= λ y.
          done (t.0 ∷ y.0, y.1)
