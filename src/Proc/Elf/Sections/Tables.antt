-- ===== src/Proc/Elf/Sections/Tables.antt =====
-- The sections that the section headers of a binary describe.
use lamb_os.Base.{
  ℕ, ◌+◌, ◌<◌, true, false, List, [], ◌∷◌, none, some, ◌==◌, if◌then◌else◌, ◌≡◌, length, get_or,
}
use lamb_os.Io.InputStream.{InputStream}
use lamb_os.Io.FileReader.{FileReader}
use lamb_os.Proc.Elf.{word_at}
use lamb_os.Proc.Elf.Sections.{SectionHeader32, Section, is_section_type, no_bits}

-- The characters of a name and its null character stand at `p` of the file.
abbrev pub NameAt : List ℕ → ℕ → List ℕ → Type 0
NameAt file p [] = get_or file p 0 ≡ 0
NameAt file p (c ∷ name) = (get_or file p 0 ≡ c) × ((c == 0) ≡ false) × NameAt file (p + 1) name

abbrev pub header_at : List ℕ → ℕ → SectionHeader32
header_at file o = record {
  name_index = word_at file (o + 0);
  section_type = word_at file (o + 4);
  address = word_at file (o + 12);
  offset = word_at file (o + 16);
  size = word_at file (o + 20);
}

abbrev pub described : SectionHeader32 → List ℕ → Section
described h name = record {
  name = name;
  data_at = if h.section_type == no_bits then none else some h.offset;
  vaddress = h.address;
  size = h.size;
}

-- `SectionsAt file table o sections`: from `o` on stand the headers of these sections, of known
-- types, with their names, inside of the file, in the table.
pub data SectionsAt (file : List ℕ) (table : ℕ) : ℕ → List Section → Type 0 where
  no_more : (o : ℕ) → SectionsAt file table o []
  header :
      (o : ℕ) (name : List ℕ) (sections : List Section)
      → is_section_type (header_at file o).section_type ≡ true
      → NameAt file (table + (header_at file o).name_index) name
      → table + (header_at file o).name_index + length name < length file
      → SectionsAt file table (o + 40) sections
      → SectionsAt file table o (described (header_at file o) name ∷ sections)
