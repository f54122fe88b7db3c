-- ===== src/Proc/Elf/Tests.antt =====
-- A small binary, a program header and a table of sections.
use lamb_os.Base.{
  ℕ, suc, ◌+◌, ◌-◌, ◌<◌, Bool, true, false, List, [], ◌∷◌, ◌++◌, Option, none, some, ◌≡◌, ◌≢◌, refl,
  sym, ap, ◌⊎◌, arith, replicate, ◌==◌, ◌&&◌, if◌then◌else◌, Bool-cases, inl, inr, ap₂, ◌∙◌, ==→eq,
}
use lamb_os.Base.Outcome.{Outcome, done, panic, fault}
use lamb_os.Fs.IsoFileStream.{IsoFileStream, open_stream}
use lamb_os.Fs.IsoFileStream.Reading.{iso_input, open_stream-Holds}
use lamb_os.Fs.IsoRecord.{file}
use lamb_os.Proc.Elf.{is_elf}
use lamb_os.Io.FileReader.{FileReader}
use lamb_os.Io.FileReader.Reads.{Views}
use lamb_os.Proc.Elf.{is_known_type, load_program_segments}
use lamb_os.Proc.Elf.Headers.{all_known, segments_at, load_program_segments_lem}
use lamb_os.Proc.Elf.Sections.{Section, load_sections, is_section_type, load_section_headers}
use lamb_os.Proc.Elf.Images.{elf_image, is_elf_lem}

-- The header of an executable, and 28 bytes that are not tested.
abbrev image : List ℕ
image =
    (0x7F ∷ b'E' ∷ b'L' ∷ b'F' ∷ 1 ∷ 1 ∷ 1 ∷ 0 ∷ replicate 8 0)
    ++ (2 ∷ 0 ∷ 3 ∷ 0 ∷ 1 ∷ 0 ∷ 0 ∷ 0 ∷ replicate 28 0)

is_elf_lem_example :
    is_elf iso_input (replicate 52 9) file (some (open_stream 52 (image ++ [])))
    ≡ done (elf_image image)
is_elf_lem_example =
    is_elf_lem iso_input (replicate 52 9) (open_stream 52 (image ++ [])) image (omega arith)
      (open_stream-Holds image []) refl

accepted : elf_image image ≡ true
accepted = refl

-- A file with one program header behind four other bytes, all of it in memory.
abbrev header_file : List ℕ
header_file =
    (9 ∷ 9 ∷ 9 ∷ 9 ∷ [])
    ++ (1 ∷ 0 ∷ 0 ∷ 0 ∷ 0 ∷ 16 ∷ 0 ∷ 0 ∷ 0 ∷ 128 ∷ 4 ∷ 8 ∷ replicate 4 0)
    ++ (2 ∷ 0 ∷ 0 ∷ 0 ∷ 0 ∷ 32 ∷ 0 ∷ 0 ∷ 5 ∷ 0 ∷ 0 ∷ 0 ∷ 0 ∷ 16 ∷ 0 ∷ 0 ∷ [])

abbrev in_memory : FileReader IsoFileStream
in_memory = record {
  stream = none;
  file_bytes = record { capacity = 36; cells = header_file };
  file_extent = 36;
  eof_reached = true;
}

in_memory-Views : Views iso_input header_file in_memory
in_memory-Views = record {
  sized = refl;
  within = omega arith;
  inside = omega arith;
  cached = λ i below. refl;
  source = inr (refl, refl);
}

header_known : all_known header_file 1 4 ≡ true
unfolding is_known_type
header_known = refl

load_program_segments_lem_example :
    load_program_segments iso_input 1 in_memory (replicate 32 7) 4
    ≡ done (segments_at header_file 1 4, in_memory)
load_program_segments_lem_example =
    load_program_segments_lem iso_input header_file 1 in_memory (replicate 32 7) 4 in_memory-Views
      (omega arith) (omega arith) (omega arith) header_known

-- One section, the table of names, which names itself.
abbrev section_file : List ℕ
section_file =
    (1 ∷ 0 ∷ 0 ∷ 0 ∷ 3 ∷ 0 ∷ 0 ∷ 0 ∷ replicate 8 0)
    ++ ((40 ∷ 0 ∷ 0 ∷ 0 ∷ 6 ∷ 0 ∷ 0 ∷ 0 ∷ replicate 16 0) ++ (0 ∷ b's' ∷ b't' ∷ b'r' ∷ 0 ∷ 0 ∷ []))

abbrev sections_in_memory : FileReader IsoFileStream
sections_in_memory = record {
  stream = none;
  file_bytes = record { capacity = 46; cells = section_file };
  file_extent = 46;
  eof_reached = true;
}

abbrev names_section : ℕ → Section
names_section size = record {
  name = b's' ∷ b't' ∷ b'r' ∷ [];
  data_at = some 40;
  vaddress = 0;
  size = size;
}

-- The table is in the list twice, the first time with the size 0.
names_twice :
    load_sections iso_input sections_in_memory (replicate 40 7) 0 1 0
    ≡ done (names_section 0 ∷ names_section 6 ∷ [], sections_in_memory)
unfolding load_sections lamb_os.Proc.Elf.Sections.load_name_table lamb_os.Proc.Elf.read_object
    lamb_os.Io.FileReader.read_range lamb_os.Io.FileReader.read lamb_os.Base.Outcome.load
    lamb_os.Io.FileReader.copy_out lamb_os.Base.Outcome.store
    lamb_os.Proc.Elf.Sections.name_table_section lamb_os.Proc.Elf.Sections.string_from
    lamb_os.Proc.Elf.Sections.section_header_of lamb_os.Proc.Elf.Sections.load_section_headers
    lamb_os.Proc.Elf.Sections.is_section_type lamb_os.Proc.Elf.Sections.section_of
names_twice = refl
