-- ===== src/Proc/Elf.antt =====
-- kernel/src/proc/elf/Executable.cpp, with kernel/include/proc/elf/DataStructures.hpp: the test for an
-- ELF binary, and the segments that a new object reads from the program headers.
pub mod Headers
pub mod Sections
pub mod Opening
pub mod Images
mod Tests
use lamb_os.Base.{
  ℕ, zero, suc, ◌+◌, ◌-◌, ◌*◌, ◌/◌, ◌%◌, ◌^◌, Bool, true, false, ◌&&◌, ◌||◌, not, List, [], ◌∷◌,
  ◌++◌, Option, none, some, ◌==◌, if◌then◌else◌, ltb, get_or,
}
use lamb_os.Base.Outcome.{Outcome, done, panic, ◌>>=◌, load}
use lamb_os.Io.InputStream.{InputStream}
use lamb_os.Io.FileReader.{FileReader, open_file, read_range}
use lamb_os.Fs.IsoRecord.{EntryType, file}

-- The fields of the header that are tested.
pub record ElfHeader32 : Type 0 where
  pub magic : ℕ
  pub elf₀ : ℕ
  pub elf₁ : ℕ
  pub elf₂ : ℕ
  pub bitness : ℕ
  pub endianness : ℕ
  pub object_type : ℕ
  pub instruction_set : ℕ
  pub version32 : ℕ

abbrev pub half_at : List ℕ → ℕ → ℕ
half_at bytes k = get_or bytes k 0 + get_or bytes (k + 1) 0 * 2 ^ 8

abbrev pub word_at : List ℕ → ℕ → ℕ
word_at bytes k = half_at bytes k + half_at bytes (k + 2) * 2 ^ 16

abbrev pub header_size : ℕ
header_size = 52

-- The packed structure over the bytes of the object.
unfoldable pub header_of : List ℕ → ElfHeader32
header_of bytes = record {
  magic = get_or bytes 0 0;
  elf₀ = get_or bytes 1 0;
  elf₁ = get_or bytes 2 0;
  elf₂ = get_or bytes 3 0;
  bitness = get_or bytes 4 0;
  endianness = get_or bytes 5 0;
  object_type = half_at bytes 16;
  instruction_set = half_at bytes 18;
  version32 = word_at bytes 20;
}

unfoldable pub check_magic : ElfHeader32 → Bool
check_magic h = h.magic == 0x7F && (h.elf₀ == b'E' && (h.elf₁ == b'L' && h.elf₂ == b'F'))

unfoldable pub check_header : ElfHeader32 → Bool
check_header h =
    check_magic h
    && (h.bitness == 1
        && (h.endianness == 1
            && (h.instruction_set == 3
                && (h.version32 == 1 && (h.object_type == 1 || h.object_type == 2)))))

module _ {S : Type 0} (input : InputStream S) where
  -- `object` holds whatever the bytes of the new object held before.
  unfoldable pub read_object : FileReader S → List ℕ → ℕ → ℕ → Outcome (ℕ × List ℕ × FileReader S)
  read_object r object offset size = read_range input r object offset size

  unfoldable pub is_elf : List ℕ → EntryType → Option S → Outcome Bool
  is_elf object entry_type stream = elim entry_type [
    | file ↦
        (read_object (open_file stream) object 0 header_size >>= λ x.
        (if x.0 == header_size then done (check_header (header_of x.1)) else done false))
    | _ ↦ done false
  ]

-- `data` is how far behind the start of the file's bytes the pointer of the source points.
pub record Segment : Type 0 where
  pub data_at : ℕ
  pub vaddress : ℕ
  pub alignment : ℕ
  pub data_size : ℕ
  pub memory_size : ℕ

-- The packed `ProgramHeader32`, as far as it is read.
unfoldable pub program_type : List ℕ → ℕ
program_type bytes = word_at bytes 0

unfoldable pub segment_of : List ℕ → Segment
segment_of bytes = record {
  data_at = word_at bytes 4;
  vaddress = word_at bytes 8;
  alignment = word_at bytes 28;
  data_size = word_at bytes 16;
  memory_size = word_at bytes 20;
}

-- The types of the enumeration.
unfoldable pub is_known_type : ℕ → Bool
is_known_type t = ltb t 7 || (t == 0x70000000 || t == 0x7FFFFFFF)

abbrev pub program_header_size : ℕ
program_header_size = 32

-- The loop of `loadProgramSegments` with `n` entries to go: the segments that it appends.
module _ {S : Type 0} (input : InputStream S) where
  unfoldable pub load_program_segments :
      ℕ → FileReader S → List ℕ → ℕ → Outcome (List Segment × FileReader S)
  load_program_segments zero r object offset = done ([], r)
  load_program_segments (suc n) r object offset =
      read_object input r object offset program_header_size >>= λ x.
      (if is_known_type (program_type x.1)
        then (load_program_segments n x.2 object (offset + x.0) >>= λ y.
            done (segment_of x.1 ∷ y.0, y.1))
        else panic)
