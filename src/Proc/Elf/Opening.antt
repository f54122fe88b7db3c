-- ===== src/Proc/Elf/Opening.antt =====
-- The constructor of `Executable` in kernel/src/proc/elf/Executable.cpp, with the fields of the header
-- that it reads.
use lamb_os.Base.{ℕ, Bool, false, List, Option, none, some}
use lamb_os.Base.Outcome.{Outcome, done, ◌>>=◌}
use lamb_os.Io.InputStream.{InputStream}
use lamb_os.Io.FileReader.{FileReader, open_file, read_all}
use lamb_os.Proc.Elf.{half_at, word_at, header_size, read_object, Segment, load_program_segments}
use lamb_os.Proc.Elf.Sections.{Section, load_sections}

-- `objects` are the bytes that the three kinds of headers are read over; they hold whatever was there.
pub record Objects : Type 0 where
  pub header : List ℕ
  pub program_header : List ℕ
  pub section_header : List ℕ

pub record Executable (S : Type 0) : Type 0 where
  pub file : FileReader S
  pub sections : List Section
  pub segments : List Segment
  pub entry : ℕ
  pub is_loaded : Bool

module _ {S : Type 0} (input : InputStream S) (objects : Objects) where
  -- After `readAll`.
  unfoldable pub from_file : FileReader S → Outcome (Executable S)
  from_file r = read_object input r objects.header 0 header_size >>= λ h.
      load_sections input h.2 objects.section_header (word_at h.1 32) (half_at h.1 48)
        (half_at h.1 50)
      >>= λ s.
          load_program_segments input (half_at h.1 44) s.1 objects.program_header (word_at h.1 28)
          >>= λ p. done (record {
            file = p.1;
            sections = s.0;
            segments = p.0;
            entry = word_at h.1 24;
            is_loaded = false;
          })

  unfoldable pub opened : Option (FileReader S) → Outcome (Option (Executable S))
  opened none = done none
  opened (some r) = from_file r >>= λ e. done (some e)

  -- `none` when `fuel` rounds do not suffice to read the file.
  unfoldable pub open_executable : ℕ → Option S → Outcome (Option (Executable S))
  open_executable fuel stream = read_all input fuel (open_file stream) 0 >>= λ r. opened r
