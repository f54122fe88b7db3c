-- ===== src/Fs/IsoFileStream.antt =====
-- The class `IsoFileStream` of kernel/src/fs/iso9660/DirectoryEntry.cpp: the stream over a file that
-- was read into memory as a whole. `size_t` has 32 bits.
pub mod Reading
mod Tests
use lamb_os.Base.{
  ℕ, ◌+◌, ◌-◌, ◌%◌, ◌^◌, Bool, true, false, not, List, Option, none, some, ◌==◌, if◌then◌else◌,
}
use lamb_os.Base.Outcome.{Outcome, done, ◌>>=◌, load}

pub record IsoFileStream : Type 0 where
  pub file_size : ℕ
  pub buffer : List ℕ
  pub pos : ℕ
  pub mark_at : ℕ
  pub reads_until_invalid : ℕ

-- The stream on a buffer that the device filled.
unfoldable pub open_stream : ℕ → List ℕ → IsoFileStream
open_stream file_size buffer = record {
  file_size = file_size;
  buffer = buffer;
  pos = 0;
  mark_at = 0;
  reads_until_invalid = 0;
}

unfoldable pub available : IsoFileStream → ℕ
available s = (s.file_size + 2 ^ 32 - s.pos) % 2 ^ 32

-- `if (_readsUntilInvalid) { --_readsUntilInvalid; }`: the subtraction stops at 0.
unfoldable pub read : IsoFileStream → Outcome (Option ℕ × IsoFileStream)
read s =
    if s.pos == s.file_size
    then done (none, s)
    else (load s.buffer s.pos >>= λ b.
        done
          (some b, record s { pos = s.pos + 1; reads_until_invalid = s.reads_until_invalid - 1 }))

unfoldable pub mark : IsoFileStream → ℕ → IsoFileStream
mark s reads_left = record s { reads_until_invalid = reads_left; mark_at = s.pos }

unfoldable pub mark_supported : IsoFileStream → Bool
mark_supported s = true

unfoldable pub reset : IsoFileStream → IsoFileStream
reset s = if not (s.reads_until_invalid == 0) then record s { pos = s.mark_at } else s
