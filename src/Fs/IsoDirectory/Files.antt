-- ===== src/Fs/IsoDirectory/Files.antt =====
-- Reading a whole file: the stream of its directory entry, under the reader of libsys.
use lamb_os.Base.{ℕ, suc, ◌^◌, ◌<◌, true, List, ◌++◌, none, some, ◌≡◌, ap, ap₂, ◌∙◌, arith, length}
use lamb_os.Base.Outcome.{done}
use lamb_os.Io.FileReader.{FileReader, open_file, read_all}
use lamb_os.Io.FileReader.Reads.{Views}
use lamb_os.Io.FileReader.Whole.{read_all_lem}
use lamb_os.Fs.IsoFileStream.{IsoFileStream, open_stream}
use lamb_os.Fs.IsoFileStream.Reading.{iso_input, open_stream-Holds}
use lamb_os.Fs.IsoRecord.{file, directory, DirectoryEntry}
use lamb_os.Fs.IsoDirectory.{contents_of, file_stream}

module _ (sector_size : ℕ) (read_sectors : ℕ → ℕ → List ℕ) where
  opened :
      (entry : DirectoryEntry) (bytes slack : List ℕ)
      → entry.entry_type ≡ file
      → entry.extent_length ≡ length bytes
      → contents_of sector_size read_sectors entry ≡ bytes ++ slack
      → file_stream sector_size read_sectors entry
        ≡ some (open_stream (length bytes) (bytes ++ slack))
  unfolding file_stream
  opened entry bytes slack is_file size on_drive =
      ap
        (λ t. elim t [
          | directory ↦ none
          | _ ↦ some (open_stream entry.extent_length (contents_of sector_size read_sectors entry))
        ])
        is_file
      ∙ ap₂ (λ n b. some (open_stream n b)) size on_drive

  -- When the drive holds a file of less than `2 ^ 30` bytes in the sectors of its entry, the reader
  -- of the entry's stream reads all of it, in one round more than the file has bytes: it then stands
  -- for exactly these bytes, all are in memory, and its end was reached.
  pub read_all-file_stream :
      (entry : DirectoryEntry) (bytes slack : List ℕ)
      → entry.entry_type ≡ file
      → entry.extent_length ≡ length bytes
      → contents_of sector_size read_sectors entry ≡ bytes ++ slack
      → length bytes < 2 ^ 30
      → (r : FileReader IsoFileStream) × (read_all iso_input
            (suc (length bytes))
            (open_file (file_stream sector_size read_sectors entry))
            0
          ≡ done (some r))
        × Views iso_input bytes r
        × (r.file_extent ≡ length bytes)
        × (r.eof_reached ≡ true)
  read_all-file_stream entry bytes slack is_file size on_drive small =
      let (r, e, v, all, at_eof) =
        read_all_lem iso_input bytes (open_stream (length bytes) (bytes ++ slack))
          (suc (length bytes)) (open_stream-Holds bytes slack) small (omega arith) in
      (r, rw (opened entry bytes slack is_file size on_drive) e, v, all, at_eof)
