-- ===== src/Fs/IsoDirectory/Tests.antt =====
-- The file system on a drive of three extents.
use lamb_os.Base.{
  ℕ, suc, Bool, true, List, [], ◌∷◌, ◌++◌, Option, none, some, ◌≡◌, refl, arith, ◌==◌,
  if◌then◌else◌, length,
}
use lamb_os.Base.Outcome.{done, ◌>>=◌}
use lamb_os.Io.FileReader.{FileReader, open_file, read_all}
use lamb_os.Io.FileReader.Reads.{Views}
use lamb_os.Fs.IsoFileStream.{IsoFileStream}
use lamb_os.Fs.IsoFileStream.Reading.{iso_input}
use lamb_os.Fs.IsoRecord.{EntryType, file, directory, DirectoryEntry}
use lamb_os.Fs.IsoRecord.Names.{name_of, other}
use lamb_os.Fs.IsoRecord.Records.{DirectoryRecord, IsRecord, described}
use lamb_os.Fs.IsoDirectory.{
  contents_of, file_stream, find, search, fix_entry_name, listed_name, before_null,
}
use lamb_os.Fs.IsoDirectory.Search.{directory_bytes}
use lamb_os.Fs.IsoDirectory.Walk.{IsStored, Walk, arrive, descend, find_lem}
use lamb_os.Fs.IsoDirectory.Files.{read_all-file_stream}

-- A directory with the Rock Ridge name "bin", behind an entry of another type.
abbrev bin_record : DirectoryRecord
bin_record = record {
  extent_lba = 2;
  extent_length = 64;
  flags = 2;
  name = b'B' ∷ [];
  area = other b'P' b'X' 1 (7 ∷ []) ∷ name_of 1 0 (b'b' ∷ b'i' ∷ b'n' ∷ []) ∷ [];
  unread = λ k. k;
}

-- A file without a Rock Ridge name, of three bytes.
abbrev shell_record : DirectoryRecord
shell_record = record {
  extent_lba = 3;
  extent_length = 3;
  flags = 0;
  name = b's' ∷ b'h' ∷ [];
  area = [];
  unread = λ k. k;
}

abbrev sectors : ℕ → ℕ → List ℕ
sectors lba count =
    if lba == 1
    then directory_bytes (bin_record ∷ []) ++ (0 ∷ 0 ∷ [])
    else (if lba == 2
        then directory_bytes (shell_record ∷ bin_record ∷ []) ++ (0 ∷ [])
        else (4 ∷ 5 ∷ 6 ∷ []) ++ (0 ∷ 0 ∷ []))

abbrev root : DirectoryEntry
root = record { entry_type = directory; name = 0 ∷ []; extent_lba = 1; extent_length = 64 }

bin_ok : IsRecord bin_record
unfolding lamb_os.Fs.IsoRecord.signature_type
bin_ok = record { lba_fits = omega arith; length_fits = omega arith; plain = refl }

shell_ok : IsRecord shell_record
shell_ok = record { lba_fits = omega arith; length_fits = omega arith; plain = refl }

root-IsStored : IsStored 64 sectors 2 root (bin_record ∷ [])
unfolding contents_of lamb_os.Fs.IsoRecord.signature_type
root-IsStored = record {
  behind = 0 ∷ [];
  stored = refl;
  listing = (bin_ok, omega arith, refl, refl);
  some_bytes = omega arith;
  few = omega arith;
}

bin-IsStored : IsStored 64 sectors 2 (described bin_record) (shell_record ∷ bin_record ∷ [])
unfolding contents_of lamb_os.Fs.IsoRecord.signature_type
bin-IsStored = record {
  behind = [];
  stored = refl;
  listing = (shell_ok, omega arith, refl, (bin_ok, omega arith, refl, refl));
  some_bytes = omega arith;
  few = omega arith;
}

shell-Walk :
    Walk 64 sectors 2 root
      ((b'b' ∷ b'i' ∷ b'n' ∷ []) ∷ (b's' ∷ b'h' ∷ []) ∷ [])
      (some (described shell_record))
unfolding before_null lamb_os.Fs.IsoRecord.signature_type
shell-Walk =
    descend root (bin_record ∷ []) (b'b' ∷ b'i' ∷ b'n' ∷ []) (b's' ∷ b'h' ∷ []) []
      (described bin_record) (some (described shell_record)) root-IsStored refl refl
      (arrive (described bin_record) (shell_record ∷ bin_record ∷ []) (b's' ∷ b'h' ∷ [])
        (described shell_record) bin-IsStored refl refl)

-- "/bin/sh".
find_lem_example :
    find 64 sectors (λ k. k) 7 root (b'/' ∷ b'b' ∷ b'i' ∷ b'n' ∷ b'/' ∷ b's' ∷ b'h' ∷ [])
    ≡ done (some (some (described shell_record)))
unfolding lamb_os.Text.StringTokenizer.is_delim before_null
find_lem_example =
    find_lem 64 sectors (λ k. k) 2 root (b'/' ∷ b'b' ∷ b'i' ∷ b'n' ∷ b'/' ∷ b's' ∷ b'h' ∷ [])
      (some (described shell_record)) 7 shell-Walk (omega arith) (omega arith)

shell_on_drive : contents_of 64 sectors (described shell_record) ≡ (4 ∷ 5 ∷ 6 ∷ []) ++ (0 ∷ 0 ∷ [])
unfolding contents_of
shell_on_drive = refl

shell_is_file : (described shell_record).entry_type ≡ file
unfolding lamb_os.Fs.IsoRecord.entry_type_of
shell_is_file = refl

read_all-file_stream_example :
    (r : FileReader IsoFileStream) × (read_all iso_input 4
        (open_file (file_stream 64 sectors (described shell_record)))
        0
      ≡ done (some r))
    × Views iso_input (4 ∷ 5 ∷ 6 ∷ []) r
    × (r.file_extent ≡ 3)
    × (r.eof_reached ≡ true)
read_all-file_stream_example =
    read_all-file_stream 64 sectors (described shell_record) (4 ∷ 5 ∷ 6 ∷ []) (0 ∷ 0 ∷ [])
      shell_is_file refl shell_on_drive (omega arith)

-- A file of the name "A.;1", without a Rock Ridge name: it is listed as "A", but looking up "A" in
-- the directory that lists it finds nothing.
abbrev plain_directory : List ℕ
plain_directory =
    directory_bytes (
      record {
        extent_lba = 3;
        extent_length = 3;
        flags = 0;
        name = b'A' ∷ b'.' ∷ b';' ∷ b'1' ∷ [];
        area = [];
        unread = λ k. k;
      }
      ∷ [])
    ++ (0 ∷ [])

listed_as_a :
    (fix_entry_name plain_directory 33 4 >>= λ block. listed_name 9 block 0)
    ≡ done (some (b'A' ∷ []))
unfolding listed_name lamb_os.Base.Outcome.load fix_entry_name lamb_os.Base.Outcome.store
    lamb_os.Fs.IsoRecord.make_entry lamb_os.Fs.IsoRecord.slice lamb_os.Fs.IsoRecord.load_word
    lamb_os.Fs.IsoRecord.find_rock_ridge_name_entry lamb_os.Fs.IsoRecord.susp_length
    lamb_os.Fs.IsoRecord.susp_start lamb_os.Fs.IsoRecord.name_entry before_null
listed_as_a = refl

not_found_as_a : search 9 plain_directory 64 0 (b'A' ∷ []) ≡ done (some none)
unfolding search lamb_os.Base.Outcome.load lamb_os.Fs.IsoRecord.make_entry
    lamb_os.Fs.IsoRecord.slice lamb_os.Fs.IsoRecord.load_word
    lamb_os.Fs.IsoRecord.find_rock_ridge_name_entry lamb_os.Fs.IsoRecord.susp_length
    lamb_os.Fs.IsoRecord.susp_start lamb_os.Fs.IsoRecord.name_entry
    lamb_os.Fs.IsoDirectory.same_name lamb_os.Libc.Strings.strcmp
    lamb_os.Libc.Strings.char_difference
not_found_as_a = refl
