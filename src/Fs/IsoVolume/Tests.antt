-- ===== src/Fs/IsoVolume/Tests.antt =====
-- Volumes whose descriptors are short lists of sectors.
use lamb_os.Base.{
  ℕ, ◌+◌, true, false, List, [], ◌∷◌, ◌++◌, some, ◌≡◌, refl, arith, ◌==◌, if◌then◌else◌, length,
  replicate,
}
use lamb_os.Base.Outcome.{done, panic}
use lamb_os.Fs.IsoRecord.Records.{DirectoryRecord, record_bytes, described}
use lamb_os.Fs.IsoVolume.{init_volume, has_file_system}
use lamb_os.Fs.IsoVolume.Mounting.{here, later, IsDescriptor, init_volume_lem, init_volume_panics}

abbrev root : DirectoryRecord
root = record {
  extent_lba = 24;
  extent_length = 2048;
  flags = 2;
  name = 0 ∷ [];
  area = [];
  unread = λ k. 0;
}

abbrev descriptor : List ℕ
descriptor =
    (1 ∷ (b'C' ∷ b'D' ∷ b'0' ∷ b'0' ∷ b'1' ∷ replicate 34 0))
    ++ (((b'L' ∷ b'B' ∷ []) ++ replicate 30 b' ') ++ (replicate 84 0 ++ (record_bytes root ++ [])))

-- A boot record, then the descriptor of the volume.
abbrev sectors : ℕ → List ℕ
sectors lba = if lba == 17 then descriptor else (0 ∷ b'C' ∷ b'D' ∷ b'0' ∷ b'0' ∷ b'1' ∷ 1 ∷ [])

descriptor_ok : IsDescriptor descriptor (b'L' ∷ b'B' ∷ []) root
descriptor_ok = record {
  before = 1 ∷ (b'C' ∷ b'D' ∷ b'0' ∷ b'0' ∷ b'1' ∷ replicate 34 0);
  between = replicate 84 0;
  behind = [];
  blanks = 30;
  bytes = refl;
  before_size = refl;
  label_size = refl;
  between_size = refl;
  no_blank = refl;
  root_ok = record { lba_fits = omega arith; length_fits = omega arith; plain = refl };
}

init_volume_lem_example :
    init_volume sectors 3 ≡ done (some (record { root = described root; label = b'L' ∷ b'B' ∷ [] }))
init_volume_lem_example =
    init_volume_lem sectors 1 (b'L' ∷ b'B' ∷ []) root 3
      (later 16 0 1 0 (b'C' ∷ b'D' ∷ b'0' ∷ b'0' ∷ b'1' ∷ 1 ∷ []) refl refl (here 17 1 _ refl))
      descriptor_ok (omega arith)

found_there : has_file_system sectors ≡ done true
unfolding has_file_system lamb_os.Base.Outcome.store lamb_os.Libc.Strings.strcmp
    lamb_os.Libc.Strings.char_difference
found_there = refl

-- A boot record, then the end of the descriptors.
abbrev no_volume : ℕ → List ℕ
no_volume lba = (if lba == 17 then 255 else 0) ∷ b'C' ∷ b'D' ∷ b'0' ∷ b'0' ∷ b'1' ∷ 1 ∷ []

init_volume_panics_example : init_volume no_volume 2 ≡ panic
init_volume_panics_example =
    init_volume_panics no_volume 1 2
      (later 16 0 255 0 (b'C' ∷ b'D' ∷ b'0' ∷ b'0' ∷ b'1' ∷ 1 ∷ []) refl refl
        (here 17 255 (b'C' ∷ b'D' ∷ b'0' ∷ b'0' ∷ b'1' ∷ 1 ∷ []) refl))
      (omega arith)
