-- ===== src/Fs/IsoVolume.antt =====
-- kernel/src/fs/iso9660/Volume.cpp, with the primary volume descriptor of
-- kernel/include/fs/iso9660/DataStructures.hpp, and the test of kernel/src/fs/iso9660/Iso9660.cpp.
-- The drive is a parameter: what a read of one sector stores. `none` says that the given rounds do
-- not suffice. Sector numbers have 64 bits and do not wrap.
pub mod Mounting
mod Tests
use lamb_os.Base.{
  ℕ, zero, suc, ◌+◌, Bool, true, false, List, [], ◌∷◌, Option, none, some, ◌==◌, if◌then◌else◌,
  drop,
}
use lamb_os.Base.Outcome.{Outcome, done, panic, ◌>>=◌, load, store}
use lamb_os.Libc.Strings.{strcmp}
use lamb_os.Fs.IsoRecord.{DirectoryEntry, make_entry, slice}
use lamb_os.Fs.IsoDirectory.{is_zero}

pub data VolumeDescriptorType : Type 0 where
  boot_record : VolumeDescriptorType
  primary_volume : VolumeDescriptorType
  supplementary_volume : VolumeDescriptorType
  unknown : VolumeDescriptorType
  set_terminator : VolumeDescriptorType

unfoldable pub descriptor_type : ℕ → VolumeDescriptorType
descriptor_type t =
    if t == 0
    then boot_record
    else (if t == 1
        then primary_volume
        else (if t == 2
            then supplementary_volume
            else (if t == 255 then set_terminator else unknown)))

unfoldable pub get_descriptor_type : List ℕ → Outcome VolumeDescriptorType
get_descriptor_type buf = load buf 0 >>= λ t. done (descriptor_type t)

-- Where the fields stand that the code reads.
abbrev pub volume_id_at : ℕ
volume_id_at = 40

abbrev pub root_at : ℕ
root_at = 156

pub record Volume : Type 0 where
  pub root : DirectoryEntry
  pub label : List ℕ

-- for (char c : descriptor->volumeId) { if (c == ' ') break; ++volumeIdLength; }
unfoldable pub before_space : List ℕ → List ℕ
before_space [] = []
before_space (c ∷ id) = if c == b' ' then [] else c ∷ before_space id

unfoldable pub mounted : List ℕ → Option DirectoryEntry → Outcome (Option Volume)
mounted buf none = done none
mounted buf (some root) = slice buf volume_id_at 32 >>= λ id.
    done (some (record { root = root; label = before_space id }))

-- From the descriptor on.
unfoldable pub mount : ℕ → List ℕ → Outcome (Option Volume)
mount rounds buf = make_entry rounds buf root_at >>= λ root. mounted buf root

abbrev pub by_descriptor {ℓ} : {A : Type ℓ} → VolumeDescriptorType → A → A → A → A
by_descriptor t at_primary at_end at_other = elim t [
  | primary_volume ↦ at_primary
  | set_terminator ↦ at_end
  | _ ↦ at_other
]

abbrev pub created : Option Volume → Option (Option Volume)
created none = none
created (some volume) = some (some volume)

module _ (read_sector : ℕ → List ℕ) where
  -- The loop of `init`, with `rounds` to go.
  unfoldable pub init_from : ℕ → ℕ → Outcome (Option Volume)
  init_from zero lba = done none
  init_from (suc rounds) lba = get_descriptor_type (read_sector lba) >>= λ type.
      by_descriptor type (mount rounds (read_sector lba)) panic (init_from rounds (lba + 1))

  unfoldable pub init_volume : ℕ → Outcome (Option Volume)
  init_volume rounds = init_from rounds 0x10

  unfoldable pub has_file_system : Outcome Bool
  has_file_system = do
    buf ← store (read_sector 0x10) 6 0
    z ← strcmp (drop 1 buf) (b'C' ∷ b'D' ∷ b'0' ∷ b'0' ∷ b'1' ∷ 0 ∷ [])
    done (is_zero z)

  -- `Iso9660::createVolume`: `nullptr` when there is no such file system.
  unfoldable pub create_volume : ℕ → Outcome (Option (Option Volume))
  create_volume rounds = has_file_system >>= λ there.
      (if there then (init_volume rounds >>= λ volume. done (created volume)) else done (some none))
