-- ===== src/Fs/IsoRecord.antt =====
-- The directory record of kernel/include/fs/iso9660/DataStructures.hpp, and what
-- kernel/src/fs/iso9660/DirectoryEntry.cpp reads out of one: its fields and its Rock Ridge name. A
-- block of memory is the list of its bytes, and `p` the index where the record starts. Code that may
-- go on for ever takes the number of rounds that it is given: `none` when they do not suffice.
pub mod Names
pub mod Records
mod Tests
use lamb_os.Base.{
  ℕ, zero, suc, ◌+◌, ◌-◌, ◌*◌, ◌%◌, ◌^◌, bit_and, Bool, true, false, ◌&&◌, not, List, [], ◌∷◌,
  Option, none, some, ◌==◌, ltb, leb, if◌then◌else◌, length, take, drop,
}
use lamb_os.Base.Outcome.{Outcome, done, fault, ◌>>=◌, load}

-- `enum class RREntry`.
pub data RockRidgeEntry : Type 0 where
  px : RockRidgeEntry
  pn : RockRidgeEntry
  sl : RockRidgeEntry
  nm : RockRidgeEntry
  cl : RockRidgeEntry
  pl : RockRidgeEntry
  re : RockRidgeEntry
  tf : RockRidgeEntry
  sf : RockRidgeEntry
  unknown : RockRidgeEntry

abbrev spells : ℕ → ℕ → ℕ → ℕ → Bool
spells a b c d = a == c && b == d

-- The type that two characters stand for; `strcmp` with a name of two characters finds just these.
unfoldable pub signature_type : ℕ → ℕ → RockRidgeEntry
signature_type a b =
    if spells a b b'P' b'X'
    then px
    else (if spells a b b'P' b'N'
        then pn
        else (if spells a b b'S' b'L'
            then sl
            else (if spells a b b'N' b'M'
                then nm
                else (if spells a b b'C' b'L'
                    then cl
                    else (if spells a b b'P' b'L'
                        then pl
                        else (if spells a b b'R' b'E'
                            then re
                            else (if spells a b b'T' b'F'
                                then tf
                                else (if spells a b b'S' b'F' then sf else unknown))))))))

unfoldable pub decode_signature : List ℕ → ℕ → Outcome RockRidgeEntry
decode_signature block p = do a ← load block p; b ← load block (p + 1); done (signature_type a b)

-- `uint32_t`, the lowest byte first.
unfoldable pub load_word : List ℕ → ℕ → Outcome ℕ
load_word block p = do
  a ← load block p
  b ← load block (p + 1)
  c ← load block (p + 2)
  d ← load block (p + 3)
  done (a + b * 2 ^ 8 + c * 2 ^ 16 + d * 2 ^ 24)

-- The `n` bytes at `p`.
unfoldable pub slice : List ℕ → ℕ → ℕ → Outcome (List ℕ)
slice block p n = if leb (p + n) (length block) then done (take n (drop p block)) else fault

-- What the loop of `findRockRidgeNameEntry` does with a type.
abbrev pub by_type {ℓ} : {A : Type ℓ} → RockRidgeEntry → A → A → A → A
by_type t at_unknown at_name at_other = elim t [
  | unknown ↦ at_unknown
  | nm ↦ at_name
  | _ ↦ at_other
]

-- `while (len > 0)`, with `rounds` to go: where the name entry starts, if there is one. A
-- `ptrdiff_t` that went below 0 ends the loop, as 0 does.
unfoldable pub find_rock_ridge_name_entry : ℕ → List ℕ → ℕ → ℕ → Outcome (Option (Option ℕ))
find_rock_ridge_name_entry zero block p len = done none
find_rock_ridge_name_entry (suc rounds) block p len =
    if len == 0
    then done (some none)
    else (decode_signature block p >>= λ type.
        by_type type (done (some none)) (done (some (some p)))
          (load block (p + 2) >>= λ n. find_rock_ridge_name_entry rounds block (p + n) (len - n)))

-- The length of the name wraps when the entry is shorter than what stands before the name.
unfoldable pub rock_ridge_name : List ℕ → ℕ → Outcome (List ℕ)
rock_ridge_name block p =
    load block (p + 2) >>= λ n. slice block (p + 5) ((n + 2 ^ 32 - 5) % 2 ^ 32)

pub data EntryType : Type 0 where
  unknown_type : EntryType
  file : EntryType
  directory : EntryType

pub record DirectoryEntry : Type 0 where
  pub entry_type : EntryType
  pub name : List ℕ
  pub extent_lba : ℕ
  pub extent_length : ℕ

unfoldable pub entry_type_of : ℕ → EntryType
entry_type_of flags = if bit_and flags 2 == 0 then file else directory

-- How far behind the start of the record the Rock Ridge entries begin.
unfoldable pub susp_start : ℕ → ℕ
susp_start name_length = 33 + name_length + (if name_length % 2 == 0 then 1 else 0)

unfoldable pub susp_length : ℕ → ℕ → ℕ
susp_length record_length name_length = record_length - susp_start name_length

-- The last step of the constructor.
unfoldable pub name_entry :
    List ℕ → DirectoryEntry → Option (Option ℕ) → Outcome (Option DirectoryEntry)
name_entry block entry none = done none
name_entry block entry (some none) = done (some entry)
name_entry block entry (some (some p)) =
    rock_ridge_name block p >>= λ name. done (some (record entry { name = name }))

-- The constructor of `DirectoryEntry`, from the record at `p`.
unfoldable pub make_entry : ℕ → List ℕ → ℕ → Outcome (Option DirectoryEntry)
make_entry rounds block p = do
  flags ← load block (p + 25)
  name_length ← load block (p + 32)
  name ← slice block (p + 33) name_length
  lba ← load_word block (p + 2)
  extent_length ← load_word block (p + 10)
  record_length ← load block p
  found ←
      find_rock_ridge_name_entry rounds block (p + susp_start name_length)
        (susp_length record_length name_length)
  name_entry block
      (record {
        entry_type = entry_type_of flags;
        name = name;
        extent_lba = lba;
        extent_length = extent_length;
      })
      found
