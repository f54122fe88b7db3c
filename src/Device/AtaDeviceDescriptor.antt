-- ===== src/Device/AtaDeviceDescriptor.antt =====
-- kernel/src/device/storage/AtaDeviceDescriptor.cpp and its header. The information of a device is
-- a list of 16-bit words, which the code also reads as bytes and as 32-bit words. Of a null pointer
-- to them, with which the functions do nothing, there is none here.
pub mod Capacity
mod Tests
use lamb_os.Base.{
  ℕ, zero, suc, ◌+◌, ◌*◌, ◌/◌, ◌%◌, ◌^◌, bit_and, bit_or, Bool, not, List, [], ◌∷◌, ◌==◌,
  if◌then◌else◌, take, drop, set,
}
use lamb_os.Base.Outcome.{Outcome, done, ◌>>=◌, load}

pub record AtaDeviceDescriptor : Type 0 where
  pub little_endian : Bool
  pub firmware : List ℕ
  pub model : List ℕ
  pub serial : List ℕ
  pub lba28bit_sector_count : ℕ
  pub lba48bit_sector_count : ℕ
  pub atapi_end_lba : ℕ
  pub sector_size : ℕ

pub endian_swap : ℕ → ℕ
endian_swap l =
    bit_or
      (bit_or (bit_or (bit_and l 0xFF * 2 ^ 24 % 2 ^ 32) (bit_and l 0xFF00 * 2 ^ 8 % 2 ^ 32))
        (bit_and l 0xFF0000 / 2 ^ 8))
      (bit_and l 0xFF000000 / 2 ^ 24)

-- for (i = 0; i < len; i += 2), over the characters of a string of even length.
pub fix_ata_word_string : List ℕ → List ℕ
fix_ata_word_string [] = []
fix_ata_word_string (c ∷ []) = c ∷ []
fix_ata_word_string (c ∷ d ∷ str) = d ∷ c ∷ fix_ata_word_string str

-- `strncpy` of the C library: it stops behind a null character. Both arrays have `num` places.
pub strncpy : ℕ → List ℕ → List ℕ → List ℕ
strncpy zero dst src = dst
strncpy (suc num) [] src = []
strncpy (suc num) (d ∷ dst) [] = d ∷ dst
strncpy (suc num) (d ∷ dst) (c ∷ src) =
    let later = c ∷ strncpy num dst src in if c == 0 then c ∷ dst else later

-- The bytes of a list of words in memory.
pub bytes : List ℕ → List ℕ
bytes [] = []
bytes (word ∷ words) = word % 2 ^ 8 ∷ word / 2 ^ 8 ∷ bytes words

-- 32 bits in memory from a word on.
pub read32 : List ℕ → ℕ → Outcome ℕ
read32 words i = do low ← load words i; high ← load words (i + 1); done (low + high * 2 ^ 16)

-- A string of `AtaInfo`, from byte `i` on, with its words fixed.
pub info_string : AtaDeviceDescriptor → List ℕ → ℕ → ℕ → List ℕ
info_string dev raw_info i len =
    let str = take len (drop i (bytes raw_info)) in
    if dev.little_endian then fix_ata_word_string str else str

pub read_identity : AtaDeviceDescriptor → List ℕ → Outcome AtaDeviceDescriptor
read_identity dev raw_info = do
  sectors_28 ← read32 raw_info 60
  low ← read32 raw_info 100
  high ← read32 raw_info 102
  let sectors_48 = low + high * 2 ^ 32
  done (record dev {
    serial = strncpy 20 (set dev.serial 20 0) (info_string dev raw_info 20 20);
    firmware = strncpy 8 (set dev.firmware 8 0) (info_string dev raw_info 46 8);
    model = strncpy 40 (set dev.model 40 0) (info_string dev raw_info 54 40);
    lba28bit_sector_count = sectors_28;
    lba48bit_sector_count = sectors_48;
    sector_size = if sectors_48 == 0 then dev.sector_size else 512;
  })

pub read_atapi_capacity : AtaDeviceDescriptor → List ℕ → Outcome AtaDeviceDescriptor
read_atapi_capacity dev raw_info = do
  lba ← read32 raw_info 0
  blocks ← read32 raw_info 2
  done (record dev {
    atapi_end_lba = if dev.little_endian then endian_swap lba else lba;
    sector_size = if dev.little_endian then endian_swap blocks else blocks;
  })
