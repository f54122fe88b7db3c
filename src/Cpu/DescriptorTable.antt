-- ===== src/Cpu/DescriptorTable.antt =====
-- kernel/src/arch/i386/cpu/GlobalDescriptorTable.cpp and its header. An entry of the table is its
-- eight bytes.
pub mod Decoding
mod Tests
use lamb_os.Base.{ℕ, ◌/◌, ◌^◌, bit_and, bit_or, List, ltb, if◌then◌else◌}
use lamb_os.Base.Outcome.{Outcome, ◌>>=◌, load, store}

pub record GdtEntry : Type 0 where
  pub base : ℕ
  pub limit : ℕ
  pub type : ℕ

pub record Descriptor : Type 0 where
  pub byte0 : ℕ
  pub byte1 : ℕ
  pub byte2 : ℕ
  pub byte3 : ℕ
  pub byte4 : ℕ
  pub byte5 : ℕ
  pub byte6 : ℕ
  pub byte7 : ℕ

-- The bytes that `encodeEntry` leaves; it sets byte 6 twice.
pub encoded : GdtEntry → Descriptor
encoded source =
    let granular = ltb 65536 source.limit in
    let limit = (if granular then source.limit / 2 ^ 12 else source.limit) in
    record {
      byte0 = bit_and limit 0xFF;
      byte1 = bit_and (limit / 2 ^ 8) 0xFF;
      byte2 = bit_and source.base 0xFF;
      byte3 = bit_and (source.base / 2 ^ 8) 0xFF;
      byte4 = bit_and (source.base / 2 ^ 16) 0xFF;
      byte5 = source.type;
      byte6 = bit_or (if granular then 0xC0 else 0x40) (bit_and (limit / 2 ^ 16) 0xF);
      byte7 = bit_and (source.base / 2 ^ 24) 0xFF;
    }

pub encode_entry : List Descriptor → ℕ → GdtEntry → Outcome (List Descriptor)
encode_entry gdt entry_number source = store gdt entry_number (encoded source)
