-- ===== src/Mem/PageEntry.antt =====
-- An entry of a page table or of the page directory, a word of 32 bits: `PageEntry` of
-- kernel/include/mem/PageTable.hpp.
pub mod Laws
mod Tests
use lamb_os.Base.{ℕ, ◌-◌, ◌^◌, bit_and, bit_or, Bool, not, ◌==◌}

abbrev pub page_address_mask : ℕ
page_address_mask = 0xFFFFF000

abbrev pub page_flags_mask : ℕ
page_flags_mask = 0x00000FFF

abbrev pub present_bit : ℕ
present_bit = 1

abbrev pub read_write_bit : ℕ
read_write_bit = 2

-- The constructor from an address.
pub page_entry : ℕ → ℕ
page_entry address = bit_and address page_address_mask

unfoldable pub get_flag : ℕ → ℕ → Bool
get_flag entry flag = not (bit_and entry flag == 0)

-- `~flag` keeps the underlying type of the flags, so it has 8 bits.
pub unset_flag : ℕ → ℕ → ℕ
unset_flag entry flag = bit_and entry (2 ^ 8 - 1 - flag)

pub set_flag : ℕ → ℕ → ℕ
set_flag entry flag = bit_or entry flag

pub set_flags : ℕ → ℕ → ℕ
set_flags entry flags = bit_or (bit_and entry page_address_mask) (bit_and flags page_flags_mask)

pub address : ℕ → ℕ
address entry = bit_and entry page_address_mask

pub flags : ℕ → ℕ
flags entry = bit_and entry page_flags_mask
