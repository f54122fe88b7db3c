-- ===== src/Mem/PageEntry/Laws.antt =====
-- What the masks do to an entry.
use lamb_os.Base.{ℕ, ◌+◌, ◌*◌, ◌/◌, ◌%◌, ◌^◌, ◌<◌, ◌≡◌, bit_and, ◌==◌, arith}
use lamb_os.Base.Bits.{bit_and_pow, bit_and_page, bit_or_fields}
use lamb_os.Mem.PageEntry.{page_entry, get_flag, set_flags, address}

pub get_flag-present : (e : ℕ) → get_flag e 1 ≡ (e % 2 == 1)
unfolding get_flag
get_flag-present e = ground (arith, bit_and_pow 0 e)

page_kept : (i : ℕ) → i < 2 ^ 20 → bit_and (i * 4096) 0xFFFFF000 ≡ i * 4096
page_kept i h = omega (arith, bit_and_page (i * 4096) (omega arith))

-- The entry that the unit makes for a frame: its address, present and writable.
pub frame_entry : (i : ℕ) → i < 2 ^ 20 → set_flags (page_entry (i * 4096)) 3 ≡ i * 4096 + 3
unfolding set_flags page_entry
frame_entry i h = rw (page_kept i h, page_kept i h) (bit_or_fields 12 i 3 (omega arith))

pub address_lem : (e : ℕ) → e < 2 ^ 32 → address e ≡ e / 4096 * 4096
unfolding address
address_lem e h = bit_and_page e h
