-- ===== src/Mem/PageEntry/Tests.antt =====
-- Entries of concrete frames.
use lamb_os.Base.{◌≡◌, refl, true}
use lamb_os.Mem.PageEntry.{page_entry, get_flag, set_flags, unset_flag}

frame_five : set_flags (page_entry 0x5123) 3 ≡ 0x5003
unfolding set_flags page_entry
frame_five = refl

five_present : get_flag 0x5003 1 ≡ true
unfolding get_flag
five_present = refl

-- The complement of a flag has 8 bits, so the address goes too.
five_unset : unset_flag 0x5003 2 ≡ 1
unfolding unset_flag
five_unset = refl
