-- ===== src/Device/AtapiCommand.antt =====
-- kernel/src/device/storage/AtapiCommand.cpp. A packet is its twelve bytes.
pub mod Decoding
use lamb_os.Base.{ℕ, ◌/◌, ◌^◌, bit_and, List, [], ◌∷◌, replicate}

pub read_capacity_command : List ℕ
read_capacity_command = 0x25 ∷ replicate 11 0

pub read12_command : ℕ → ℕ → List ℕ
read12_command lba length =
    0xA8
    ∷ 0
    ∷ bit_and (lba / 2 ^ 0x18) 0xFF
    ∷ bit_and (lba / 2 ^ 0x10) 0xFF
    ∷ bit_and (lba / 2 ^ 0x8) 0xFF
    ∷ bit_and lba 0xFF
    ∷ bit_and (length / 2 ^ 0x18) 0xFF
    ∷ bit_and (length / 2 ^ 0x10) 0xFF
    ∷ bit_and (length / 2 ^ 0x8) 0xFF
    ∷ bit_and length 0xFF
    ∷ 0
    ∷ 0
    ∷ []
