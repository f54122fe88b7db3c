-- ===== src/Device/AtapiCommand/Decoding.antt =====
-- How a device reads a packet.
use lamb_os.Base.{ℕ, ◌+◌, ◌*◌, ◌/◌, ◌^◌, ◌<◌, ◌≡◌, refl, bit_and, List, get_or, length, arith}
use lamb_os.Base.Masks.{bit_and_byte}
use lamb_os.Device.AtapiCommand.{read12_command}

-- Four bytes from a place on, the highest first.
abbrev pub big_endian : List ℕ → ℕ → ℕ
big_endian bytes i =
    get_or bytes i 0 * 2 ^ 24
    + (get_or bytes (i + 1) 0 * 2 ^ 16 + (get_or bytes (i + 2) 0 * 2 ^ 8 + get_or bytes (i + 3) 0))

-- The packet of a READ (12) command has twelve bytes, its operation code, and the address and the
-- number of sectors where a device reads them.
pub read12_command_lem :
    (lba n : ℕ)
    → lba < 2 ^ 32
    → n < 2 ^ 32
    → (length (read12_command lba n) ≡ 12)
      × (get_or (read12_command lba n) 0 0 ≡ 0xA8)
      × (big_endian (read12_command lba n) 2 ≡ lba)
      × (big_endian (read12_command lba n) 6 ≡ n)
unfolding read12_command
read12_command_lem lba n h h' = (refl, refl, bytes lba h, bytes n h')
  where
    bytes :
        (x : ℕ)
        → x < 2 ^ 32
        → bit_and (x / 2 ^ 24) 0xFF * 2 ^ 24
            + (bit_and (x / 2 ^ 16) 0xFF * 2 ^ 16
                + (bit_and (x / 2 ^ 8) 0xFF * 2 ^ 8 + bit_and x 0xFF))
          ≡ x
    bytes x lt = omega (
      arith,
      bit_and_byte (x / 2 ^ 24),
      bit_and_byte (x / 2 ^ 16),
      bit_and_byte (x / 2 ^ 8),
      bit_and_byte x,
    )
