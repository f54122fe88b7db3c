-- ===== src/Cpu/RealTimeClock.antt =====
-- kernel/src/arch/i386/cpu/X86RealTimeClock.cpp. What the clock's registers hold is a function, and
-- the loop that waits for the end of an update reads one such function after the other.
mod Tests
use lamb_os.Base.{
  ℕ, ◌+◌, ◌*◌, ◌/◌, ◌%◌, ◌^◌, bit_and, List, [], ◌∷◌, Option, none, some, ◌==◌, if◌then◌else◌,
}

pub record DateTime : Type 0 where
  pub seconds : ℕ
  pub minutes : ℕ
  pub hours : ℕ
  pub weekday : ℕ
  pub monthday : ℕ
  pub month : ℕ
  pub year : ℕ
  pub century : ℕ

pub convert_bcd_if_needed : (ℕ → ℕ) → ℕ → ℕ
convert_bcd_if_needed registers value =
    if bit_and (registers 0x0B) 0x04 == 0
    then (bit_and value 0x0F + value / 16 * 10) % 2 ^ 8
    else value

-- The fields, once no update is in progress.
pub read_fields : (ℕ → ℕ) → DateTime
read_fields registers = record {
  seconds = convert_bcd_if_needed registers (registers 0x00);
  minutes = convert_bcd_if_needed registers (registers 0x02);
  hours = convert_bcd_if_needed registers (registers 0x04);
  weekday = convert_bcd_if_needed registers (registers 0x06);
  monthday = convert_bcd_if_needed registers (registers 0x07);
  month = convert_bcd_if_needed registers (registers 0x08);
  year = convert_bcd_if_needed registers (registers 0x09);
  century = convert_bcd_if_needed registers (registers 0x32);
}

-- `none` is a clock whose update has not ended with the last of the readings.
pub current_time : List (ℕ → ℕ) → Option DateTime
current_time [] = none
current_time (registers ∷ later) =
    let again = current_time later in
    if bit_and (registers 0x0A) 0x80 == 0 then some (read_fields registers) else again
