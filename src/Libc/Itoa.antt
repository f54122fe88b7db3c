-- ===== src/Libc/Itoa.antt =====
-- libc/src/stdlib/itoa.c. The macros write the functions for each integer type; the number `w` of
-- its bits is a parameter here. A signed value is given by its bits. The text goes to the array
-- `buf` from the place `str`.
pub mod Digits
pub mod Writing
pub mod Signed
mod Tests
use lamb_os.Base.{ℕ, zero, suc, ◌+◌, ◌-◌, ◌/◌, ◌%◌, ◌^◌, min, max, List, ◌==◌, ltb, if◌then◌else◌}
use lamb_os.Base.Outcome.{Outcome, done, fault, ◌>>=◌, store}

-- do { ++length; valcpy /= base; } while (valcpy != 0), for at most `n` rounds; `fault` stands for a
-- loop that goes on after them.
pub count_digits : ℕ → ℕ → ℕ → ℕ → Outcome ℕ
count_digits zero base valcpy length = fault
count_digits (suc n) base valcpy length =
    let later = count_digits n base (valcpy / base) (length + 1) in
    if valcpy / base == 0 then done (length + 1) else later

pub digit_char : ℕ → ℕ
digit_char rem = if ltb rem 10 then b'0' + rem else b'A' + rem - 10

-- The second loop: the same number of rounds. The place before the first is out of bounds.
pub write_digits : ℕ → ℕ → ℕ → ℕ → ℕ → List ℕ → Outcome (List ℕ)
write_digits n base value zero str buf = fault
write_digits zero base value (suc length) str buf = fault
write_digits (suc n) base value (suc length) str buf = do
  buf' ← store buf (str + length) (digit_char (value % base % 2 ^ 8))
  (let later = write_digits n base (value / base) length str buf' in
      if value / base == 0 then done buf' else later)

-- `n` is the bound on the rounds of either loop.
pub write_unsigned : ℕ → ℕ → ℕ → ℕ → List ℕ → Outcome (List ℕ)
write_unsigned n base value str buf = do
  length ← count_digits n base value 0
  buf₁ ← store buf (str + length) 0
  write_digits n base value length str buf₁

pub write_signed : ℕ → ℕ → ℕ → ℕ → List ℕ → Outcome (List ℕ)
write_signed w base value str buf =
    if ltb value (2 ^ w / 2) then write_unsigned w base value str buf else (do
      buf₁ ← store buf str b'-'
      write_unsigned w base ((2 ^ w - value) % 2 ^ w) (str + 1) buf₁)

-- A negative number, by its bits, is below both bounds.
pub clamp : ℕ → ℕ → ℕ → ℕ
clamp num low high = if ltb num (2 ^ 31) then max (min num high) low else low

-- `itoa`, `ltoa` and `lltoa`.
pub xtoa : ℕ → ℕ → ℕ → List ℕ → Outcome (List ℕ)
xtoa w value base buf =
    let base' = clamp base 2 32 in
    if base' == 10 then write_signed w base' value 0 buf else write_unsigned w base' value 0 buf

-- `uitoa`, `ultoa` and `ulltoa`.
pub uxtoa : ℕ → ℕ → ℕ → List ℕ → Outcome (List ℕ)
uxtoa w value base buf = write_unsigned w (clamp base 2 32) value 0 buf
