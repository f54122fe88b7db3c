-- ===== src/Base/Masks.antt =====
-- The masks of a byte and of smaller parts, and `|` with a number that ends in zeros.
use Prim.Native.Nat.{ℕ, zero, suc, ◌*◌, ◌+◌, ◌/◌, ◌%◌, ◌^◌, ◌<◌, bit_and, bit_or, bit_or-bitwise}
use native.Mathlib.Nat.{pow-suc}
use mathlib.Core.Path.{◌≡◌, ap, ◌∙◌}
use native.Mathlib.Omega.{arith}
use lamb_os.Base.Bits.{low_step}
use lamb_os.Base.Bits.Step.{bit_and_zero, bit_or_step}

-- The lowest byte.
pub bit_and_byte : (a : ℕ) → bit_and a 0xFF ≡ a % 256
bit_and_byte a = omega (
  arith,
  low_step (a) 0x7F,
  low_step (a / 2) 0x3F,
  low_step (a / 2 / 2) 0x1F,
  low_step (a / 2 / 2 / 2) 0xF,
  low_step (a / 2 / 2 / 2 / 2) 0x7,
  low_step (a / 2 / 2 / 2 / 2 / 2) 0x3,
  low_step (a / 2 / 2 / 2 / 2 / 2 / 2) 0x1,
  low_step (a / 2 / 2 / 2 / 2 / 2 / 2 / 2) 0x0,
  bit_and_zero (a / 2 / 2 / 2 / 2 / 2 / 2 / 2 / 2),
)

-- The lowest four bits.
pub bit_and_nibble : (a : ℕ) → bit_and a 0xF ≡ a % 16
bit_and_nibble a = omega (
  arith,
  low_step (a) 0x7,
  low_step (a / 2) 0x3,
  low_step (a / 2 / 2) 0x1,
  low_step (a / 2 / 2 / 2) 0x0,
  bit_and_zero (a / 2 / 2 / 2 / 2),
)

-- The lowest two bits.
pub bit_and_three : (a : ℕ) → bit_and a 3 ≡ a % 4
bit_and_three a = omega (arith, low_step a 1, low_step (a / 2) 0, bit_and_zero (a / 2 / 2))

bit_or_none : (a : ℕ) → bit_or 0 a ≡ a
bit_or_none a = bit_or-bitwise 0 a

pub bit_or_above : (k a b : ℕ) → b < 2 ^ k → bit_or b (a * 2 ^ k) ≡ a * 2 ^ k + b
bit_or_above zero a b h =
    ap (λ t. bit_or t (a * 1)) {x = b} {y = 0} (omega arith) ∙ bit_or_none (a * 1) ∙ omega arith
bit_or_above (suc k) a b h = omega (
  arith,
  bit_or_step b (a * 2 ^ suc k),
  ap (bit_or (b / 2)) half ∙ bit_or_above k a (b / 2) (omega (arith, pow-suc 2 k)),
  ap (λ (t : ℕ). a * t) (pow-suc 2 k),
)
  where
    half : a * 2 ^ suc k / 2 ≡ a * 2 ^ k
    half = omega (arith, ap (λ (t : ℕ). a * t) (pow-suc 2 k))
