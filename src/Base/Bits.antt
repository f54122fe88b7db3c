-- ===== src/Base/Bits.antt =====
-- The bits of a word: `bit_and` and `bit_or` act bit by bit, and what a mask of one bit, its
-- complement and a mask of low bits do to each bit.
pub mod Step
use Step.{bit_and_step, bit_or_step, bit_and_zero, bit_or_zero}
use Prim.Native.Nat.{ℕ, zero, suc, ◌+◌, ◌-◌, ◌*◌, ◌/◌, ◌%◌, ◌^◌, ◌<◌, ◌≤◌, min, max}
use Prim.Native.Nat.{bit_and, bit_or}
use mathlib.Core.Path.{◌≡◌, refl, ap, ◌∙◌}
use mathlib.Core.Logic.{◌≢◌}
use native.Mathlib.Nat.{pow-suc, one-le-pow}
use native.Mathlib.Omega.{arith}

-- Bit `i` of a word, as 0 or 1.
abbrev pub bit : ℕ → ℕ → ℕ
bit zero a = a % 2
bit (suc i) a = bit i (a / 2)

pub bit-lt : (i a : ℕ) → bit i a < 2
bit-lt zero a = omega arith
bit-lt (suc i) a = bit-lt i (a / 2)

pub bit-bit_and : (i a b : ℕ) → bit i (bit_and a b) ≡ min (bit i a) (bit i b)
bit-bit_and zero a b = omega (arith, bit_and_step a b)
bit-bit_and (suc i) a b = ap (bit i) halves ∙ bit-bit_and i (a / 2) (b / 2)
  where
    halves : bit_and a b / 2 ≡ bit_and (a / 2) (b / 2)
    halves = omega (arith, bit_and_step a b)

pub bit-bit_or : (i a b : ℕ) → bit i (bit_or a b) ≡ max (bit i a) (bit i b)
bit-bit_or zero a b = omega (arith, bit_or_step a b)
bit-bit_or (suc i) a b = ap (bit i) halves ∙ bit-bit_or i (a / 2) (b / 2)
  where
    halves : bit_or a b / 2 ≡ bit_or (a / 2) (b / 2)
    halves = omega (arith, bit_or_step a b)

pub bit-zero : (i : ℕ) → bit i 0 ≡ 0
bit-zero zero = refl
bit-zero (suc i) = bit-zero i

-- The mask `1 << k`.
pub bit-pow_self : (k : ℕ) → bit k (2 ^ k) ≡ 1
bit-pow_self zero = refl
bit-pow_self (suc k) = ap (bit k) half ∙ bit-pow_self k
  where
    half : 2 ^ suc k / 2 ≡ 2 ^ k
    half = omega (arith, pow-suc 2 k)

pub bit-pow_ne : (i k : ℕ) → i ≢ k → bit i (2 ^ k) ≡ 0
bit-pow_ne zero zero h = absurd (h refl)
bit-pow_ne zero (suc k) h = omega (arith, pow-suc 2 k)
bit-pow_ne (suc i) zero h = bit-zero i
bit-pow_ne (suc i) (suc k) h = ap (bit i) half ∙ bit-pow_ne i k (λ e. h (ap suc e))
  where
    half : 2 ^ suc k / 2 ≡ 2 ^ k
    half = omega (arith, pow-suc 2 k)

-- The mask `~(1 << k)` of a word of `n` bits.
pub bit-complement_self : (n k : ℕ) → k < n → bit k (2 ^ n - 1 - 2 ^ k) ≡ 0
bit-complement_self zero k h = absurd (omega arith)
bit-complement_self (suc n) zero h = omega (arith, pow-suc 2 n, one-le-pow n 2)
bit-complement_self (suc n) (suc k) h = ap (bit k) half ∙ bit-complement_self n k (omega arith)
  where
    half : (2 ^ suc n - 1 - 2 ^ suc k) / 2 ≡ 2 ^ n - 1 - 2 ^ k
    half = omega (arith, pow-suc 2 n, pow-suc 2 k, one-le-pow n 2, one-le-pow k 2)

pub pow_mono : (k n : ℕ) → k < n → 2 ^ k + 1 ≤ 2 ^ n
pow_mono k zero h = absurd (omega arith)
pow_mono zero (suc n) h = omega (arith, pow-suc 2 n, one-le-pow n 2)
pow_mono (suc k) (suc n) h = omega (arith, pow-suc 2 n, pow-suc 2 k, pow_mono k n (omega arith))

pub bit-complement_ne : (n k i : ℕ) → k < n → i < n → i ≢ k → bit i (2 ^ n - 1 - 2 ^ k) ≡ 1
bit-complement_ne zero k i h hi ne = absurd (omega arith)
bit-complement_ne (suc n) zero zero h hi ne = absurd (ne refl)
bit-complement_ne (suc n) (suc k) zero h hi ne =
    omega (arith, pow-suc 2 n, pow-suc 2 k, pow_mono k n (omega arith))
bit-complement_ne (suc n) zero (suc i) h hi ne = ap (bit i) half ∙ bit-ones n i (omega arith)
  where
    half : (2 ^ suc n - 1 - 1) / 2 ≡ 2 ^ n - 1
    half = omega (arith, pow-suc 2 n, one-le-pow n 2)

    bit-ones : (m j : ℕ) → j < m → bit j (2 ^ m - 1) ≡ 1
    bit-ones zero j lt = absurd (omega arith)
    bit-ones (suc m) zero lt = omega (arith, pow-suc 2 m, one-le-pow m 2)
    bit-ones (suc m) (suc j) lt =
        ap (bit j) (omega (arith, pow-suc 2 m)) ∙ bit-ones m j (omega arith)
bit-complement_ne (suc n) (suc k) (suc i) h hi ne =
    ap (bit i) half ∙ bit-complement_ne n k i (omega arith) (omega arith) (λ e. ne (ap suc e))
  where
    half : (2 ^ suc n - 1 - 2 ^ suc k) / 2 ≡ 2 ^ n - 1 - 2 ^ k
    half = omega (arith, pow-suc 2 n, pow-suc 2 k, one-le-pow n 2, one-le-pow k 2)

-- `w & (1 << k)` is the bit in its place.
pub bit_and_pow : (k a : ℕ) → bit_and a (2 ^ k) ≡ bit k a * 2 ^ k
bit_and_pow zero a = omega (arith, bit_and_step a 1, bit_and_zero (a / 2))
bit_and_pow (suc k) a = omega (
  arith,
  bit_and_step a (2 ^ suc k),
  ap (bit_and (a / 2)) half ∙ bit_and_pow k (a / 2),
  pow-suc 2 k,
  ap (λ (t : ℕ). bit k (a / 2) * t) (pow-suc 2 k),
)
  where
    half : 2 ^ suc k / 2 ≡ 2 ^ k
    half = omega (arith, pow-suc 2 k)

-- `a` halved `k` times.
abbrev pub halves : ℕ → ℕ → ℕ
halves zero a = a
halves (suc k) a = halves k (a / 2)

-- `&` with a mask that ends in `k` zeros.
pub bit_and_shifted : (k a m : ℕ) → bit_and a (m * 2 ^ k) ≡ bit_and (halves k a) m * 2 ^ k
bit_and_shifted zero a m = omega (arith, ap (bit_and a) {x = m * 1} {y = m} (omega arith))
bit_and_shifted (suc k) a m = omega (
  arith,
  bit_and_step a (m * 2 ^ suc k),
  ap (bit_and (a / 2)) half ∙ bit_and_shifted k (a / 2) m,
  ap (λ (t : ℕ). m * t) (pow-suc 2 k),
  ap (λ (t : ℕ). bit_and (halves k (a / 2)) m * t) (pow-suc 2 k),
)
  where
    half : m * 2 ^ suc k / 2 ≡ m * 2 ^ k
    half = omega (arith, ap (λ (t : ℕ). m * t) (pow-suc 2 k))

-- `&` with `k` ones leaves a number of `k` bits as it is.
pub bit_and_ones : (k a : ℕ) → a < 2 ^ k → bit_and a (2 ^ k - 1) ≡ a
bit_and_ones zero a h = omega (arith, bit_and_zero a)
bit_and_ones (suc k) a h = omega (
  arith,
  bit_and_step a (2 ^ suc k - 1),
  ap (bit_and (a / 2)) half ∙ bit_and_ones k (a / 2) (omega (arith, pow-suc 2 k)),
  pow-suc 2 k,
  one-le-pow k 2,
)
  where
    half : (2 ^ suc k - 1) / 2 ≡ 2 ^ k - 1
    half = omega (arith, pow-suc 2 k, one-le-pow k 2)

-- The mask of a 4 KiB page address.
pub bit_and_page : (a : ℕ) → a < 2 ^ 32 → bit_and a 0xFFFFF000 ≡ a / 4096 * 4096
bit_and_page a h =
    omega (arith, bit_and_shifted 12 a (2 ^ 20 - 1), bit_and_ones 20 (halves 12 a) (omega arith))

-- `|` of a number that ends in `k` zeros and one of `k` bits.
pub bit_or_fields : (k a b : ℕ) → b < 2 ^ k → bit_or (a * 2 ^ k) b ≡ a * 2 ^ k + b
bit_or_fields zero a b h =
    omega (arith, ap (bit_or (a * 1)) {x = b} {y = 0} (omega arith), bit_or_zero (a * 1))
bit_or_fields (suc k) a b h = omega (
  arith,
  bit_or_step (a * 2 ^ suc k) b,
  ap (λ n. bit_or n (b / 2)) half ∙ bit_or_fields k a (b / 2) (omega (arith, pow-suc 2 k)),
  ap (λ (t : ℕ). a * t) (pow-suc 2 k),
)
  where
    half : a * 2 ^ suc k / 2 ≡ a * 2 ^ k
    half = omega (arith, ap (λ (t : ℕ). a * t) (pow-suc 2 k))

pub low_step : (a m : ℕ) → bit_and a (m * 2 + 1) ≡ bit_and (a / 2) m * 2 + a % 2
low_step a m = omega (
  arith,
  bit_and_step a (m * 2 + 1),
  ap (bit_and (a / 2)) {x = (m * 2 + 1) / 2} {y = m} (omega arith),
)

-- The mask of an index in a page table.
pub bit_and_index : (a : ℕ) → bit_and a 0x03FF ≡ a % 1024
bit_and_index a = omega (
  arith,
  low_step a 0x1FF,
  low_step (a / 2) 0xFF,
  low_step (a / 2 / 2) 0x7F,
  low_step (a / 2 / 2 / 2) 0x3F,
  low_step (a / 2 / 2 / 2 / 2) 0x1F,
  low_step (a / 2 / 2 / 2 / 2 / 2) 0xF,
  low_step (a / 2 / 2 / 2 / 2 / 2 / 2) 7,
  low_step (a / 2 / 2 / 2 / 2 / 2 / 2 / 2) 3,
  low_step (a / 2 / 2 / 2 / 2 / 2 / 2 / 2 / 2) 1,
  low_step (a / 2 / 2 / 2 / 2 / 2 / 2 / 2 / 2 / 2) 0,
  bit_and_zero (a / 2 / 2 / 2 / 2 / 2 / 2 / 2 / 2 / 2 / 2),
)

-- The mask of an offset in a page.
pub bit_and_offset : (a : ℕ) → bit_and a 0xFFF ≡ a % 4096
bit_and_offset a = omega (
  arith,
  low_step a 0x7FF,
  low_step (a / 2) 0x3FF,
  low_step (a / 2 / 2) 0x1FF,
  low_step (a / 2 / 2 / 2) 0xFF,
  low_step (a / 2 / 2 / 2 / 2) 0x7F,
  low_step (a / 2 / 2 / 2 / 2 / 2) 0x3F,
  low_step (a / 2 / 2 / 2 / 2 / 2 / 2) 0x1F,
  low_step (a / 2 / 2 / 2 / 2 / 2 / 2 / 2) 0xF,
  low_step (a / 2 / 2 / 2 / 2 / 2 / 2 / 2 / 2) 7,
  low_step (a / 2 / 2 / 2 / 2 / 2 / 2 / 2 / 2 / 2) 3,
  low_step (a / 2 / 2 / 2 / 2 / 2 / 2 / 2 / 2 / 2 / 2) 1,
  low_step (a / 2 / 2 / 2 / 2 / 2 / 2 / 2 / 2 / 2 / 2 / 2) 0,
  bit_and_zero (a / 2 / 2 / 2 / 2 / 2 / 2 / 2 / 2 / 2 / 2 / 2 / 2),
)
