-- ===== src/Base/Bits/Step.antt =====
-- `bit_and` and `bit_or` are computed natively, and mean a digit recursion that carries fuel.
-- Here each gets an equation that peels off the lowest digit and mentions no fuel.
use Prim.Native.Nat.{ℕ, zero, suc, ◌+◌, ◌-◌, ◌*◌, ◌/◌, ◌%◌, ◌≤◌, min, max}
use Prim.Native.Nat.{bit_and, bit_or, digits, bit_and-bitwise, bit_or-bitwise}
use mathlib.Core.Path.{◌≡◌, refl, ap, ◌∙◌}
use native.Mathlib.Omega.{arith}

-- Fuel beyond the number itself is never used up.
spare : (z : ℕ → ℕ) (f : ℕ → ℕ → ℕ) (n a b : ℕ) → a ≤ n → digits z f (suc n) a b ≡ digits z f n a b
spare z f zero zero b h = refl
spare z f zero (suc a) b h = elim h [ ]
spare z f (suc n) zero b h = refl
spare z f (suc n) (suc a) b h =
    ap (λ d. d * 2 + f (suc a % 2) (b % 2)) (spare z f n (suc a / 2) (b / 2) (omega arith))

burn :
    (z : ℕ → ℕ) (f : ℕ → ℕ → ℕ) (extra n m a b : ℕ)
    → a ≤ n
    → m ≡ n + extra
    → digits z f m a b ≡ digits z f n a b
burn z f zero n m a b h e = ap (λ k. digits z f k a b) (omega arith)
burn z f (suc extra) n m a b h e =
    burn z f extra (suc n) m a b (omega arith) (omega arith) ∙ spare z f n a b h

lowest :
    (z : ℕ → ℕ) (f : ℕ → ℕ → ℕ) (a b : ℕ)
    → digits z f a (suc a / 2) b ≡ digits z f (suc a / 2) (suc a / 2) b
lowest z f a b = burn z f (a - suc a / 2) (suc a / 2) a (suc a / 2) b (omega arith) (omega arith)

pub bit_and_step : (a b : ℕ) → bit_and a b ≡ bit_and (a / 2) (b / 2) * 2 + min (a % 2) (b % 2)
bit_and_step zero b = omega (arith, bit_and-bitwise 0 b, bit_and-bitwise 0 (b / 2))
bit_and_step (suc a) b = omega (
  arith,
  bit_and-bitwise (suc a) b,
  bit_and-bitwise (suc a / 2) (b / 2),
  lowest (λ _. 0) min a (b / 2),
)

pub bit_or_step : (a b : ℕ) → bit_or a b ≡ bit_or (a / 2) (b / 2) * 2 + max (a % 2) (b % 2)
bit_or_step zero b = omega (arith, bit_or-bitwise 0 b, bit_or-bitwise 0 (b / 2))
bit_or_step (suc a) b = omega (
  arith,
  bit_or-bitwise (suc a) b,
  bit_or-bitwise (suc a / 2) (b / 2),
  lowest (λ r. r) max a (b / 2),
)

no_digits : (n a : ℕ) → digits (λ _. 0) min n a 0 ≡ 0
no_digits zero a = refl
no_digits (suc n) zero = refl
no_digits (suc n) (suc a) = omega (arith, no_digits n (suc a / 2))

pub bit_and_zero : (a : ℕ) → bit_and a 0 ≡ 0
bit_and_zero a = bit_and-bitwise a 0 ∙ no_digits a a

same_digits : (n a : ℕ) → a ≤ n → digits (λ r. r) max n a 0 ≡ a
same_digits zero zero h = refl
same_digits zero (suc a) h = elim h [ ]
same_digits (suc n) zero h = refl
same_digits (suc n) (suc a) h = omega (arith, same_digits n (suc a / 2) (omega arith))

pub bit_or_zero : (a : ℕ) → bit_or a 0 ≡ a
bit_or_zero a = bit_or-bitwise a 0 ∙ same_digits a a (omega arith)
