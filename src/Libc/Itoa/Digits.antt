-- ===== src/Libc/Itoa/Digits.antt =====
-- The digits of a number.
use native.Mathlib.Nat.{mul_comm, div-add-mod, div-lt_iff_lt-mul, mul-le-mul_left, pow-suc, mod-lt}
use native.Mathlib.Decide.{ℕ_discrete}
use lamb_os.Base.{
  ℕ, zero, suc, ◌+◌, ◌-◌, ◌*◌, ◌/◌, ◌%◌, ◌^◌, ◌≤◌, ◌<◌, ◌≡◌, ◌≢◌, refl, sym, ap, ◌∙◌, List, [], ◌∷◌,
  ◌++◌, ◌==◌, ltb, if◌then◌else◌, arith, length, length-append, ne→==, true,
}
use lamb_os.Base.Outcome.{done}
use lamb_os.Libc.Itoa.{count_digits, digit_char}

-- The text of a number below `2 ^ n`, in a base from 2.
abbrev pub digits : ℕ → ℕ → ℕ → List ℕ
digits zero base v = []
digits (suc n) base v =
    let more = digits n base (v / base) in
    if v / base == 0 then digit_char (v % base) ∷ [] else more ++ (digit_char (v % base) ∷ [])

-- The number that a text stands for.
abbrev pub digit_value : ℕ → ℕ
digit_value c = if ltb c b'A' then c - b'0' else c + 10 - b'A'

abbrev pub value_of : ℕ → ℕ → List ℕ → ℕ
value_of base acc [] = acc
value_of base acc (c ∷ cs) = value_of base (acc * base + digit_value c) cs

digit_value-digit_char : (m : ℕ) → m < 36 → digit_value (digit_char m) ≡ m
unfolding digit_char
digit_value-digit_char m h = ground arith

value_of-snoc :
    (base acc : ℕ) (cs : List ℕ) (c : ℕ)
    → value_of base acc (cs ++ (c ∷ [])) ≡ value_of base acc cs * base + digit_value c
value_of-snoc base acc [] c = refl
value_of-snoc base acc (d ∷ cs) c = value_of-snoc base (acc * base + digit_value d) cs c

-- A division by the base halves the bound at least.
pub quotient_fits : (n base v : ℕ) → 2 ≤ base → v < 2 ^ suc n → v / base < 2 ^ n
quotient_fits n base v hb h =
    (div-lt_iff_lt-mul {k = base} {x = v} {y = 2 ^ n} (omega (arith, hb))).1
      (omega (arith, h, pow-suc 2 n, mul-le-mul_left {m = 2} {n = base} (2 ^ n) hb))

pub rounds_left : (n base v : ℕ) → 2 ≤ base → v < 2 ^ suc n → v / base ≢ 0 → 0 < n
rounds_left zero base v hb h ne = absurd (ne (omega (arith, quotient_fits 0 base v hb h)))
rounds_left (suc n) base v hb h ne = omega arith

division : (base v : ℕ) → v / base * base + v % base ≡ v
division base v = omega (arith, div-add-mod v base, mul_comm (v / base) base)

last_digit : (base v : ℕ) → 2 ≤ base → base ≤ 32 → digit_value (digit_char (v % base)) ≡ v % base
last_digit base v lo hi =
    digit_value-digit_char (v % base) (omega (arith, mod-lt v {m = base} (omega (arith, lo))))

pub value_of-digits :
    (n base v : ℕ)
    → 2 ≤ base
    → base ≤ 32
    → 0 < n
    → v < 2 ^ n
    → value_of base 0 (digits n base v) ≡ v
value_of-digits zero base v lo hi pos h = absurd (omega (arith, pos))
value_of-digits (suc n) base v lo hi pos h = elim (ℕ_discrete (v / base) 0) [
  | yes e ↦
      let test : (v / base == 0) ≡ true = ground (arith, e) in
      rw (test) (
        ap (λ d. 0 * base + d) (last_digit base v lo hi)
        ∙ ap (λ q. q * base + v % base) (sym e)
        ∙ division base v)
  | no ne ↦
      rw
        (
          ne→== (v / base) 0 ne,
          value_of-snoc base 0 (digits n base (v / base)) (digit_char (v % base)),
          value_of-digits n base (v / base) lo hi (rounds_left n base v lo h ne)
              (quotient_fits n base v lo h),
          last_digit base v lo hi,
        )
        (division base v)
]

pub count_digits_returns :
    (n base v k : ℕ)
    → 2 ≤ base
    → 0 < n
    → v < 2 ^ n
    → count_digits n base v k ≡ done (k + length (digits n base v))
unfolding count_digits
count_digits_returns zero base v k lo pos h = absurd (omega (arith, pos))
count_digits_returns (suc n) base v k lo pos h = elim (ℕ_discrete (v / base) 0) [
  | yes e ↦ let test : (v / base == 0) ≡ true = ground (arith, e) in rw (test)
  | no ne ↦
      rw
        (
          ne→== (v / base) 0 ne,
          count_digits_returns n base (v / base) (k + 1) lo (rounds_left n base v lo h ne)
              (quotient_fits n base v lo h),
        )
        (ap done
          (omega (arith, length-append (digits n base (v / base)) (digit_char (v % base) ∷ []))))
]

pub length-digits : (n base v : ℕ) → length (digits n base v) ≤ n
length-digits zero base v = omega arith
length-digits (suc n) base v = elim (ℕ_discrete (v / base) 0) [
  | yes e ↦ let test : (v / base == 0) ≡ true = ground (arith, e) in rw (test) (omega arith)
  | no ne ↦ rw (ne→== (v / base) 0 ne) (
      omega (
        arith,
        length-digits n base (v / base),
        length-append (digits n base (v / base)) (digit_char (v % base) ∷ []),
      ))
]

-- There is at least one digit.
pub some_digit : (n base v : ℕ) → 0 < n → 0 < length (digits n base v)
some_digit zero base v h = absurd (omega arith)
some_digit (suc n) base v h = elim (ℕ_discrete (v / base) 0) [
  | yes e ↦ let test : (v / base == 0) ≡ true = ground (arith, e) in rw (test) (omega arith)
  | no ne ↦
      rw (ne→== (v / base) 0 ne)
        (omega (arith, length-append (digits n base (v / base)) (digit_char (v % base) ∷ [])))
]
