-- ===== src/Libc/Itoa/Signed.antt =====
-- What the functions for signed integers write.
use lamb_os.Base.{
  ℕ, suc, ◌+◌, ◌-◌, ◌/◌, ◌%◌, ◌^◌, ◌<◌, ◌≡◌, refl, ap, ap₂, ◌∙◌, Bool, true, false, not, ◌&&◌, List,
  [], ◌∷◌, ◌++◌, ◌==◌, ltb, if◌then◌else◌, arith, length, set, take, drop, length-set, ltb→le,
  Bool-cases, inl, inr,
}
use native.Mathlib.Nat.{pow-le-pow_right, mod-eq_of_lt}
use lamb_os.Base.Outcome.{Outcome, done, store_in}
use lamb_os.Libc.Itoa.{write_unsigned, write_signed, clamp, xtoa}
use lamb_os.Libc.Itoa.Digits.{digits, value_of, value_of-digits, some_digit}
use lamb_os.Libc.Itoa.Writing.{write_unsigned_returns, clamp_low, clamp_high}

-- A value of `w` bits is printed with a sign if the base is 10 and the value is negative.
abbrev pub is_negative : ℕ → ℕ → ℕ → Bool
is_negative w value base = clamp base 2 32 == 10 && not (ltb value (2 ^ w / 2))

abbrev pub sign_of : Bool → List ℕ
sign_of negative = if negative then b'-' ∷ [] else []

signed_positive :
    (w base value : ℕ) (buf : List ℕ)
    → ltb value (2 ^ w / 2) ≡ true
    → write_signed w base value 0 buf ≡ write_unsigned w base value 0 buf
unfolding write_signed
signed_positive w base value buf small = rw (small)

signed_negative :
    (w base value : ℕ) (buf : List ℕ)
    → ltb value (2 ^ w / 2) ≡ false
    → 0 < length buf
    → write_signed w base value 0 buf
      ≡ write_unsigned w base ((2 ^ w - value) % 2 ^ w) 1 (set buf 0 b'-')
unfolding write_signed
signed_negative w base value buf big room = rw (big, store_in buf 0 b'-' room)

first_set :
    (c k : ℕ) (buf : List ℕ)
    → 0 < length buf
    → (take 1 (set buf 0 c) ≡ c ∷ []) × (drop (suc k) (set buf 0 c) ≡ drop (suc k) buf)
first_set c k [] h = absurd (omega arith)
first_set c k (x ∷ buf) h = (refl, refl)

-- The number whose digits are written.
abbrev pub magnitude : Bool → ℕ → ℕ → ℕ
magnitude negative w value = if negative then 2 ^ w - value else value

abbrev Result : Outcome (List ℕ) → ℕ → ℕ → ℕ → List ℕ → Bool → Type 0
Result o w value base buf negative =
    (text : List ℕ) × (o
      ≡ done (
          sign_of negative
          ++ (text ++ (0 ∷ drop (suc (length (sign_of negative) + length text)) buf))))
    × (value_of (clamp base 2 32) 0 text ≡ magnitude negative w value)
    × (0 < length text)

without_sign :
    {o : Outcome (List ℕ)} (w value base : ℕ) (buf : List ℕ)
    → 0 < w
    → value < 2 ^ w
    → suc w < length buf
    → o ≡ write_unsigned w (clamp base 2 32) value 0 buf
    → Result o w value base buf false
without_sign w value base buf pos h room e =
    let b = clamp base 2 32 in
    (
      digits w b value,
      e
          ∙ write_unsigned_returns w b value 0 buf (clamp_low base) (clamp_high base) pos h
              (omega arith),
      value_of-digits w b value (clamp_low base) (clamp_high base) pos h,
      some_digit w b value pos,
    )

with_sign :
    {o : Outcome (List ℕ)} (w value base : ℕ) (buf : List ℕ)
    → 0 < w
    → value < 2 ^ w
    → suc w < length buf
    → ltb value (2 ^ w / 2) ≡ false
    → o ≡ write_unsigned w (clamp base 2 32) ((2 ^ w - value) % 2 ^ w) 1 (set buf 0 b'-')
    → Result o w value base buf true
with_sign w value base buf pos h room big e =
    let b = clamp base 2 32 in
    let m = 2 ^ w - value in
    let some : 0 < value = omega (
      arith,
      ltb→le value (2 ^ w / 2) big,
      pow-le-pow_right {n = 2} (omega arith) {i = 1} {j = w} pos,
    ) in
    let small : m < 2 ^ w = omega (arith, some, h) in
    let text = digits w b m in
    let (front, back) = first_set b'-' (1 + length text) buf (omega arith) in
    (
      text,
      e
          ∙ ap (λ v. write_unsigned w b v 1 (set buf 0 b'-'))
              (mod-eq_of_lt {n = m} {m = 2 ^ w} small)
          ∙ write_unsigned_returns w b m 1 (set buf 0 b'-') (clamp_low base) (clamp_high base) pos
              small (omega (arith, length-set buf 0 b'-'))
          ∙ ap done (ap₂ (λ x y. x ++ (text ++ (0 ∷ y))) front back),
      value_of-digits w b m (clamp_low base) (clamp_high base) pos small,
      some_digit w b m pos,
    )

-- The functions for signed integers of `w` bits, on an array of more than `w + 1` places. In base 10
-- a minus sign is written for a negative value; then the text of its magnitude, or, in another base,
-- of its bits, in the base clamped to 2 to 32, and a null character. The rest of the array stays.
pub xtoa_lem :
    (w value base : ℕ) (buf : List ℕ)
    → 0 < w
    → value < 2 ^ w
    → suc w < length buf
    → (text : List ℕ) × (xtoa w value base buf
        ≡ done (
            sign_of (is_negative w value base)
            ++ (text
                ++ (0
                    ∷ drop (suc (length (sign_of (is_negative w value base)) + length text)) buf))))
      × (value_of (clamp base 2 32) 0 text ≡ magnitude (is_negative w value base) w value)
      × (0 < length text)
unfolding xtoa
xtoa_lem w value base buf pos h room = elim (Bool-cases (clamp base 2 32 == 10)) [
  | inr other ↦ rw (other) (without_sign w value base buf pos h room refl)
  | inl ten ↦ elim (Bool-cases (ltb value (2 ^ w / 2))) [
    | inl small ↦
        rw (ten, small)
          (without_sign w value base buf pos h room
            (signed_positive w (clamp base 2 32) value buf small))
    | inr big ↦
        rw (ten, big)
          (with_sign w value base buf pos h room big
            (signed_negative w (clamp base 2 32) value buf big (omega arith)))
  ]
]
