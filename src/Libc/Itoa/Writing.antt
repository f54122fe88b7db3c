-- ===== src/Libc/Itoa/Writing.antt =====
-- What the functions write.
use lamb_os.Base.{
  ℕ, zero, suc, ◌+◌, ◌-◌, ◌/◌, ◌%◌, ◌^◌, ◌≤◌, ◌<◌, ◌≡◌, ◌≢◌, refl, sym, ap, ap₂, ◌∙◌, true, List,
  [], ◌∷◌, ◌++◌, ◌==◌, if◌then◌else◌, arith, length, length-append, set, take, drop, length-set,
  append_assoc, take-append-drop, ne→==,
}
use native.Mathlib.Decide.{ℕ_discrete}
use native.Mathlib.Nat.{mod-eq_of_lt, mod-lt}
use lamb_os.Base.Outcome.{done, store_in}
use lamb_os.Libc.Itoa.{count_digits, digit_char, write_digits, write_unsigned, clamp, uxtoa}
use lamb_os.Libc.Itoa.Digits.{
  digits, value_of, value_of-digits, count_digits_returns, length-digits, quotient_fits,
  rounds_left, some_digit,
}

-- A write at a place, for the part of the array before it and for the part from it on.
take-set_beyond : (n i c : ℕ) (buf : List ℕ) → n ≤ i → take n (set buf i c) ≡ take n buf
take-set_beyond zero i c buf h = refl
take-set_beyond (suc n) i c [] h = refl
take-set_beyond (suc n) zero c (x ∷ buf) h = absurd (omega arith)
take-set_beyond (suc n) (suc i) c (x ∷ buf) h =
    ap (λ t. x ∷ t) (take-set_beyond n i c buf (omega arith))

drop-set_self :
    (i c : ℕ) (buf : List ℕ) → i < length buf → drop i (set buf i c) ≡ c ∷ drop (suc i) buf
drop-set_self zero c [] h = absurd (omega arith)
drop-set_self zero c (x ∷ buf) h = refl
drop-set_self (suc i) c [] h = absurd (omega arith)
drop-set_self (suc i) c (x ∷ buf) h = drop-set_self i c buf (omega arith)

-- A text in the array from a place on.
abbrev overwrite : ℕ → List ℕ → List ℕ → List ℕ
overwrite str text buf = take str buf ++ (text ++ drop (str + length text) buf)

-- The character behind a text is written before the text is.
overwrite-set :
    (str c : ℕ) (text buf : List ℕ)
    → str + length text < length buf
    → overwrite str text (set buf (str + length text) c) ≡ overwrite str (text ++ (c ∷ [])) buf
overwrite-set str c text buf h =
    ap₂ (λ a b. a ++ (text ++ b)) (take-set_beyond str (str + length text) c buf (omega arith))
      (drop-set_self (str + length text) c buf h)
    ∙ ap (λ t. take str buf ++ t)
        (sym (append_assoc text (c ∷ []) (drop (suc (str + length text)) buf)))
    ∙ ap (λ k. take str buf ++ ((text ++ (c ∷ [])) ++ drop k buf)) {x = suc (str + length text)}
        {y = str + length (text ++ (c ∷ []))} (omega (arith, length-append text (c ∷ [])))

overwrite-nothing : (str : ℕ) (buf : List ℕ) → overwrite str [] buf ≡ buf
overwrite-nothing str buf =
    ap (λ k. take str buf ++ drop k buf) {x = str + 0} {y = str} (omega arith)
    ∙ take-append-drop str buf

byte_of_digit : (base v : ℕ) → 2 ≤ base → base ≤ 32 → v % base % 2 ^ 8 ≡ v % base
byte_of_digit base v lo hi =
    mod-eq_of_lt {n = v % base} {m = 2 ^ 8} (omega (arith, mod-lt v {m = base} (omega (arith, lo))))

-- One round of the second loop, which stores the last digit.
write_step :
    (n base v len str : ℕ) (buf : List ℕ)
    → 2 ≤ base
    → base ≤ 32
    → str + len < length buf
    → write_digits (suc n) base v (suc len) str buf ≡ (
        if v / base == 0
        then done (set buf (str + len) (digit_char (v % base)))
        else write_digits n base (v / base) len str (set buf (str + len) (digit_char (v % base))))
unfolding write_digits
write_step n base v len str buf lo hi room =
    rw (byte_of_digit base v lo hi, store_in buf (str + len) (digit_char (v % base)) room)

digits_last : (n base v : ℕ) → v / base ≡ 0 → digits (suc n) base v ≡ digit_char (v % base) ∷ []
digits_last n base v e = let test : (v / base == 0) ≡ true = ground (arith, e) in rw (test)

digits_more :
    (n base v : ℕ)
    → v / base ≢ 0
    → digits (suc n) base v ≡ digits n base (v / base) ++ (digit_char (v % base) ∷ [])
digits_more n base v ne = rw (ne→== (v / base) 0 ne)

write_digits_returns :
    (n base v len str : ℕ) (buf : List ℕ)
    → 2 ≤ base
    → base ≤ 32
    → 0 < n
    → v < 2 ^ n
    → suc len ≡ length (digits n base v)
    → str + suc len ≤ length buf
    → write_digits n base v (suc len) str buf ≡ done (overwrite str (digits n base v) buf)
write_digits_returns zero base v len str buf lo hi pos h e room = absurd (omega arith)
write_digits_returns (suc n) base v zero str buf lo hi pos h e room =
    elim (ℕ_discrete (v / base) 0) [
      | yes last ↦
          let test : (v / base == 0) ≡ true = ground (arith, last) in
          let d = digit_char (v % base) in
          write_step n base v 0 str buf lo hi (omega arith)
          ∙ rw (test) (
              ap done (
                sym (overwrite-nothing str (set buf (str + 0) d))
                ∙ overwrite-set str d [] buf (omega arith)))
      | no ne ↦ absurd (
          omega (
            arith,
            e,
            ap length (digits_more n base v ne),
            length-append (digits n base (v / base)) (digit_char (v % base) ∷ []),
            some_digit n base (v / base) (rounds_left n base v lo h ne),
          ))
    ]
write_digits_returns (suc n) base v (suc len) str buf lo hi pos h e room =
    elim (ℕ_discrete (v / base) 0) [
      | yes last ↦ absurd (omega (arith, e, ap length (digits_last n base v last)))
      | no ne ↦
          let d = digit_char (v % base) in
          let rest = digits n base (v / base) in
          let both = digits_more n base v ne in
          let count : suc len ≡ length rest =
            omega (arith, e, ap length both, length-append rest (d ∷ [])) in
          write_step n base v (suc len) str buf lo hi (omega arith)
          ∙ rw (ne→== (v / base) 0 ne) (
              write_digits_returns n base (v / base) len str (set buf (str + suc len) d) lo hi
                (rounds_left n base v lo h ne) (quotient_fits n base v lo h) count
                (omega (arith, length-set buf (str + suc len) d))
              ∙ ap (λ k. done (overwrite str rest (set buf (str + k) d))) count
              ∙ ap done (overwrite-set str d rest buf (omega arith)))
    ]

-- The text and the null character behind it.
abbrev pub written : ℕ → List ℕ → List ℕ → List ℕ
written str text buf = take str buf ++ (text ++ (0 ∷ drop (suc (str + length text)) buf))

pub write_unsigned_returns :
    (n base v str : ℕ) (buf : List ℕ)
    → 2 ≤ base
    → base ≤ 32
    → 0 < n
    → v < 2 ^ n
    → str + n < length buf
    → write_unsigned n base v str buf ≡ done (written str (digits n base v) buf)
unfolding write_unsigned
write_unsigned_returns n base v str buf lo hi pos h room =
    let text = digits n base v in
    let inside : str + length text < length buf = omega (arith, length-digits n base v) in
    let count : suc (length text - 1) ≡ length text = omega (arith, some_digit n base v pos) in
    let writes : write_digits n base v (length text) str (set buf (str + length text) 0)
        ≡ done (overwrite str text (set buf (str + length text) 0)) =
      ap (λ k. write_digits n base v k str (set buf (str + length text) 0)) (sym count)
      ∙ write_digits_returns n base v (length text - 1) str (set buf (str + length text) 0) lo hi
          pos h count (omega (arith, length-set buf (str + length text) 0)) in
    let counts : count_digits n base v 0 ≡ done (length text) =
      count_digits_returns n base v 0 lo pos h ∙ ap done (omega arith) in
    rw (counts, store_in buf (str + length text) 0 inside)
      (writes
        ∙ ap done (
            ap₂ (λ a b. a ++ (text ++ b))
              (take-set_beyond str (str + length text) 0 buf (omega arith))
              (drop-set_self (str + length text) 0 buf inside)))

pub clamp_low : (num : ℕ) → 2 ≤ clamp num 2 32
unfolding clamp
clamp_low num = ground arith

pub clamp_high : (num : ℕ) → clamp num 2 32 ≤ 32
unfolding clamp
clamp_high num = ground arith

-- The functions for unsigned integers of `w` bits, on an array of more than `w` places: the text of
-- the value in the base, clamped to 2 to 32, and a null character are written to the start of the
-- array, the rest of which stays. The text reads as the value.
pub uxtoa_lem :
    (w value base : ℕ) (buf : List ℕ)
    → 0 < w
    → value < 2 ^ w
    → w < length buf
    → (text : List ℕ) × (uxtoa w value base buf ≡ done (text ++ (0 ∷ drop (suc (length text)) buf)))
      × (value_of (clamp base 2 32) 0 text ≡ value)
      × (0 < length text)
unfolding uxtoa
uxtoa_lem w value base buf pos h room =
    let b = clamp base 2 32 in
    (
      digits w b value,
      write_unsigned_returns w b value 0 buf (clamp_low base) (clamp_high base) pos h (omega arith)
          ∙ ap (λ k. done (digits w b value ++ (0 ∷ drop k buf)))
              {x = suc (0 + length (digits w b value))} {y = suc (length (digits w b value))}
              (omega arith),
      value_of-digits w b value (clamp_low base) (clamp_high base) pos h,
      some_digit w b value pos,
    )
