-- ===== src/Libc/Memset/Filling.antt =====
-- Which bytes are written.
use lamb_os.Base.{
  ℕ, zero, suc, ◌+◌, ◌-◌, ◌*◌, ◌/◌, ◌%◌, ◌^◌, ◌≤◌, ◌<◌, ◌≡◌, ◌⊎◌, inl, inr, ap, ◌∙◌, bit_and,
  bit_or, ◌&&◌, leb, ltb, if◌then◌else◌, arith,
}
use native.Mathlib.Decide.{dec_lt}
use lamb_os.Base.Masks.{bit_and_byte, bit_and_three, bit_or_above}
use lamb_os.Libc.Memset.{put, memset_b_affix, put_word, put_words, word_value, memset}

-- The memory with `n` bytes from `p` on set to a value.
abbrev pub filled : (ℕ → ℕ) → ℕ → ℕ → ℕ → ℕ → ℕ
filled mem p n value a = if leb p a && ltb a (p + n) then value else mem a

-- A byte at the front of a filled part.
filled_step :
    (mem : ℕ → ℕ) (p n value a : ℕ)
    → p < 2 ^ 32
    → filled (put mem p value) (p + 1) n value a ≡ filled mem p (suc n) value a
filled_step mem p n value a h = ground arith

b_affix_fills :
    (n p value a : ℕ) (mem : ℕ → ℕ)
    → p + n ≤ 2 ^ 32
    → memset_b_affix n p value mem a ≡ filled mem p n value a
unfolding memset_b_affix
b_affix_fills zero p value a mem h = ground arith
b_affix_fills (suc n) p value a mem h =
    b_affix_fills n (p + 1) value a (put mem p value) (omega arith)
    ∙ filled_step mem p n value a (omega arith)

b_affix_fills_four :
    (mem : ℕ → ℕ) (p v a : ℕ)
    → p + 4 ≤ 2 ^ 32
    → put (put (put (put mem p v) (p + 1) v) (p + 2) v) (p + 3) v a ≡ filled mem p 4 v a
b_affix_fills_four mem p v a h = ground arith

-- A word of four equal bytes.
word_fills :
    (mem : ℕ → ℕ) (p v a : ℕ)
    → v < 2 ^ 8
    → p + 4 ≤ 2 ^ 32
    → put_word mem p (v + (v * 2 ^ 8 + (v * 2 ^ 16 + v * 2 ^ 24))) a ≡ filled mem p 4 v a
unfolding put_word
word_fills mem p v a hv h =
    let w = v + (v * 2 ^ 8 + (v * 2 ^ 16 + v * 2 ^ 24)) in
    let b0 : w % 2 ^ 8 ≡ v = omega arith in
    let b1 : w / 2 ^ 8 % 2 ^ 8 ≡ v = omega arith in
    let b2 : w / 2 ^ 16 % 2 ^ 8 ≡ v = omega arith in
    let b3 : w / 2 ^ 24 % 2 ^ 8 ≡ v = omega arith in
    rw (b0, b1, b2, b3) (b_affix_fills_four mem p v a h)

filled_ext :
    (mem mem' : ℕ → ℕ) (p n v a : ℕ) → mem a ≡ mem' a → filled mem p n v a ≡ filled mem' p n v a
filled_ext mem mem' p n v a e = ap (λ t. if leb p a && ltb a (p + n) then v else t) e

filled_twice :
    (mem : ℕ → ℕ) (p m n v a : ℕ)
    → filled (filled mem p m v) (p + m) n v a ≡ filled mem p (m + n) v a
filled_twice mem p m n v a = ground arith

filled_append :
    (mem : ℕ → ℕ) (p m n q v a : ℕ)
    → q ≡ p + m
    → filled (filled mem p m v) q n v a ≡ filled mem p (m + n) v a
filled_append mem p m n q v a e =
    ap (λ k. filled (filled mem p m v) k n v a) e ∙ filled_twice mem p m n v a

words_fill :
    (n p v a : ℕ) (mem : ℕ → ℕ)
    → v < 2 ^ 8
    → p + n * 4 ≤ 2 ^ 32
    → put_words n p (v + (v * 2 ^ 8 + (v * 2 ^ 16 + v * 2 ^ 24))) mem a ≡ filled mem p (n * 4) v a
unfolding put_words
words_fill zero p v a mem hv h = ground arith
words_fill (suc n) p v a mem hv h =
    words_fill n (p + 4) v a (put_word mem p (v + (v * 2 ^ 8 + (v * 2 ^ 16 + v * 2 ^ 24)))) hv
      (omega arith)
    ∙ filled_ext (put_word mem p (v + (v * 2 ^ 8 + (v * 2 ^ 16 + v * 2 ^ 24)))) (filled mem p 4 v)
        (p + 4) (n * 4) v a (word_fills mem p v a hv (omega arith))
    ∙ filled_twice mem p 4 (n * 4) v a
    ∙ ap (λ k. filled mem p k v a) {x = 4 + n * 4} {y = suc n * 4} (omega arith)

word_value_byte : (v : ℕ) → v < 2 ^ 8 → word_value v ≡ v + (v * 2 ^ 8 + (v * 2 ^ 16 + v * 2 ^ 24))
unfolding word_value
word_value_byte v h =
    let shifted : v * 2 ^ 8 % 2 ^ 32 ≡ v * 2 ^ 8 = omega arith in
    let two : bit_or v (v * 2 ^ 8) ≡ v * 2 ^ 8 + v = bit_or_above 8 v v h in
    let shifted' : (v * 2 ^ 8 + v) * 2 ^ 16 % 2 ^ 32 ≡ (v * 2 ^ 8 + v) * 2 ^ 16 = omega arith in
    rw (shifted, two, shifted')
      (bit_or_above 16 (v * 2 ^ 8 + v) (v * 2 ^ 8 + v) (omega arith) ∙ omega arith)

-- What the middle loop leaves of a byte: what it was, or the value.
words_keep :
    (n p v a : ℕ) (mem : ℕ → ℕ)
    → v < 2 ^ 8
    → mem a ≡ v
    → put_words n p (v + (v * 2 ^ 8 + (v * 2 ^ 16 + v * 2 ^ 24))) mem a ≡ v
unfolding put_words put_word
words_keep zero p v a mem hv e = e
words_keep (suc n) p v a mem hv e =
    let w = v + (v * 2 ^ 8 + (v * 2 ^ 16 + v * 2 ^ 24)) in
    let b0 : w % 2 ^ 8 ≡ v = omega arith in
    let b1 : w / 2 ^ 8 % 2 ^ 8 ≡ v = omega arith in
    let b2 : w / 2 ^ 16 % 2 ^ 8 ≡ v = omega arith in
    let b3 : w / 2 ^ 24 % 2 ^ 8 ≡ v = omega arith in
    words_keep n (p + 4) v a (put_word mem p w) hv (rw (b0, b1, b2, b3) (ground (arith, e)))

b_affix_keeps : (n p v a : ℕ) (mem : ℕ → ℕ) → mem a ≡ v → memset_b_affix n p v mem a ≡ v
unfolding memset_b_affix
b_affix_keeps zero p v a mem e = e
b_affix_keeps (suc n) p v a mem e = b_affix_keeps n (p + 1) v a (put mem p v) (ground (arith, e))

b_affix_reaches :
    (num n p v : ℕ) (mem : ℕ → ℕ)
    → n < num
    → p + n < 2 ^ 32
    → memset_b_affix num p v mem (p + n) ≡ v
unfolding memset_b_affix
b_affix_reaches zero n p v mem h fits = absurd (omega arith)
b_affix_reaches (suc num) zero p v mem h fits =
    b_affix_keeps num (p + 1) v (p + 0) (put mem p v) (ground arith)
b_affix_reaches (suc num) (suc n) p v mem h fits =
    ap (memset_b_affix num (p + 1) v (put mem p v)) {x = p + suc n} {y = p + 1 + n} (omega arith)
    ∙ b_affix_reaches num n (p + 1) v (put mem p v) (omega arith) (omega arith)

-- The three loops one after the other.
parts :
    (mem : ℕ → ℕ) (p head words tail v a : ℕ)
    → v < 2 ^ 8
    → p + head + words * 4 + tail ≤ 2 ^ 32
    → memset_b_affix tail
        (p + head + words * 4)
        v
        (put_words words
          (p + head)
          (v + (v * 2 ^ 8 + (v * 2 ^ 16 + v * 2 ^ 24)))
          (memset_b_affix head p v mem))
        a
      ≡ filled mem p (head + words * 4 + tail) v a
parts mem p head words tail v a hv h =
    let w = v + (v * 2 ^ 8 + (v * 2 ^ 16 + v * 2 ^ 24)) in
    let mem₁ = memset_b_affix head p v mem in
    b_affix_fills tail (p + head + words * 4) v a (put_words words (p + head) w mem₁) h
    ∙ filled_ext (put_words words (p + head) w mem₁) (filled mem p (head + words * 4) v)
        (p + head + words * 4) tail v a
        (words_fill words (p + head) v a mem₁ hv (omega (arith, h))
          ∙ filled_ext mem₁ (filled mem p head v) (p + head) (words * 4) v a
              (b_affix_fills head p v a mem (omega (arith, h)))
          ∙ filled_twice mem p head (words * 4) v a)
    ∙ filled_append mem p (head + words * 4) tail (p + head + words * 4) v a (omega arith)

-- `memset` with a byte, where the bytes to set end below 2 ^ 32: if there are at
-- least as many to set as the address lies behind a multiple of four, exactly those are set. If
-- there are fewer, the byte behind them is set as well.
pub memset_lem :
    (mem : ℕ → ℕ) (p v n : ℕ)
    → v < 2 ^ 8
    → p + n < 2 ^ 32
    → ((p % 4 ≤ n) × ((a : ℕ) → memset mem p v n a ≡ filled mem p n v a))
      ⊎ ((n < p % 4) × (memset mem p v n (p + n) ≡ v))
unfolding memset
memset_lem mem p v n hv h =
    let byte : bit_and v 0xFF ≡ v = omega (arith, bit_and_byte v) in
    let word = word_value_byte v hv in
    elim (dec_lt n (p % 4)) [
      | no many ↦
          let body : (n + 2 ^ 32 - bit_and p 3) % 2 ^ 32 ≡ n - p % 4 =
            omega (arith, bit_and_three p) in
          let enough : p % 4 ≤ n = omega arith in
          inl (
            enough,
            λ a.
                rw (byte, word, body, bit_and_three p, bit_and_three (n - p % 4))
                  (parts mem p (p % 4) ((n - p % 4) / 4) ((n - p % 4) % 4) v a hv
                      (omega (arith, h, enough))
                    ∙ ap (λ k. filled mem p k v a)
                        {x = p % 4 + (n - p % 4) / 4 * 4 + (n - p % 4) % 4} {y = n}
                        (omega (arith, enough))),
          )
      | yes few ↦ inr (
        few,
        rw (byte, word, bit_and_three p)
            (b_affix_keeps _ _ v (p + n) _
              (words_keep _ _ v (p + n) _ hv (b_affix_reaches (p % 4) n p v mem few h))),
      )
    ]
