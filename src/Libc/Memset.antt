-- ===== src/Libc/Memset.antt =====
-- libc/src/string/memset.cpp, which the kernel calls for words of 32 bits. The memory is a byte for
-- each address.
pub mod Filling
mod Tests
use lamb_os.Base.{ℕ, zero, suc, ◌+◌, ◌-◌, ◌*◌, ◌/◌, ◌%◌, ◌^◌, bit_and, bit_or, ◌==◌, if◌then◌else◌}

-- `*p = value`.
abbrev pub put : (ℕ → ℕ) → ℕ → ℕ → ℕ → ℕ
put mem p value a = if a == p % 2 ^ 32 then value else mem a

-- while (num--) { *ptr++ = value; }
pub memset_b_affix : ℕ → ℕ → ℕ → (ℕ → ℕ) → ℕ → ℕ
memset_b_affix zero p value mem = mem
memset_b_affix (suc num) p value mem = memset_b_affix num (p + 1) value (put mem p value)

-- A word is stored with its lowest byte first.
pub put_word : (ℕ → ℕ) → ℕ → ℕ → ℕ → ℕ
put_word mem p w =
    put (put (put (put mem p (w % 2 ^ 8)) (p + 1) (w / 2 ^ 8 % 2 ^ 8)) (p + 2) (w / 2 ^ 16 % 2 ^ 8))
      (p + 3) (w / 2 ^ 24 % 2 ^ 8)

-- while (words_num--) { *word_ptr++ = wvalue; }
pub put_words : ℕ → ℕ → ℕ → (ℕ → ℕ) → ℕ → ℕ
put_words zero p w mem = mem
put_words (suc words_num) p w mem = put_words words_num (p + 4) w (put_word mem p w)

pub word_value : ℕ → ℕ
word_value value = let v = bit_or value (value * 2 ^ 8 % 2 ^ 32) in bit_or v (v * 2 ^ 16 % 2 ^ 32)

pub memset : (ℕ → ℕ) → ℕ → ℕ → ℕ → ℕ → ℕ
memset mem p value num =
    let bvalue = bit_and value 0xFF in
    let head_sz = bit_and p 3 in
    let body_sz = (num + 2 ^ 32 - head_sz) % 2 ^ 32 in
    let tail_sz = bit_and body_sz 3 in
    let words_num = body_sz / 4 in
    let mem₁ = memset_b_affix head_sz p bvalue mem in
    let mem₂ = put_words words_num (p + head_sz) (word_value value) mem₁ in
    memset_b_affix tail_sz (p + head_sz + words_num * 4) bvalue mem₂
