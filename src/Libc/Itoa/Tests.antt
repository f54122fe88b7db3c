-- ===== src/Libc/Itoa/Tests.antt =====
-- -5 as a signed byte in base 10, and as an unsigned one in base 16.
use lamb_os.Base.{ℕ, suc, ◌+◌, ◌<◌, ◌≡◌, List, ◌∷◌, ◌++◌, arith, length, drop, replicate}
use lamb_os.Base.Outcome.{done}
use lamb_os.Libc.Itoa.{clamp, xtoa, uxtoa}
use lamb_os.Libc.Itoa.Digits.{value_of}
use lamb_os.Libc.Itoa.Signed.{is_negative, sign_of, magnitude, xtoa_lem}
use lamb_os.Libc.Itoa.Writing.{uxtoa_lem}

abbrev blank : List ℕ
blank = replicate 10 7

xtoa_lem_example :
    (text : List ℕ) × (xtoa 8 251 10 blank
      ≡ done (
          sign_of (is_negative 8 251 10)
          ++ (text
              ++ (0 ∷ drop (suc (length (sign_of (is_negative 8 251 10)) + length text)) blank))))
    × (value_of (clamp 10 2 32) 0 text ≡ magnitude (is_negative 8 251 10) 8 251)
    × (0 < length text)
xtoa_lem_example = xtoa_lem 8 251 10 blank (omega arith) (omega arith) (omega arith)

uxtoa_lem_example :
    (text : List ℕ) × (uxtoa 8 251 16 blank ≡ done (text ++ (0 ∷ drop (suc (length text)) blank)))
    × (value_of (clamp 16 2 32) 0 text ≡ 251)
    × (0 < length text)
uxtoa_lem_example = uxtoa_lem 8 251 16 blank (omega arith) (omega arith) (omega arith)
