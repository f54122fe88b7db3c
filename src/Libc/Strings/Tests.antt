-- ===== src/Libc/Strings/Tests.antt =====
-- The string functions on concrete strings.
use lamb_os.Base.{ℕ, List, [], ◌∷◌, ◌≡◌, refl, ◌↔◌, arith}
use lamb_os.Base.Outcome.{done}
use lamb_os.Libc.Strings.{ℤ, pos, negsuc, char_difference, strcmp, strncmp, strncpy, memmove}
use lamb_os.Libc.Strings.Comparing.{terminated, strcmp_zero_iff}
use lamb_os.Libc.Strings.Moving.{IsMoved, memmove_lem}

abbrev ab : List ℕ
ab = b'a' ∷ b'b' ∷ []

abbrev just_a : List ℕ
just_a = b'a' ∷ []

strcmp_zero_iff_example :
    (z : ℤ) × (strcmp (terminated ab (7 ∷ [])) (terminated just_a []) ≡ done z)
    × ((z ≡ pos 0) ↔ (ab ≡ just_a))
strcmp_zero_iff_example = strcmp_zero_iff ab just_a (7 ∷ []) [] refl refl

memmove_lem_example :
    (block' : List ℕ) × (memmove (1 ∷ 2 ∷ 3 ∷ 4 ∷ 5 ∷ []) 1 0 4 ≡ done block')
    × IsMoved (1 ∷ 2 ∷ 3 ∷ 4 ∷ 5 ∷ []) 1 0 4 block'
memmove_lem_example = memmove_lem (1 ∷ 2 ∷ 3 ∷ 4 ∷ 5 ∷ []) 1 0 4 (omega arith) (omega arith)

-- "ax" and "bx" differ, but what is compared is what follows the difference.
strncmp_equal : strncmp (b'a' ∷ b'x' ∷ 0 ∷ []) (b'b' ∷ b'x' ∷ 0 ∷ []) 2 ≡ done (pos 0)
unfolding strncmp char_difference
strncmp_equal = refl

-- The first two characters of "abc" and "abd" are the same, but the third is compared, too.
strncmp_beyond :
    strncmp (b'a' ∷ b'b' ∷ b'c' ∷ 0 ∷ []) (b'a' ∷ b'b' ∷ b'd' ∷ 0 ∷ []) 2 ≡ done (negsuc 0)
unfolding strncmp char_difference
strncmp_beyond = refl

-- Behind the null character nothing is padded.
strncpy_short : strncpy (7 ∷ 7 ∷ 7 ∷ 7 ∷ []) (b'a' ∷ 0 ∷ []) 4 ≡ done (b'a' ∷ 0 ∷ 7 ∷ 7 ∷ [])
unfolding strncpy
strncpy_short = refl
