-- ===== src/Libc/Strings/Comparing.antt =====
-- `strlen`, `strcmp` and the copies on strings that end in a null character.
use lamb_os.Base.{
  ℕ, ◌+◌, ◌-◌, ◌%◌, ◌<◌, ◌≢◌, ◌↔◌, Bool, true, false, ◌&&◌, not, List, [], ◌∷◌, ◌++◌, ◌==◌, ltb,
  ◌≡◌, refl, ap, arith, length, all, inl, inr, Bool-cases, le→ltb, ap₂, tail, get_or,
}
use native.Mathlib.Decide.{ℕ_discrete}
use lamb_os.Base.Outcome.{done}
use lamb_os.Libc.Strings.{ℤ, pos, negsuc, difference, char_difference, strlen, strcmp}

-- Characters of a C string: bytes that are not null.
abbrev pub is_char : ℕ → Bool
is_char c = not (c == 0) && ltb c 256

abbrev pub IsText : List ℕ → Type 0
IsText s = all is_char s ≡ true

-- A string in memory, with whatever follows it there.
abbrev pub terminated : List ℕ → List ℕ → List ℕ
terminated s junk = s ++ (0 ∷ junk)

strlen_from :
    (s junk : List ℕ) (ret : ℕ) → IsText s → strlen (terminated s junk) ret ≡ done (ret + length s)
unfolding strlen
strlen_from [] junk ret h = ap done (omega arith)
strlen_from (c ∷ s) junk ret h =
    rw (nonzero, strlen_from s junk (ret + 1) (ground arith)) (ap done (omega arith))
  where
    nonzero : (c == 0) ≡ false
    nonzero = ground arith

char_difference_self : (c : ℕ) → char_difference c c ≡ pos 0
unfolding char_difference
char_difference_self c =
    rw (le→ltb ((c + 128) % 256) ((c + 128) % 256) (omega arith)) (ap pos (omega arith))

difference_zero : (a b : ℕ) → difference a b ≡ pos 0 → a ≡ b
difference_zero a b e = elim (Bool-cases (ltb a b)) [
  | inl below ↦ absurd (negsuc≢pos (b - a - 1) (rw below at e))
  | inr above ↦ ground (arith, pos_injective (a - b) (rw above at e))
]
  where
    negsuc≢pos : (n : ℕ) → negsuc n ≢ pos 0
    negsuc≢pos n h = cc

    pos_injective : (n : ℕ) → pos n ≡ pos 0 → n ≡ 0
    pos_injective n h = cc

char_difference_ne : (c d : ℕ) → c < 256 → d < 256 → c ≢ d → char_difference c d ≢ pos 0
unfolding char_difference
char_difference_ne c d hc hd ne e =
    ne (omega (arith, difference_zero ((c + 128) % 256) ((d + 128) % 256) e))

-- Whatever follows them in memory, `strcmp` of two strings returns, and it returns 0 exactly when
-- they are the same string.
pub strcmp_zero_iff :
    (s t junk junk' : List ℕ)
    → IsText s
    → IsText t
    → (z : ℤ) × (strcmp (terminated s junk) (terminated t junk') ≡ done z) × ((z ≡ pos 0) ↔ (s ≡ t))
unfolding strcmp
strcmp_zero_iff [] [] junk junk' hs ht =
    (pos 0, ap done (char_difference_self 0), (λ _. refl, λ _. refl))
strcmp_zero_iff [] (d ∷ t) junk junk' hs ht = (
  char_difference 0 d,
  refl,
  (λ e. absurd (char_difference_ne 0 d (omega arith) (ground arith) (ground arith) e), λ e. cc),
)
strcmp_zero_iff (c ∷ s) [] junk junk' hs ht = (
  char_difference c 0,
  ground arith,
  (λ e. absurd (char_difference_ne c 0 (ground arith) (omega arith) (ground arith) e), λ e. cc),
)
strcmp_zero_iff (c ∷ s) (d ∷ t) junk junk' hs ht = elim (ℕ_discrete c d) [
  | yes same ↦
      let (z, e, iff) = strcmp_zero_iff s t junk junk' (ground arith) (ground arith) in
      (z, ground (arith, e), (λ zero. ap₂ ◌∷◌ same (iff.0 zero), λ e'. iff.1 (ap tail e')))
  | no ne ↦ (
    char_difference c d,
    ground arith,
    (
      λ e. absurd (char_difference_ne c d (ground arith) (ground arith) ne e),
      λ e. absurd (ne (ap (λ xs. get_or xs 0 0) e)),
    ),
  )
]
