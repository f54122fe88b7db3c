-- ===== src/Libc/Strings.antt =====
-- libc/include/bits/string-inl.h. A pointer into a block that nothing else of the call points into
-- is the list of the bytes from there to the end of the block; two pointers into one block are
-- indices of its bytes. `char` is signed, as it is on i386, and has 8 bits.
pub mod Comparing
pub mod Moving
mod Tests
use lamb_os.Base.{
  ℕ, zero, suc, ◌+◌, ◌-◌, ◌%◌, Bool, true, false, ◌&&◌, not, List, [], ◌∷◌, ◌==◌, ltb,
  if◌then◌else◌,
}
use lamb_os.Base.Outcome.{Outcome, done, fault, ◌>>=◌, load, store}

-- The results of type `int`.
pub data ℤ : Type 0 where
  pos : ℕ → ℤ
  negsuc : ℕ → ℤ

abbrev pub difference : ℕ → ℕ → ℤ
difference a b = if ltb a b then negsuc (b - a - 1) else pos (a - b)

-- `*str1 - *str2`: the signed value of a `char` is its byte, turned by half the range, less 128.
unfoldable pub char_difference : ℕ → ℕ → ℤ
char_difference c d = difference ((c + 128) % 256) ((d + 128) % 256)

unfoldable pub strlen : List ℕ → ℕ → Outcome ℕ
strlen [] ret = fault
strlen (c ∷ str) ret = let rest = strlen str (ret + 1) in if c == 0 then done ret else rest

unfoldable pub strcmp : List ℕ → List ℕ → Outcome ℤ
strcmp [] str2 = fault
strcmp (c ∷ str1) [] = fault
strcmp (c ∷ str1) (d ∷ str2) =
    let rest = strcmp str1 str2 in
    if not (c == 0) && not (d == 0) && c == d then rest else done (char_difference c d)

-- `*str1 - *str2` once the loop of `strncmp` ended.
abbrev pub head_difference : List ℕ → List ℕ → Outcome ℤ
head_difference [] str2 = fault
head_difference (c ∷ str1) [] = fault
head_difference (c ∷ str1) (d ∷ str2) = done (char_difference c d)

unfoldable pub strncmp : List ℕ → List ℕ → ℕ → Outcome ℤ
strncmp str1 str2 zero = head_difference str1 str2
strncmp [] str2 (suc num) = fault
strncmp (c ∷ str1) [] (suc num) = fault
strncmp (c ∷ str1) (d ∷ str2) (suc num) =
    let rest = strncmp str1 str2 num in
    if not (c == 0) && not (d == 0)
    then (if c == d then rest else head_difference str1 str2)
    else done (char_difference c d)

-- The bytes behind `dst` after the copy.
unfoldable pub strcpy : List ℕ → List ℕ → Outcome (List ℕ)
strcpy [] src = fault
strcpy (x ∷ dst) [] = fault
strcpy (x ∷ dst) (c ∷ src) =
    let rest = strcpy dst src in
    if c == 0 then done (c ∷ dst) else (rest >>= λ dst'. done (c ∷ dst'))

unfoldable pub strncpy : List ℕ → List ℕ → ℕ → Outcome (List ℕ)
strncpy dst src zero = done dst
strncpy [] src (suc num) = fault
strncpy (x ∷ dst) [] (suc num) = fault
strncpy (x ∷ dst) (c ∷ src) (suc num) =
    let rest = strncpy dst src num in
    if c == 0 then done (c ∷ dst) else (rest >>= λ dst'. done (c ∷ dst'))

-- for(; num--; *--c_dst = *--c_src), where the pointers are `num` behind `dst` and `src`.
unfoldable pub move_back : ℕ → ℕ → ℕ → List ℕ → Outcome (List ℕ)
move_back zero dst src block = done block
move_back (suc num) dst src block = load block (src + num) >>= λ b.
    store block (dst + num) b >>= λ block'. move_back num dst src block'

-- for(; num--; *c_dst++ = *c_src++)
unfoldable pub move_forth : ℕ → ℕ → ℕ → List ℕ → Outcome (List ℕ)
move_forth zero dst src block = done block
move_forth (suc num) dst src block = load block src >>= λ b.
    store block dst b >>= λ block'. move_forth num (dst + 1) (src + 1) block'

unfoldable pub memmove : List ℕ → ℕ → ℕ → ℕ → Outcome (List ℕ)
memmove block dst src num =
    if ltb src dst && ltb dst (src + num)
    then move_back num dst src block
    else move_forth num dst src block

unfoldable pub memcpy : List ℕ → ℕ → ℕ → ℕ → Outcome (List ℕ)
memcpy block dst src num = memmove block dst src num
