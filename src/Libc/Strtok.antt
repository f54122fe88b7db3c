-- ===== src/Libc/Strtok.antt =====
-- libc/src/string/strtok.c. The string lies in a block of bytes, and pointers are indices of it. The
-- static pointer is passed from call to call; before the first call it is null, and a call that
-- leaves it so is not modelled.
pub mod Cutting
mod Tests
use lamb_os.Base.{
  ℕ, zero, suc, ◌+◌, ◌-◌, Bool, true, false, List, [], ◌∷◌, Option, none, some, ◌==◌, if◌then◌else◌,
  length,
}
use lamb_os.Base.Outcome.{Outcome, done, fault, ◌>>=◌, load, store}
use lamb_os.Text.StringTokenizer.{is_delim}

-- The loop over the delimiters in front of a token, with `n` places of the block to go.
unfoldable pub skip_from : List ℕ → ℕ → List ℕ → ℕ → Outcome ℕ
skip_from delim zero block s = fault
skip_from delim (suc n) block s = load block s >>= λ c.
    (if c == 0
      then done s
      else (if is_delim delim c then skip_from delim n block (s + 1) else done s))

-- The loop over the characters of a token.
unfoldable pub cut_from : List ℕ → ℕ → List ℕ → ℕ → Outcome (List ℕ × ℕ)
cut_from delim zero block s = fault
cut_from delim (suc n) block s = load block s >>= λ c.
    (if c == 0
      then done (block, s)
      else (if is_delim delim c
          then (store block s 0 >>= λ block'. done (block', s + 1))
          else cut_from delim n block (s + 1)))

unfoldable pub token_from : List ℕ → List ℕ → ℕ → Outcome (Option ℕ × List ℕ × ℕ)
token_from delim block s = load block s >>= λ c.
    (if c == 0
      then done (none, block, s)
      else (cut_from delim (length block - s) block s >>= λ x. done (some s, x.0, x.1)))

-- `str` is where the string starts, or null for the next token of the last one.
abbrev pub start_at : Option ℕ → ℕ → ℕ
start_at none s = s
start_at (some str) s = str

unfoldable pub strtok : List ℕ → List ℕ → ℕ → Option ℕ → Outcome (Option ℕ × List ℕ × ℕ)
strtok delim block s str =
    skip_from delim (length block - start_at str s) block (start_at str s) >>= λ s'.
    token_from delim block s'
