-- ===== src/Text/Path.antt =====
-- libsys/include/fs/Path.hpp and libsys/src/fs/Path.cpp. `_pathComponents`, an `ArrayList`, is the
-- list of its contents; `fresh` is what a new block of characters holds.
pub mod Laws
mod Tests
use lamb_os.Base.{
  ℕ, suc, ◌+◌, Bool, true, false, not, List, [], ◌∷◌, ◌++◌, ◌==◌, if◌then◌else◌, length, get_or,
}
use lamb_os.Base.Outcome.{Outcome, done, ◌>>=◌}
use lamb_os.Text.StringTokenizer.{init, is_delim, read_tokens}

pub record SysPath : Type 0 where
  pub path_components : List (List ℕ)
  pub is_absolute : Bool
  pub is_directory : Bool

-- The array also holds the null character behind the literal, which the test on the first
-- character reads and the string for the tokenizer does not hold.
abbrev pub delims : List ℕ
delims = b'/' ∷ b'\\' ∷ []

unfoldable pub is_absolute_path : List ℕ → Bool
is_absolute_path str = is_delim (b'/' ∷ b'\\' ∷ 0 ∷ []) (get_or str 0 0)

-- `tokens` are at most as many as characters.
module _ (fresh : ℕ → ℕ) where
  abbrev pub all_tokens : List ℕ → List ℕ → Outcome (List (List ℕ))
  all_tokens str delimiters = read_tokens fresh (length str + 1) (init fresh str delimiters)

  -- The constructor, from the characters before the null character.
  pub parse : List ℕ → Outcome SysPath
  parse str =
      if length str == 0
      then done (record { path_components = []; is_absolute = false; is_directory = false })
      else (do
        tokens ← all_tokens str delims
        done (record {
          path_components = tokens;
          is_absolute = is_absolute_path str;
          is_directory = false;
        }))

-- `peekBack`, with the empty string where there is no component.
pub last_of : List (List ℕ) → List ℕ
last_of [] = []
last_of (c ∷ []) = c
last_of (c ∷ d ∷ cs) = last_of (d ∷ cs)

unfoldable pub last_path_component : SysPath → List ℕ
last_path_component p = last_of p.path_components

module _ (fresh : ℕ → ℕ) where
  pub extension : SysPath → Outcome (List ℕ)
  extension p =
      if p.is_directory
      then done []
      else (let s = last_path_component p in
          if length s == 0
          then done []
          else (do tokens ← all_tokens fresh s (b'.' ∷ []); done (last_of tokens)))
