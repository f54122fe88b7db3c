-- ===== src/Text/Path/Laws.antt =====
-- What a path holds, and its extension.
use lamb_os.Base.{
  ℕ, ◌+◌, ◌^◌, ◌<◌, ◌≡◌, refl, true, false, List, [], ◌∷◌, ◌==◌, if◌then◌else◌, arith, length,
  ne→==, ◌||◌,
}
use lamb_os.Base.Outcome.{done, ◌>>=◌}
use lamb_os.Text.StringTokenizer.{init, is_delim}
use lamb_os.Text.StringTokenizer.Words.{words}
use lamb_os.Text.StringTokenizer.Tokens.{no_null, copied_lem, read_tokens_lem}
use lamb_os.Text.Path.{SysPath, delims, all_tokens, last_of, last_path_component, extension}

pub all_tokens-words :
    (fresh : ℕ → ℕ) (s ds : List ℕ)
    → no_null s ≡ true
    → no_null ds ≡ true
    → length s < 2 ^ 32
    → all_tokens fresh s ds ≡ done (words (is_delim ds) s)
unfolding init
all_tokens-words fresh s ds plain plain_delims small =
    rw (copied_lem fresh s plain, copied_lem fresh ds plain_delims)
      (read_tokens_lem fresh (length s + 1)
        (record { string = s; delimiters = ds; current_index = 0 }) (omega arith) small plain
        (omega arith))

-- The path that a text means.
abbrev pub path_of : List ℕ → SysPath
path_of [] = record { path_components = []; is_absolute = false; is_directory = false }
path_of (c ∷ cs) = record {
  path_components = words (is_delim delims) (c ∷ cs);
  is_absolute = c == b'/' || c == b'\\';
  is_directory = false;
}

last_token :
    (fresh : ℕ → ℕ) (s : List ℕ)
    → no_null s ≡ true
    → length s < 2 ^ 32
    → (if length s == 0
        then done []
        else (do tokens ← all_tokens fresh s (b'.' ∷ []); done (last_of tokens)))
      ≡ done (last_of (words (is_delim (b'.' ∷ [])) s))
unfolding last_of
last_token fresh [] plain small = refl
last_token fresh (c ∷ cs) plain small = rw (
  ne→== (length (c ∷ cs)) 0 (omega arith),
  all_tokens-words fresh (c ∷ cs) (b'.' ∷ []) plain refl small,
)

-- The extension of a path that is not marked as a directory, and whose last component has a
-- length that a `size_t` holds and no null character, is the last word between the dots of that component.
pub extension_lem :
    (fresh : ℕ → ℕ) (p : SysPath)
    → no_null (last_path_component p) ≡ true
    → p.is_directory ≡ false
    → length (last_path_component p) < 2 ^ 32
    → extension fresh p ≡ done (last_of (words (is_delim (b'.' ∷ [])) (last_path_component p)))
unfolding extension last_path_component
extension_lem fresh p plain file small =
    rw (file) (last_token fresh (last_of p.path_components) plain small)
