-- ===== src/Text/StringTokenizer.antt =====
-- libsys/include/util/StringTokenizer.hpp and libsys/src/util/StringTokenizer.cpp, with `substring`
-- and the copying constructor of libsys/include/util/BasicString.hpp. A string is the list of its
-- characters, of which the null character can be one. `fresh` is what a new block holds.
pub mod Words
pub mod Scan
pub mod Tokens
mod Tests
use lamb_os.Base.{
  ℕ, zero, suc, ◌+◌, ◌-◌, ◌%◌, ◌^◌, Bool, true, false, not, List, [], ◌∷◌, ◌==◌, ltb, if◌then◌else◌,
  length, take, drop,
}
use lamb_os.Base.Outcome.{Outcome, done, fault, ◌>>=◌, load}

pub record StringTokenizer : Type 0 where
  pub string : List ℕ
  pub delimiters : List ℕ
  pub current_index : ℕ

-- What `n` places of a new block hold, from a place on.
unfoldable pub indeterminate : (ℕ → ℕ) → ℕ → ℕ → List ℕ
indeterminate fresh i zero = []
indeterminate fresh i (suc n) = fresh i ∷ indeterminate fresh (i + 1) n

-- `BasicString(T const *str, size_t len)` over the `len` characters, from a place of the block on:
-- `strncpy` copies a null character and stops there.
unfoldable pub copied_from : (ℕ → ℕ) → ℕ → List ℕ → List ℕ
copied_from fresh i [] = []
copied_from fresh i (c ∷ cs) =
    if c == 0 then 0 ∷ indeterminate fresh (i + 1) (length cs) else c ∷ copied_from fresh (i + 1) cs

abbrev pub copied : (ℕ → ℕ) → List ℕ → List ℕ
copied fresh s = copied_from fresh 0 s

unfoldable pub init : (ℕ → ℕ) → List ℕ → List ℕ → StringTokenizer
init fresh str delimiters = record {
  string = copied fresh str;
  delimiters = copied fresh delimiters;
  current_index = 0;
}

unfoldable pub substring : (ℕ → ℕ) → List ℕ → ℕ → ℕ → List ℕ
substring fresh s start len =
    let start' = (if ltb (length s) start then length s else start) in
    let len' = (if ltb (length s - start') len then length s - start' else len) in
    copied fresh (take len' (drop start' s))

-- The inner loops over the delimiters.
unfoldable pub is_delim : List ℕ → ℕ → Bool
is_delim [] c = false
is_delim (d ∷ ds) c = if c == d then true else is_delim ds c

-- for (i = startIndex; i < size; ++i), with `n` rounds to go.
pub token_start_from : List ℕ → List ℕ → ℕ → ℕ → Outcome ℕ
token_start_from s delims zero i = done (length s)
token_start_from s delims (suc n) i = do
  c ← load s i
  (let later = token_start_from s delims n (i + 1) in if is_delim delims c then later else done i)

pub token_end_from : List ℕ → List ℕ → ℕ → ℕ → Outcome ℕ
token_end_from s delims zero i = done ((length s + 2 ^ 32 - 1) % 2 ^ 32)
token_end_from s delims (suc n) i = do
  c ← load s i
  (let later = token_end_from s delims n (i + 1) in
      if is_delim delims c then done ((i + 2 ^ 32 - 1) % 2 ^ 32) else later)

abbrev pub token_start : StringTokenizer → ℕ → Outcome ℕ
token_start t start_index =
    token_start_from t.string t.delimiters (length t.string - start_index) start_index

abbrev pub token_end : StringTokenizer → ℕ → Outcome ℕ
token_end t start_index =
    token_end_from t.string t.delimiters (length t.string - start_index) start_index

pub has_next_token : StringTokenizer → Outcome Bool
has_next_token t = do i ← token_start t t.current_index; done (not (i == length t.string))

pub next_token : (ℕ → ℕ) → StringTokenizer → Outcome (List ℕ × StringTokenizer)
next_token fresh t = do
  start ← token_start t t.current_index
  (if start == length t.string then done ([], record t { current_index = start }) else (do
    last ← token_end t start
    let end = (last + 1) % 2 ^ 32
    done (
      substring fresh t.string start ((end + 2 ^ 32 - start) % 2 ^ 32),
      record t { current_index = end },
    )))

unfoldable pub reset : StringTokenizer → List ℕ → StringTokenizer
reset t str = record t { string = str; current_index = 0 }

-- while (tokenizer.hasNextToken()) { enqueue(tokenizer.nextToken()); }, as the constructor of
-- `Path` runs it, for at most `n` rounds; `fault` stands for a loop that goes on after them.
pub read_tokens : (ℕ → ℕ) → ℕ → StringTokenizer → Outcome (List (List ℕ))
read_tokens fresh zero t = fault
read_tokens fresh (suc n) t = do
  more ← has_next_token t
  (if more
      then (do
        (token, t') ← next_token fresh t
        tokens ← read_tokens fresh n t'
        done (token ∷ tokens))
      else done [])
