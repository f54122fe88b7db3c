-- ===== src/Text/StringStorage.antt =====
-- The storage of a string: libsys/include/util/BasicString.hpp over DynamicArray. The block has a
-- place for the null character. `fresh` is what a new cell holds.
pub mod Growth
mod Tests
use lamb_os.Base.{
  ℕ, zero, suc, ◌+◌, ◌-◌, ◌*◌, ◌%◌, ◌^◌, Bool, true, false, List, [], ◌∷◌, Option, none, some, ◌==◌,
  leb, ltb, if◌then◌else◌,
}
use lamb_os.Base.Outcome.{Outcome, done, fault, ◌>>=◌, load, store}
use lamb_os.Util.DynamicArray.{DynamicArray, resize}

pub record StringStorage : Type 0 where
  pub array : DynamicArray ℕ
  pub size : ℕ

abbrev pub with_cells : DynamicArray ℕ → List ℕ → ℕ → StringStorage
with_cells a cells' size = record { array = record a { cells = cells' }; size = size }

-- for (i = ...; i < strlen; ++i) { _data[_size + i] = str[i]; }
pub copy_in : List ℕ → ℕ → List ℕ → Outcome (List ℕ)
copy_in [] i cells = done cells
copy_in (c ∷ str) i cells = do cells' ← store cells i c; copy_in str (i + 1) cells'

-- for (i = idx; i < _size; ++i) { _data[i] = _data[i + 1]; }, with `n` rounds to go.
pub close_gap : ℕ → ℕ → List ℕ → Outcome (List ℕ)
close_gap zero i cells = done cells
close_gap (suc n) i cells = do
  c ← load cells (i + 1)
  cells' ← store cells i c
  close_gap n (i + 1) cells'

pub remove_at : StringStorage → ℕ → Outcome (Bool × StringStorage)
remove_at s idx = if leb s.size idx then done (false, s) else (do
  cells₁ ← close_gap (s.size - 1 - idx) idx s.array.cells
  cells₂ ← store cells₁ (s.size - 1) 0
  done (true, with_cells s.array cells₂ (s.size - 1)))

-- The first place of a character, or SIZE_MAX, with `n` rounds to go.
pub find_char : ℕ → ℕ → ℕ → List ℕ → Outcome ℕ
find_char zero i object cells = done (2 ^ 32 - 1)
find_char (suc n) i object cells = do
  c ← load cells i
  (let later = find_char n (i + 1) object cells in if c == object then done i else later)

pub remove : StringStorage → ℕ → Outcome (Bool × StringStorage)
remove s object = do idx ← find_char s.size 0 object s.array.cells; remove_at s idx

pub clear : StringStorage → Outcome StringStorage
clear s = do cells' ← store s.array.cells 0 0; done (with_cells s.array cells' 0)

module _ (fresh : ℕ) where
  pub insert : StringStorage → ℕ → Outcome (Bool × StringStorage)
  insert s object = do
    a ←
        (let grown = resize fresh s.array 0 0 in
          if s.size == s.array.capacity then grown else done s.array)
    cells₁ ← store a.cells s.size object
    cells₂ ← store cells₁ (s.size + 1) 0
    done (true, with_cells a cells₂ (s.size + 1))

  -- `append` of the first `strlen` characters of a text; here the text has just those.
  pub append : StringStorage → List ℕ → ℕ → Outcome StringStorage
  append s str strlen =
      let required_size = (s.size + strlen + 1) % 2 ^ 32 in
      let new_size =
        (if ltb (s.array.capacity * 2 % 2 ^ 32) required_size then required_size else 0) in
      (do
        a ←
            (let grown = resize fresh s.array new_size 0 in
              if ltb s.array.capacity required_size then grown else done s.array)
        cells₁ ← copy_in str s.size a.cells
        cells₂ ← store cells₁ (s.size + strlen) 0
        done (with_cells a cells₂ (s.size + strlen)))
