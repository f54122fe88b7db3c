-- ===== src/Fs/IsoDirectory.antt =====
-- The directories of kernel/src/fs/iso9660/DirectoryEntry.cpp: `find`, `fileStream` and
-- the names that `readdir` lists.
-- The drive is a parameter: how large a sector is, and what a read of some sectors stores. As for the
-- records, `none` says that the given rounds do not suffice.
pub mod Search
pub mod Walk
pub mod Files
mod Tests
use lamb_os.Base.{
  ℕ, zero, suc, ◌+◌, ◌-◌, ◌*◌, ◌/◌, ◌%◌, ◌^◌, Bool, true, false, ◌&&◌, not, List, [], ◌∷◌, ◌++◌,
  Option, none, some, ◌==◌, ltb, leb, if◌then◌else◌, length, take, drop,
}
use lamb_os.Base.Outcome.{Outcome, done, fault, ◌>>=◌, load, store}
use lamb_os.Libc.Strings.{ℤ, pos, negsuc, strcmp}
use lamb_os.Text.StringTokenizer.{StringTokenizer, init, next_token, has_next_token}
use lamb_os.Fs.IsoFileStream.{IsoFileStream, open_stream}
use lamb_os.Fs.IsoRecord.{EntryType, file, directory, DirectoryEntry, make_entry}

unfoldable pub sectors_to_read : ℕ → ℕ → ℕ
sectors_to_read bytes_to_read sector_size =
    bytes_to_read / sector_size + (if bytes_to_read % sector_size == 0 then 0 else 1)

-- `!strcmp(a, b)` of two strings that are followed by their null character.
abbrev pub is_zero : ℤ → Bool
is_zero z = elim z [ pos n ↦ n == 0 | negsuc n ↦ false ]

unfoldable pub same_name : List ℕ → List ℕ → Outcome Bool
same_name a b = strcmp (a ++ (0 ∷ [])) (b ++ (0 ∷ [])) >>= λ z. done (is_zero z)

-- What `find` does with the entry of a round.
abbrev pub on_entry {ℓ} :
    {A : Type ℓ}
    → Option DirectoryEntry
    → (DirectoryEntry → Outcome (Option A))
    → Outcome (Option A)
on_entry none f = done none
on_entry (some entry) f = f entry

-- The loop of `find` over the records of a directory; `bytesLeft` never changes.
unfoldable pub search : ℕ → List ℕ → ℕ → ℕ → List ℕ → Outcome (Option (Option DirectoryEntry))
search zero block bytes_left p elem = done none
search (suc rounds) block bytes_left p elem =
    if bytes_left == 0
    then done (some none)
    else (load block p >>= λ n.
        (if n == 0
          then done (some none)
          else (make_entry rounds block p >>= λ e. on_entry e (λ entry.
              same_name entry.name elem >>= λ same.
              (if same
                then done (some (some entry))
                else search rounds block bytes_left (p + n) elem)))))

unfoldable pub fix_entry_name : List ℕ → ℕ → ℕ → Outcome (List ℕ)
fix_entry_name block at n = do
  c ← load block (at + n - 2)
  block' ← (if c == b';' then store block (at + n - 2) 0 else done block)
  let n' = (if c == b';' then n - 2 else n)
  (if ltb 1 n'
      then (load block' (at + n' - 1) >>= λ d.
          (if d == b'.' then store block' (at + n' - 1) 0 else done block'))
      else done block')

-- `String(entry.name())`: the characters before the first null.
unfoldable pub before_null : List ℕ → List ℕ
before_null [] = []
before_null (c ∷ s) = if c == 0 then [] else c ∷ before_null s

-- The name that a record adds to the list.
unfoldable pub listed_name : ℕ → List ℕ → ℕ → Outcome (Option (List ℕ))
listed_name rounds block p = load block (p + 33) >>= λ c.
    (if c == 0
      then done (some (b'.' ∷ []))
      else (if c == 1
          then done (some (b'.' ∷ b'.' ∷ []))
          else (make_entry rounds block p >>= λ e.
              on_entry e (λ entry. done (some (before_null entry.name))))))

-- The entry that was found is the result when no token is left, and else where to go on.
unfoldable pub on_found :
    Option (Option DirectoryEntry)
    → StringTokenizer
    → (DirectoryEntry → StringTokenizer → Outcome (Option (Option DirectoryEntry)))
    → Outcome (Option (Option DirectoryEntry))
on_found none t descend = done none
on_found (some none) t descend = done (some none)
on_found (some (some e)) t descend =
    has_next_token t >>= λ more. (if more then descend e t else done (some (some e)))

module _ (sector_size : ℕ) (read_sectors : ℕ → ℕ → List ℕ) where
  unfoldable pub contents_of : DirectoryEntry → List ℕ
  contents_of entry =
      read_sectors entry.extent_lba (sectors_to_read entry.extent_length sector_size)

  -- `find(StringTokenizer &)`; `fresh` is what a new block of characters holds.
  unfoldable pub find_tokens :
      (ℕ → ℕ) → ℕ → DirectoryEntry → StringTokenizer → Outcome (Option (Option DirectoryEntry))
  find_tokens fresh zero entry tokenizer = done none
  find_tokens fresh (suc rounds) entry tokenizer = next_token fresh tokenizer >>= λ x.
      search rounds (contents_of entry) entry.extent_length 0 x.0 >>= λ found.
      on_found found x.1 (λ e t. find_tokens fresh rounds e t)

  -- `find(char const *)`: the tokenizer is made from a `String` of the characters before the null
  -- character.
  unfoldable pub find :
      (ℕ → ℕ) → ℕ → DirectoryEntry → List ℕ → Outcome (Option (Option DirectoryEntry))
  find fresh rounds entry path =
      find_tokens fresh rounds entry (init fresh (before_null path) (b'/' ∷ []))

  -- `nullptr` for a directory.
  unfoldable pub file_stream : DirectoryEntry → Option IsoFileStream
  file_stream entry = elim entry.entry_type [
    | directory ↦ none
    | _ ↦ some (open_stream entry.extent_length (contents_of entry))
  ]
