-- ===== src/Io/FileReader/Tests.antt =====
-- The reader on a stream that is the list of its bytes.
use lamb_os.Base.{
  ℕ, ◌+◌, ◌-◌, min, List, [], ◌∷◌, Option, none, some, false, inl, ◌≡◌, refl, ap, ltb,
  if◌then◌else◌, arith, length, get_or,
}
use lamb_os.Base.Outcome.{Outcome, done, fault}
use lamb_os.Io.InputStream.{InputStream}
use lamb_os.Io.FileReader.{FileReader, open_file, read, read_range}
use lamb_os.Io.FileReader.Reads.{Views}
use lamb_os.Io.FileReader.Ranges.{read_range_lem}
use lamb_os.Io.FileReader.Overruns.{read_overruns}
use lamb_os.Io.FileReader.Whole.{open_file-Views}

abbrev take_byte : List ℕ → Outcome (Option ℕ × List ℕ)
take_byte [] = done (none, [])
take_byte (b ∷ bytes) = done (some b, bytes)

abbrev list_input : InputStream (List ℕ)
list_input = record {
  read = take_byte;
  Holds = λ s bytes. s ≡ bytes;
  read_end = λ s h. ([], ap take_byte h, refl);
  read_next = λ s b bytes h. (bytes, ap take_byte h, refl);
}

abbrev five : List ℕ
five = 10 ∷ 11 ∷ 12 ∷ 13 ∷ 14 ∷ []

-- Four bytes from the fourth on: there are two.
read_range_lem_example :
    (buf' : List ℕ) × (r' : FileReader (List ℕ)) × (read_range list_input
        (open_file (some five))
        (0 ∷ 0 ∷ 0 ∷ 0 ∷ [])
        3
        4
      ≡ done (min 4 (length five - 3), buf', r'))
    × Views list_input five r'
    × (length buf' ≡ 4)
    × ((k : ℕ)
        → get_or buf' k 0 ≡ (
            if ltb k (min 4 (length five - 3))
            then get_or five (3 + k) 0
            else get_or (0 ∷ 0 ∷ 0 ∷ 0 ∷ []) k 0))
unfolding open_file lamb_os.Util.DynamicArray.init
read_range_lem_example =
    read_range_lem list_input five (open_file (some five)) (0 ∷ 0 ∷ 0 ∷ 0 ∷ []) 3 4
      (open_file-Views list_input five five refl) (omega arith) (omega arith) (omega arith)

-- A cache of two cells, and the fifth byte.
abbrev small_cache : FileReader (List ℕ)
small_cache = record {
  stream = some five;
  file_bytes = record { capacity = 2; cells = 0 ∷ 0 ∷ [] };
  file_extent = 0;
  eof_reached = false;
}

small_cache-Views : Views list_input five small_cache
small_cache-Views = record {
  sized = refl;
  within = omega arith;
  inside = omega arith;
  cached = λ i below. absurd (omega arith);
  source = inl (five, refl, refl, refl);
}

read_overruns_example : read list_input small_cache 4 ≡ fault
read_overruns_example =
    read_overruns list_input five small_cache 4 small_cache-Views (omega arith) (omega arith)
      (omega arith) (omega arith)
