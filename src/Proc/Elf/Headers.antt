-- ===== src/Proc/Elf/Headers.antt =====
-- The segments that the program headers of a binary describe.
use lamb_os.Base.{
  ℕ, zero, suc, ◌+◌, ◌*◌, ◌^◌, ◌<◌, ◌≤◌, true, ◌&&◌, Bool, List, [], ◌∷◌, ◌≡◌, refl, ap, ◌∙◌, arith,
  length, get_or,
}
use lamb_os.Base.Outcome.{done}
use lamb_os.Io.InputStream.{InputStream}
use lamb_os.Io.FileReader.{FileReader}
use lamb_os.Io.FileReader.Reads.{Views}
use lamb_os.Io.FileReader.Ranges.{read_range_inside}
use lamb_os.Proc.Elf.{
  word_at, read_object, Segment, program_type, segment_of, is_known_type, load_program_segments,
}

-- The segment that the header at `o` of the file describes: words of four bytes, the lowest first.
abbrev pub segment_at : List ℕ → ℕ → Segment
segment_at file o = record {
  data_at = word_at file (o + 4);
  vaddress = word_at file (o + 8);
  alignment = word_at file (o + 28);
  data_size = word_at file (o + 16);
  memory_size = word_at file (o + 20);
}

abbrev pub segments_at : List ℕ → ℕ → ℕ → List Segment
segments_at file zero o = []
segments_at file (suc n) o = segment_at file o ∷ segments_at file n (o + 32)

abbrev pub all_known : List ℕ → ℕ → ℕ → Bool
all_known file zero o = true
all_known file (suc n) o = is_known_type (word_at file o) && all_known file n (o + 32)

pub word_moved :
    (file buf : List ℕ) (o k : ℕ)
    → k + 4 ≤ 32
    → ((j : ℕ) → j < 32 → get_or buf j 0 ≡ get_or file (o + j) 0)
    → word_at buf k ≡ word_at file (o + k)
word_moved file buf o k h same =
    rw
      (
        same k (omega arith),
        same (k + 1) (omega arith),
        same (k + 2) (omega arith),
        same (k + 2 + 1) (omega arith),
        shift 1,
        shift 2,
        far,
      )
      refl
  where
    shift : (j : ℕ) → o + (k + j) ≡ o + k + j
    shift j = omega arith

    far : o + (k + 2 + 1) ≡ o + k + 2 + 1
    far = omega arith

module _ {S : Type 0} (input : InputStream S) (file : List ℕ) where
  -- When the program headers lie in the part of the file that is in memory and are all of a known
  -- type, the loader makes the segments that they describe, in order, and leaves the reader as it is.
  pub load_program_segments_lem :
      (n : ℕ) (r : FileReader S) (object : List ℕ) (o : ℕ)
      → Views input file r
      → 32 ≤ length object
      → o + n * 32 ≤ r.file_extent
      → r.file_extent < 2 ^ 32
      → all_known file n o ≡ true
      → load_program_segments input n r object o ≡ done (segments_at file n o, r)
  unfolding load_program_segments read_object program_type segment_of
  load_program_segments_lem zero r object o v room inside small known = refl
  load_program_segments_lem (suc n) r object o v room inside small known =
      let (buf, e, same) =
        read_range_inside input file r object o 32 v room (omega arith) (omega arith)
          (omega arith) in
      let later =
        load_program_segments_lem n r object (o + 32) v room (omega arith) small (ground arith) in
      let type_ok : is_known_type (word_at file o) ≡ true = ground arith in
      rw
        (
          e,
          word_moved file buf o 0 (omega arith) same
              ∙ ap (word_at file) {x = o + 0} {y = o} (omega arith),
          type_ok,
          later,
          word_moved file buf o 4 (omega arith) same,
          word_moved file buf o 8 (omega arith) same,
          word_moved file buf o 16 (omega arith) same,
          word_moved file buf o 20 (omega arith) same,
          word_moved file buf o 28 (omega arith) same,
        )
        refl
