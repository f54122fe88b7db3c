-- ===== src/Proc/Elf/Images.antt =====
-- Which files `isElf` accepts.
use lamb_os.Base.{
  ℕ, ◌+◌, ◌-◌, ◌*◌, ◌^◌, ◌<◌, ◌≤◌, min, Bool, true, false, ◌&&◌, ◌||◌, List, some, ◌==◌, ltb, leb,
  ◌≡◌, refl, ap, arith, length, all, get_or, get_or-all, inl, inr, Bool-cases, ltb→lt,
}
use native.Mathlib.Decide.{ℕ_discrete}
use lamb_os.Base.Outcome.{done}
use lamb_os.Util.DynamicArray.{init}
use lamb_os.Io.InputStream.{InputStream}
use lamb_os.Io.FileReader.{open_file}
use lamb_os.Io.FileReader.Ranges.{read_range_lem}
use lamb_os.Io.FileReader.Whole.{open_file-Views}
use lamb_os.Fs.IsoRecord.{file}
use lamb_os.Proc.Elf.{header_of, check_magic, check_header, read_object, is_elf}

-- The bytes of a 32-bit little-endian binary for x86, of the current version, that is relocatable or
-- executable.
abbrev pub elf_bytes : (ℕ → ℕ) → Bool
elf_bytes at =
    (at 0 == 0x7F && (at 1 == b'E' && (at 2 == b'L' && at 3 == b'F')))
    && (at 4 == 1
        && (at 5 == 1
            && ((at 18 == 3 && at 19 == 0)
                && ((at 20 == 1 && (at 21 == 0 && (at 22 == 0 && at 23 == 0)))
                    && ((at 16 == 1 || at 16 == 2) && at 17 == 0)))))

abbrev pub elf_image : List ℕ → Bool
elf_image bytes = leb 52 (length bytes) && elf_bytes (λ k. get_or bytes k 0)

byte_lt : (bytes : List ℕ) (k : ℕ) → all (λ c. ltb c 256) bytes ≡ true → get_or bytes k 0 < 256
byte_lt bytes k h = ltb→lt (get_or bytes k 0) 256 (get_or-all (λ c. ltb c 256) bytes k 0 h refl)

half_eq : (a b v : ℕ) → a < 256 → v < 256 → (a + b * 2 ^ 8 == v) ≡ (a == v && b == 0)
half_eq a b v ha hv = elim (ℕ_discrete b 0) [ yes e ↦ ground arith | no ne ↦ ground arith ]

type_eq :
    (a b : ℕ)
    → a < 256
    → (a + b * 2 ^ 8 == 1 || a + b * 2 ^ 8 == 2) ≡ ((a == 1 || a == 2) && b == 0)
type_eq a b ha = elim (ℕ_discrete b 0) [ yes e ↦ ground arith | no ne ↦ ground arith ]

word_eq :
    (a b c d : ℕ)
    → a < 256
    → b < 256
    → (a + b * 2 ^ 8 + (c + d * 2 ^ 8) * 2 ^ 16 == 1) ≡ (a == 1 && (b == 0 && (c == 0 && d == 0)))
word_eq a b c d ha hb = elim (ℕ_discrete (c + d * 2 ^ 8) 0) [
  | yes e ↦ ground arith
  | no ne ↦ ground arith
]

header_checked :
    (bytes : List ℕ)
    → all (λ c. ltb c 256) bytes ≡ true
    → check_header (header_of bytes) ≡ elf_bytes (λ k. get_or bytes k 0)
unfolding check_header header_of check_magic
header_checked bytes h =
    rw
      (
        half_eq (get_or bytes 18 0) (get_or bytes 19 0) 3 (byte_lt bytes 18 h) (omega arith),
        type_eq (get_or bytes 16 0) (get_or bytes 17 0) (byte_lt bytes 16 h),
        word_eq (get_or bytes 20 0) (get_or bytes 21 0) (get_or bytes 22 0) (get_or bytes 23 0)
            (byte_lt bytes 20 h) (byte_lt bytes 21 h),
      )
      refl

-- The header is in the first bytes.
header_same :
    (xs ys : List ℕ)
    → ((k : ℕ) → k < 52 → get_or xs k 0 ≡ get_or ys k 0)
    → header_of xs ≡ header_of ys
unfolding header_of
header_same xs ys h =
    rw
      (
        h 0 (omega arith),
        h 1 (omega arith),
        h 2 (omega arith),
        h 3 (omega arith),
        h 4 (omega arith),
        h 5 (omega arith),
        h 16 (omega arith),
        h 17 (omega arith),
        h 18 (omega arith),
        h 19 (omega arith),
        h 20 (omega arith),
        h 21 (omega arith),
        h 22 (omega arith),
        h 23 (omega arith),
      )
      refl

module _ {S : Type 0} (input : InputStream S) where
  -- On the stream of a file whose bytes are bytes, `isElf` returns, and tells whether the file is
  -- such a binary.
  pub is_elf_lem :
      (object : List ℕ) (s : S) (bytes : List ℕ)
      → 52 ≤ length object
      → input.Holds s bytes
      → all (λ c. ltb c 256) bytes ≡ true
      → is_elf input object file (some s) ≡ done (elf_image bytes)
  unfolding is_elf read_object open_file init
  is_elf_lem object s bytes room h small =
      let (buf, r, e, v, len, cells) =
        read_range_lem input bytes (open_file (some s)) object 0 52
          (open_file-Views input bytes s h) room (omega arith) (omega arith) in
      elim (Bool-cases (leb 52 (length bytes))) [
        | inl long ↦
            let all_read : min 52 (length bytes - 0) ≡ 52 = ground arith in
            rw
              (
                e,
                all_read,
                long,
                header_same buf bytes (λ k lt.
                    ground (
                      arith,
                      cells k,
                      ap (λ j. get_or bytes j 0) {x = 0 + k} {y = k} (omega arith),
                    )),
                header_checked bytes small,
              )
              refl
        | inr short ↦
            let cut : (min 52 (length bytes - 0) == 52) ≡ false = ground arith in
            rw (e, cut, short) refl
      ]
