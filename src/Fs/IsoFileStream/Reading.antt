-- ===== src/Fs/IsoFileStream/Reading.antt =====
-- The stream over a file is an `InputStream`, and what marks do to it.
use lamb_os.Base.{
  ℕ, zero, suc, ◌+◌, ◌-◌, ◌<◌, ◌≤◌, List, [], ◌∷◌, none, some, ◌≡◌, refl, ap, ap₂, ◌⊎◌, inl, inr,
  Bool-cases, ltb, ◌∙◌, arith, length, get_or, length-append, get_or-append_left, ◌++◌, true, ◌==◌,
  ne→==,
}
use lamb_os.Base.Outcome.{done, load_in}
use lamb_os.Io.InputStream.{InputStream, skip}
use lamb_os.Fs.IsoFileStream.{IsoFileStream, open_stream, read, mark, reset}

-- The stream has `bytes` still to deliver.
pub record Holds (s : IsoFileStream) (bytes : List ℕ) : Type 0 where
  pub fits : s.file_size ≤ length s.buffer
  pub size : s.pos + length bytes ≡ s.file_size
  pub delivers : (i : ℕ) → i < length bytes → get_or s.buffer (s.pos + i) 0 ≡ get_or bytes i 0

pub read_end :
    (s : IsoFileStream)
    → Holds s []
    → (s' : IsoFileStream) × (read s ≡ done (none, s')) × Holds s' []
unfolding read
read_end s h = (s, rw at_end refl, h)
  where
    at_end : (s.pos == s.file_size) ≡ true
    at_end = ground (arith, h.size)

abbrev pub advanced : IsoFileStream → ℕ → IsoFileStream
advanced s n = record s { pos = s.pos + n; reads_until_invalid = s.reads_until_invalid - n }

reads :
    (s : IsoFileStream) (b : ℕ) (bytes : List ℕ)
    → Holds s (b ∷ bytes)
    → read s ≡ done (some b, advanced s 1)
unfolding read
reads s b bytes h =
    rw
      (
        ne→== s.pos s.file_size (omega (arith, h.size)),
        load_in s.buffer s.pos 0 (omega (arith, h.size, h.fits)),
        ap (λ j. get_or s.buffer j 0) {x = s.pos} {y = s.pos + 0} (omega arith)
            ∙ h.delivers 0 (omega arith),
      )
      refl

advanced-Holds :
    (s : IsoFileStream) (b : ℕ) (bytes : List ℕ) → Holds s (b ∷ bytes) → Holds (advanced s 1) bytes
advanced-Holds s b bytes h = record {
  fits = h.fits;
  size = omega (arith, h.size);
  delivers = λ i lt.
      ap (λ j. get_or s.buffer j 0) {x = s.pos + 1 + i} {y = s.pos + suc i} (omega arith)
      ∙ h.delivers (suc i) (omega arith);
}

pub read_next :
    (s : IsoFileStream) (b : ℕ) (bytes : List ℕ)
    → Holds s (b ∷ bytes)
    → (s' : IsoFileStream) × (read s ≡ done (some b, s')) × Holds s' bytes
read_next s b bytes h = (advanced s 1, reads s b bytes h, advanced-Holds s b bytes h)

abbrev pub iso_input : InputStream IsoFileStream
iso_input = record { read = read; Holds = Holds; read_end = read_end; read_next = read_next }

pub open_stream-Holds : (file rest : List ℕ) → Holds (open_stream (length file) (file ++ rest)) file
unfolding open_stream
open_stream-Holds file rest = record {
  fits = omega (arith, length-append file rest);
  size = omega arith;
  delivers = λ i lt.
      ap (λ j. get_or (file ++ rest) j 0) {x = 0 + i} {y = i} (omega arith)
      ∙ get_or-append_left file rest i 0 lt;
}

advanced-suc : (s : IsoFileStream) (n : ℕ) → advanced (advanced s 1) n ≡ advanced s (suc n)
advanced-suc s n =
    ap₂ (λ p k. record s { pos = p; reads_until_invalid = k }) {x = s.pos + 1 + n}
      {y = s.pos + suc n} (omega arith) (omega arith)

-- Bytes that are there are skipped one by one.
skip_advances :
    (n : ℕ) (s : IsoFileStream) (bytes : List ℕ) (count : ℕ)
    → Holds s bytes
    → n ≤ length bytes
    → skip iso_input n count s ≡ done (count + n, advanced s n)
unfolding skip
skip_advances zero s bytes count h le =
    ap₂ (λ c t. done (c, t)) {x = count} {y = count + 0} (omega arith)
      (ap₂ (λ p k. record s { pos = p; reads_until_invalid = k }) {x = s.pos} {y = s.pos + 0}
        (omega arith) (omega arith))
skip_advances (suc n) s [] count h le = absurd (omega arith)
skip_advances (suc n) s (b ∷ bytes) count h le = rw (reads s b bytes h) (
    skip_advances n (advanced s 1) bytes (count + 1) (advanced-Holds s b bytes h) (omega arith)
    ∙ ap₂ (λ c t. done (c, t)) {x = count + 1 + n} {y = count + suc n} (omega arith)
        (advanced-suc s n))

-- A mark for `limit` bytes holds until `limit` bytes were taken: after fewer, `reset` brings the
-- stream back to the marked byte, with the bytes that were left of the limit, and the stream has
-- again all the bytes it had; after that many, `reset` changes nothing.
pub mark-reset :
    (s : IsoFileStream) (bytes : List ℕ) (limit n : ℕ)
    → Holds s bytes
    → n ≤ length bytes
    → (s' : IsoFileStream) × (skip iso_input n 0 (mark s limit) ≡ done (n, s'))
      × (((n < limit) × (reset s' ≡ mark s (limit - n)) × Holds (reset s') bytes)
          ⊎ ((limit ≤ n) × (reset s' ≡ s')))
unfolding mark reset
mark-reset s bytes limit n h le = (
  advanced (mark s limit) n,
  skip_advances n (mark s limit) bytes 0
        (record { fits = h.fits; size = h.size; delivers = h.delivers }) le
      ∙ ap (λ c. done (c, advanced (mark s limit) n)) {x = 0 + n} {y = n} (omega arith),
  elim (Bool-cases (ltb n limit)) [
    | inl valid ↦ inl (
      ground arith,
      rw (ne→== (limit - n) 0 (ground arith)) refl,
      rw (ne→== (limit - n) 0 (ground arith))
          (record { fits = h.fits; size = h.size; delivers = h.delivers }),
    )
    | inr gone ↦ inr (ground arith, rw (eq→== (limit - n) 0 (ground arith)) refl)
  ],
)
  where
    eq→== : (a b : ℕ) → a ≡ b → (a == b) ≡ true
    eq→== a b e = ground arith
