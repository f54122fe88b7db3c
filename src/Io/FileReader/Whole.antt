-- ===== src/Io/FileReader/Whole.antt =====
-- `readAll()`, from the first byte to the end of the file.
use lamb_os.Base.{
  ℕ, zero, suc, ◌+◌, ◌*◌, ◌^◌, ◌<◌, ◌≤◌, true, List, some, ◌≡◌, refl, ◌⊎◌, inl, inr, Bool-cases,
  ltb, arith, length, length-replicate, get_elem?-eq-get_or, get_elem?-none,
}
use lamb_os.Base.Outcome.{done}
use lamb_os.Util.DynamicArray.{init}
use lamb_os.Io.InputStream.{InputStream}
use lamb_os.Io.FileReader.{FileReader, open_file, read_all}
use lamb_os.Io.FileReader.Reads.{Views, Reached, CapacityStep, read_returns}

module _ {S : Type 0} (input : InputStream S) (file : List ℕ) where
  -- The cache is not empty and not much larger than the file.
  pub Fitting : FileReader S → Type 0
  Fitting r =
      (0 < r.file_bytes.capacity)
      × ((r.file_bytes.capacity ≤ 512) ⊎ (r.file_bytes.capacity ≤ 2 * length file))

  CapacityStep-Fitting :
      (r : FileReader S) (i : ℕ) (r' : FileReader S)
      → Fitting r
      → i ≤ length file
      → CapacityStep input file r i r'
      → Fitting r'
  unfolding Fitting
  CapacityStep-Fitting r i r' (some_room, bound) at (inl same) =
      (omega arith, elim bound [ inl a ↦ inl (omega arith) | inr b ↦ inr (omega arith) ])
  CapacityStep-Fitting r i r' (some_room, bound) at (inr (full, doubled)) =
      (omega arith, inr (omega arith))

  small_cache :
      (r : FileReader S) → Fitting r → length file < 2 ^ 30 → r.file_bytes.capacity * 2 < 2 ^ 32
  unfolding Fitting
  small_cache r (some_room, inl a) h = omega arith
  small_cache r (some_room, inr b) h = omega arith

  ended :
      (r : FileReader S) (i : ℕ)
      → Views input file r
      → Reached input file r i
      → length file ≤ i
      → (r.file_extent ≡ length file) × (r.eof_reached ≡ true)
  ended r i v (inl past) h = absurd (omega (arith, v.inside))
  ended r i v (inr (short, at_eof)) h = elim v.source [
    | inl (s, has, held, going) ↦ cc
    | inr (_, all) ↦ (all, at_eof)
  ]

  read_all_from :
      (fuel : ℕ) (r : FileReader S) (i : ℕ)
      → Views input file r
      → Fitting r
      → i ≤ r.file_extent
      → length file < 2 ^ 30
      → length file < fuel + i
      → (r' : FileReader S) × (read_all input fuel r i ≡ done (some r'))
        × Views input file r'
        × (r'.file_extent ≡ length file)
        × (r'.eof_reached ≡ true)
  unfolding read_all Fitting
  read_all_from zero r i v fit at small enough = absurd (omega (arith, v.inside))
  read_all_from (suc fuel) r i v fit at small enough =
      let bound = small_cache r fit small in
      let (r₁, e, v₁, step, reached) =
        read_returns input file r i v (omega (arith, v.within, fit.0)) bound in
      elim (Bool-cases (ltb i (length file))) [
        | inr done_with ↦
            let (all, at_eof) = ended r₁ i v₁ reached (ground arith) in
            (r₁, rw (e, get_elem?-none file i (ground arith)) refl, v₁, all, at_eof)
        | inl more ↦
            let (r', e', v', all, at_eof) =
              read_all_from fuel r₁ (i + 1) v₁ (CapacityStep-Fitting r i r₁ fit (ground arith) step)
                (elim reached [ inl past ↦ omega arith | inr (short, _) ↦ absurd (ground arith) ])
                small (omega arith) in
            (r', rw (e, get_elem?-eq-get_or file i 0 (ground arith)) e', v', all, at_eof)
      ]

  pub open_file-Views : (s : S) → input.Holds s file → Views input file (open_file (some s))
  unfolding open_file init
  open_file-Views s h = record {
    sized = length-replicate {A = ℕ} 512 0;
    within = omega arith;
    inside = omega arith;
    cached = λ i below. absurd (omega arith);
    source = inl (s, refl, h, refl);
  }

  -- `readAll()` on the reader of a new stream ends, when the file is shorter than `2 ^ 30` bytes,
  -- after at most one round more than the file has bytes; the whole file is then in memory, its end
  -- was reached, and the reader still stands for the file.
  pub read_all_lem :
      (s : S) (fuel : ℕ)
      → input.Holds s file
      → length file < 2 ^ 30
      → length file < fuel
      → (r : FileReader S) × (read_all input fuel (open_file (some s)) 0 ≡ done (some r))
        × Views input file r
        × (r.file_extent ≡ length file)
        × (r.eof_reached ≡ true)
  unfolding open_file init Fitting
  read_all_lem s fuel h small enough =
      read_all_from fuel (open_file (some s)) 0 (open_file-Views s h)
        (omega arith, inl (omega arith)) (omega arith) small (omega arith)
