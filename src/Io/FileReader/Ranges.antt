-- ===== src/Io/FileReader/Ranges.antt =====
-- `read(buf, offset, bytesToRead)`.
use lamb_os.Base.{
  some, ne→==, ℕ, zero, suc, ◌+◌, ◌-◌, ◌*◌, ◌%◌, ◌^◌, ◌<◌, ◌≤◌, min, false, List, ◌≡◌, refl, ap,
  ◌∙◌, inl, inr, Bool-cases, ◌&&◌, ltb, leb, ◌==◌, if◌then◌else◌, arith, length, set, length-set,
  get_or, get_or-set, get_or-set_ne,
}
use native.Mathlib.Decide.{ℕ_discrete}
use lamb_os.Base.Outcome.{done, load_in, store_in}
use lamb_os.Io.InputStream.{InputStream}
use lamb_os.Io.FileReader.{FileReader, read, copy_out, read_range}
use lamb_os.Io.FileReader.Reads.{Views, Reached, read_returns}

module _ {S : Type 0} (input : InputStream S) (file : List ℕ) where
  copy_out_returns :
      (n : ℕ) (r : FileReader S) (buf : List ℕ) (offset i count : ℕ)
      → Views input file r
      → offset ≤ i
      → i - offset + n ≤ length buf
      → (buf' : List ℕ) × (copy_out input n r buf offset i count
          ≡ done (count + min n (r.file_extent - i), buf'))
        × (length buf' ≡ length buf)
        × ((k : ℕ)
            → get_or buf' k 0 ≡ (
                if leb (i - offset) k && ltb k (i - offset + min n (r.file_extent - i))
                then get_or file (offset + k) 0
                else get_or buf k 0))
  unfolding copy_out
  copy_out_returns zero r buf offset i count v from room =
      (buf, ap (λ c. done (c, buf)) (omega arith), refl, λ k. ground arith)
  copy_out_returns (suc n) r buf offset i count v from room =
      elim (Bool-cases (leb r.file_extent i)) [
        | inl beyond ↦
            (buf, rw beyond (ap (λ c. done (c, buf)) (ground arith)), refl, λ k. ground arith)
        | inr there ↦
            let b = get_or r.file_bytes.cells i 0 in
            let buf₁ = set buf (i - offset) b in
            let (buf', e, len, cells) =
              copy_out_returns n r buf₁ offset (i + 1) (count + 1) v (omega arith)
                (omega (arith, length-set buf (i - offset) b)) in
            (
              buf',
              rw
                  (
                    there,
                    load_in r.file_bytes.cells i 0 (ground (arith, v.sized, v.within)),
                    store_in buf (i - offset) b (omega arith),
                    e,
                  )
                  (ap (λ c. done (c, buf')) (ground arith)),
              len ∙ length-set buf (i - offset) b,
              λ k. copied k (ground arith) (cells k),
            )
      ]
    where
      copied :
          (k : ℕ) {w : ℕ}
          → i < r.file_extent
          → w ≡ (
              if leb (i + 1 - offset) k && ltb k (i + 1 - offset + min n (r.file_extent - (i + 1)))
              then get_or file (offset + k) 0
              else get_or (set buf (i - offset) (get_or r.file_bytes.cells i 0)) k 0)
          → w ≡ (
              if leb (i - offset) k && ltb k (i - offset + min (suc n) (r.file_extent - i))
              then get_or file (offset + k) 0
              else get_or buf k 0)
      copied k below e = elim (ℕ_discrete (i - offset) k) [
        | yes here ↦ ground (
          arith,
          get_or-set buf (i - offset) k (get_or r.file_bytes.cells i 0) 0 (omega arith),
          v.cached i below,
          ap (λ j. get_or file j 0) {x = i} {y = offset + k} (omega arith),
        )
        | no ne ↦
            ground (arith, get_or-set_ne buf (i - offset) k (get_or r.file_bytes.cells i 0) 0 ne)
      ]

  -- How much of the file is in memory once `last` was read.
  extent_of :
      (r : FileReader S) (last : ℕ)
      → Views input file r
      → Reached input file r last
      → min (suc last) r.file_extent ≡ min (suc last) (length file)
  extent_of r last v (inl past) = omega (arith, v.inside)
  extent_of r last v (inr (short, at_eof)) = elim v.source [
    | inl (s, has, h, going) ↦ cc
    | inr (_, all) ↦ omega arith
  ]

  -- A read of a range that ends within twice the cache's size delivers as many bytes as the file
  -- has there, each the file's, touches no other byte of the buffer, and leaves a reader of the
  -- same file.
  pub read_range_lem :
      (r : FileReader S) (buf : List ℕ) (offset n : ℕ)
      → Views input file r
      → n ≤ length buf
      → offset + n ≤ r.file_bytes.capacity * 2
      → r.file_bytes.capacity * 2 < 2 ^ 32
      → (buf' : List ℕ) × (r' : FileReader S) × (read_range input r buf offset n
          ≡ done (min n (length file - offset), buf', r'))
        × Views input file r'
        × (length buf' ≡ length buf)
        × ((k : ℕ)
            → get_or buf' k 0 ≡ (
                if ltb k (min n (length file - offset))
                then get_or file (offset + k) 0
                else get_or buf k 0))
  unfolding read_range
  read_range_lem r buf offset zero v room near small =
      (buf, r, ap (λ c. done (c, buf, r)) (omega arith), v, refl, λ k. ground arith)
  read_range_lem r buf offset (suc n) v room near small =
      let last = offset + n in
      let (r', e, v', step, reached) = read_returns input file r last v (omega arith) small in
      let (buf', e', len, cells) =
        copy_out_returns (suc n) r' buf offset offset 0 v' (omega arith) (omega arith) in
      let same : 0 + min (suc n) (r'.file_extent - offset) ≡ min (suc n) (length file - offset) =
        omega (arith, extent_of r' last v' reached) in
      (
        buf',
        r',
        rw (some_bytes, ends, e, rounds, e') (ap (λ c. done (c, buf', r')) same),
        v',
        len,
        λ k. ground (arith, cells k, same),
      )
    where
      some_bytes : (suc n == 0) ≡ false
      some_bytes = ground arith

      ends : (offset + suc n - 1) % 2 ^ 32 ≡ offset + n
      ends = omega arith

      rounds : offset + n + 1 - offset ≡ suc n
      rounds = omega arith

  inside_returns :
      (r : FileReader S) (offset : ℕ)
      → Views input file r
      → offset < r.file_extent
      → read input r offset ≡ done (some (get_or r.file_bytes.cells offset 0), r)
  unfolding read
  inside_returns r offset v inside =
      rw
        (
          le→leb r.file_extent offset inside,
          load_in r.file_bytes.cells offset 0 (omega (arith, v.sized, v.within)),
        )
        refl
    where
      le→leb : (a b : ℕ) → b < a → leb a b ≡ false
      le→leb a b h = ground arith

  -- A read of a range that is in memory leaves the reader as it is.
  pub read_range_inside :
      (r : FileReader S) (buf : List ℕ) (offset n : ℕ)
      → Views input file r
      → n ≤ length buf
      → 0 < n
      → offset + n ≤ r.file_extent
      → offset + n < 2 ^ 32
      → (buf' : List ℕ) × (read_range input r buf offset n ≡ done (n, buf', r))
        × ((k : ℕ) → k < n → get_or buf' k 0 ≡ get_or file (offset + k) 0)
  unfolding read_range
  read_range_inside r buf offset n v room some_room inside small =
      let (buf', e, len, cells) =
        copy_out_returns n r buf offset offset 0 v (omega arith) (omega arith) in
      (
        buf',
        rw
            (
              ne→== n 0 (omega arith),
              ends,
              inside_returns r (offset + n - 1) v (omega arith),
              rounds,
              e,
            )
            (ap (λ c. done (c, buf', r)) (omega arith)),
        λ k lt. ground (arith, cells k),
      )
    where
      ends : (offset + n - 1) % 2 ^ 32 ≡ offset + n - 1
      ends = omega arith

      rounds : offset + n - 1 + 1 - offset ≡ n
      rounds = omega arith
