-- ===== src/Io/FileReader/Overruns.antt =====
-- What happens when a byte is asked for that lies far behind the cache.
use lamb_os.Base.{
  ℕ, zero, suc, ◌+◌, ◌-◌, ◌*◌, ◌%◌, ◌^◌, ◌<◌, ◌≤◌, ◌≡◌, refl, true, List, [], ◌∷◌, arith, length,
  set, drop, length-set, length-drop, inl, inr, le→ltb, leb, ltb, Bool-cases,
}
use lamb_os.Base.Outcome.{done, fault, store}
use lamb_os.Util.DynamicArray.Loops.{resize_returns}
use lamb_os.Io.InputStream.{InputStream, read_bytes}
use lamb_os.Io.FileReader.{FileReader, grown, new_size, fill, read}
use lamb_os.Io.FileReader.Reads.{Views, grows}

module _ {S : Type 0} (input : InputStream S) where
  read_bytes_overruns :
      (n : ℕ) (block : List ℕ) (p count : ℕ) (s : S) (rest : List ℕ)
      → input.Holds s rest
      → p ≤ length block
      → length block < p + n
      → length block < p + length rest
      → read_bytes input n block p count s ≡ fault
  unfolding read_bytes store
  read_bytes_overruns zero block p count s rest h inside beyond more = absurd (omega arith)
  read_bytes_overruns (suc n) block p count s [] h inside beyond more = absurd (omega arith)
  read_bytes_overruns (suc n) block p count s (b ∷ rest) h inside beyond more =
      let (s₁, e₁, h₁) = input.read_next s b rest h in
      elim (Bool-cases (ltb p (length block))) [
        | inr at_end ↦ rw (e₁, at_end) refl
        | inl room ↦
            rw (e₁, room)
              (read_bytes_overruns n (set block p b) (p + 1) (count + 1) s₁ rest h₁
                (ground (arith, length-set block p b)) (omega (arith, length-set block p b))
                (omega (arith, length-set block p b)))
      ]

module _ {S : Type 0} (input : InputStream S) (file : List ℕ) where
  grown_short :
      (r : FileReader S) (offset : ℕ)
      → Views input file r
      → 0 < r.file_bytes.capacity
      → r.file_bytes.capacity * 2 ≤ offset
      → r.file_bytes.capacity * 2 < 2 ^ 32
      → (r' : FileReader S) × (grown r offset ≡ done r')
        × (length r'.file_bytes.cells ≡ offset)
        × (r'.file_extent ≡ r.file_extent)
        × (r'.stream ≡ r.stream)
  unfolding grown new_size
  grown_short r offset v some_room far small =
      let (a, e, at, len, kept) =
        resize_returns 0 r.file_bytes offset 0 v.sized (omega arith) (omega arith) in
      (
        record r { file_bytes = a },
        rw
            (
              behind,
              no_wrap (r.file_bytes.capacity * 2) small,
              le→ltb offset (r.file_bytes.capacity * 2) far,
              e,
            )
            refl,
        len,
        refl,
        refl,
      )
    where
      behind : leb r.file_bytes.capacity offset ≡ true
      behind = ground arith

      no_wrap : (n : ℕ) → n < 2 ^ 32 → n % 2 ^ 32 ≡ n
      no_wrap n h = omega arith

  -- A reader whose cache is not empty and whose file goes on behind `offset` stores a byte behind the
  -- end of the cache when it is asked for that offset and the offset is at least twice the size of
  -- the cache.
  pub read_overruns :
      (r : FileReader S) (offset : ℕ)
      → Views input file r
      → 0 < r.file_bytes.capacity
      → r.file_bytes.capacity * 2 ≤ offset
      → offset < length file
      → offset + 1 < 2 ^ 32
      → read input r offset ≡ fault
  unfolding fill
  read_overruns r offset v some_room far inside small = elim v.source [
    | inr (at_eof, all) ↦ absurd (omega (arith, v.within))
    | inl (s, has, h, going) ↦
        let (r₁, e₁, size, same_extent, same_stream) =
          grown_short r offset v some_room far (omega arith) in
        rw
          (
            grows input file r offset ahead going,
            e₁,
            same_stream,
            has,
            same_extent,
            no_wrap (1 + (offset - r.file_extent)) (omega arith),
            read_bytes_overruns input (1 + (offset - r.file_extent)) r₁.file_bytes.cells
                r.file_extent 0 s (drop r.file_extent file) h (omega (arith, v.within))
                (omega (arith, v.within)) (omega (arith, length-drop r.file_extent file, v.inside)),
          )
          refl
  ]
    where
      ahead : leb r.file_extent offset ≡ true
      ahead = ground (arith, v.within)

      no_wrap : (n : ℕ) → n < 2 ^ 32 → n % 2 ^ 32 ≡ n
      no_wrap n h = omega arith
