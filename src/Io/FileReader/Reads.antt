-- ===== src/Io/FileReader/Reads.antt =====
-- `read(size_t)`: a reader stands for a file of which a prefix is in memory and the rest is in the
-- stream, and reading a byte changes no more than how long that prefix is.
use lamb_os.Base.{
  ℕ, ◌+◌, ◌-◌, ◌*◌, ◌%◌, ◌^◌, ◌<◌, ◌≤◌, min, Bool, true, false, List, Option, none, some, ◌≡◌, refl,
  sym, ap, ◌∙◌, ◌⊎◌, inl, inr, Bool-cases, ◌&&◌, ltb, leb, ◌==◌, lt→ltb, ne→==, if◌then◌else◌,
  arith, length, get_or, get_elem?, drop, length-drop, get_or-drop, drop-drop, subst,
  get_elem?-eq-get_or, get_elem?-none,
}
use lamb_os.Base.Outcome.{done, ◌>>=◌, load_in}
use lamb_os.Util.DynamicArray.Loops.{resize_returns}
use lamb_os.Io.InputStream.{InputStream}
use lamb_os.Io.InputStream.Reads.{read_bytes_returns}
use lamb_os.Io.FileReader.{FileReader, mark_eof_reached, grown, new_size, fill, after_read, read}

module _ {S : Type 0} (input : InputStream S) (file : List ℕ) where
  -- The stream has the rest of the file, or there is no rest.
  abbrev pub Source : Option S → ℕ → Bool → Type 0
  Source stream extent eof =
      ((s : S) × (stream ≡ some s) × input.Holds s (drop extent file) × (eof ≡ false))
      ⊎ ((eof ≡ true) × (extent ≡ length file))

  pub record Views (r : FileReader S) : Type 0 where
    pub sized : length r.file_bytes.cells ≡ r.file_bytes.capacity
    pub within : r.file_extent ≤ r.file_bytes.capacity
    pub inside : r.file_extent ≤ length file
    pub cached : (i : ℕ) → i < r.file_extent → get_or r.file_bytes.cells i 0 ≡ get_or file i 0
    pub source : Source r.stream r.file_extent r.eof_reached

  -- The cache is as large as it was, or twice that since `offset` was behind its end.
  abbrev pub CapacityStep : FileReader S → ℕ → FileReader S → Type 0
  CapacityStep r offset r' =
      (r'.file_bytes.capacity ≡ r.file_bytes.capacity)
      ⊎ ((r.file_bytes.capacity ≤ offset) × (r'.file_bytes.capacity ≡ r.file_bytes.capacity * 2))

  pub grown_returns :
      (r : FileReader S) (offset : ℕ)
      → Views r
      → offset < r.file_bytes.capacity * 2
      → r.file_bytes.capacity * 2 < 2 ^ 32
      → (r' : FileReader S) × (grown r offset ≡ done r')
        × Views r'
        × (offset < r'.file_bytes.capacity)
        × (r'.file_extent ≡ r.file_extent)
        × (r'.stream ≡ r.stream)
        × (r'.eof_reached ≡ r.eof_reached)
        × CapacityStep r offset r'
  unfolding grown new_size
  grown_returns r offset v near small = elim (Bool-cases (leb r.file_bytes.capacity offset)) [
    | inr inside_cache ↦ (r, rw inside_cache refl, v, ground arith, refl, refl, refl, inl refl)
    | inl behind ↦
        let cap = r.file_bytes.capacity in
        let (a, e, at, len, kept) =
          resize_returns 0 r.file_bytes (cap * 2) 0 v.sized (omega arith) (omega arith) in
        (
          record r { file_bytes = a },
          rw (behind, mod-lt (cap * 2) small, lt→ltb offset (cap * 2) near, e) refl,
          record {
            sized = len ∙ sym at;
            within = omega (arith, v.within);
            inside = v.inside;
            cached = λ i h.
                ap (λ j. get_or a.cells j 0) {x = i} {y = 0 + i} (omega arith)
                ∙ kept i (omega (arith, v.within))
                ∙ v.cached i h;
            source = v.source;
          },
          omega arith,
          refl,
          refl,
          refl,
          inr (ground arith, at),
        )
  ]
    where
      mod-lt : (n : ℕ) → n < 2 ^ 32 → n % 2 ^ 32 ≡ n
      mod-lt n h = omega arith

  -- The reader is past `offset`, or the file ends before it.
  abbrev pub Reached : FileReader S → ℕ → Type 0
  Reached r offset = (offset < r.file_extent) ⊎ ((length file ≤ offset) × (r.eof_reached ≡ true))

  -- What a read of `got` bytes leaves in the cache.
  refilled :
      (cells block : List ℕ) (extent got : ℕ)
      → ((i : ℕ) → i < extent → get_or cells i 0 ≡ get_or file i 0)
      → ((i : ℕ)
          → get_or block i 0 ≡ (
              if leb extent i && ltb i (extent + got)
              then get_or (drop extent file) (i - extent) 0
              else get_or cells i 0))
      → (i : ℕ) → i < extent + got
      → get_or block i 0 ≡ get_or file i 0
  refilled cells block extent got old read_in i below = elim (Bool-cases (leb extent i)) [
    | inl fresh ↦ ground (
      arith,
      read_in i,
      get_or-drop extent file (i - extent) 0,
      ap (λ j. get_or file j 0) {x = extent + (i - extent)} {y = i} (ground arith),
    )
    | inr before ↦ ground (arith, read_in i, old i (ground arith))
  ]

  pub fill_returns :
      (r : FileReader S) (offset : ℕ) (s : S)
      → Views r
      → r.file_extent ≤ offset
      → offset < r.file_bytes.capacity
      → offset + 1 < 2 ^ 32
      → r.eof_reached ≡ false
      → input.Holds s (drop r.file_extent file)
      → (r' : FileReader S) × (fill input r offset (some s) ≡ done (get_elem? file offset, r'))
        × Views r'
        × (r'.file_bytes.capacity ≡ r.file_bytes.capacity)
        × Reached r' offset
  unfolding fill after_read mark_eof_reached
  fill_returns r offset s v ahead room small going h =
      let extent = r.file_extent in
      let rest = drop extent file in
      let expected = 1 + (offset - extent) in
      let got = min expected (length rest) in
      let (block, s', e, h', len, cells) =
        read_bytes_returns input expected r.file_bytes.cells extent 0 s rest h
          (omega (arith, v.sized)) in
      let known = refilled r.file_bytes.cells block extent got v.cached cells in
      let all_of_it = length-drop extent file in
      let after : Option S → Bool → FileReader S = λ stream eof. record {
        stream = stream;
        file_bytes = record r.file_bytes { cells = block };
        file_extent = extent + (0 + got);
        eof_reached = eof;
      } in
      let views : (stream : Option S) (eof : Bool)
          → Source stream (extent + (0 + got)) eof
          → Views (after stream eof) =
        λ stream eof source. record {
          sized = len ∙ v.sized;
          within = omega arith;
          inside = omega (arith, v.inside);
          cached = λ i below. known i (omega arith);
          source = source;
        } in
      elim (Bool-cases (ltb offset (length file))) [
        | inl found ↦ (
          after (some s') r.eof_reached,
          rw
              (
                no_wrap expected (omega arith),
                e,
                eq→== expected (0 + got) (ground arith),
                load_in block offset 0 (omega (arith, v.sized)),
                get_elem?-eq-get_or file offset 0 (ground arith),
                known offset (ground arith),
              )
              refl,
          views (some s') r.eof_reached (
              inl (
                s',
                refl,
                subst (input.Holds s')
                    (drop-drop expected extent file
                      ∙ ap (λ n. drop n file) {x = extent + expected} {y = extent + (0 + got)}
                          (ground arith))
                    h',
                going,
              )),
          refl,
          inl (ground arith),
        )
        | inr missing ↦ (
          after none true,
          rw
              (
                no_wrap expected (omega arith),
                e,
                ne→== expected (0 + got) (ground (arith, v.inside)),
                get_elem?-none file offset (ground arith),
              )
              refl,
          views none true (inr (refl, ground (arith, v.inside))),
          refl,
          inr (ground arith, refl),
        )
      ]
    where
      no_wrap : (n : ℕ) → n < 2 ^ 32 → n % 2 ^ 32 ≡ n
      no_wrap n h = omega arith

      eq→== : (a b : ℕ) → a ≡ b → (a == b) ≡ true
      eq→== a b h = ground arith

  pub grows :
      (r : FileReader S) (offset : ℕ)
      → leb r.file_extent offset ≡ true
      → r.eof_reached ≡ false
      → read input r offset ≡ (grown r offset >>= λ r'. fill input r' offset r'.stream)
  unfolding read
  grows r offset ahead going = rw (ahead, going) refl

  pub read_returns :
      (r : FileReader S) (offset : ℕ)
      → Views r
      → offset < r.file_bytes.capacity * 2
      → r.file_bytes.capacity * 2 < 2 ^ 32
      → (r' : FileReader S) × (read input r offset ≡ done (get_elem? file offset, r'))
        × Views r'
        × CapacityStep r offset r'
        × Reached r' offset
  unfolding read
  read_returns r offset v near small = elim (Bool-cases (leb r.file_extent offset)) [
    | inr here ↦ (
      r,
      rw
          (
            here,
            load_in r.file_bytes.cells offset 0 (ground (arith, v.sized, v.within)),
            get_elem?-eq-get_or file offset 0 (ground (arith, v.inside)),
            v.cached offset (ground arith),
          )
          refl,
      v,
      inl refl,
      inl (ground arith),
    )
    | inl ahead ↦ elim v.source [
      | inr (at_eof, all) ↦ (
        r,
        rw (ahead, at_eof, get_elem?-none file offset (ground arith)) refl,
        v,
        inl refl,
        inr (ground arith, at_eof),
      )
      | inl (s, has, h, going) ↦
          let (r₁, e₁, v₁, room, same_extent, same_stream, same_eof, step) =
            grown_returns r offset v near small in
          let (r₂, e₂, v₂, same_capacity, reached) =
            fill_returns r₁ offset s v₁ (ground arith) room (omega arith) (same_eof ∙ going)
              (subst (λ n. input.Holds s (drop n file)) (sym same_extent) h) in
          (
            r₂,
            rw (grows r offset ahead going, e₁, same_stream, has, e₂) refl,
            v₂,
            elim step [
              | inl same ↦ inl (same_capacity ∙ same)
              | inr (beyond, doubled) ↦ inr (beyond, same_capacity ∙ doubled)
            ],
            reached,
          )
    ]
  ]
