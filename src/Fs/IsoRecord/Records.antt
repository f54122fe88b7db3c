-- ===== src/Fs/IsoRecord/Records.antt =====
-- A directory record as ISO 9660 lays it out, and what the constructor of `DirectoryEntry` makes of
-- it.
use lamb_os.Base.{
  ℕ, ◌+◌, ◌-◌, ◌*◌, ◌/◌, ◌%◌, ◌^◌, ◌<◌, List, [], ◌∷◌, ◌++◌, some, ◌≡◌, refl, sym, ap, ◌∙◌, arith,
  ◌==◌, if◌then◌else◌, length, drop, length-append, drop-drop, inl, inr, Bool-cases, append_assoc,
}
use lamb_os.Base.Outcome.{done, load}
use lamb_os.Fs.IsoRecord.{
  load_word, slice, susp_start, susp_length, DirectoryEntry, entry_type_of, make_entry,
}
use lamb_os.Fs.IsoRecord.Names.{
  SystemUseEntry, area_bytes, area_name, IsArea, load-drop, load_here, slice-drop, slice_middle,
  drop_front, renamed, area_found,
}

-- What a record says; `unread` holds the bytes that the file system does not read, by their place.
pub record DirectoryRecord : Type 0 where
  pub extent_lba : ℕ
  pub extent_length : ℕ
  pub flags : ℕ
  pub name : List ℕ
  pub area : List SystemUseEntry
  pub unread : ℕ → ℕ

-- Behind a name of even length stands one byte more.
abbrev pub padding : DirectoryRecord → List ℕ
padding r = if length r.name % 2 == 0 then r.unread 33 ∷ [] else []

abbrev pub tail_bytes : DirectoryRecord → List ℕ
tail_bytes r = r.name ++ (padding r ++ area_bytes r.area)

abbrev pub byte_of : ℕ → ℕ → ℕ
byte_of k w = w / 2 ^ (8 * k) % 256

abbrev pub record_length : DirectoryRecord → ℕ
record_length r = 33 + length (tail_bytes r)

-- The part of fixed length: numbers of four bytes stand in both orders.
abbrev pub header_bytes : DirectoryRecord → List ℕ
header_bytes r =
    let a = r.extent_lba in
    let n = r.extent_length in
    record_length r
    ∷ r.unread 1
    ∷ byte_of 0 a
    ∷ byte_of 1 a
    ∷ byte_of 2 a
    ∷ byte_of 3 a
    ∷ byte_of 3 a
    ∷ byte_of 2 a
    ∷ byte_of 1 a
    ∷ byte_of 0 a
    ∷ byte_of 0 n
    ∷ byte_of 1 n
    ∷ byte_of 2 n
    ∷ byte_of 3 n
    ∷ byte_of 3 n
    ∷ byte_of 2 n
    ∷ byte_of 1 n
    ∷ byte_of 0 n
    ∷ r.unread 18
    ∷ r.unread 19
    ∷ r.unread 20
    ∷ r.unread 21
    ∷ r.unread 22
    ∷ r.unread 23
    ∷ r.unread 24
    ∷ r.flags
    ∷ r.unread 26
    ∷ r.unread 27
    ∷ r.unread 28
    ∷ r.unread 29
    ∷ r.unread 30
    ∷ r.unread 31
    ∷ length r.name
    ∷ []

abbrev pub record_bytes : DirectoryRecord → List ℕ
record_bytes r = header_bytes r ++ tail_bytes r

-- The entry that a record describes: its Rock Ridge name counts when it has one.
abbrev pub described : DirectoryRecord → DirectoryEntry
described r =
    renamed
      (record {
        entry_type = entry_type_of r.flags;
        name = r.name;
        extent_lba = r.extent_lba;
        extent_length = r.extent_length;
      })
      (area_name r.area)

pub record IsRecord (r : DirectoryRecord) : Type 0 where
  pub lba_fits : r.extent_lba < 2 ^ 32
  pub length_fits : r.extent_length < 2 ^ 32
  pub plain : IsArea r.area

word_bytes :
    (w : ℕ)
    → w < 2 ^ 32
    → byte_of 0 w + byte_of 1 w * 2 ^ 8 + byte_of 2 w * 2 ^ 16 + byte_of 3 w * 2 ^ 24 ≡ w
word_bytes w h = omega arith

word_at :
    (block : List ℕ) (p k w : ℕ) (xs : List ℕ)
    → drop p block ≡ xs
    → w < 2 ^ 32
    → load xs k ≡ done (byte_of 0 w)
    → load xs (k + 1) ≡ done (byte_of 1 w)
    → load xs (k + 2) ≡ done (byte_of 2 w)
    → load xs (k + 3) ≡ done (byte_of 3 w)
    → load_word block (p + k) ≡ done w
unfolding load_word
word_at block p k w xs at h e₀ e₁ e₂ e₃ =
    rw (at_byte k ∙ e₀, later 1 ∙ e₁, later 2 ∙ e₂, later 3 ∙ e₃) (ap done (word_bytes w h))
  where
    at_byte : (j : ℕ) → load block (p + j) ≡ load xs j
    at_byte j = load-drop block p j ∙ ap (λ s. load s j) at

    later : (j : ℕ) → load block (p + k + j) ≡ load xs (k + j)
    later j = ap (load block) {x = p + k + j} {y = p + (k + j)} (omega arith) ∙ at_byte (k + j)

-- The fields that the constructor loads.
pub fields :
    (r : DirectoryRecord) (block rest : List ℕ) (p : ℕ)
    → IsRecord r
    → drop p block ≡ record_bytes r ++ rest
    → (load block (p + 25) ≡ done r.flags)
      × (load block (p + 32) ≡ done (length r.name))
      × (load_word block (p + 2) ≡ done r.extent_lba)
      × (load_word block (p + 10) ≡ done r.extent_length)
      × (load block p ≡ done (record_length r))
unfolding load
fields r block rest p ok at = (
  load-drop block p 25 ∙ ap (λ s. load s 25) at,
  load-drop block p 32 ∙ ap (λ s. load s 32) at,
  word_at block p 2 r.extent_lba (record_bytes r ++ rest) at ok.lba_fits refl refl refl refl,
  word_at block p 10 r.extent_length (record_bytes r ++ rest) at ok.length_fits refl refl refl refl,
  load_here block p ∙ ap (λ s. load s 0) at,
)

name_at :
    (r : DirectoryRecord) (block rest : List ℕ) (p : ℕ)
    → drop p block ≡ record_bytes r ++ rest
    → slice block (p + 33) (length r.name) ≡ done r.name
name_at r block rest p at =
    slice-drop block p 33 (length r.name) (omega arith)
    ∙ ap (λ s. slice s 33 (length r.name))
        (at
          ∙ append_assoc (header_bytes r) (tail_bytes r) rest
          ∙ ap (λ t. header_bytes r ++ t)
              (append_assoc r.name (padding r ++ area_bytes r.area) rest))
    ∙ slice_middle (header_bytes r) r.name ((padding r ++ area_bytes r.area) ++ rest)

-- Where the constructor looks for the area, and how long it takes it to be.
susp_place :
    (r : DirectoryRecord)
    → (susp_start (length r.name) ≡ length (header_bytes r ++ (r.name ++ padding r)))
      × (susp_length (record_length r) (length r.name) ≡ length (area_bytes r.area))
unfolding susp_start susp_length
susp_place r = (start, length_left)
  where
    pad : length (padding r) ≡ (if length r.name % 2 == 0 then 1 else 0)
    pad = elim (Bool-cases (length r.name % 2 == 0)) [ inl e ↦ rw e refl | inr e ↦ rw e refl ]

    start :
        33 + length r.name + (if length r.name % 2 == 0 then 1 else 0)
        ≡ length (header_bytes r ++ (r.name ++ padding r))
    start = omega (
      arith,
      pad,
      length-append (header_bytes r) (r.name ++ padding r),
      length-append r.name (padding r),
    )

    length_left :
        record_length r - (33 + length r.name + (if length r.name % 2 == 0 then 1 else 0))
        ≡ length (area_bytes r.area)
    length_left = omega (
      arith,
      pad,
      length-append r.name (padding r ++ area_bytes r.area),
      length-append (padding r) (area_bytes r.area),
    )

area_at :
    (r : DirectoryRecord) (block rest : List ℕ) (p : ℕ)
    → drop p block ≡ record_bytes r ++ rest
    → drop (p + susp_start (length r.name)) block ≡ area_bytes r.area ++ rest
area_at r block rest p at =
    let before = header_bytes r ++ (r.name ++ padding r) in
    ap (λ n. drop (p + n) block) (susp_place r).0
    ∙ sym (drop-drop (length before) p block)
    ∙ ap (drop (length before)) (
        at
        ∙ ap (λ t. (header_bytes r ++ t) ++ rest)
            (sym (append_assoc r.name (padding r) (area_bytes r.area)))
        ∙ ap (λ t. t ++ rest)
            (sym (append_assoc (header_bytes r) (r.name ++ padding r) (area_bytes r.area)))
        ∙ append_assoc before (area_bytes r.area) rest)
    ∙ drop_front before (area_bytes r.area ++ rest)

-- A record that stands at `p` in memory, whatever stands behind it, becomes the entry that it
-- describes, given more rounds than its area has entries.
pub make_entry_lem :
    (r : DirectoryRecord) (block rest : List ℕ) (p rounds : ℕ)
    → IsRecord r
    → drop p block ≡ record_bytes r ++ rest
    → length r.area < rounds
    → make_entry rounds block p ≡ done (some (described r))
unfolding make_entry
make_entry_lem r block rest p rounds ok at enough =
    let (flags, name_length, lba, extent_length, size) = fields r block rest p ok at in
    let (o, found, named) =
      area_found r.area rest block (p + susp_start (length r.name)) rounds
        (record {
          entry_type = entry_type_of r.flags;
          name = r.name;
          extent_lba = r.extent_lba;
          extent_length = r.extent_length;
        })
        ok.plain (area_at r block rest p at) enough in
    rw
      (
        flags,
        name_length,
        name_at r block rest p at,
        lba,
        extent_length,
        size,
        (susp_place r).1,
        found,
      )
      named
