-- ===== src/Fs/IsoDirectory/Search.antt =====
-- A search of a directory finds the first record of a name.
use lamb_os.Base.{
  ℕ, zero, suc, ◌+◌, ◌<◌, ◌≤◌, ◌≢◌, ◌↔◌, Bool, true, false, ◌&&◌, List, [], ◌∷◌, ◌++◌, Option, none,
  some, ◌≡◌, refl, ap, ap₂, ◌∙◌, arith, ◌==◌, ltb, if◌then◌else◌, length, drop, all, length-append,
  append_assoc, inl, inr, Bool-cases, false≢true, ne→==, tail, get_or,
}
use lamb_os.Base.Outcome.{done, load}
use lamb_os.Libc.Strings.{ℤ, pos, negsuc}
use lamb_os.Libc.Strings.Comparing.{IsText, terminated, strcmp_zero_iff}
use lamb_os.Fs.IsoRecord.{DirectoryEntry}
use lamb_os.Fs.IsoRecord.Names.{load_here, past_entry}
use lamb_os.Fs.IsoRecord.Records.{
  DirectoryRecord, IsRecord, record_bytes, record_length, header_bytes, tail_bytes, described,
  fields, make_entry_lem,
}
use lamb_os.Fs.IsoDirectory.{is_zero, same_name, search, before_null}

abbrev pub eq_text : List ℕ → List ℕ → Bool
eq_text [] [] = true
eq_text [] (d ∷ t) = false
eq_text (c ∷ s) [] = false
eq_text (c ∷ s) (d ∷ t) = c == d && eq_text s t

abbrev pub IsBytes : List ℕ → Type 0
IsBytes s = all (λ c. ltb c 256) s ≡ true

eq_text_iff : (s t : List ℕ) → (eq_text s t ≡ true) ↔ (s ≡ t)
eq_text_iff [] [] = (λ _. refl, λ _. refl)
eq_text_iff [] (d ∷ t) = (λ e. cc, λ e. cc)
eq_text_iff (c ∷ s) [] = (λ e. cc, λ e. cc)
eq_text_iff (c ∷ s) (d ∷ t) =
    let (there, back) = eq_text_iff s t in
    (
      λ e. ap₂ ◌∷◌ (ground arith) (there (ground arith)),
      λ e. ground (arith, ap (λ xs. get_or xs 0 0) e, back (ap tail e)),
    )

-- A name with a null character in it is the text before that, and something behind it.
as_text : (s : List ℕ) → (junk : List ℕ) × (s ++ (0 ∷ []) ≡ terminated (before_null s) junk)
unfolding before_null
as_text [] = ([], refl)
as_text (c ∷ s) = elim (Bool-cases (c == 0)) [
  | inl null ↦ (s ++ (0 ∷ []), rw null (ap (λ d. d ∷ (s ++ (0 ∷ []))) (ground arith)))
  | inr char ↦ let (junk, e) = as_text s in (junk, rw char (ap (λ t. c ∷ t) e))
]

before_null-IsText : (s : List ℕ) → IsBytes s → IsText (before_null s)
unfolding before_null
before_null-IsText [] h = refl
before_null-IsText (c ∷ s) h = elim (Bool-cases (c == 0)) [
  | inl null ↦ rw null refl
  | inr char ↦ rw char (ground (arith, before_null-IsText s (ground arith)))
]

same_name_lem :
    (a b : List ℕ)
    → IsBytes a
    → IsBytes b
    → same_name a b ≡ done (eq_text (before_null a) (before_null b))
unfolding same_name
same_name_lem a b ha hb =
    let (junk, ea) = as_text a in
    let (junk', eb) = as_text b in
    let (z, e, iff) =
      strcmp_zero_iff (before_null a) (before_null b) junk junk' (before_null-IsText a ha)
        (before_null-IsText b hb) in
    rw (ea, eb, e)
      (ap done (
        agree z (eq_text (before_null a) (before_null b)) iff
          (eq_text_iff (before_null a) (before_null b))))
  where
    not_zero : (n : ℕ) → pos (suc n) ≢ pos 0
    not_zero n e = cc

    not_pos : (n : ℕ) → negsuc n ≢ pos 0
    not_pos n e = cc

    agree : {P : Type 0} (z : ℤ) (b : Bool) → ((z ≡ pos 0) ↔ P) → ((b ≡ true) ↔ P) → is_zero z ≡ b
    agree (pos zero) true f g = refl
    agree (pos zero) false f g = absurd (false≢true (g.1 (f.0 refl)))
    agree (pos (suc n)) true f g = absurd (not_zero n (f.1 (g.0 refl)))
    agree (pos (suc n)) false f g = ground arith
    agree (negsuc n) true f g = absurd (not_pos n (f.1 (g.0 refl)))
    agree (negsuc n) false f g = refl

-- The records of a directory one behind the other.
abbrev pub directory_bytes : List DirectoryRecord → List ℕ
directory_bytes [] = []
directory_bytes (r ∷ rs) = record_bytes r ++ directory_bytes rs

-- The entry of the first record of that name.
abbrev pub first_named : List DirectoryRecord → List ℕ → Option DirectoryEntry
first_named [] elem = none
first_named (r ∷ rs) elem =
    if eq_text (before_null (described r).name) (before_null elem)
    then some (described r)
    else first_named rs elem

-- Records whose areas have at most `n` entries, and whose names are of bytes.
abbrev pub IsListing : ℕ → List DirectoryRecord → Type 0
IsListing n [] = (length {A = ℕ} [] ≡ 0)
IsListing n (r ∷ rs) =
    IsRecord r × (length r.area ≤ n) × IsBytes (described r).name × IsListing n rs

terminator : (block rest : List ℕ) (p : ℕ) → drop p block ≡ 0 ∷ rest → load block p ≡ done 0
unfolding load
terminator block rest p at = load_here block p ∙ ap (λ s. load s 0) at

pub search_finds :
    (n : ℕ) (rs : List DirectoryRecord) (block rest : List ℕ) (p left rounds : ℕ) (elem : List ℕ)
    → IsListing n rs
    → IsBytes elem
    → 0 < left
    → drop p block ≡ directory_bytes rs ++ (0 ∷ rest)
    → n + length rs < rounds
    → search rounds block left p elem ≡ done (some (first_named rs elem))
unfolding search
search_finds n rs block rest p left zero elem ok text some_bytes at enough = absurd (omega arith)
search_finds n [] block rest p left (suc rounds) elem ok text some_bytes at enough =
    rw (ne→== left 0 (omega arith), terminator block rest p at) refl
search_finds n (r ∷ rs) block rest p left (suc rounds) elem (record_ok, few, name_ok, ok) text
      some_bytes at enough =
    let here = at ∙ append_assoc (record_bytes r) (directory_bytes rs) (0 ∷ rest) in
    let behind = past_entry block p (record_bytes r) (directory_bytes rs ++ (0 ∷ rest)) here in
    let later =
      search_finds n rs block rest (p + record_length r) left rounds elem ok text some_bytes
        (ap (λ k. drop (p + k) block) (record_size r) ∙ behind) (omega arith) in
    let size = (fields r block (directory_bytes rs ++ (0 ∷ rest)) p record_ok here).4 in
    rw
      (
        ne→== left 0 (omega arith),
        size,
        ne→== (record_length r) 0 (omega arith),
        make_entry_lem r block (directory_bytes rs ++ (0 ∷ rest)) p rounds record_ok here
            (omega arith),
        same_name_lem (described r).name elem name_ok text,
        later,
      )
      (either (eq_text (before_null (described r).name) (before_null elem)))
  where
    record_size : (r : DirectoryRecord) → record_length r ≡ length (record_bytes r)
    record_size r = omega (arith, length-append (header_bytes r) (tail_bytes r))

    either :
        (b : Bool)
        → (if b then done (some (some (described r))) else done (some (first_named rs elem)))
          ≡ done (some (if b then some (described r) else first_named rs elem))
    either true = refl
    either false = refl
