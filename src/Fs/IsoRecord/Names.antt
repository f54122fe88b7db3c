-- ===== src/Fs/IsoRecord/Names.antt =====
-- A directory record as ISO 9660 and its Rock Ridge extension lay it out, and what the constructor
-- of `DirectoryEntry` makes of it.
use lamb_os.Base.{
  ℕ, zero, suc, ◌+◌, ◌-◌, ◌%◌, ◌^◌, ◌<◌, Bool, true, false, List, [], ◌∷◌, ◌++◌, Option, none, some,
  ◌≡◌, ◌⊎◌, append_assoc, refl, sym, ap, ap₂, ◌∙◌, arith, ◌==◌, ltb, leb, if◌then◌else◌, length,
  take, drop, all, length-append, length-drop, drop-drop, inl, inr, get_elem?, false≢true,
}
use lamb_os.Base.Outcome.{done, fault, load, in_bounds}
use lamb_os.Fs.IsoRecord.{
  RockRidgeEntry, unknown, nm, px, pn, sl, cl, pl, re, tf, sf, signature_type, decode_signature,
  slice, by_type, find_rock_ridge_name_entry, rock_ridge_name, DirectoryEntry, name_entry,
}

-- An entry of the system use area behind the name of a record.
pub data SystemUseEntry : Type 0 where
  name_of : (version flags : ℕ) (name : List ℕ) → SystemUseEntry
  other : (a b version : ℕ) (payload : List ℕ) → SystemUseEntry

abbrev pub entry_bytes : SystemUseEntry → List ℕ
entry_bytes (name_of version flags name) = b'N' ∷ b'M' ∷ (5 + length name) ∷ version ∷ flags ∷ name
entry_bytes (other a b version payload) = a ∷ b ∷ (4 + length payload) ∷ version ∷ payload

abbrev pub area_bytes : List SystemUseEntry → List ℕ
area_bytes [] = []
area_bytes (e ∷ es) = entry_bytes e ++ area_bytes es

-- The first name, unless an entry of a type that Rock Ridge does not know comes before.
abbrev pub area_name : List SystemUseEntry → Option (List ℕ)
area_name [] = none
area_name (name_of version flags name ∷ es) = some name
area_name (other a b version payload ∷ es) = by_type (signature_type a b) none none (area_name es)

abbrev pub is_other : RockRidgeEntry → Bool
is_other t = by_type t false false true

-- No entry looks like a name entry without being one, and the length of a name entry is a byte.
abbrev pub is_plain : SystemUseEntry → Bool
is_plain (name_of version flags name) = ltb (length name) 251
is_plain (other a b version payload) = by_type (signature_type a b) true false true

abbrev pub IsArea : List SystemUseEntry → Type 0
IsArea es = all is_plain es ≡ true

type-cases : (t : RockRidgeEntry) → (t ≡ unknown) ⊎ ((t ≡ nm) ⊎ (is_other t ≡ true))
type-cases px = inr (inr refl)
type-cases pn = inr (inr refl)
type-cases sl = inr (inr refl)
type-cases nm = inr (inl refl)
type-cases cl = inr (inr refl)
type-cases pl = inr (inr refl)
type-cases re = inr (inr refl)
type-cases tf = inr (inr refl)
type-cases sf = inr (inr refl)
type-cases unknown = inl refl

by_type-other {ℓ} :
    {A : Type ℓ} (t : RockRidgeEntry) (x y z : A) → is_other t ≡ true → by_type t x y z ≡ z
by_type-other px x y z h = refl
by_type-other pn x y z h = refl
by_type-other sl x y z h = refl
by_type-other nm x y z h = cc
by_type-other cl x y z h = refl
by_type-other pl x y z h = refl
by_type-other re x y z h = refl
by_type-other tf x y z h = refl
by_type-other sf x y z h = refl
by_type-other unknown x y z h = cc

pub load-drop : (block : List ℕ) (p k : ℕ) → load block (p + k) ≡ load (drop p block) k
unfolding load
load-drop block zero k = ap (λ j. in_bounds (get_elem? block j)) {x = 0 + k} {y = k} (omega arith)
load-drop [] (suc p) k = refl
load-drop (x ∷ block) (suc p) k =
    ap (λ j. in_bounds (get_elem? (x ∷ block) j)) {x = suc p + k} {y = suc (p + k)} (omega arith)
    ∙ load-drop block p k

pub slice-drop :
    (block : List ℕ) (p k n : ℕ) → 0 < k → slice block (p + k) n ≡ slice (drop p block) k n
unfolding slice
slice-drop block p k n h =
    ap₂ (λ b xs. if b then done (take n xs) else fault) same (sym (drop-drop k p block))
  where
    same : leb (p + k + n) (length block) ≡ leb (k + n) (length (drop p block))
    same = ground (arith, length-drop p block)

pub load_here : (block : List ℕ) (p : ℕ) → load block p ≡ load (drop p block) 0
load_here block p = ap (load block) {x = p} {y = p + 0} (omega arith) ∙ load-drop block p 0

pub drop_front : (pre xs : List ℕ) → drop (length pre) (pre ++ xs) ≡ xs
drop_front [] xs = refl
drop_front (c ∷ pre) xs = drop_front pre xs

pub take_front : (xs ys : List ℕ) → take (length xs) (xs ++ ys) ≡ xs
take_front [] ys = refl
take_front (c ∷ xs) ys = ap (λ t. c ∷ t) (take_front xs ys)

pub slice_middle :
    (pre xs ys : List ℕ) → slice (pre ++ (xs ++ ys)) (length pre) (length xs) ≡ done xs
unfolding slice
slice_middle pre xs ys = rw (fits, drop_front pre (xs ++ ys), take_front xs ys) refl
  where
    fits : leb (length pre + length xs) (length (pre ++ (xs ++ ys))) ≡ true
    fits = ground (arith, length-append pre (xs ++ ys), length-append xs ys)

-- The entry with the name that its area gives it.
abbrev pub renamed : DirectoryEntry → Option (List ℕ) → DirectoryEntry
renamed entry none = entry
renamed entry (some name) = record entry { name = name }

decode_at :
    (block : List ℕ) (p a b : ℕ) (xs : List ℕ)
    → drop p block ≡ a ∷ b ∷ xs
    → decode_signature block p ≡ done (signature_type a b)
unfolding decode_signature load
decode_at block p a b xs at =
    rw (load_here block p ∙ ap (λ s. load s 0) at, load-drop block p 1 ∙ ap (λ s. load s 1) at) refl

-- The third byte of an entry is its length.
length_at :
    (block : List ℕ) (p a b n : ℕ) (xs : List ℕ)
    → drop p block ≡ a ∷ b ∷ n ∷ xs
    → load block (p + 2) ≡ done n
unfolding load
length_at block p a b n xs at = load-drop block p 2 ∙ ap (λ s. load s 2) at

name_read :
    (block : List ℕ) (p version flags : ℕ) (name rest : List ℕ)
    → length name < 251
    → drop p block ≡ entry_bytes (name_of version flags name) ++ rest
    → rock_ridge_name block p ≡ done name
unfolding rock_ridge_name
name_read block p version flags name rest short at =
    rw (length_at block p b'N' b'M' (5 + length name) (version ∷ flags ∷ (name ++ rest)) at, back)
      (slice-drop block p 5 (length name) (omega arith)
        ∙ ap (λ s. slice s 5 (length name)) at
        ∙ slice_middle (b'N' ∷ b'M' ∷ (5 + length name) ∷ version ∷ flags ∷ []) name rest)
  where
    back : (5 + length name + 2 ^ 32 - 5) % 2 ^ 32 ≡ length name
    back = omega arith

-- Behind an entry.
pub past_entry :
    (block : List ℕ) (p : ℕ) (e xs : List ℕ)
    → drop p block ≡ e ++ xs
    → drop (p + length e) block ≡ xs
past_entry block p e xs at =
    sym (drop-drop (length e) p block) ∙ ap (drop (length e)) at ∙ drop_front e xs

name_signature : signature_type b'N' b'M' ≡ nm
unfolding signature_type
name_signature = refl

-- What the loop finds in an area is what names the entry.
pub area_found :
    (es : List SystemUseEntry) (rest block : List ℕ) (p rounds : ℕ) (entry : DirectoryEntry)
    → IsArea es
    → drop p block ≡ area_bytes es ++ rest
    → length es < rounds
    → (o : Option (Option ℕ)) × (find_rock_ridge_name_entry rounds block p (length (area_bytes es))
        ≡ done o)
      × (name_entry block entry o ≡ done (some (renamed entry (area_name es))))
unfolding find_rock_ridge_name_entry name_entry
area_found es rest block p zero entry plain at enough = absurd (omega arith)
area_found [] rest block p (suc rounds) entry plain at enough = (some none, refl, refl)
area_found (name_of version flags name ∷ es) rest block p (suc rounds) entry plain at enough =
    let here = at ∙ append_assoc (entry_bytes (name_of version flags name)) (area_bytes es) rest in
    (
      some (some p),
      rw (some_bytes, decode_at block p b'N' b'M' _ at, name_signature) refl,
      rw (name_read block p version flags name (area_bytes es ++ rest) (ground arith) here) refl,
    )
  where
    some_bytes : (length (entry_bytes (name_of version flags name) ++ area_bytes es) == 0) ≡ false
    some_bytes = ground arith
area_found (other a b version payload ∷ es) rest block p (suc rounds) entry plain at enough =
    elim (type-cases (signature_type a b)) [
      | inl no_type ↦
          (some none, rw (some_bytes, decode_at block p a b _ at, no_type) refl, rw no_type refl)
      | inr (inl name) ↦
          absurd (false≢true (ap (λ t. by_type t true false true) (sym name) ∙ ground arith))
      | inr (inr known) ↦
          let e = entry_bytes (other a b version payload) in
          let (o, found, named) =
            area_found es rest block (p + length e) rounds entry (ground arith)
              (past_entry block p e (area_bytes es ++ rest)
                (at ∙ append_assoc e (area_bytes es) rest))
              (omega arith) in
          (
            o,
            rw
                (
                  some_bytes,
                  decode_at block p a b _ at,
                  by_type-other (signature_type a b) (done (some none)) (done (some (some p))) _
                      known,
                )
                (rw (length_at block p a b (4 + length payload) _ at) (
                  ap₂ (find_rock_ridge_name_entry rounds block) {x = p + (4 + length payload)}
                    {y = p + length e} (omega arith)
                    (omega (arith, length-append e (area_bytes es)))
                  ∙ found)),
            rw (by_type-other (signature_type a b) none none (area_name es) known) named,
          )
    ]
  where
    some_bytes : (length (entry_bytes (other a b version payload) ++ area_bytes es) == 0) ≡ false
    some_bytes = ground arith
