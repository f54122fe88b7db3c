-- ===== src/Fs/IsoVolume/Mounting.antt =====
-- Mounting a volume: the first descriptor that decides is found, and what is read out of it.
use lamb_os.Base.{
  ℕ, zero, suc, ◌+◌, ◌<◌, Bool, true, false, ◌&&◌, not, List, [], ◌∷◌, ◌++◌, some, ◌==◌, ◌≡◌, refl,
  sym, subst, ap, ap₂, ◌∙◌, arith, length, drop, replicate, length-replicate, length-append, all,
  Bool-cases, inl, inr, append_assoc,
}
use lamb_os.Base.Outcome.{done, panic, load}
use lamb_os.Fs.IsoRecord.{slice}
use lamb_os.Fs.IsoRecord.Names.{slice_middle, drop_front}
use lamb_os.Fs.IsoRecord.Records.{
  DirectoryRecord, IsRecord, record_bytes, described, make_entry_lem,
}
use lamb_os.Fs.IsoVolume.{
  primary_volume, set_terminator, descriptor_type, get_descriptor_type, before_space, mounted,
  mount, by_descriptor, init_from, init_volume,
}

-- A sector that neither describes the volume nor ends the descriptors.
abbrev pub is_passed : ℕ → Bool
is_passed t = not (t == 1) && not (t == 255)

-- `Ahead read_sector lba n t`: of the sectors from `lba` on, `n` are passed, and the one behind them
-- has type `t`.
pub data Ahead (read_sector : ℕ → List ℕ) : ℕ → ℕ → ℕ → Type 0 where
  here : (lba t : ℕ) (rest : List ℕ) → read_sector lba ≡ t ∷ rest → Ahead read_sector lba 0 t
  later :
      (lba n t u : ℕ) (rest : List ℕ)
      → read_sector lba ≡ u ∷ rest
      → is_passed u ≡ true
      → Ahead read_sector (lba + 1) n t
      → Ahead read_sector lba (suc n) t

-- The sector of a volume descriptor with this label and this record of the root directory; the other
-- bytes are whatever they are.
pub record IsDescriptor (sector label : List ℕ) (root : DirectoryRecord) : Type 0 where
  pub before : List ℕ
  pub between : List ℕ
  pub behind : List ℕ
  pub blanks : ℕ
  pub bytes :
      sector
      ≡ before ++ ((label ++ replicate blanks b' ') ++ (between ++ (record_bytes root ++ behind)))
  pub before_size : length before ≡ 40
  pub label_size : length label + blanks ≡ 32
  pub between_size : length between ≡ 84
  pub no_blank : all (λ c. not (c == b' ')) label ≡ true
  pub root_ok : IsRecord root

by_descriptor_passed {ℓ} :
    {A : Type ℓ} (t : ℕ) (x y z : A)
    → is_passed t ≡ true
    → by_descriptor (descriptor_type t) x y z ≡ z
unfolding descriptor_type
by_descriptor_passed t x y z h = elim (Bool-cases (t == 0)) [
  | inl boot ↦ rw boot refl
  | inr no_boot ↦ elim (Bool-cases (t == 2)) [
    | inl two ↦ rw (no_boot, not_one, two) refl
    | inr other ↦ rw (no_boot, not_one, other, not_end) refl
  ]
]
  where
    not_one : (t == 1) ≡ false
    not_one = ground arith

    not_end : (t == 255) ≡ false
    not_end = ground arith

before_space_lem :
    (label : List ℕ) (n : ℕ)
    → all (λ c. not (c == b' ')) label ≡ true
    → before_space (label ++ replicate n b' ') ≡ label
unfolding before_space
before_space_lem [] zero h = refl
before_space_lem [] (suc n) h = refl
before_space_lem (c ∷ label) n h = ground (arith, before_space_lem label n (ground arith))

-- The label that a volume gets.
mount_lem :
    (sector label : List ℕ) (root : DirectoryRecord) (rounds : ℕ)
    → IsDescriptor sector label root
    → length root.area < rounds
    → mount rounds sector ≡ done (some (record { root = described root; label = label }))
unfolding mount mounted
mount_lem sector label root rounds d enough =
    rw (make_entry_lem root sector d.behind 156 rounds d.root_ok root_at enough, id_at)
      (ap (λ l. done (some (record { root = described root; label = l })))
        (before_space_lem label d.blanks d.no_blank))
  where
    id_size : length (label ++ replicate d.blanks b' ') ≡ 32
    id_size = omega (
      arith,
      length-append label (replicate d.blanks b' '),
      length-replicate {A = ℕ} d.blanks b' ',
      d.label_size,
    )

    id_at : slice sector 40 32 ≡ done (label ++ replicate d.blanks b' ')
    id_at =
        ap₂ (λ p n. slice sector p n) (sym d.before_size) (sym id_size)
        ∙ ap (λ s. slice s (length d.before) (length (label ++ replicate d.blanks b' '))) d.bytes
        ∙ slice_middle d.before (label ++ replicate d.blanks b' ')
            (d.between ++ (record_bytes root ++ d.behind))

    pre_size : length (d.before ++ ((label ++ replicate d.blanks b' ') ++ d.between)) ≡ 156
    pre_size = omega (
      arith,
      d.before_size,
      d.between_size,
      id_size,
      length-append d.before ((label ++ replicate d.blanks b' ') ++ d.between),
      length-append (label ++ replicate d.blanks b' ') d.between,
    )

    root_at : drop 156 sector ≡ record_bytes root ++ d.behind
    root_at =
        ap₂ drop (sym pre_size) (
          d.bytes
          ∙ ap (λ t. d.before ++ t)
              (sym (
                append_assoc (label ++ replicate d.blanks b' ') d.between
                  (record_bytes root ++ d.behind)))
          ∙ sym (
              append_assoc d.before ((label ++ replicate d.blanks b' ') ++ d.between)
                (record_bytes root ++ d.behind)))
        ∙ drop_front (d.before ++ ((label ++ replicate d.blanks b' ') ++ d.between))
            (record_bytes root ++ d.behind)

type_at :
    (sector rest : List ℕ) (t : ℕ)
    → sector ≡ t ∷ rest
    → get_descriptor_type sector ≡ done (descriptor_type t)
unfolding get_descriptor_type load
type_at sector rest t e = rw e refl

primary : descriptor_type 1 ≡ primary_volume
unfolding descriptor_type
primary = refl

terminator : descriptor_type 255 ≡ set_terminator
unfolding descriptor_type
terminator = refl

module _ (read_sector : ℕ → List ℕ) where
  init_from_mounts :
      (lba n : ℕ) (label : List ℕ) (root : DirectoryRecord) (rounds : ℕ)
      → Ahead read_sector lba n 1
      → IsDescriptor (read_sector (lba + n)) label root
      → n + length root.area + 1 < rounds
      → init_from read_sector rounds lba
        ≡ done (some (record { root = described root; label = label }))
  unfolding init_from
  init_from_mounts lba n label root zero a d enough = absurd (omega arith)
  init_from_mounts _ _ label root (suc rounds) (here lba t rest e) d enough =
      rw (type_at (read_sector lba) rest 1 e, primary)
        (mount_lem (read_sector lba) label root rounds
          (subst (λ k. IsDescriptor (read_sector k) label root) {x = lba + 0} {y = lba}
            (omega arith) d)
          (omega arith))
  init_from_mounts _ _ label root (suc rounds) (later lba n t u rest e passed a) d enough =
      rw
        (
          type_at (read_sector lba) rest u e,
          by_descriptor_passed u (mount rounds (read_sector lba)) panic
              (init_from read_sector rounds (lba + 1)) passed,
        )
        (init_from_mounts (lba + 1) n label root rounds a
          (subst (λ k. IsDescriptor (read_sector k) label root) {x = lba + suc n} {y = lba + 1 + n}
            (omega arith) d)
          (omega arith))

  init_from_panics :
      (lba n rounds : ℕ)
      → Ahead read_sector lba n 255
      → n < rounds
      → init_from read_sector rounds lba ≡ panic
  unfolding init_from
  init_from_panics lba n zero a enough = absurd (omega arith)
  init_from_panics _ _ (suc rounds) (here lba t rest e) enough =
      rw (type_at (read_sector lba) rest 255 e, terminator) refl
  init_from_panics _ _ (suc rounds) (later lba n t u rest e passed a) enough =
      rw
        (
          type_at (read_sector lba) rest u e,
          by_descriptor_passed u (mount rounds (read_sector lba)) panic
              (init_from read_sector rounds (lba + 1)) passed,
        )
        (init_from_panics (lba + 1) n rounds a (omega arith))

  -- When the first sector from 16 on that decides describes the primary volume, `init` mounts it,
  -- given enough rounds: the root is the entry that its record describes, and the label is the text
  -- before the blanks.
  pub init_volume_lem :
      (n : ℕ) (label : List ℕ) (root : DirectoryRecord) (rounds : ℕ)
      → Ahead read_sector 16 n 1
      → IsDescriptor (read_sector (16 + n)) label root
      → n + length root.area + 1 < rounds
      → init_volume read_sector rounds
        ≡ done (some (record { root = described root; label = label }))
  unfolding init_volume
  init_volume_lem n label root rounds a d enough =
      init_from_mounts 16 n label root rounds a d enough

  -- When the descriptors end before one of a primary volume, `init` panics.
  pub init_volume_panics :
      (n rounds : ℕ)
      → Ahead read_sector 16 n 255
      → n < rounds
      → init_volume read_sector rounds ≡ panic
  unfolding init_volume
  init_volume_panics n rounds a enough = init_from_panics 16 n rounds a enough
