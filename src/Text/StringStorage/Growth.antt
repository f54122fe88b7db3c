-- ===== src/Text/StringStorage/Growth.antt =====
-- Appending a character.
use lamb_os.Base.{
  ℕ, zero, suc, ◌+◌, ◌<◌, ◌≡◌, ◌⊎◌, inl, inr, refl, ap, ◌∙◌, true, false, List, [], ◌∷◌, ◌++◌, ◌==◌,
  arith, length, take, set, get_or, length-set, get_or-set_self, ltb, ne→==,
}
use native.Mathlib.Decide.{dec_lt}
use lamb_os.Base.Outcome.{done, fault, store}
use lamb_os.Text.StringStorage.{StringStorage, with_cells, insert}

abbrev pub contents : StringStorage → List ℕ
contents s = take s.size s.array.cells

-- The block has room for the null character, which ends the contents.
pub record IsValid (s : StringStorage) : Type 0 where
  pub storage : length s.array.cells ≡ s.array.capacity
  pub room : s.size < s.array.capacity
  pub ends : get_or s.array.cells s.size 1 ≡ 0

take-set_two :
    (n c : ℕ) (xs : List ℕ)
    → n + 1 < length xs
    → take (n + 1) (set (set xs n c) (n + 1) 0) ≡ take n xs ++ (c ∷ [])
take-set_two n c xs h =
    ap (λ k. take k (set (set xs n c) k 0)) {x = n + 1} {y = suc n} (omega arith)
    ∙ go n xs (omega arith)
  where
    go :
        (n : ℕ) (xs : List ℕ)
        → suc n < length xs
        → take (suc n) (set (set xs n c) (suc n) 0) ≡ take n xs ++ (c ∷ [])
    go n [] h = absurd (omega arith)
    go zero (x ∷ []) h = refl
    go zero (x ∷ y ∷ xs) h = refl
    go (suc n) (x ∷ xs) h = ap (λ t. x ∷ t) (go n xs (omega arith))

-- `insert` of a character into a valid string: with two places free in its block, it returns true
-- and a valid string with the character at its end. With the one for the null character only, it
-- writes behind the block.
pub insert_appends :
    (fresh c : ℕ) (s : StringStorage)
    → IsValid s
    → ((s.size + 1 < s.array.capacity)
        × ((s' : StringStorage) × (insert fresh s c ≡ done (true, s'))
            × IsValid s'
            × (contents s' ≡ contents s ++ (c ∷ []))))
      ⊎ ((s.size + 1 ≡ s.array.capacity) × (insert fresh s c ≡ fault))
unfolding insert store
insert_appends fresh c s v =
    let cells = s.array.cells in
    let not_full : (s.size == s.array.capacity) ≡ false =
      ne→== s.size s.array.capacity (λ e. omega (arith, v.room, e)) in
    let here : ltb s.size (length cells) ≡ true = ground (arith, v.storage, v.room) in
    elim (dec_lt (s.size + 1) s.array.capacity) [
      | yes free ↦
          let behind : ltb (s.size + 1) (length (set cells s.size c)) ≡ true =
            ground (arith, v.storage, length-set cells s.size c) in
          inl (
            free,
            (
              with_cells s.array (set (set cells s.size c) (s.size + 1) 0) (s.size + 1),
              rw (not_full, here, behind),
              record {
                storage =
                    length-set (set cells s.size c) (s.size + 1) 0
                    ∙ length-set cells s.size c
                    ∙ v.storage;
                room = free;
                ends =
                    get_or-set_self (set cells s.size c) (s.size + 1) 0 1
                      (omega (arith, length-set cells s.size c, v.storage));
              },
              take-set_two s.size c cells (omega (arith, v.storage)),
            ),
          )
      | no tight ↦
          let full : s.size + 1 ≡ s.array.capacity = omega (arith, v.room, tight) in
          let behind : ltb (s.size + 1) (length (set cells s.size c)) ≡ false =
            ground (arith, v.storage, length-set cells s.size c) in
          inr (full, rw (not_full, here, behind))
    ]
