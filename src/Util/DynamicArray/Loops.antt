-- ===== src/Util/DynamicArray/Loops.antt =====
-- What the moves of a dynamic array do to each cell, and that a resize keeps the old cells.
use lamb_os.Base.{
  ℕ, zero, suc, ◌+◌, ◌-◌, ◌≤◌, ◌<◌, ◌≡◌, refl, ap, ◌∙◌, ◌&&◌, List, ◌++◌, ◌==◌, ltb, leb,
  if◌then◌else◌, arith, length, set, get_or, length-set, length-append, length-replicate, replicate,
  get_or-set, get_or-append_left, get_or-append_right, le→ltb, ne→==,
}
use native.Mathlib.Decide.{ℕ_discrete}
use lamb_os.Base.Outcome.{done, fault, store, load_in, store_in}
use lamb_os.Util.DynamicArray.{DynamicArray, move_left, move_right, resize_cells, resize}

module _ {ℓ} {A : Type ℓ} (d : A) where
  -- Each of `n` cells takes the value `offset` cells further on; no other cell changes.
  pub move_left_returns :
      (n i offset : ℕ) (b : List A)
      → 0 < offset
      → offset ≤ i
      → i + n ≤ length b
      → (b' : List A) × (move_left n i offset b ≡ done b')
        × (length b' ≡ length b)
        × ((k : ℕ)
            → get_or b' k d ≡ (
                if leb (i - offset) k && ltb k (i - offset + n)
                then get_or b (k + offset) d
                else get_or b k d))
  unfolding move_left
  move_left_returns zero i offset b ho hi h = (b, refl, refl, λ k. ground arith)
  move_left_returns (suc n) i offset b ho hi h =
      let b₁ = set b (i - offset) (get_or b i d) in
      let (b₂, e, len, cells) =
        move_left_returns n (i + 1) offset b₁ ho (omega arith)
          (omega (arith, length-set b (i - offset) (get_or b i d))) in
      (
        b₂,
        rw (load_in b i d (omega arith), store_in b (i - offset) (get_or b i d) (omega arith)) e,
        len ∙ length-set b (i - offset) (get_or b i d),
        λ k. moved k (cells k),
      )
    where
      b₁ : List A
      b₁ = set b (i - offset) (get_or b i d)

      at_step : (k : ℕ) → get_or b₁ k d ≡ (if i - offset == k then get_or b i d else get_or b k d)
      at_step k = get_or-set b (i - offset) k (get_or b i d) d (omega arith)

      moved :
          (k : ℕ) {v : A}
          → v ≡ (
              if leb (i + 1 - offset) k && ltb k (i + 1 - offset + n)
              then get_or b₁ (k + offset) d
              else get_or b₁ k d)
          → v ≡ (
              if leb (i - offset) k && ltb k (i - offset + suc n)
              then get_or b (k + offset) d
              else get_or b k d)
      moved k e = elim (ℕ_discrete (i - offset) k) [
        | yes here ↦
            ground (arith, at_step k, ap (λ j. get_or b j d) {x = i} {y = k + offset} (omega arith))
        | no _ ↦ ground (arith, at_step k, at_step (k + offset))
      ]

  -- Moving all cells of a block to the right writes behind its end.
  pub move_right_overruns :
      (n offset : ℕ) (b : List A)
      → length b ≡ n
      → 0 < n
      → 0 < offset
      → move_right n offset b ≡ fault
  unfolding move_right store
  move_right_overruns zero offset b h hn ho = absurd (omega arith)
  move_right_overruns (suc n) offset b h hn ho =
      rw (load_in b n d (omega arith), le→ltb (n + offset) (length b) (omega arith))

  -- A resize to at least the old size keeps each old cell, `offset` cells further on.
  pub resize_cells_returns :
      (b : List A) (old new offset : ℕ)
      → length b ≡ old
      → offset + old ≤ new
      → (b' : List A) × (resize_cells d b old new offset ≡ done b')
        × (length b' ≡ new)
        × ((k : ℕ) → k < old → get_or b' (offset + k) d ≡ get_or b k d)
  resize_cells_returns b old new offset h room =
      let back = replicate (new - (offset + old)) d in
      (
        replicate offset d ++ (b ++ back),
        rw (le→ltb new (offset + old) room),
        omega (
          arith,
          length-append (replicate offset d) (b ++ back),
          length-append b back,
          length-replicate offset d,
          length-replicate (new - (offset + old)) d,
        ),
        λ k lt.
            get_or-append_right (replicate offset d) (b ++ back) (offset + k) d
              (omega (arith, length-replicate offset d))
            ∙ ap (λ j. get_or (b ++ back) j d) {x = offset + k - length (replicate offset d)}
                {y = k} (omega (arith, length-replicate offset d))
            ∙ get_or-append_left b back k d (omega arith),
      )

  pub resize_returns :
      (a : DynamicArray A) (new offset : ℕ)
      → length a.cells ≡ a.capacity
      → offset + a.capacity ≤ new
      → 0 < new
      → (a' : DynamicArray A) × (resize d a new offset ≡ done a')
        × (a'.capacity ≡ new)
        × (length a'.cells ≡ new)
        × ((k : ℕ) → k < a.capacity → get_or a'.cells (offset + k) d ≡ get_or a.cells k d)
  unfolding resize
  resize_returns a new offset h room some_room =
      let (cells', e, len, kept) = resize_cells_returns a.cells a.capacity new offset h room in
      (
        record { capacity = new; cells = cells' },
        rw (ne→== new 0 (omega arith), e) refl,
        refl,
        len,
        kept,
      )
