-- ===== src/Device/VgaTextConsole/Cells.antt =====
-- The loops over the cells: they stay on the screen, and change the range of cells they walk.
use lamb_os.Base.{
  ℕ, zero, suc, ◌+◌, ◌-◌, ◌*◌, ◌%◌, ◌^◌, ◌≤◌, ◌<◌, ◌≡◌, refl, ap, ◌∙◌, ◌&&◌, List, ◌++◌, ltb, leb,
  if◌then◌else◌, arith, length, set, get_or, take, drop, length-set, length-append, length-take,
  length-drop, get_or-set, get_or-append_left, get_or-take, get_or-drop, le→ltb,
}
use lamb_os.Base.Outcome.{done, store_in}
use lamb_os.Device.VgaTextConsole.{put_cell, fill_row, fill_rows, copy_up}

-- A buffer that is `old` but for `entry` in the cells from `lo` up to `hi`.
pub record IsFilled (lo hi entry : ℕ) (old new : List ℕ) : Type 0 where
  pub size : length new ≡ length old
  pub cells : (k : ℕ) → get_or new k 0 ≡ (if leb lo k && ltb k hi then entry else get_or old k 0)

pub put_cell_returns :
    (b : List ℕ) (row col entry : ℕ)
    → row < 25
    → col < 80
    → length b ≡ 2000
    → (b' : List ℕ) × (put_cell b row col entry ≡ done b')
      × IsFilled (row * 80 + col) (row * 80 + col + 1) entry b b'
unfolding put_cell
put_cell_returns b row col entry hr hc h =
    let index : (row * 80 + col) % 2 ^ 32 ≡ row * 80 + col = omega arith in
    (
      set b (row * 80 + col) entry,
      rw index (store_in b (row * 80 + col) entry (omega arith)),
      record {
        size = length-set b (row * 80 + col) entry;
        cells = λ k. ground (arith, get_or-set b (row * 80 + col) k entry 0 (omega arith));
      },
    )

pub fill_row_returns :
    (n row col entry : ℕ) (b : List ℕ)
    → row < 25
    → col + n ≤ 80
    → length b ≡ 2000
    → (b' : List ℕ) × (fill_row n row col entry b ≡ done b')
      × IsFilled (row * 80 + col) (row * 80 + col + n) entry b b'
unfolding fill_row
fill_row_returns zero row col entry b hr hc h =
    (b, refl, record { size = refl; cells = λ k. ground arith })
fill_row_returns (suc n) row col entry b hr hc h =
    let (b₁, e₁, f₁) = put_cell_returns b row col entry hr (omega arith) h in
    let (b₂, e₂, f₂) = fill_row_returns n row (col + 1) entry b₁ hr (omega arith) (f₁.size ∙ h) in
    (
      b₂,
      rw e₁ e₂,
      record { size = f₂.size ∙ f₁.size; cells = λ k. ground (arith, f₁.cells k, f₂.cells k) },
    )

pub fill_rows_returns :
    (n row entry : ℕ) (b : List ℕ)
    → row + n ≤ 25
    → length b ≡ 2000
    → (b' : List ℕ) × (fill_rows n row entry b ≡ done b')
      × IsFilled (row * 80) ((row + n) * 80) entry b b'
unfolding fill_rows
fill_rows_returns zero row entry b hr h =
    (b, refl, record { size = refl; cells = λ k. ground arith })
fill_rows_returns (suc n) row entry b hr h =
    let (b₁, e₁, f₁) = fill_row_returns 80 row 0 entry b (omega arith) (omega arith) h in
    let (b₂, e₂, f₂) = fill_rows_returns n (row + 1) entry b₁ (omega arith) (f₁.size ∙ h) in
    (
      b₂,
      rw e₁ e₂,
      record { size = f₂.size ∙ f₁.size; cells = λ k. ground (arith, f₁.cells k, f₂.cells k) },
    )

-- The copy moves each row up; below the rows that move, the cells are as before.
pub copy_up_returns :
    (lines : ℕ) (b : List ℕ)
    → lines ≤ 25
    → length b ≡ 2000
    → (b' : List ℕ) × (copy_up lines b ≡ done b')
      × (length b' ≡ 2000)
      × ((k : ℕ) → k < 80 * (25 - lines) → get_or b' k 0 ≡ get_or b (k + 80 * lines) 0)
unfolding copy_up
copy_up_returns lines b hl h =
    let moved = take (80 * (25 - lines)) (drop (80 * lines) b) in
    let width : length moved ≡ 80 * (25 - lines) =
      omega (
        arith,
        length-take (80 * (25 - lines)) (drop (80 * lines) b),
        length-drop (80 * lines) b,
      ) in
    (
      moved ++ drop (80 * (25 - lines)) b,
      rw (le→ltb 25 lines hl, le→ltb (length b) (80 * lines + 80 * (25 - lines)) (omega arith)),
      omega (
        arith,
        length-append moved (drop (80 * (25 - lines)) b),
        length-drop (80 * (25 - lines)) b,
      ),
      λ k lt.
          get_or-append_left moved (drop (80 * (25 - lines)) b) k 0 (rw width lt)
          ∙ get_or-take (80 * (25 - lines)) (drop (80 * lines) b) k 0 lt
          ∙ get_or-drop (80 * lines) b k 0
          ∙ ap (λ i. get_or b i 0) {x = 80 * lines + k} {y = k + 80 * lines} (omega arith),
    )
