-- ===== src/Device/VgaTextConsole/Scrolling.antt =====
-- What `scroll` does to the cells, and the step to the next row.
use lamb_os.Base.{
  ℕ, ◌+◌, ◌-◌, ◌*◌, ◌%◌, ◌^◌, ◌≤◌, ◌<◌, ◌≡◌, refl, ap, ◌∙◌, true, List, ◌==◌, ltb, if◌then◌else◌,
  arith, length, get_or, ne→==,
}
use native.Mathlib.Decide.{ℕ_discrete}
use lamb_os.Base.Outcome.{done}
use lamb_os.Device.VgaTextConsole.{
  Console, make_vgaentry, move_to, move_cursor_to, scroll, next_row,
}
use lamb_os.Device.VgaTextConsole.Cells.{fill_rows_returns, copy_up_returns}
use lamb_os.Device.VgaTextConsole.Screen.{Screen, wrap, Shows}

-- `scroll` by up to 25 lines stays on the screen, changes nothing but cells, moves the lower rows
-- up by that many lines and fills the rows that become free with blanks of the current colour.
pub scroll_correct :
    (s : Console) (lines : ℕ)
    → lines ≤ 25
    → length s.buffer ≡ 2000
    → (b' : List ℕ) × (scroll s lines ≡ done (record s { buffer = b' }))
      × (length b' ≡ 2000)
      × ((k : ℕ)
          → k < 2000
          → get_or b' k 0 ≡ (
              if ltb k (80 * (25 - lines))
              then get_or s.buffer (k + 80 * lines) 0
              else make_vgaentry b' ' s.color))
unfolding scroll
scroll_correct s lines hl h = elim (ℕ_discrete lines 0) [
  | yes e ↦ (
    s.buffer,
    ground arith,
    h,
    λ k lt.
        ground (arith, ap (λ i. get_or s.buffer i 0) {x = k} {y = k + 80 * lines} (omega arith)),
  )
  | no ne ↦
      let (b₁, e₁, h₁, up) = copy_up_returns lines s.buffer hl h in
      let (b₂, e₂, f) =
        fill_rows_returns lines (25 - lines) (make_vgaentry b' ' s.color) b₁ (omega arith) h₁ in
      (b₂, rw (ne→== lines 0 ne, e₁, e₂), f.size ∙ h₁, λ k lt. ground (arith, f.cells k, up k))
]

one_line : 1 ≤ 25
one_line = omega arith

-- The step to the next row shows the screen whose cursor stands at the start of that row.
pub next_row-Shows :
    (s : Console) (t : Screen) (color : ℕ)
    → s.row < 25
    → s.column ≡ 0
    → length s.buffer ≡ 2000
    → s.color ≡ color
    → (s.row + 1) * 80 ≡ t.at
    → ((k : ℕ) → k < 2000 → get_or s.buffer k 0 ≡ t.cells k)
    → (s' : Console) × (next_row s ≡ done s')
      × Shows color s' (wrap (make_vgaentry b' ' color) t)
      × (s'.cursor_is_visible ≡ s.cursor_is_visible)
unfolding next_row move_to move_cursor_to
next_row-Shows s t color hr hc h ec ea cells =
    let bump : (s.row + 1) % 2 ^ 32 ≡ s.row + 1 = omega arith in
    elim (ℕ_discrete (s.row + 1) 25) [
      | no ne ↦ (
        record s { row = s.row + 1 },
        rw (bump, ne→== (s.row + 1) 25 ne),
        rw (ne→== t.at 2000 (omega arith)) (record {
          row_in = omega arith;
          column_in = omega arith;
          size = h;
          color_is = ec;
          at_is = omega arith;
          cells_are = cells;
        }),
        refl,
      )
      | yes e ↦
          let s₁ = record s { row = s.row + 1 } in
          let (b', returns, size, moved) = scroll_correct s₁ 1 one_line h in
          let full : (t.at == 2000) ≡ true = ground arith in
          let last : (s.row + 1 == 25) ≡ true = ground arith in
          (
            move_to (record s₁ { buffer = b' }) 24 0,
            rw (bump, last, returns),
            rw full (record {
              row_in = ground arith;
              column_in = ground arith;
              size = ground arith;
              color_is = ground arith;
              at_is = ground arith;
              cells_are = λ k lt. ground (arith, moved k lt, cells (k + 80));
            }),
            ground arith,
          )
    ]
