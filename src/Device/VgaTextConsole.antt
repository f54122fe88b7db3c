-- ===== src/Device/VgaTextConsole.antt =====
-- The text screen: kernel/src/arch/i386/device/display/VGATextConsole.cpp and its header
-- kernel/include/device/display/VGATextConsole.hpp. The screen memory is the list of its 80 * 25
-- cells, and a write anywhere else is a fault. What the code sends to ports is kept as a trace.
pub mod Cells
pub mod Screen
pub mod Scrolling
pub mod Writing
mod Tests
use lamb_os.Base.{
  ℕ, zero, suc, ◌+◌, ◌-◌, ◌*◌, ◌/◌, ◌%◌, ◌^◌, bit_and, bit_or, Bool, true, false, List, [], ◌∷◌,
  ◌++◌, ◌==◌, ltb, if◌then◌else◌, take, drop, replicate, length,
}
use lamb_os.Base.Outcome.{Outcome, done, fault, ◌>>=◌, store}

abbrev pub vga_width : ℕ
vga_width = 80

abbrev pub vga_height : ℕ
vga_height = 25

pub record Console : Type 0 where
  pub cursor_is_visible : Bool
  pub row : ℕ
  pub column : ℕ
  pub color : ℕ
  pub buffer : List ℕ
  -- The calls of `outb` so far: port and value.
  pub outs : List (ℕ × ℕ)

-- A `char` is a byte that is read as signed, so the cast to 16 bits copies its sign.
unfoldable pub make_vgaentry : ℕ → ℕ → ℕ
make_vgaentry c color =
    let c16 = (if ltb c 0x80 then c else 0xFF00 + c) in bit_or c16 (color * 2 ^ 8 % 2 ^ 16)

-- `row` and `col` were cast to 16 bits.
unfoldable pub move_cursor_to : Console → ℕ → ℕ → Console
move_cursor_to s row col =
    let position = (row % 2 ^ 16 * 80 + col % 2 ^ 16) % 2 ^ 16 in
    record s {
      outs =
          s.outs
          ++ ((0x3D4, 0x0F)
              ∷ (0x3D5, position % 2 ^ 8)
              ∷ (0x3D4, 0x0E)
              ∷ (0x3D5, position / 2 ^ 8 % 2 ^ 8)
              ∷ []);
    }

unfoldable pub move_to : Console → ℕ → ℕ → Console
move_to s row col =
    let s' = (if s.cursor_is_visible then move_cursor_to s row col else s) in
    record s' { row = row; column = col }

unfoldable pub set_cursor_visible : Console → Bool → Console
set_cursor_visible s is_visible =
    let s' = record s { cursor_is_visible = is_visible } in
    if is_visible then move_cursor_to s' s.row s.column else move_cursor_to s' 0xFF 0xFF

pub set_foreground_color : Console → ℕ → Console
set_foreground_color s fg = record s { color = bit_or (bit_and s.color 0xF0) fg % 2 ^ 8 }

pub set_background_color : Console → ℕ → Console
set_background_color s bg = record s {
  color = bit_or (bit_and s.color 0x0F) (bg * 2 ^ 4 % 2 ^ 32) % 2 ^ 8;
}

-- The store of `putCharAt`; `size_t` has 32 bits.
pub put_cell : List ℕ → ℕ → ℕ → ℕ → Outcome (List ℕ)
put_cell buffer row col entry = store buffer ((row * vga_width + col) % 2 ^ 32) entry

pub put_char_at : Console → ℕ → ℕ → ℕ → Outcome Console
put_char_at s c row col = do
  buffer' ← put_cell s.buffer row col (make_vgaentry c s.color)
  done (record s { buffer = buffer' })

-- for (i = col; i < width; i++) buffer[row * width + i] = entry, with `n` columns to go.
pub fill_row : ℕ → ℕ → ℕ → ℕ → List ℕ → Outcome (List ℕ)
fill_row zero row col entry buffer = done buffer
fill_row (suc n) row col entry buffer = do
  buffer' ← put_cell buffer row col entry
  fill_row n row (col + 1) entry buffer'

-- for (j = row; j < height; j++), with `n` rows to go.
pub fill_rows : ℕ → ℕ → ℕ → List ℕ → Outcome (List ℕ)
fill_rows zero row entry buffer = done buffer
fill_rows (suc n) row entry buffer = do
  buffer' ← fill_row vga_width row 0 entry buffer
  fill_rows n (row + 1) entry buffer'

pub clear : Console → Outcome Console
clear s = do
  buffer' ← fill_rows vga_height 0 (make_vgaentry b' ' s.color) s.buffer
  done (move_to (record s { buffer = buffer' }) 0 0)

-- `memcpy(buffer, buffer + width * lines, 2 * (width * (height - lines)))`. Beyond the height the
-- count wraps round and the copy runs off the screen.
pub copy_up : ℕ → List ℕ → Outcome (List ℕ)
copy_up lines buffer =
    let count = vga_width * (vga_height - lines) in
    if ltb vga_height lines
    then fault
    else if ltb (length buffer) (vga_width * lines + count)
    then fault
    else done (take count (drop (vga_width * lines) buffer) ++ drop count buffer)

pub scroll : Console → ℕ → Outcome Console
scroll s lines = if lines == 0 then done s else (do
  copied ← copy_up lines s.buffer
  blanked ← fill_rows lines (vga_height - lines) (make_vgaentry b' ' s.color) copied
  done (record s { buffer = blanked }))

-- `++_consoleRow`, and the scroll where that reaches the height.
pub next_row : Console → Outcome Console
next_row s =
    let s' = record s { row = (s.row + 1) % 2 ^ 32 } in
    if s'.row == vga_height
    then (do scrolled ← scroll s' 1; done (move_to scrolled (vga_height - 1) 0))
    else done s'

pub put_char : Console → ℕ → Outcome Console
put_char s c = do
  s₁ ←
      (if c == b'\n' then next_row (record s { column = 0 }) else (do
        s' ← put_char_at s c s.row s.column
        let col = (s.column + 1) % 2 ^ 32
        (if col == vga_width
            then next_row (record s' { column = 0 })
            else done (record s' { column = col }))))
  done (move_to s₁ s₁.row s₁.column)

-- The loop of `writeString`, over the characters left.
pub put_chars : Console → List ℕ → Outcome Console
put_chars s [] = done s
put_chars s (c ∷ cs) = do s' ← put_char s c; put_chars s' cs

pub write_string : Console → List ℕ → Outcome Console
write_string s text =
    let move_cursor = s.cursor_is_visible in
    (do
      s' ← put_chars (if move_cursor then set_cursor_visible s false else s) text
      done (if move_cursor then set_cursor_visible s' true else s'))
