-- ===== src/Device/VgaTextConsole/Screen.antt =====
-- The specification of the text screen: a cursor that runs over 2000 cells, and scrolls when it
-- leaves the last one.
use lamb_os.Base.{
  ℕ, ◌+◌, ◌*◌, ◌/◌, ◌<◌, ◌≡◌, List, [], ◌∷◌, ◌==◌, ltb, if◌then◌else◌, length, get_or,
}
use lamb_os.Device.VgaTextConsole.{Console, make_vgaentry}

pub record Screen : Type 0 where
  pub at : ℕ
  pub cells : ℕ → ℕ

-- A cursor behind the last cell: all rows move up by one, and the last row becomes blank.
abbrev pub wrap : ℕ → Screen → Screen
wrap blank t =
    if t.at == 2000
    then record { at = 1920; cells = λ k. if ltb k 1920 then t.cells (k + 80) else blank }
    else t

-- What a character does to a screen whose colour is `color`.
abbrev pub type : ℕ → Screen → ℕ → Screen
type color t c = wrap (make_vgaentry b' ' color) (
    if c == b'\n' then record { at = (t.at / 80 + 1) * 80; cells = t.cells } else record {
      at = t.at + 1;
      cells = λ k. if t.at == k then make_vgaentry c color else t.cells k;
    })

unfoldable pub type_all : ℕ → Screen → List ℕ → Screen
type_all color t [] = t
type_all color t (c ∷ cs) = type_all color (type color t c) cs

-- The console `s` is on the screen, and shows `t` in the colour `color`.
pub record Shows (color : ℕ) (s : Console) (t : Screen) : Type 0 where
  pub row_in : s.row < 25
  pub column_in : s.column < 80
  pub size : length s.buffer ≡ 2000
  pub color_is : s.color ≡ color
  pub at_is : s.row * 80 + s.column ≡ t.at
  pub cells_are : (k : ℕ) → k < 2000 → get_or s.buffer k 0 ≡ t.cells k
