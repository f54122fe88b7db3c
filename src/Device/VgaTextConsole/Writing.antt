-- ===== src/Device/VgaTextConsole/Writing.antt =====
-- `putChar` and `writeString` against the specification of the screen.
use lamb_os.Base.{
  ℕ, ◌+◌, ◌*◌, ◌/◌, ◌%◌, ◌^◌, ◌<◌, ◌≡◌, refl, sym, ap, ◌∙◌, Bool, true, false, List, [], ◌∷◌, ◌==◌,
  if◌then◌else◌, arith, get_or, inl, inr, Bool-cases, ne→==,
}
use native.Mathlib.Decide.{ℕ_discrete}
use lamb_os.Base.Outcome.{done, ◌>>=◌}
use lamb_os.Device.VgaTextConsole.{
  Console, make_vgaentry, move_to, move_cursor_to, set_cursor_visible, put_cell, put_char_at,
  next_row, put_char, put_chars, write_string,
}
use lamb_os.Device.VgaTextConsole.Cells.{put_cell_returns}
use lamb_os.Device.VgaTextConsole.Screen.{Screen, type, type_all, Shows}
use lamb_os.Device.VgaTextConsole.Scrolling.{next_row-Shows}

move_to-Shows :
    (color : ℕ) (s : Console) (t : Screen)
    → Shows color s t
    → Shows color (move_to s s.row s.column) t
      × ((move_to s s.row s.column).cursor_is_visible ≡ s.cursor_is_visible)
unfolding move_to move_cursor_to
move_to-Shows color s t v = (
  record {
    row_in = ground arith;
    column_in = ground arith;
    size = ground arith;
    color_is = ground arith;
    at_is = ground arith;
    cells_are = λ k lt. ground (arith, v.cells_are k lt);
  },
  ground arith,
)

at_edge :
    (s s₁ : Console) (c : ℕ) (b' : List ℕ)
    → (c == b'\n') ≡ false
    → put_cell s.buffer s.row s.column (make_vgaentry c s.color) ≡ done b'
    → s.column + 1 ≡ 80
    → next_row (record s { buffer = b'; column = 0 }) ≡ done s₁
    → put_char s c ≡ done (move_to s₁ s₁.row s₁.column)
unfolding put_char put_char_at
at_edge s s₁ c b' plain stored e next =
    let bump : (s.column + 1) % 2 ^ 32 ≡ 80 = omega arith in rw (plain, stored, bump, next)

inside_row :
    (s : Console) (c : ℕ) (b' : List ℕ)
    → (c == b'\n') ≡ false
    → put_cell s.buffer s.row s.column (make_vgaentry c s.color) ≡ done b'
    → s.column + 1 < 80
    → put_char s c
      ≡ done (move_to (record s { buffer = b'; column = s.column + 1 }) s.row (s.column + 1))
unfolding put_char put_char_at
inside_row s c b' plain stored h =
    let bump : (s.column + 1) % 2 ^ 32 ≡ s.column + 1 = omega arith in
    rw (plain, stored, bump, ne→== (s.column + 1) 80 (omega arith))

-- The state that `putChar` hands to its last `moveTo`.
module _ (color : ℕ) (s : Console) (t : Screen) (v : Shows color s t) where
  ends :
      (s₁ : Console) {t' : Screen} (c : ℕ)
      → put_char s c ≡ done (move_to s₁ s₁.row s₁.column)
      → Shows color s₁ t'
      → s₁.cursor_is_visible ≡ s.cursor_is_visible
      → (s' : Console) × (put_char s c ≡ done s')
        × Shows color s' t'
        × (s'.cursor_is_visible ≡ s.cursor_is_visible)
  ends s₁ {t'} c e shows vis =
      let (shows', vis') = move_to-Shows color s₁ t' shows in
      (move_to s₁ s₁.row s₁.column, e, shows', vis' ∙ vis)

  newline :
      (c : ℕ)
      → (c == b'\n') ≡ true
      → (s' : Console) × (put_char s c ≡ done s')
        × Shows color s' (type color t c)
        × (s'.cursor_is_visible ≡ s.cursor_is_visible)
  unfolding put_char
  newline c nl =
      let s₀ = record s { column = 0 } in
      let t₀ : Screen = record { at = (t.at / 80 + 1) * 80; cells = t.cells } in
      let (s₁, returns, shows, vis) =
        next_row-Shows s₀ t₀ color v.row_in refl v.size v.color_is
          (omega (arith, v.at_is, v.column_in)) v.cells_are in
      ends s₁ c (rw (nl, returns)) (rw nl shows) vis

  graphic :
      (c : ℕ)
      → (c == b'\n') ≡ false
      → (s' : Console) × (put_char s c ≡ done s')
        × Shows color s' (type color t c)
        × (s'.cursor_is_visible ≡ s.cursor_is_visible)
  graphic c plain =
      let (b', stored, f) =
        put_cell_returns s.buffer s.row s.column (make_vgaentry c s.color) v.row_in v.column_in
          v.size in
      let t₀ : Screen = record {
        at = t.at + 1;
        cells = λ k. if t.at == k then make_vgaentry c color else t.cells k;
      } in
      let cells : (k : ℕ) → k < 2000 → get_or b' k 0 ≡ t₀.cells k = λ k lt.
        ground (arith, f.cells k, v.cells_are k lt, v.at_is, ap (make_vgaentry c) v.color_is) in
      elim (ℕ_discrete (s.column + 1) 80) [
        | yes e ↦
            let (s₁, returns, shows, vis) =
              next_row-Shows (record s { buffer = b'; column = 0 }) t₀ color v.row_in refl
                (f.size ∙ v.size) v.color_is (omega (arith, v.at_is)) cells in
            ends s₁ c (at_edge s s₁ c b' plain stored e returns) (rw plain shows) vis
        | no ne ↦
            ends (record s { buffer = b'; column = s.column + 1 }) c
              (inside_row s c b' plain stored (omega (arith, v.column_in)))
              (rw (plain, ne→== (t.at + 1) 2000 (omega (arith, v.at_is, v.row_in, v.column_in)))
                (record {
                  row_in = v.row_in;
                  column_in = omega (arith, v.column_in);
                  size = f.size ∙ v.size;
                  color_is = v.color_is;
                  at_is = omega (arith, v.at_is);
                  cells_are = cells;
                }))
              refl
      ]

-- `putChar` on a console that shows a screen returns, and shows the screen after the character:
-- a newline goes to the start of the next row, any other character is stored at the cursor, which
-- advances; leaving the last row scrolls. The cursor's visibility stays.
pub put_char_refines :
    (color : ℕ) (s : Console) (t : Screen) (c : ℕ)
    → Shows color s t
    → (s' : Console) × (put_char s c ≡ done s')
      × Shows color s' (type color t c)
      × (s'.cursor_is_visible ≡ s.cursor_is_visible)
put_char_refines color s t c v = elim (Bool-cases (c == b'\n')) [
  | inl nl ↦ newline color s t v c nl
  | inr plain ↦ graphic color s t v c plain
]

put_chars_refines :
    (color : ℕ) (text : List ℕ) (s : Console) (t : Screen)
    → Shows color s t
    → (s' : Console) × (put_chars s text ≡ done s')
      × Shows color s' (type_all color t text)
      × (s'.cursor_is_visible ≡ s.cursor_is_visible)
unfolding put_chars type_all
put_chars_refines color [] s t v = (s, refl, v, refl)
put_chars_refines color (c ∷ cs) s t v =
    let (s₁, e₁, v₁, vis₁) = put_char_refines color s t c v in
    let (s₂, e₂, v₂, vis₂) = put_chars_refines color cs s₁ (type color t c) v₁ in
    (s₂, rw e₁ e₂, v₂, vis₂ ∙ vis₁)

set_cursor_visible-Shows :
    (color : ℕ) (s : Console) (t : Screen) (b : Bool)
    → Shows color s t
    → Shows color (set_cursor_visible s b) t × ((set_cursor_visible s b).cursor_is_visible ≡ b)
unfolding set_cursor_visible move_cursor_to
set_cursor_visible-Shows color s t true v = (
  record {
    row_in = v.row_in;
    column_in = v.column_in;
    size = v.size;
    color_is = v.color_is;
    at_is = v.at_is;
    cells_are = v.cells_are;
  },
  refl,
)
set_cursor_visible-Shows color s t false v = (
  record {
    row_in = v.row_in;
    column_in = v.column_in;
    size = v.size;
    color_is = v.color_is;
    at_is = v.at_is;
    cells_are = v.cells_are;
  },
  refl,
)

write_string_by :
    (s : Console) (text : List ℕ) (b : Bool)
    → s.cursor_is_visible ≡ b
    → write_string s text ≡ (
        put_chars (if b then set_cursor_visible s false else s) text >>= λ s'.
        done (if b then set_cursor_visible s' true else s'))
unfolding write_string
write_string_by s text b e =
    ap
      (λ v. put_chars (if v then set_cursor_visible s false else s) text >>= λ s'.
        done (if v then set_cursor_visible s' true else s'))
      e

-- `writeString` of any text returns, shows the screen after its characters in order, and leaves
-- the cursor as visible as it was.
pub write_string_refines :
    (color : ℕ) (text : List ℕ) (s : Console) (t : Screen)
    → Shows color s t
    → (s' : Console) × (write_string s text ≡ done s')
      × Shows color s' (type_all color t text)
      × (s'.cursor_is_visible ≡ s.cursor_is_visible)
write_string_refines color text s t v = elim (Bool-cases s.cursor_is_visible) [
  | inl vis ↦
      let (hidden, _) = set_cursor_visible-Shows color s t false v in
      let (s₁, e, v₁, _) = put_chars_refines color text (set_cursor_visible s false) t hidden in
      let (shown, seen) = set_cursor_visible-Shows color s₁ (type_all color t text) true v₁ in
      (set_cursor_visible s₁ true, write_string_by s text true vis ∙ rw e, shown, seen ∙ sym vis)
  | inr hid ↦
      let (s₁, e, v₁, same) = put_chars_refines color text s t v in
      (s₁, write_string_by s text false hid ∙ rw e, v₁, same)
]
