-- ===== src/Device/VgaTextConsole/Tests.antt =====
-- Runs of the console, and its theorems at a concrete screen.
use lamb_os.Base.{
  ℕ, ◌+◌, ◌-◌, ◌*◌, ◌<◌, ◌≡◌, refl, List, [], ◌∷◌, arith, true, if◌then◌else◌, ltb, length, get_or,
  replicate, length-replicate,
}
use lamb_os.Base.Outcome.{done}
use lamb_os.Device.VgaTextConsole.{
  Console, make_vgaentry, set_foreground_color, scroll, write_string,
}
use lamb_os.Device.VgaTextConsole.Screen.{Screen, type_all, Shows}
use lamb_os.Device.VgaTextConsole.Scrolling.{scroll_correct}
use lamb_os.Device.VgaTextConsole.Writing.{write_string_refines}

-- The cursor in the last cell, light grey on black.
at_the_end : Console
at_the_end = record {
  cursor_is_visible = true;
  row = 24;
  column = 79;
  color = 7;
  buffer = replicate 2000 0x0720;
  outs = [];
}

abbrev blank : Screen
blank = record { at = 1999; cells = λ k. get_or (replicate 2000 0x0720) k 0 }

at_the_end-size : length at_the_end.buffer ≡ 2000
unfolding at_the_end
at_the_end-size = length-replicate {A = ℕ} 2000 0x0720

at_the_end-Shows : Shows 7 at_the_end blank
unfolding at_the_end
at_the_end-Shows = record {
  row_in = omega arith;
  column_in = omega arith;
  size = at_the_end-size;
  color_is = refl;
  at_is = refl;
  cells_are = λ k lt. refl;
}

entry-a : make_vgaentry b'a' 7 ≡ 0x0761
unfolding make_vgaentry
entry-a = refl

foreground : (set_foreground_color (record at_the_end { color = 0x47 }) 0xF).color ≡ 0x4F
unfolding set_foreground_color
foreground = refl

scroll_correct_example :
    (b' : List ℕ) × (scroll at_the_end 1 ≡ done (record at_the_end { buffer = b' }))
    × (length b' ≡ 2000)
    × ((k : ℕ)
        → k < 2000
        → get_or b' k 0 ≡ (
            if ltb k (80 * (25 - 1))
            then get_or at_the_end.buffer (k + 80 * 1) 0
            else make_vgaentry b' ' at_the_end.color))
scroll_correct_example = scroll_correct at_the_end 1 (omega arith) at_the_end-size

write_string_refines_example :
    (s' : Console) × (write_string at_the_end (b'a' ∷ b'\n' ∷ []) ≡ done s')
    × Shows 7 s' (type_all 7 blank (b'a' ∷ b'\n' ∷ []))
    × (s'.cursor_is_visible ≡ at_the_end.cursor_is_visible)
write_string_refines_example =
    write_string_refines 7 (b'a' ∷ b'\n' ∷ []) at_the_end blank at_the_end-Shows
