-- ===== src/Libc/Ctype/Laws.antt =====
-- How the classes of characters fit together.
use lamb_os.Base.{ℕ, ◌+◌, ◌≡◌, Bool, true, false, ◌==◌, if◌then◌else◌, arith}
use lamb_os.Libc.Ctype.{
  is_lower, is_upper, is_alpha, is_digit, is_alnum, is_cntrl, is_print, is_graph, is_punct,
  to_lower, to_upper,
}

abbrev pub one_if : Bool → ℕ
one_if b = if b then 1 else 0

-- Each `int` is in exactly one of four classes: letters and digits, punctuation, control
-- characters, and the space. Every one from 128 on is punctuation.
pub classes_partition :
    (c : ℕ)
    → (one_if (is_alnum c) + (one_if (is_punct c) + (one_if (is_cntrl c) + one_if (c == b' '))) ≡ 1)
      × (is_punct (c + 128) ≡ true)
unfolding is_punct is_graph is_print is_cntrl is_alnum is_alpha is_digit is_lower is_upper
classes_partition c = (ground arith, ground arith)

-- The two conversions undo each other on letters, and leave all others as they are.
pub to_lower-to_upper :
    (c : ℕ)
    → (is_lower c ≡ true → (is_upper (to_upper c) ≡ true) × (to_lower (to_upper c) ≡ c))
      × (is_upper c ≡ true → (is_lower (to_lower c) ≡ true) × (to_upper (to_lower c) ≡ c))
      × (is_alpha c ≡ false → (to_lower c ≡ c) × (to_upper c ≡ c))
unfolding is_alpha is_lower is_upper to_lower to_upper
to_lower-to_upper c = (
  λ h. (ground arith, ground arith),
  λ h. (ground arith, ground arith),
  λ h. (ground arith, ground arith),
)
