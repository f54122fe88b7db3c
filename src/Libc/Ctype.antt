-- ===== src/Libc/Ctype.antt =====
-- libc/src/ctype.c. An `int` is the number of its 32 bits, so that a negative one is above all
-- characters; the comparisons below agree on it with those of the code.
pub mod Laws
use lamb_os.Base.{
  ℕ, ◌+◌, ◌-◌, ◌%◌, ◌^◌, Bool, true, false, not, ◌&&◌, ◌||◌, ◌==◌, leb, if◌then◌else◌,
}

unfoldable pub is_lower : ℕ → Bool
is_lower c = leb b'a' c && leb c b'z'

unfoldable pub is_upper : ℕ → Bool
is_upper c = leb b'A' c && leb c b'Z'

unfoldable pub is_alpha : ℕ → Bool
is_alpha c = is_lower c || is_upper c

unfoldable pub is_digit : ℕ → Bool
is_digit c = leb b'0' c && leb c b'9'

unfoldable pub is_alnum : ℕ → Bool
is_alnum c = is_alpha c || is_digit c

unfoldable pub is_blank : ℕ → Bool
is_blank c = c == b' ' || c == 9

-- `c >= 0` is `c < 2 ^ 31`, and follows from the other test.
unfoldable pub is_cntrl : ℕ → Bool
is_cntrl c = leb c 0x1F || c == 0x7F

unfoldable pub is_print : ℕ → Bool
is_print c = not (is_cntrl c)

unfoldable pub is_graph : ℕ → Bool
is_graph c = is_print c && not (c == b' ')

unfoldable pub is_punct : ℕ → Bool
is_punct c = is_graph c && not (is_alnum c)

unfoldable pub is_space : ℕ → Bool
is_space c = c == b' ' || (c == 10 || (c == 9 || (c == 12 || (c == 11 || c == 13))))

unfoldable pub is_xdigit : ℕ → Bool
is_xdigit c = is_digit c || ((leb b'A' c && leb c b'F') || (leb b'a' c && leb c b'f'))

unfoldable pub to_lower : ℕ → ℕ
to_lower c = if is_upper c then (c + 0x20) % 2 ^ 32 else c

unfoldable pub to_upper : ℕ → ℕ
to_upper c = if is_lower c then c - 0x20 else c
