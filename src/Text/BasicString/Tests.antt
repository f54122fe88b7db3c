-- ===== src/Text/BasicString/Tests.antt =====
-- Comparisons of concrete strings.
use lamb_os.Base.{◌≡◌, refl, true, false, [], ◌∷◌, arith}
use lamb_os.Text.BasicString.{eq_string, stops_at, eq_string_collides}

different : eq_string (b'a' ∷ b'b' ∷ []) (b'c' ∷ b'd' ∷ []) ≡ false
unfolding eq_string stops_at
different = refl

eq_string_collides_example : eq_string (b'a' ∷ b'b' ∷ []) (b'a' ∷ b'c' ∷ []) ≡ true
eq_string_collides_example =
    eq_string_collides (b'a' ∷ []) [] b'b' b'c' (omega arith) (omega arith) (omega arith)
