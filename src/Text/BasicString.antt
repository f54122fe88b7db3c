-- ===== src/Text/BasicString.antt =====
-- The comparison of strings, libsys/include/util/BasicString.hpp. A string is the list of its
-- characters, behind which memory holds a null character.
mod Tests
use lamb_os.Base.{
  ℕ, suc, ◌≡◌, ◌≢◌, refl, ap, ◌∙◌, Bool, true, false, ◌&&◌, List, [], ◌∷◌, ◌++◌, ◌==◌,
  if◌then◌else◌, arith, length, get_or, ne→==, length-append, ==_self, Bool-cases, inl, inr,
}

-- The characters that the two pointers of `operator<=>` end on: the loop condition
-- `*str1 && *str2 && *str1++ == *str2++` moves both on, also past a difference.
unfoldable pub stops_at : List ℕ → List ℕ → ℕ × ℕ
stops_at [] ys = (0, get_or ys 0 0)
stops_at (x ∷ xs) [] = (x, 0)
stops_at (x ∷ xs) (y ∷ ys) =
    if x == 0
    then (x, y)
    else if y == 0
    then (x, y)
    else if x == y
    then stops_at xs ys
    else (get_or xs 0 0, get_or ys 0 0)

-- `operator==`: the sizes agree and `<=>` says `equal`.
unfoldable pub eq_string : List ℕ → List ℕ → Bool
eq_string a b = let (c, d) = stops_at a b in length a == length b && c == d

same_stop : (a : List ℕ) → (stops_at a a).0 ≡ (stops_at a a).1
unfolding stops_at
same_stop [] = refl
same_stop (x ∷ a) = ground (arith, same_stop a)

-- Every string compares equal to itself.
pub eq_string_self : (a : List ℕ) → eq_string a a ≡ true
unfolding eq_string
eq_string_self a = ground (arith, same_stop a)

past_difference :
    (p r : List ℕ) (x y : ℕ)
    → x ≢ 0
    → y ≢ 0
    → x ≢ y
    → (stops_at (p ++ (x ∷ r)) (p ++ (y ∷ r))).0 ≡ (stops_at (p ++ (x ∷ r)) (p ++ (y ∷ r))).1
unfolding stops_at
past_difference [] r x y hx hy ne = rw (ne→== x 0 hx, ne→== y 0 hy, ne→== x y ne)
past_difference (c ∷ p) r x y hx hy ne = ground (arith, past_difference p r x y hx hy ne)

-- Two strings that differ in one character only, which is not the null character in either,
-- compare equal.
pub eq_string_collides :
    (p r : List ℕ) (x y : ℕ)
    → x ≢ 0
    → y ≢ 0
    → x ≢ y
    → eq_string (p ++ (x ∷ r)) (p ++ (y ∷ r)) ≡ true
unfolding eq_string
eq_string_collides p r x y hx hy ne =
    ground
      (arith, past_difference p r x y hx hy ne, length-append p (x ∷ r), length-append p (y ∷ r))
