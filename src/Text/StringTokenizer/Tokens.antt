-- ===== src/Text/StringTokenizer/Tokens.antt =====
-- The tokens that the tokenizer returns are the words of its text.
use lamb_os.Base.{
  ℕ, zero, suc, ◌+◌, ◌-◌, ◌%◌, ◌^◌, ◌≤◌, ◌<◌, ◌≡◌, refl, sym, ap, ◌∙◌, Bool, true, false, not, List,
  [], ◌∷◌, false≢true, Bool-cases, if◌then◌else◌, ◌==◌, arith, length, take, drop, drop-drop, inl,
  inr, length-drop, le→ltb, ne→==,
}
use lamb_os.Base.Outcome.{done}
use lamb_os.Text.StringTokenizer.{
  StringTokenizer, is_delim, token_start_from, token_end_from, token_start, has_next_token,
  next_token, substring, copied, copied_from, read_tokens,
}
use lamb_os.Text.StringTokenizer.Words.{
  at_end, words, skip, word, after, words-skip, words-word, skip-cases, length-skip, take-word,
  drop-word, length-word, length-word_pos,
}
use lamb_os.Text.StringTokenizer.Scan.{IsLeft, token_start_finds, token_end_finds}

abbrev pub no_null : List ℕ → Bool
no_null [] = true
no_null (c ∷ cs) = if c == 0 then false else no_null cs

pub no_null-next :
    (c : ℕ) (s : List ℕ) → no_null (c ∷ s) ≡ true → ((c == 0) ≡ false) × (no_null s ≡ true)
no_null-next c s h = elim (Bool-cases (c == 0)) [
  | inl z ↦ let found : no_null (c ∷ s) ≡ false = rw (z) in absurd (false≢true (sym found ∙ h))
  | inr nz ↦ let same : no_null (c ∷ s) ≡ no_null s = rw (nz) in (nz, sym same ∙ h)
]

no_null-take : (n : ℕ) (s : List ℕ) → no_null s ≡ true → no_null (take n s) ≡ true
no_null-take zero s h = refl
no_null-take (suc n) [] h = refl
no_null-take (suc n) (c ∷ s) h =
    rw ((no_null-next c s h).0) (no_null-take n s (no_null-next c s h).1)

no_null-drop : (n : ℕ) (s : List ℕ) → no_null s ≡ true → no_null (drop n s) ≡ true
no_null-drop zero s h = h
no_null-drop (suc n) [] h = refl
no_null-drop (suc n) (c ∷ s) h = no_null-drop n s (no_null-next c s h).1

copied_same : (fresh : ℕ → ℕ) (i : ℕ) (s : List ℕ) → no_null s ≡ true → copied_from fresh i s ≡ s
unfolding copied_from
copied_same fresh i [] h = refl
copied_same fresh i (c ∷ s) h =
    rw ((no_null-next c s h).0, copied_same fresh (i + 1) s (no_null-next c s h).1)

-- A text without a null character is copied as it is.
pub copied_lem : (fresh : ℕ → ℕ) (s : List ℕ) → no_null s ≡ true → copied fresh s ≡ s
copied_lem fresh s h = copied_same fresh 0 s h

substring_inside :
    (fresh : ℕ → ℕ) (s : List ℕ) (start n : ℕ)
    → no_null s ≡ true
    → start + n ≤ length s
    → substring fresh s start n ≡ take n (drop start s)
unfolding substring
substring_inside fresh s start n plain h =
    rw (le→ltb (length s) start (omega arith), le→ltb (length s - start) n (omega arith))
      (copied_lem fresh (take n (drop start s))
        (no_null-take n (drop start s) (no_null-drop start s plain)))

module _ (fresh : ℕ → ℕ) (t : StringTokenizer) where
  abbrev delim : ℕ → Bool
  delim = is_delim t.delimiters

  start_finds :
      (xs : List ℕ)
      → IsLeft t.string t.current_index xs
      → (j : ℕ) × (token_start t t.current_index ≡ done j) × IsLeft t.string j (skip delim xs)
  start_finds xs h =
      let (j, e, left) = token_start_finds t.string t.delimiters xs t.current_index h in
      (
        j,
        ap (λ n. token_start_from t.string t.delimiters n t.current_index) {y = length xs}
              (omega (arith, h.size))
            ∙ e,
        left,
      )

  -- From the start of a word on, one token is that word.
  word_ends :
      (j : ℕ) (ys : List ℕ)
      → IsLeft t.string j ys
      → at_end delim ys ≡ false
      → length t.string < 2 ^ 32
      → (last : ℕ) × (token_end_from t.string t.delimiters (length t.string - j) j ≡ done last)
        × ((last + 1) % 2 ^ 32 ≡ j + length (word delim ys))
  word_ends j ys h ne small = (
    (j + length (word delim ys) + 2 ^ 32 - 1) % 2 ^ 32,
    ap (λ n. token_end_from t.string t.delimiters n j) {y = length ys} (omega (arith, h.size))
        ∙ token_end_finds t.string t.delimiters ys j h,
    omega (arith, length-word_pos delim ys ne, length-word delim ys, h.size),
  )

  word-IsLeft :
      (j : ℕ) (ys : List ℕ)
      → IsLeft t.string j ys
      → IsLeft t.string (j + length (word delim ys)) (after delim ys)
  word-IsLeft j ys h = record {
    rest =
        sym (drop-drop (length (word delim ys)) j t.string)
        ∙ ap (drop (length (word delim ys))) h.rest
        ∙ drop-word delim ys;
    size = omega (arith, length-word delim ys, h.size);
  }

  word_cut :
      (j end : ℕ) (ys : List ℕ)
      → IsLeft t.string j ys
      → length t.string < 2 ^ 32
      → end ≡ j + length (word delim ys)
      → no_null t.string ≡ true
      → substring fresh t.string j ((end + 2 ^ 32 - j) % 2 ^ 32) ≡ word delim ys
  word_cut j end ys h small e plain =
      ap (substring fresh t.string j) {y = length (word delim ys)}
        (omega (arith, length-word delim ys, h.size))
      ∙ substring_inside fresh t.string j (length (word delim ys)) plain
          (omega (arith, length-word delim ys, h.size))
      ∙ ap (take (length (word delim ys))) h.rest
      ∙ take-word delim ys

  next_from :
      (xs : List ℕ)
      → IsLeft t.string t.current_index xs
      → length t.string < 2 ^ 32
      → no_null t.string ≡ true
      → (i : ℕ) × (next_token fresh t
          ≡ done (word delim (skip delim xs), record t { current_index = i }))
        × IsLeft t.string i (after delim (skip delim xs))
  unfolding next_token
  next_from xs h small plain =
      let (j, starts, left) = start_finds xs h in
      elim (skip-cases delim xs) [
        | inl none_left ↦
            let ended : j ≡ length t.string = omega (arith, ap length none_left, left.size) in
            let full : (j == length t.string) ≡ true = ground arith in
            (
              j,
              rw (starts, full, none_left),
              rw (none_left) (record { rest = left.rest ∙ none_left; size = omega arith }),
            )
        | inr more ↦
            let (last, ends, at) = word_ends j (skip delim xs) left more small in
            let inside : (j == length t.string) ≡ false = ne→== j (length t.string) (
              omega (
                arith,
                length-word_pos delim (skip delim xs) more,
                length-word delim (skip delim xs),
                left.size,
              )) in
            (
              (last + 1) % 2 ^ 32,
              rw (starts, inside, ends)
                  (ap (λ w. done (w, record t { current_index = (last + 1) % 2 ^ 32 }))
                    (word_cut j ((last + 1) % 2 ^ 32) (skip delim xs) left small at plain)),
              rw (at) (word-IsLeft j (skip delim xs) left),
            )
      ]

  more_from :
      (xs : List ℕ)
      → IsLeft t.string t.current_index xs
      → has_next_token t ≡ done (not (at_end delim (skip delim xs)))
  unfolding has_next_token
  more_from xs h =
      let (j, starts, left) = start_finds xs h in
      elim (skip-cases delim xs) [
        | inl none_left ↦
            let ended : j ≡ length t.string = omega (arith, ap length none_left, left.size) in
            let full : (j == length t.string) ≡ true = ground arith in rw (starts, full, none_left)
        | inr more ↦
            let inside : (j == length t.string) ≡ false = ne→== j (length t.string) (
              omega (
                arith,
                length-word_pos delim (skip delim xs) more,
                length-word delim (skip delim xs),
                left.size,
              )) in
            rw (starts, inside, more)
      ]

abbrev pub left_of : StringTokenizer → List ℕ
left_of t = drop t.current_index t.string

from_index :
    (t : StringTokenizer)
    → t.current_index ≤ length t.string
    → IsLeft t.string t.current_index (left_of t)
from_index t h = record { rest = refl; size = omega (arith, length-drop t.current_index t.string) }

-- On a string without a null character whose length a `size_t` holds, with the index in it, `hasNextToken` tells whether a
-- word is left, and `nextToken` returns the first word that is left, or nothing if there is none,
-- and leaves the text behind it.
pub next_token_lem :
    (fresh : ℕ → ℕ) (t : StringTokenizer)
    → t.current_index ≤ length t.string
    → length t.string < 2 ^ 32
    → no_null t.string ≡ true
    → (has_next_token t
        ≡ done (not (at_end (is_delim t.delimiters) (skip (is_delim t.delimiters) (left_of t)))))
      × ((i : ℕ) × (next_token fresh t
            ≡ done (
              word (is_delim t.delimiters) (skip (is_delim t.delimiters) (left_of t)),
              record t { current_index = i },
            ))
          × (i ≤ length t.string)
          × (drop i t.string
              ≡ after (is_delim t.delimiters) (skip (is_delim t.delimiters) (left_of t))))
next_token_lem fresh t h small plain =
    let left = from_index t h in
    let (i, e, rest) = next_from fresh t (left_of t) left small plain in
    (more_from fresh t (left_of t) left, (i, e, omega (arith, rest.size), rest.rest))

read_from :
    (fresh : ℕ → ℕ) (n : ℕ) (t : StringTokenizer) (xs : List ℕ)
    → IsLeft t.string t.current_index xs
    → length t.string < 2 ^ 32
    → no_null t.string ≡ true
    → length xs < n
    → read_tokens fresh n t ≡ done (words (is_delim t.delimiters) xs)
unfolding read_tokens
read_from fresh zero t xs h small plain fuel = absurd (omega arith)
read_from fresh (suc n) t xs h small plain fuel = elim (skip-cases (is_delim t.delimiters) xs) [
  | inl none_left ↦
      rw (more_from fresh t xs h, none_left)
        (ap done (
          sym (ap (words (is_delim t.delimiters)) none_left)
          ∙ words-skip (is_delim t.delimiters) xs))
  | inr more ↦
      let (i, e, rest) = next_from fresh t xs h small plain in
      let delim = is_delim t.delimiters in
      let later =
        read_from fresh n (record t { current_index = i }) (after delim (skip delim xs)) rest small
          plain
          (omega (
            arith,
            length-skip delim xs,
            length-word delim (skip delim xs),
            length-word_pos delim (skip delim xs) more,
          )) in
      rw (more_from fresh t xs h, more, e, later)
        (ap done (sym (words-word delim (skip delim xs) more) ∙ words-skip delim xs))
]

-- On a string without a null character whose length a `size_t` holds, with the index in it, reading tokens until none is
-- left ends, after at most as many rounds as characters are left and one, and gives the words of
-- the text that is left, in order.
pub read_tokens_lem :
    (fresh : ℕ → ℕ) (n : ℕ) (t : StringTokenizer)
    → t.current_index ≤ length t.string
    → length t.string < 2 ^ 32
    → no_null t.string ≡ true
    → length t.string - t.current_index < n
    → read_tokens fresh n t ≡ done (words (is_delim t.delimiters) (left_of t))
read_tokens_lem fresh n t h small plain fuel =
    read_from fresh n t (left_of t) (from_index t h) small plain
      (omega (arith, length-drop t.current_index t.string))
