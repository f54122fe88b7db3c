-- ===== src/Text/StringTokenizer/Words.antt =====
-- The words of a text, by an independent description, and how they come apart from the front.
use lamb_os.Base.{
  ℕ, ◌+◌, ◌≤◌, ◌<◌, ◌≡◌, refl, ap, ◌⊎◌, inl, inr, Bool, true, false, List, [], ◌∷◌, if◌then◌else◌,
  arith, length, take, drop, Bool-cases,
}

-- A character joins the first word of the rest, unless a delimiter stands between them.
abbrev pub attach : ℕ → Bool → List (List ℕ) → List (List ℕ)
attach c true ws = (c ∷ []) ∷ ws
attach c false [] = (c ∷ []) ∷ []
attach c false (w ∷ ws) = (c ∷ w) ∷ ws

module _ (delim : ℕ → Bool) where
  -- Does a word end here?
  abbrev pub at_end : List ℕ → Bool
  at_end [] = true
  at_end (c ∷ cs) = delim c

  abbrev pub words : List ℕ → List (List ℕ)
  words [] = []
  words (c ∷ cs) = if delim c then words cs else attach c (at_end cs) (words cs)

  abbrev pub skip : List ℕ → List ℕ
  skip [] = []
  skip (c ∷ cs) = if delim c then skip cs else c ∷ cs

  abbrev pub word : List ℕ → List ℕ
  word [] = []
  word (c ∷ cs) = if delim c then [] else c ∷ word cs

  abbrev pub after : List ℕ → List ℕ
  after [] = []
  after (c ∷ cs) = if delim c then c ∷ cs else after cs

  pub words-skip : (cs : List ℕ) → words (skip cs) ≡ words cs
  words-skip [] = refl
  words-skip (c ∷ cs) = elim (Bool-cases (delim c)) [
    | inl e ↦ rw (e) (words-skip cs)
    | inr e ↦ ap words {x = skip (c ∷ cs)} {y = c ∷ cs} (rw (e))
  ]

  ended : (cs : List ℕ) → at_end cs ≡ true → (word cs ≡ []) × (after cs ≡ cs)
  ended [] h = (refl, refl)
  ended (c ∷ cs) h = (rw (h), rw (h))

  pub words-word : (cs : List ℕ) → at_end cs ≡ false → words cs ≡ word cs ∷ words (after cs)
  words-word [] h = cc
  words-word (c ∷ cs) h = elim (Bool-cases (at_end cs)) [
    | inl e ↦ rw (h, e, (ended cs e).0, (ended cs e).1)
    | inr e ↦ rw (h, e, words-word cs e)
  ]

  pub skip-cases : (cs : List ℕ) → (skip cs ≡ []) ⊎ (at_end (skip cs) ≡ false)
  skip-cases [] = inl refl
  skip-cases (c ∷ cs) = elim (Bool-cases (delim c)) [
    | inl e ↦ rw (e) (skip-cases cs)
    | inr e ↦ inr (rw (e) e)
  ]

  pub length-skip : (cs : List ℕ) → length (skip cs) ≤ length cs
  length-skip [] = omega arith
  length-skip (c ∷ cs) = elim (Bool-cases (delim c)) [
    | inl e ↦ rw (e) (omega (arith, length-skip cs))
    | inr e ↦ rw (e) (omega arith)
  ]

  pub take-word : (cs : List ℕ) → take (length (word cs)) cs ≡ word cs
  take-word [] = refl
  take-word (c ∷ cs) = elim (Bool-cases (delim c)) [
    | inl e ↦ rw (e)
    | inr e ↦ rw (e) (ap (λ w. c ∷ w) (take-word cs))
  ]

  pub drop-word : (cs : List ℕ) → drop (length (word cs)) cs ≡ after cs
  drop-word [] = refl
  drop-word (c ∷ cs) = elim (Bool-cases (delim c)) [
    | inl e ↦ rw (e)
    | inr e ↦ rw (e) (drop-word cs)
  ]

  pub length-word : (cs : List ℕ) → length (word cs) + length (after cs) ≡ length cs
  length-word [] = refl
  length-word (c ∷ cs) = elim (Bool-cases (delim c)) [
    | inl e ↦ rw (e) (omega arith)
    | inr e ↦ rw (e) (omega (arith, length-word cs))
  ]

  pub length-word_pos : (cs : List ℕ) → at_end cs ≡ false → 0 < length (word cs)
  length-word_pos [] h = cc
  length-word_pos (c ∷ cs) h = rw (h) (omega arith)
