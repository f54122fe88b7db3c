-- ===== src/Libc/Strtok/Tests.antt =====
-- The first token of " ab c".
use lamb_os.Base.{ℕ, List, [], ◌∷◌, none, some, ◌≡◌, ◌⊎◌, refl}
use lamb_os.Base.Outcome.{done}
use lamb_os.Text.StringTokenizer.{is_delim}
use lamb_os.Text.StringTokenizer.Words.{words}
use lamb_os.Libc.Strtok.{strtok}
use lamb_os.Libc.Strtok.Cutting.{Stands, strtok_lem}

abbrev text : List ℕ
text = b' ' ∷ b'a' ∷ b'b' ∷ b' ' ∷ b'c' ∷ []

abbrev block : List ℕ
block = 9 ∷ b' ' ∷ b'a' ∷ b'b' ∷ b' ' ∷ b'c' ∷ 0 ∷ 8 ∷ []

strtok_lem_example :
    ((words (is_delim (b' ' ∷ [])) text ≡ [])
      × ((s' : ℕ) × (strtok (b' ' ∷ []) block 0 (some 1) ≡ done (none, block, s'))
          × Stands block s' [] (8 ∷ [])))
    ⊎ ((w : List ℕ) × (p : ℕ) × (block' : List ℕ) × (s' : ℕ) × (left junk : List ℕ) × (words
            (is_delim (b' ' ∷ []))
            text
          ≡ w ∷ words (is_delim (b' ' ∷ [])) left)
        × (strtok (b' ' ∷ []) block 0 (some 1) ≡ done (some p, block', s'))
        × Stands block' p w junk
        × Stands block' s' left (8 ∷ []))
strtok_lem_example = strtok_lem (b' ' ∷ []) text (8 ∷ []) block 0 (some 1) refl refl
