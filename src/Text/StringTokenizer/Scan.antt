-- ===== src/Text/StringTokenizer/Scan.antt =====
-- What the scans of the tokenizer find, in terms of the text that is left.
use lamb_os.Base.{
  ℕ, zero, suc, ◌+◌, ◌-◌, ◌%◌, ◌^◌, ◌≡◌, refl, sym, ap, ◌∙◌, List, [], ◌∷◌, arith, length, drop,
  inl, inr, Bool-cases,
}
use lamb_os.Base.Outcome.{done, load}
use lamb_os.Text.StringTokenizer.{is_delim, token_start_from, token_end_from}
use lamb_os.Text.StringTokenizer.Words.{skip, word}

load-drop : (i : ℕ) (s : List ℕ) {c : ℕ} {xs : List ℕ} → drop i s ≡ c ∷ xs → load s i ≡ done c
unfolding load
load-drop zero [] h = cc
load-drop zero (x ∷ s) h = cc
load-drop (suc i) [] h = cc
load-drop (suc i) (x ∷ s) h = load-drop i s h

drop_next : (i : ℕ) (s : List ℕ) {c : ℕ} {xs : List ℕ} → drop i s ≡ c ∷ xs → drop (i + 1) s ≡ xs
drop_next zero [] h = cc
drop_next zero (x ∷ s) h = cc
drop_next (suc i) [] h = cc
drop_next (suc i) (x ∷ s) h =
    ap (λ n. drop n (x ∷ s)) {x = suc i + 1} {y = suc (i + 1)} (omega arith) ∙ drop_next i s h

-- The text that is left at an index.
pub record IsLeft (s : List ℕ) (i : ℕ) (xs : List ℕ) : Type 0 where
  pub rest : drop i s ≡ xs
  pub size : i + length xs ≡ length s

IsLeft-next : (s : List ℕ) (i : ℕ) {c : ℕ} {xs : List ℕ} → IsLeft s i (c ∷ xs) → IsLeft s (i + 1) xs
IsLeft-next s i h = record { rest = drop_next i s h.rest; size = omega (arith, h.size) }

module _ (s delims : List ℕ) where
  pub token_start_finds :
      (xs : List ℕ) (i : ℕ)
      → IsLeft s i xs
      → (j : ℕ) × (token_start_from s delims (length xs) i ≡ done j)
        × IsLeft s j (skip (is_delim delims) xs)
  unfolding token_start_from
  token_start_finds [] i h = (
    length s,
    refl,
    record {
      rest = ap (λ n. drop n s) {x = length s} {y = i} (omega (arith, h.size)) ∙ h.rest;
      size = omega arith;
    },
  )
  token_start_finds (c ∷ xs) i h =
      let (j, e, left) = token_start_finds xs (i + 1) (IsLeft-next s i h) in
      elim (Bool-cases (is_delim delims c)) [
        | inl d ↦ (j, rw (load-drop i s h.rest, d) e, rw (d) left)
        | inr d ↦ (i, rw (load-drop i s h.rest, d), rw (d) h)
      ]

  pub token_end_finds :
      (xs : List ℕ) (i : ℕ)
      → IsLeft s i xs
      → token_end_from s delims (length xs) i
        ≡ done ((i + length (word (is_delim delims) xs) + 2 ^ 32 - 1) % 2 ^ 32)
  unfolding token_end_from
  token_end_finds [] i h = ap (λ n. done ((n + 2 ^ 32 - 1) % 2 ^ 32)) (sym h.size)
  token_end_finds (c ∷ xs) i h = elim (Bool-cases (is_delim delims c)) [
    | inl d ↦
        rw (load-drop i s h.rest, d)
          (ap (λ n. done ((n + 2 ^ 32 - 1) % 2 ^ 32)) {x = i} {y = i + 0} (omega arith))
    | inr d ↦
        rw (load-drop i s h.rest, d)
          (token_end_finds xs (i + 1) (IsLeft-next s i h)
            ∙ ap (λ n. done ((n + 2 ^ 32 - 1) % 2 ^ 32))
                {x = i + 1 + length (word (is_delim delims) xs)}
                {y = i + suc (length (word (is_delim delims) xs))} (omega arith))
  ]
