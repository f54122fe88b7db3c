-- ===== src/Io/InputStream/Reads.antt =====
-- A read of many bytes and a skip take as many bytes as are asked for and there are.
use lamb_os.Base.{
  ℕ, zero, suc, ◌+◌, ◌-◌, ◌≤◌, min, ◌≡◌, refl, ap, ◌∙◌, ◌&&◌, List, [], ◌∷◌, ltb, leb,
  if◌then◌else◌, arith, length, set, get_or, length-set, drop, get_or-set, get_or-set_ne,
  Bool-cases, inl, inr,
}
use native.Mathlib.Decide.{ℕ_discrete}
use lamb_os.Base.Outcome.{done, store_in}
use lamb_os.Io.InputStream.{InputStream, read_bytes, skip}

module _ {S : Type 0} (input : InputStream S) where
  pub read_bytes_returns :
      (n : ℕ) (block : List ℕ) (p count : ℕ) (s : S) (rest : List ℕ)
      → input.Holds s rest
      → p + n ≤ length block
      → (block' : List ℕ) × (s' : S) × (read_bytes input n block p count s
          ≡ done (record { bytes_read = count + min n (length rest); bytes = block'; stream = s' }))
        × input.Holds s' (drop n rest)
        × (length block' ≡ length block)
        × ((i : ℕ)
            → get_or block' i 0 ≡ (
                if leb p i && ltb i (p + min n (length rest))
                then get_or rest (i - p) 0
                else get_or block i 0))
  unfolding read_bytes
  read_bytes_returns zero block p count s rest h room = (
    block,
    s,
    ap (λ c. done (record { bytes_read = c; bytes = block; stream = s })) (omega arith),
    h,
    refl,
    λ i. ground arith,
  )
  read_bytes_returns (suc n) block p count s [] h room =
      let (s', e, h') = input.read_end s h in
      (
        block,
        s',
        rw e (ap (λ c. done (record { bytes_read = c; bytes = block; stream = s' })) (omega arith)),
        h',
        refl,
        λ i. ground arith,
      )
  read_bytes_returns (suc n) block p count s (b ∷ rest) h room =
      let (s₁, e₁, h₁) = input.read_next s b rest h in
      let (block', s', e, h', len, cells) =
        read_bytes_returns n (set block p b) (p + 1) (count + 1) s₁ rest h₁
          (omega (arith, length-set block p b)) in
      (
        block',
        s',
        rw (e₁, store_in block p b (omega arith))
            (e
              ∙ ap (λ c. done (record { bytes_read = c; bytes = block'; stream = s' }))
                  (omega arith)),
        h',
        len ∙ length-set block p b,
        λ i. placed i (cells i),
      )
    where
      placed :
          (i : ℕ) {v : ℕ}
          → v ≡ (
              if leb (p + 1) i && ltb i (p + 1 + min n (length rest))
              then get_or rest (i - (p + 1)) 0
              else get_or (set block p b) i 0)
          → v ≡ (
              if leb p i && ltb i (p + min (suc n) (suc (length rest)))
              then get_or (b ∷ rest) (i - p) 0
              else get_or block i 0)
      placed i e = elim (ℕ_discrete p i) [
        | yes here ↦ ground (
          arith,
          get_or-set block p i b 0 (omega arith),
          ap (λ j. get_or (b ∷ rest) j 0) {x = i - p} {y = 0} (omega arith),
        )
        | no ne ↦ elim (Bool-cases (ltb p i)) [
          | inl above ↦ ground (
            arith,
            get_or-set_ne block p i b 0 ne,
            ap (λ j. get_or (b ∷ rest) j 0) {x = i - p} {y = suc (i - (p + 1))} (ground arith),
          )
          | inr below ↦ ground (arith, get_or-set_ne block p i b 0 ne)
        ]
      ]

  pub skip_returns :
      (n count : ℕ) (s : S) (rest : List ℕ)
      → input.Holds s rest
      → (s' : S) × (skip input n count s ≡ done (count + min n (length rest), s'))
        × input.Holds s' (drop n rest)
  unfolding skip
  skip_returns zero count s rest h = (s, ap (λ c. done (c, s)) (omega arith), h)
  skip_returns (suc n) count s [] h =
      let (s', e, h') = input.read_end s h in (s', rw e (ap (λ c. done (c, s')) (omega arith)), h')
  skip_returns (suc n) count s (b ∷ rest) h =
      let (s₁, e₁, h₁) = input.read_next s b rest h in
      let (s', e, h') = skip_returns n (count + 1) s₁ rest h₁ in
      (s', rw e₁ (e ∙ ap (λ c. done (c, s')) (omega arith)), h')
