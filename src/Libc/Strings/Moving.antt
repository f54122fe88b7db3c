-- ===== src/Libc/Strings/Moving.antt =====
-- `memmove`, whose source and destination may overlap.
use lamb_os.Base.{
  ℕ, zero, suc, ◌+◌, ◌-◌, ◌<◌, ◌≤◌, ◌⊎◌, ◌&&◌, List, ltb, leb, ◌==◌, ◌≢◌, if◌then◌else◌, ◌≡◌, refl,
  ap, ◌∙◌, arith, length, set, length-set, get_or, get_or-set, get_or-set_ne, inl, inr, Bool-cases,
}
use native.Mathlib.Decide.{ℕ_discrete}
use lamb_os.Base.Outcome.{done, load_in, store_in}
use lamb_os.Libc.Strings.{move_back, move_forth, memmove}

-- `block'` is `block` with `num` bytes copied from `src` to `dst`.
pub record IsMoved (block : List ℕ) (dst src num : ℕ) (block' : List ℕ) : Type 0 where
  pub size : length block' ≡ length block
  pub bytes :
      (k : ℕ)
      → get_or block' k 0 ≡ (
          if leb dst k && ltb k (dst + num)
          then get_or block (src + (k - dst)) 0
          else get_or block k 0)

abbrev placed : List ℕ → ℕ → ℕ → List ℕ
placed block to from = set block to (get_or block from 0)

at_placed :
    (block : List ℕ) (to from k : ℕ)
    → to < length block
    → get_or (placed block to from) k 0
      ≡ (if to == k then get_or block from 0 else get_or block k 0)
at_placed block to from k h = get_or-set block to k (get_or block from 0) 0 h

move_back_returns :
    (num dst src : ℕ) (block : List ℕ)
    → src < dst
    → dst + num ≤ length block
    → (block' : List ℕ) × (move_back num dst src block ≡ done block')
      × IsMoved block dst src num block'
unfolding move_back
move_back_returns zero dst src block lt room =
    (block, refl, record { size = refl; bytes = λ k. ground arith })
move_back_returns (suc num) dst src block lt room =
    let (block', e, moved) =
      move_back_returns num dst src (placed block (dst + num) (src + num)) lt
        (omega (arith, length-set block (dst + num) (get_or block (src + num) 0))) in
    (
      block',
      rw
          (
            load_in block (src + num) 0 (omega arith),
            store_in block (dst + num) (get_or block (src + num) 0) (omega arith),
          )
          e,
      record {
        size = moved.size ∙ length-set block (dst + num) (get_or block (src + num) 0);
        bytes = λ k. step k (moved.bytes k);
      },
    )
  where
    step :
        (k : ℕ) {w : ℕ}
        → w ≡ (
            if leb dst k && ltb k (dst + num)
            then get_or (placed block (dst + num) (src + num)) (src + (k - dst)) 0
            else get_or (placed block (dst + num) (src + num)) k 0)
        → w ≡ (
            if leb dst k && ltb k (dst + suc num)
            then get_or block (src + (k - dst)) 0
            else get_or block k 0)
    step k e = elim (ℕ_discrete k (dst + num)) [
      | yes here ↦ ground (
        arith,
        at_placed block (dst + num) (src + num) k (omega arith),
        ap (λ j. get_or block j 0) {x = src + num} {y = src + (k - dst)} (omega arith),
      )
      | no ne ↦ ground (
        arith,
        at_placed block (dst + num) (src + num) k (omega arith),
        at_placed block (dst + num) (src + num) (src + (k - dst)) (omega arith),
      )
    ]

move_forth_returns :
    (num dst src : ℕ) (block : List ℕ)
    → (dst ≤ src) ⊎ (src + num ≤ dst)
    → dst + num ≤ length block
    → src + num ≤ length block
    → (block' : List ℕ) × (move_forth num dst src block ≡ done block')
      × IsMoved block dst src num block'
unfolding move_forth
move_forth_returns zero dst src block apart room there =
    (block, refl, record { size = refl; bytes = λ k. ground arith })
move_forth_returns (suc num) dst src block apart room there =
    let (block', e, moved) =
      move_forth_returns num (dst + 1) (src + 1) (placed block dst src) still
        (omega (arith, length-set block dst (get_or block src 0)))
        (omega (arith, length-set block dst (get_or block src 0))) in
    (
      block',
      rw (load_in block src 0 (omega arith), store_in block dst (get_or block src 0) (omega arith))
          e,
      record {
        size = moved.size ∙ length-set block dst (get_or block src 0);
        bytes = λ k. step k (moved.bytes k);
      },
    )
  where
    still : (dst + 1 ≤ src + 1) ⊎ (src + 1 + num ≤ dst + 1)
    still = elim apart [ inl a ↦ inl (omega arith) | inr b ↦ inr (omega arith) ]

    step :
        (k : ℕ) {w : ℕ}
        → w ≡ (
            if leb (dst + 1) k && ltb k (dst + 1 + num)
            then get_or (placed block dst src) (src + 1 + (k - (dst + 1))) 0
            else get_or (placed block dst src) k 0)
        → w ≡ (
            if leb dst k && ltb k (dst + suc num)
            then get_or block (src + (k - dst)) 0
            else get_or block k 0)
    step k e = elim (ℕ_discrete k dst) [
      | yes here ↦ ground (
        arith,
        at_placed block dst src k (omega arith),
        ap (λ j. get_or block j 0) {x = src} {y = src + (k - dst)} (omega arith),
      )
      | no ne ↦ elim (Bool-cases (leb (dst + 1) k && ltb k (dst + 1 + num))) [
        | inl inside ↦
            let from = src + 1 + (k - (dst + 1)) in
            let same : src + 1 + (k - (dst + 1)) ≡ src + (k - dst) = ground arith in
            let fresh : dst ≢ src + 1 + (k - (dst + 1)) = elim apart [
              | inl a ↦ ground arith
              | inr b ↦ ground arith
            ] in
            ground (
              arith,
              get_or-set_ne block dst (src + 1 + (k - (dst + 1))) (get_or block src 0) 0 fresh,
              ap (λ j. get_or block j 0) same,
            )
        | inr outside ↦ ground (arith, at_placed block dst src k (omega arith))
      ]
    ]

-- Whether or not source and destination overlap, `memmove` of bytes inside a block copies what the
-- source held before the call and changes no other byte.
pub memmove_lem :
    (block : List ℕ) (dst src num : ℕ)
    → dst + num ≤ length block
    → src + num ≤ length block
    → (block' : List ℕ) × (memmove block dst src num ≡ done block')
      × IsMoved block dst src num block'
unfolding memmove
memmove_lem block dst src num room there = elim (Bool-cases (ltb src dst && ltb dst (src + num))) [
  | inl overlap ↦
      let (block', e, moved) = move_back_returns num dst src block (ground arith) room in
      (block', rw overlap e, moved)
  | inr apart ↦
      let (block', e, moved) = move_forth_returns num dst src block (ground arith) room there in
      (block', rw apart e, moved)
]
