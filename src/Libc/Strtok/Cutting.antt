-- ===== src/Libc/Strtok/Cutting.antt =====
-- A call of `strtok` takes the first word off the text that is left.
use lamb_os.Base.{
  ℕ, zero, suc, ◌+◌, ◌-◌, ◌<◌, Bool, true, false, not, List, [], ◌∷◌, ◌++◌, Option, none, some,
  ◌==◌, ◌≡◌, refl, sym, ap, ◌∙◌, ◌⊎◌, inl, inr, Bool-cases, arith, length, set, drop, all,
  length-drop, length-append, drop-drop, append-nil, append_assoc,
}
use lamb_os.Base.Outcome.{done, load, store_in}
use lamb_os.Text.StringTokenizer.{is_delim}
use lamb_os.Text.StringTokenizer.Words.{
  at_end, words, skip, word, after, words-skip, words-word, skip-cases,
}
use lamb_os.Fs.IsoRecord.Names.{load_here, drop_front}
use lamb_os.Libc.Strtok.{skip_from, cut_from, token_from, start_at, strtok}

abbrev pub IsText : List ℕ → Type 0
IsText s = all (λ c. not (c == 0)) s ≡ true

-- At `s` of the block stands this text and its null character.
abbrev pub Stands : List ℕ → ℕ → List ℕ → List ℕ → Type 0
Stands block s text rest = drop s block ≡ text ++ (0 ∷ rest)

load_front :
    (block : List ℕ) (s c : ℕ) (xs : List ℕ) → drop s block ≡ c ∷ xs → load block s ≡ done c
unfolding load
load_front block s c xs at = load_here block s ∙ ap (λ t. load t 0) at

drop_tail :
    (block : List ℕ) (s c : ℕ) (xs : List ℕ) → drop s block ≡ c ∷ xs → drop (s + 1) block ≡ xs
drop_tail block s c xs at = sym (drop-drop 1 s block) ∙ ap (drop 1) at

room : (block : List ℕ) (s c : ℕ) (xs : List ℕ) → drop s block ≡ c ∷ xs → s < length block
room block s c xs at = omega (arith, length-drop s block, ap length at)

drop-set : (block : List ℕ) (s k v : ℕ) → drop s (set block (s + k) v) ≡ set (drop s block) k v
drop-set block zero k v = ap (λ j. set block j v) {x = 0 + k} {y = k} (omega arith)
drop-set [] (suc s) k v = refl
drop-set (x ∷ block) (suc s) k v =
    ap (λ j. drop (suc s) (set (x ∷ block) j v)) {x = suc s + k} {y = suc (s + k)} (omega arith)
    ∙ drop-set block s k v

set_front : (xs ys : List ℕ) (d v : ℕ) → set (xs ++ (d ∷ ys)) (length xs) v ≡ xs ++ (v ∷ ys)
set_front [] ys d v = refl
set_front (x ∷ xs) ys d v = ap (λ t. x ∷ t) (set_front xs ys d v)

word-after : (delim : ℕ → Bool) (text : List ℕ) → text ≡ word delim text ++ after delim text
word-after delim [] = refl
word-after delim (c ∷ text) = elim (Bool-cases (delim c)) [
  | inl e ↦ rw e refl
  | inr e ↦ rw e (ap (λ t. c ∷ t) (word-after delim text))
]

skip_from_lem :
    (delim text rest block : List ℕ) (n s : ℕ)
    → IsText text
    → Stands block s text rest
    → length text < n
    → (s' : ℕ) × (skip_from delim n block s ≡ done s')
      × Stands block s' (skip (is_delim delim) text) rest
      × IsText (skip (is_delim delim) text)
      × (s' + length (skip (is_delim delim) text) ≡ s + length text)
unfolding skip_from
skip_from_lem delim text rest block zero s ok at enough = absurd (omega arith)
skip_from_lem delim [] rest block (suc n) s ok at enough =
    (s, rw (load_front block s 0 rest at) refl, at, refl, refl)
skip_from_lem delim (c ∷ text) rest block (suc n) s ok at enough =
    elim (Bool-cases (is_delim delim c)) [
      | inr starts ↦ (
        s,
        rw (load_front block s c (text ++ (0 ∷ rest)) at, nonzero, starts) refl,
        rw starts at,
        rw starts ok,
        rw starts refl,
      )
      | inl passes ↦
          let (s', e, at', ok', size) =
            skip_from_lem delim text rest block n (s + 1) (ground arith)
              (drop_tail block s c (text ++ (0 ∷ rest)) at) (omega arith) in
          (
            s',
            rw (load_front block s c (text ++ (0 ∷ rest)) at, nonzero, passes) e,
            rw passes at',
            rw passes ok',
            rw passes (omega (arith, size)),
          )
    ]
  where
    nonzero : (c == 0) ≡ false
    nonzero = ground arith

cut_from_lem :
    (delim text rest block : List ℕ) (n s : ℕ)
    → IsText text
    → Stands block s text rest
    → length text < n
    → ((after (is_delim delim) text ≡ [])
        × (cut_from delim n block s ≡ done (block, s + length (word (is_delim delim) text))))
      ⊎ ((d : ℕ) × (more : List ℕ) × (after (is_delim delim) text ≡ d ∷ more)
          × (is_delim delim d ≡ true)
          × (cut_from delim n block s
              ≡ done (
                set block (s + length (word (is_delim delim) text)) 0,
                s + length (word (is_delim delim) text) + 1,
              )))
unfolding cut_from
cut_from_lem delim text rest block zero s ok at enough = absurd (omega arith)
cut_from_lem delim [] rest block (suc n) s ok at enough = inl (
  refl,
  rw (load_front block s 0 rest at) (ap (λ j. done (block, j)) {x = s} {y = s + 0} (omega arith)),
)
cut_from_lem delim (c ∷ text) rest block (suc n) s ok at enough =
    elim (Bool-cases (is_delim delim c)) [
      | inl ends ↦ inr (
        c,
        text,
        rw ends refl,
        ends,
        rw
            (
              load_front block s c (text ++ (0 ∷ rest)) at,
              nonzero,
              ends,
              store_in block s 0 (room block s c (text ++ (0 ∷ rest)) at),
            )
            (ap (λ j. done (set block j 0, j + 1)) {x = s} {y = s + 0} (omega arith)),
      )
      | inr goes_on ↦
          elim (cut_from_lem delim text rest block n (s + 1) (ground arith)
            (drop_tail block s c (text ++ (0 ∷ rest)) at) (omega arith)) [
              | inl (over, e) ↦ inl (
                rw goes_on over,
                rw (load_front block s c (text ++ (0 ∷ rest)) at, nonzero, goes_on)
                    (e ∙ ap (λ j. done (block, j)) (here (length (word (is_delim delim) text)))),
              )
              | inr (d, more, left, ends, e) ↦ inr (
                d,
                more,
                rw goes_on left,
                ends,
                rw (load_front block s c (text ++ (0 ∷ rest)) at, nonzero, goes_on)
                    (e
                      ∙ ap (λ j. done (set block j 0, j + 1))
                          (here (length (word (is_delim delim) text)))),
              )
            ]
    ]
  where
    nonzero : (c == 0) ≡ false
    nonzero = ground arith

    here : (k : ℕ) → s + 1 + k ≡ s + suc k
    here k = omega arith

-- What a token and the rest are once the pointer is at the first word.
Taken : List ℕ → List ℕ → List ℕ → List ℕ → ℕ → Type 0
Taken delim ys rest block p =
    (w : List ℕ) × (block' : List ℕ) × (s' : ℕ) × (left junk : List ℕ) × (words (is_delim delim) ys
      ≡ w ∷ words (is_delim delim) left)
    × (token_from delim block p ≡ done (some p, block', s'))
    × Stands block' p w junk
    × Stands block' s' left rest

token_from_lem :
    (delim ys rest block : List ℕ) (p : ℕ)
    → IsText ys
    → at_end (is_delim delim) ys ≡ false
    → Stands block p ys rest
    → Taken delim ys rest block p
unfolding token_from Taken
token_from_lem delim [] rest block p ok going at = cc
token_from_lem delim (c ∷ cs) rest block p ok going at =
    let d = is_delim delim in
    let w = word d (c ∷ cs) in
    let enough : length (c ∷ cs) < length block - p =
      omega (arith, length-drop p block, ap length at, length-append (c ∷ cs) (0 ∷ rest)) in
    elim (cut_from_lem delim (c ∷ cs) rest block (length block - p) p ok at enough) [
      | inl (over, e) ↦
          let all_of_it : (c ∷ cs) ≡ w =
            word-after d (c ∷ cs) ∙ ap (λ t. w ++ t) over ∙ append-nil w in
          let at_w : drop p block ≡ w ++ (0 ∷ rest) = at ∙ ap (λ t. t ++ (0 ∷ rest)) all_of_it in
          (
            w,
            block,
            p + length w,
            [],
            rest,
            words-word d (c ∷ cs) going ∙ ap (λ t. w ∷ words d t) over,
            rw (load_front block p c (cs ++ (0 ∷ rest)) at, nonzero, e) refl,
            at_w,
            sym (drop-drop (length w) p block)
                ∙ ap (drop (length w)) at_w
                ∙ drop_front w (0 ∷ rest),
          )
      | inr (x, more, left, ends, e) ↦
          let block' = set block (p + length w) 0 in
          let split : drop p block ≡ w ++ (x ∷ (more ++ (0 ∷ rest))) =
            at
            ∙ ap (λ t. t ++ (0 ∷ rest)) (word-after d (c ∷ cs) ∙ ap (λ t. w ++ t) left)
            ∙ append_assoc w (x ∷ more) (0 ∷ rest) in
          let ended : drop p block' ≡ w ++ (0 ∷ (more ++ (0 ∷ rest))) =
            drop-set block p (length w) 0
            ∙ ap (λ t. set t (length w) 0) split
            ∙ set_front w (more ++ (0 ∷ rest)) x 0 in
          (
            w,
            block',
            p + length w + 1,
            more,
            more ++ (0 ∷ rest),
            words-word d (c ∷ cs) going
                ∙ ap (λ t. w ∷ words d t) left
                ∙ ap (λ t. w ∷ t) (words_delim d x more ends),
            rw (load_front block p c (cs ++ (0 ∷ rest)) at, nonzero, e) refl,
            ended,
            sym (drop-drop 1 (p + length w) block')
                ∙ ap (drop 1) (
                    sym (drop-drop (length w) p block')
                    ∙ ap (drop (length w)) ended
                    ∙ drop_front w (0 ∷ (more ++ (0 ∷ rest)))),
          )
    ]
  where
    nonzero : (c == 0) ≡ false
    nonzero = ground arith

    words_delim :
        (d : ℕ → Bool) (x : ℕ) (more : List ℕ) → d x ≡ true → words d (x ∷ more) ≡ words d more
    words_delim d x more h = rw h refl

nothing :
    (delim block rest : List ℕ) (p : ℕ)
    → Stands block p [] rest
    → token_from delim block p ≡ done (none, block, p)
unfolding token_from
nothing delim block rest p at = rw (load_front block p 0 rest at) refl

-- When a text and its null character stand at the pointer that a call of `strtok` starts from, the
-- call returns: null when the text has no word, and the pointer then stands at the null character;
-- else a pointer to the first word, ended by a null character, and the pointer for the next call
-- stands at a text of the other words.
pub strtok_lem :
    (delim text rest block : List ℕ) (s : ℕ) (str : Option ℕ)
    → IsText text
    → Stands block (start_at str s) text rest
    → ((words (is_delim delim) text ≡ [])
        × ((s' : ℕ) × (strtok delim block s str ≡ done (none, block, s'))
            × Stands block s' [] rest))
      ⊎ ((w : List ℕ) × (p : ℕ) × (block' : List ℕ) × (s' : ℕ) × (left junk : List ℕ) × (words
              (is_delim delim)
              text
            ≡ w ∷ words (is_delim delim) left)
          × (strtok delim block s str ≡ done (some p, block', s'))
          × Stands block' p w junk
          × Stands block' s' left rest)
unfolding strtok Taken
strtok_lem delim text rest block s str ok at =
    let from = start_at str s in
    let d = is_delim delim in
    let total : length block - from ≡ length text + 1 + length rest =
      omega (arith, length-drop from block, ap length at, length-append text (0 ∷ rest)) in
    let (p, e, at', ok', size) =
      skip_from_lem delim text rest block (length block - from) from ok at (omega arith) in
    elim (skip-cases d text) [
      | inl none_left ↦
          let at_end : Stands block p [] rest = at' ∙ ap (λ t. t ++ (0 ∷ rest)) none_left in
          inl (
            sym (words-skip d text) ∙ ap (words d) none_left,
            (p, rw (e, nothing delim block rest p at_end) refl, at_end),
          )
      | inr going ↦
          let (w, block', s', left, junk, apart, taken, here, next) =
            token_from_lem delim (skip d text) rest block p ok' going at' in
          inr (
            w,
            p,
            block',
            s',
            left,
            junk,
            sym (words-skip d text) ∙ apart,
            rw (e, taken) refl,
            here,
            next,
          )
    ]
