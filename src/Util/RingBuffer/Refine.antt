-- ===== src/Util/RingBuffer/Refine.antt =====
-- A valid ring buffer behaves as a queue that drops its oldest element rather than exceed
-- `capacity - 1` elements.
use native.Mathlib.Nat.{mod-eq_of_lt}
use lamb_os.Base.{
  ℕ, zero, suc, ◌+◌, ◌-◌, ◌%◌, ◌<◌, ◌≡◌, ◌≢◌, refl, sym, ap, ap₂, ◌∙◌, inl, inr, List, [], ◌∷◌,
  ◌++◌, arith, length, set, get_or, get_or-set_self, get_or-set_ne, tail, false, ◌==◌, Bool-cases,
  ne→==,
}
use lamb_os.Base.Outcome.{done}
use lamb_os.Util.RingBuffer.{
  RingBuffer, Op, put, take, next, advance, enqueue, pop, clear, is_empty, run,
}
use lamb_os.Util.RingBuffer.Lossy
use lamb_os.Util.RingBuffer.Inv.{
  IsValid, mod_once, steps_differ, shift_step, back_in, full_test, next_front, enqueue_returns,
  enqueued-IsValid, popped-IsValid, pop_empty, pop_returns,
}

module _ {ℓ} {A : Type ℓ} where
  -- The first `n` values of a sequence.
  abbrev table : ℕ → (ℕ → A) → List A
  table zero f = []
  table (suc n) f = f 0 ∷ table n (λ i. f (suc i))

  length-table : (n : ℕ) (f : ℕ → A) → length (table n f) ≡ n
  length-table zero f = refl
  length-table (suc n) f = ap suc (length-table n (λ i. f (suc i)))

  table_ext : (n : ℕ) (f g : ℕ → A) → ((i : ℕ) → i < n → f i ≡ g i) → table n f ≡ table n g
  table_ext zero f g h = refl
  table_ext (suc n) f g h =
      ap₂ ◌∷◌ (h 0 (omega arith))
        (table_ext n (λ i. f (suc i)) (λ i. g (suc i)) (λ i lt. h (suc i) (omega arith)))

  table_snoc : (n : ℕ) (f : ℕ → A) → table (suc n) f ≡ table n f ++ (f n ∷ [])
  table_snoc zero f = refl
  table_snoc (suc n) f = ap (λ t. f 0 ∷ t) (table_snoc n (λ i. f (suc i)))

  -- The slot `i` places behind the front.
  abbrev slot : A → List A → ℕ → ℕ → ℕ → A
  slot d buffer c f i = get_or buffer ((f + i) % c) d

  -- The elements of a ring buffer, oldest first.
  abbrev pub contents : A → RingBuffer A → List A
  contents d r = table r.size (slot d r.buffer r.capacity r.front)

  pub length-contents : (d : A) (r : RingBuffer A) → length (contents d r) ≡ r.size
  length-contents d r = length-table r.size (slot d r.buffer r.capacity r.front)

module _ {ℓ} {A : Type ℓ} (d : A) {r : RingBuffer A} (v : IsValid r) where
  -- A write at the back extends the contents, whether or not the buffer was full.
  written :
      (x : A)
      → table (suc r.size) (slot d (set r.buffer r.back x) r.capacity r.front)
        ≡ contents d r ++ (x ∷ [])
  written x =
      table_snoc r.size (slot d (set r.buffer r.back x) r.capacity r.front)
      ∙ ap₂ (λ q y. q ++ (y ∷ [])) (table_ext r.size _ _ old) new
    where
      new : slot d (set r.buffer r.back x) r.capacity r.front r.size ≡ x
      new = rw (← v.back_at) (get_or-set_self r.buffer r.back x d (rw v.storage (back_in r v)))

      old :
          (i : ℕ)
          → i < r.size
          → slot d (set r.buffer r.back x) r.capacity r.front i
            ≡ slot d r.buffer r.capacity r.front i
      old i lt = get_or-set_ne r.buffer r.back ((r.front + i) % r.capacity) x d (λ e.
          steps_differ r.capacity r.front i r.size v.front_in lt v.room (sym (sym v.back_at ∙ e)))

  dropped :
      (b : List A) (n : ℕ)
      → table n (slot d b r.capacity (next r.capacity r.front))
        ≡ tail (table (suc n) (slot d b r.capacity r.front))
  dropped b n = table_ext n _ _ λ i lt.
      ap (λ k. get_or b ((k + i) % r.capacity) d) (next_front v)
      ∙ ap (λ k. get_or b k d) (shift_step r.capacity r.front i)

  enqueued_contents :
      (x : A)
      → contents d (advance r (set r.buffer r.back x)) ≡ Lossy.push r.capacity (contents d r) x
  enqueued_contents x = elim (Bool-cases (r.size + 1 == r.capacity)) [
    | inl full ↦
        rw (full_test r v, length-contents d r, full)
          (dropped (set r.buffer r.back x) r.size ∙ ap tail (written x))
    | inr room ↦
        rw (full_test r v, length-contents d r, room)
          (ap (λ n. table n (slot d (set r.buffer r.back x) r.capacity r.front)) {y = suc r.size}
              (omega (arith, v.room, v.fits))
            ∙ written x)
  ]

  front_slot : contents d r ≢ [] → r.size ≢ 0
  front_slot ne e = ne (ap (λ n. table n (slot d r.buffer r.capacity r.front)) e)

  popped_contents :
      r.size ≢ 0
      → (
        get_or r.buffer r.front d,
        contents d (record r { front = next r.capacity r.front; size = r.size - 1 }),
      )
        ≡ Lossy.pop d (contents d r)
  popped_contents ne =
      ap₂ (λ x q. (x, q)) (ap (λ k. get_or r.buffer k d) (sym here)) (dropped r.buffer (r.size - 1))
      ∙ ap (λ n. Lossy.pop d (table n (slot d r.buffer r.capacity r.front))) {x = suc (r.size - 1)}
          {y = r.size} (omega arith)
    where
      here : (r.front + 0) % r.capacity ≡ r.front
      here = ap (λ k. k % r.capacity) (omega arith) ∙ mod-eq_of_lt v.front_in

  pop_empty_contents : r.size ≡ 0 → Lossy.pop d (contents d r) ≡ (d, contents d r)
  pop_empty_contents e = rw e

-- `enqueue` on a valid buffer never writes out of bounds, keeps the invariant and the capacity, and
-- appends the item, dropping the oldest element if `capacity - 1` elements were held.
pub enqueue_refines {ℓ} :
    {A : Type ℓ} (d : A) (r : RingBuffer A) (x : A)
    → IsValid r
    → (r' : RingBuffer A) × (enqueue r x ≡ done r')
      × IsValid r'
      × (r'.capacity ≡ r.capacity)
      × (contents d r' ≡ Lossy.push r.capacity (contents d r) x)
enqueue_refines d r x v = (
  advance r (set r.buffer r.back x),
  enqueue_returns v x,
  enqueued-IsValid v x,
  ground arith,
  enqueued_contents d v x,
)

-- `pop` on a valid buffer never reads out of bounds, keeps the invariant and the capacity, and
-- takes the oldest element, or returns `T{}` and changes nothing if there is none.
pub pop_refines {ℓ} :
    {A : Type ℓ} (d : A) (r : RingBuffer A)
    → IsValid r
    → (x : A) × (r' : RingBuffer A) × (pop d r ≡ done (x, r'))
      × IsValid r'
      × (r'.capacity ≡ r.capacity)
      × ((x, contents d r') ≡ Lossy.pop d (contents d r))
pop_refines d r v = elim (Bool-cases (r.size == 0)) [
  | inl e ↦
      (d, r, pop_empty v d (ground arith), v, refl, sym (pop_empty_contents d v (ground arith)))
  | inr ne ↦ (
    get_or r.buffer r.front d,
    record r { front = next r.capacity r.front; size = r.size - 1 },
    pop_returns v d (ground arith),
    popped-IsValid v (ground arith),
    refl,
    popped_contents d v (ground arith),
  )
]

run_from {ℓ} :
    {A : Type ℓ} (d : A) (ops : List (Op A)) (r : RingBuffer A) (c : ℕ) (q : List A)
    → IsValid r
    → r.capacity ≡ c
    → contents d r ≡ q
    → (r' : RingBuffer A) × (run d r ops ≡ done ((Lossy.run d c q ops).0, r'))
      × IsValid r'
      × (contents d r' ≡ (Lossy.run d c q ops).1)
unfolding run Lossy.run
run_from d [] r c q v ec eq = (r, refl, v, eq)
run_from d (put x ∷ ops) r c q v ec eq =
    let (r₁, returns, valid, cap, holds) = enqueue_refines d r x v in
    let (r₂, runs, valid₂, holds₂) =
      run_from d ops r₁ c (Lossy.push c q x) valid (cap ∙ ec)
        (holds ∙ ap₂ (λ k p. Lossy.push k p x) ec eq) in
    (r₂, rw returns runs, valid₂, holds₂)
run_from d (take ∷ ops) r c q v ec eq =
    let (x, r₁, returns, valid, cap, holds) = pop_refines d r v in
    let popped : (x, contents d r₁) ≡ Lossy.pop d q = holds ∙ ap (Lossy.pop d) eq in
    let (r₂, runs, valid₂, holds₂) =
      run_from d ops r₁ c (Lossy.pop d q).1 valid (cap ∙ ec) (ap (λ t. t.1) popped) in
    (
      r₂,
      rw (returns, runs)
          (ap (λ y. done (y ∷ (Lossy.run d c (Lossy.pop d q).1 ops).0, r₂)) (ap (λ t. t.0) popped)),
      valid₂,
      holds₂,
    )

-- No client can tell a valid buffer from the lossy queue of its contents: over any sequence of
-- calls it faults nowhere, returns what the queue returns, and ends valid with its contents.
pub run_refines {ℓ} :
    {A : Type ℓ} (d : A) (ops : List (Op A)) (r : RingBuffer A)
    → IsValid r
    → (r' : RingBuffer A) × (run d r ops ≡ done ((Lossy.run d r.capacity (contents d r) ops).0, r'))
      × IsValid r'
      × (contents d r' ≡ (Lossy.run d r.capacity (contents d r) ops).1)
run_refines d ops r v = run_from d ops r r.capacity (contents d r) v refl refl

-- `clear` leaves the count as it was: a valid buffer that holds anything is not empty afterwards,
-- and no longer valid.
pub clear_keeps_size {ℓ} :
    {A : Type ℓ} (r : RingBuffer A)
    → IsValid r
    → r.size ≢ 0
    → (is_empty (clear r) ≡ false) × ((clear r).size ≡ r.size) × ¬ IsValid (clear r)
unfolding clear is_empty
clear_keeps_size r v ne = (
  ne→== r.size 0 ne,
  refl,
  λ w.
      omega (
        arith,
        v.room,
        back_in r v,
        w.back_at,
        mod_once (r.back + r.size) r.capacity (omega arith),
      ),
)
