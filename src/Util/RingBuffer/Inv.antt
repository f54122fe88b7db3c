-- ===== src/Util/RingBuffer/Inv.antt =====
-- The representation invariant of a ring buffer, kept by every operation but `clear`.
use native.Mathlib.Nat.{mod-eq_of_lt, mod-eq-sub-mod, mod-add-mod}
use native.Mathlib.Decide.{dec_lt}
use lamb_os.Base.{
  ℕ, suc, ◌+◌, ◌-◌, ◌%◌, ◌^◌, ◌≤◌, ◌<◌, ◌≡◌, ◌≢◌, ◌⊎◌, ap, ◌∙◌, List, arith, length, set, get_or,
  length-set, sym, ne→==, inl, inr, length-replicate, ◌==◌, Bool-cases,
}
use lamb_os.Base.Outcome.{done, store_in, load_in}
use lamb_os.Util.RingBuffer.{RingBuffer, next, advance, init, enqueue, pop}

pub record IsValid {ℓ} {A : Type ℓ} (r : RingBuffer A) : Type 0 where
  pub pos : 0 < r.capacity
  pub fits : r.capacity < 2 ^ 32
  pub storage : length r.buffer ≡ r.capacity
  pub front_in : r.front < r.capacity
  pub room : r.size < r.capacity
  pub back_at : r.back ≡ (r.front + r.size) % r.capacity

-- Below twice the modulus a remainder takes at most one subtraction.
pub mod_once : (a c : ℕ) → a < c + c → ((a < c) × (a % c ≡ a)) ⊎ ((c ≤ a) × (a % c ≡ a - c))
mod_once a c h = elim (dec_lt a c) [
  | yes p ↦ inl (p, mod-eq_of_lt p)
  | no p ↦ inr (
    omega arith,
    mod-eq-sub-mod {n = a} {m = c} (omega arith) ∙ mod-eq_of_lt {n = a - c} {m = c} (omega arith),
  )
]

-- Different steps below the capacity lead to different slots.
pub steps_differ : (c f i n : ℕ) → f < c → i < n → n < c → (f + i) % c ≢ (f + n) % c
steps_differ c f i n hf hi hn e =
    omega (arith, mod_once (f + i) c (omega arith), mod_once (f + n) c (omega arith))

pub next_mod : (c k : ℕ) → 0 < c → c < 2 ^ 32 → k < c → next c k ≡ (k + 1) % c
next_mod c k hc h hk = ap (λ t. t % c) (omega arith)

-- One more step round, counted from the front or from the slot behind it.
pub shift_step : (c f i : ℕ) → ((f + 1) % c + i) % c ≡ (f + suc i) % c
shift_step c f i = rw mod-add-mod (ap (λ k. k % c) (omega arith))

module _ {ℓ} {A : Type ℓ} (r : RingBuffer A) (v : IsValid r) where
  pub back_in : r.back < r.capacity
  back_in = omega (arith, v.pos, v.back_at)

  pub next_back : next r.capacity r.back ≡ (r.front + (r.size + 1)) % r.capacity
  next_back =
      next_mod r.capacity r.back v.pos v.fits back_in
      ∙ ap (λ k. (k + 1) % r.capacity) v.back_at
      ∙ mod-add-mod (r.front + r.size) r.capacity 1
      ∙ ap (λ k. k % r.capacity) (omega arith)

  -- The test `_front == _back` after the write finds out whether the buffer was full.
  pub full_test : (r.front == next r.capacity r.back) ≡ (r.size + 1 == r.capacity)
  full_test = ground (
    arith,
    next_back,
    v.front_in,
    v.room,
    mod_once (r.front + (r.size + 1)) r.capacity (omega arith),
  )

-- The constructor makes an empty valid buffer of any capacity that a `size_t` holds.
pub init-IsValid {ℓ} :
    {A : Type ℓ} (default : A) (c : ℕ) → 0 < c → c < 2 ^ 32 → IsValid (init default c)
unfolding init
init-IsValid default c hc h = record {
  pos = hc;
  fits = h;
  storage = length-replicate c default;
  front_in = hc;
  room = hc;
  back_at = omega (arith, mod-eq_of_lt {n = 0} {m = c} hc);
}

module _ {ℓ} {A : Type ℓ} {r : RingBuffer A} (v : IsValid r) where
  pub next_front : next r.capacity r.front ≡ (r.front + 1) % r.capacity
  next_front = next_mod r.capacity r.front v.pos v.fits v.front_in

  pub advance-IsValid : (b : List A) → length b ≡ r.capacity → IsValid (advance r b)
  advance-IsValid b h = elim (Bool-cases (r.size + 1 == r.capacity)) [
    | inl full ↦
        rw (full_test r v, full, next_front, next_back r v)
          (record {
            pos = v.pos;
            fits = v.fits;
            storage = h;
            front_in = omega (arith, v.pos);
            room = v.room;
            back_at =
                ap (λ k. k % r.capacity) (omega arith)
                ∙ sym (mod-add-mod (r.front + 1) r.capacity r.size);
          })
    | inr room ↦
        rw (full_test r v, room, next_back r v)
          (record {
            pos = v.pos;
            fits = v.fits;
            storage = h;
            front_in = v.front_in;
            room = ground (arith, v.room, v.fits);
            back_at =
                ap (λ n. (r.front + n) % r.capacity) {y = (r.size + 1) % 2 ^ 32}
                  (omega (arith, v.room, v.fits));
          })
  ]

  pub enqueue_returns : (x : A) → enqueue r x ≡ done (advance r (set r.buffer r.back x))
  unfolding enqueue
  enqueue_returns x = rw (store_in r.buffer r.back x (rw v.storage (back_in r v)))

  pub enqueued-IsValid : (x : A) → IsValid (advance r (set r.buffer r.back x))
  enqueued-IsValid x = advance-IsValid _ (length-set r.buffer r.back x ∙ v.storage)

  -- The state after a `pop` that finds an element.
  pub popped-IsValid :
      r.size ≢ 0 → IsValid (record r { front = next r.capacity r.front; size = r.size - 1 })
  popped-IsValid ne = record {
    pos = v.pos;
    fits = v.fits;
    storage = v.storage;
    front_in = omega (arith, next_front, v.pos);
    room = omega (arith, v.room);
    back_at =
        v.back_at
        ∙ ap (λ k. k % r.capacity) (omega arith)
        ∙ sym (mod-add-mod (r.front + 1) r.capacity (r.size - 1))
        ∙ ap (λ k. (k + (r.size - 1)) % r.capacity) (sym next_front);
  }

  pub pop_empty : (d : A) → r.size ≡ 0 → pop d r ≡ done (d, r)
  unfolding pop
  pop_empty d e = ground arith

  pub pop_returns :
      (d : A)
      → r.size ≢ 0
      → pop d r
        ≡ done (
          get_or r.buffer r.front d,
          record r { front = next r.capacity r.front; size = r.size - 1 },
        )
  unfolding pop
  pop_returns d ne = rw (ne→== r.size 0 ne, load_in r.buffer r.front d (rw v.storage v.front_in))
