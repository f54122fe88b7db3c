-- ===== src/Util/RingBuffer.antt =====
-- libsys/include/util/RingBuffer.hpp: a queue over an array of fixed length in which enqueueing
-- into a full buffer drops the oldest element. `size_t` and `uint32_t` have 32 bits (i386).
pub mod Inv
pub mod Lossy
pub mod Refine
mod Tests
use lamb_os.Base.{ℕ, ◌+◌, ◌-◌, ◌%◌, ◌^◌, Bool, List, [], ◌∷◌, ◌==◌, if◌then◌else◌, replicate}
use lamb_os.Base.Outcome.{Outcome, done, fault, ◌>>=◌, load, store}

pub record RingBuffer {ℓ} (A : Type ℓ) : Type ℓ where
  pub capacity : ℕ
  pub front : ℕ
  pub back : ℕ
  pub size : ℕ
  pub buffer : List A

-- A call of the queue interface, and what the caller sees of it.
pub data Op {ℓ} (A : Type ℓ) : Type ℓ where
  put : A → Op A
  take : Op A

-- `_next`; the sum is a `size_t`.
abbrev pub next : ℕ → ℕ → ℕ
next capacity current = (current + 1) % 2 ^ 32 % capacity

module _ {ℓ} {A : Type ℓ} where
  -- The two counters after a write at `_back`.
  abbrev advance : RingBuffer A → List A → RingBuffer A
  advance r buffer' =
      if r.front == next r.capacity r.back
      then record r {
        front = next r.capacity r.front;
        back = next r.capacity r.back;
        buffer = buffer';
      }
      else record r {
        back = next r.capacity r.back;
        size = (r.size + 1) % 2 ^ 32;
        buffer = buffer';
      }

  pub enqueue : RingBuffer A → A → Outcome (RingBuffer A)
  enqueue r item = do buffer' ← store r.buffer r.back item; done (advance r buffer')

  unfoldable pub is_empty : RingBuffer A → Bool
  is_empty r = r.size == 0

  -- With nothing to show, the source dereferences a null pointer.
  pub peek : RingBuffer A → Outcome A
  unfolding is_empty
  peek r = if is_empty r then fault else load r.buffer r.front

  -- `_front = _back`; nothing else is written.
  pub clear : RingBuffer A → RingBuffer A
  clear r = record r { front = r.back }

-- `default` is the element that `T{}` makes.
module _ {ℓ} {A : Type ℓ} (default : A) where
  unfoldable pub init : ℕ → RingBuffer A
  init capacity = record {
    capacity = capacity;
    front = 0;
    back = 0;
    size = 0;
    buffer = replicate capacity default;
  }

  pub pop : RingBuffer A → Outcome (A × RingBuffer A)
  unfolding is_empty
  pop r = if is_empty r then done (default, r) else (do
    item ← load r.buffer r.front
    done (item, record r { front = next r.capacity r.front; size = r.size - 1 }))

  -- The calls of a client in order, with what each `pop` returns.
  pub run : RingBuffer A → List (Op A) → Outcome (List A × RingBuffer A)
  run r [] = done ([], r)
  run r (put x ∷ ops) = do r' ← enqueue r x; run r' ops
  run r (take ∷ ops) = do (x, r') ← pop r; (out, r'') ← run r' ops; done (x ∷ out, r'')
