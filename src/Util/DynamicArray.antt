-- ===== src/Util/DynamicArray.antt =====
-- libsys/include/util/DynamicArray.hpp with its default resizer. `fresh` is what a cell holds that
-- nothing was stored to. `size_t` has 32 bits.
pub mod Loops
use lamb_os.Base.{
  ℕ, zero, suc, ◌+◌, ◌-◌, ◌*◌, ◌%◌, ◌^◌, Bool, true, false, List, ◌++◌, ◌==◌, ltb, if◌then◌else◌,
  replicate,
}
use lamb_os.Base.Outcome.{Outcome, done, fault, ◌>>=◌, load, store}

pub record DynamicArray {ℓ} (A : Type ℓ) : Type ℓ where
  pub capacity : ℕ
  pub cells : List A

abbrev pub default_size : ℕ
default_size = 8

module _ {ℓ} {A : Type ℓ} where
  -- for (i = ...; ...; ++i) { to[i - offset] = from[i]; }, with `n` rounds to go.
  pub move_left : ℕ → ℕ → ℕ → List A → Outcome (List A)
  move_left zero i offset cells = done cells
  move_left (suc n) i offset cells = do
    x ← load cells i
    cells' ← store cells (i - offset) x
    move_left n (i + 1) offset cells'

  -- `_moveRight`: the last element first.
  pub move_right : ℕ → ℕ → List A → Outcome (List A)
  move_right zero offset cells = done cells
  move_right (suc index) offset cells = do
    x ← load cells index
    cells' ← store cells (index + offset) x
    move_right index offset cells'

  unfoldable pub shift : DynamicArray A → ℕ → Bool → Outcome (DynamicArray A)
  shift a offset shift_left = do
    cells' ←
        (if shift_left
          then move_left (a.capacity - offset) offset offset a.cells
          else move_right a.capacity offset a.cells)
    done (record a { cells = cells' })

module _ {ℓ} {A : Type ℓ} (fresh : A) where
  unfoldable pub init : ℕ → DynamicArray A
  init reserve = record { capacity = reserve; cells = replicate reserve fresh }

  abbrev pub next_capacity : DynamicArray A → ℕ
  next_capacity a = a.capacity * 2 % 2 ^ 32

  -- `DefaultResizer::resize`: the old cells at `offset` in a block of `new_size`.
  abbrev pub resize_cells : List A → ℕ → ℕ → ℕ → Outcome (List A)
  resize_cells old old_size new_size offset =
      if ltb new_size (offset + old_size)
      then fault
      else done
          (replicate offset fresh ++ (old ++ replicate (new_size - (offset + old_size)) fresh))

  unfoldable pub resize : DynamicArray A → ℕ → ℕ → Outcome (DynamicArray A)
  resize a new_size offset =
      let size = (if new_size == 0 then next_capacity a else new_size) in
      (do
        cells' ← resize_cells a.cells a.capacity size offset
        done (record { capacity = size; cells = cells' }))

  unfoldable pub clear : DynamicArray A → DynamicArray A
  clear a = init default_size
