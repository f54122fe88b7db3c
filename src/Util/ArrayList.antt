-- ===== src/Util/ArrayList.antt =====
-- libsys/include/util/ArrayList.hpp over DynamicArray. An element is looked for by a Boolean test,
-- the `==` of its type.
pub mod Inv
pub mod Ends
pub mod Middle
mod Tests
use lamb_os.Base.{
  ℕ, zero, suc, ◌+◌, ◌-◌, ◌*◌, ◌%◌, ◌^◌, Bool, true, false, List, ◌==◌, ltb, leb, if◌then◌else◌,
}
use lamb_os.Base.Outcome.{Outcome, done, fault, ◌>>=◌, load, store}
use lamb_os.Util.DynamicArray
use lamb_os.Util.DynamicArray.{DynamicArray, move_left}

pub record ArrayList {ℓ} (A : Type ℓ) : Type ℓ where
  pub array : DynamicArray A
  pub size : ℕ

-- for (i = ...; i > idx; --i) { data[i] = data[i - 1]; }, with `n` rounds to go.
pub make_room {ℓ} : {A : Type ℓ} → ℕ → ℕ → List A → Outcome (List A)
make_room zero i cells = done cells
make_room (suc n) i cells = do
  x ← load cells (i - 1)
  cells' ← store cells i x
  make_room n (i - 1) cells'

-- The index of the first element that passes the test, or `SIZE_MAX`.
pub find_index {ℓ} : {A : Type ℓ} → (A → Bool) → List A → ℕ → ℕ → Outcome ℕ
find_index test cells zero i = done (2 ^ 32 - 1)
find_index test cells (suc n) i = do
  x ← load cells i
  (let later = find_index test cells n (i + 1) in if test x then done i else later)

module _ {ℓ} {A : Type ℓ} where
  abbrev pub with_cells : ArrayList A → List A → ℕ → ArrayList A
  with_cells l cells' size' = record l {
    array = record { capacity = l.array.capacity; cells = cells' };
    size = size';
  }

  unfoldable pub is_empty : ArrayList A → Bool
  is_empty l = l.size == 0

  pub at : ArrayList A → ℕ → Outcome A
  at l index = load l.array.cells index

  pub peek : ArrayList A → Outcome A
  peek l = load l.array.cells 0

  pub peek_back : ArrayList A → Outcome A
  peek_back l = load l.array.cells ((l.size + 2 ^ 32 - 1) % 2 ^ 32)

  pub pop : ArrayList A → Outcome (A × ArrayList A)
  pop l = do
    x ← load l.array.cells 0
    array' ← DynamicArray.shift l.array 1 true
    done (x, record { array = array'; size = (l.size + 2 ^ 32 - 1) % 2 ^ 32 })

  pub pop_back : ArrayList A → Outcome (A × ArrayList A)
  pop_back l = do
    let size' = (l.size + 2 ^ 32 - 1) % 2 ^ 32
    x ← load l.array.cells size'
    done (x, record l { size = size' })

  -- The overload by index.
  pub remove_at : ArrayList A → ℕ → Outcome (Bool × ArrayList A)
  remove_at l index = if leb l.size index then done (false, l) else (do
    cells' ← move_left (l.size - 1 - index) (index + 1) 1 l.array.cells
    done (true, with_cells l cells' (l.size - 1)))

  -- The overload by element; `test` compares with it.
  pub remove : (A → Bool) → ArrayList A → Outcome (Bool × ArrayList A)
  remove test l = do index ← find_index test l.array.cells l.size 0; remove_at l index

module _ {ℓ} {A : Type ℓ} (fresh : A) where
  unfoldable pub init : ℕ → ArrayList A
  init reserve = record { array = DynamicArray.init fresh reserve; size = 0 }

  pub reserve : ArrayList A → ℕ → Outcome (ArrayList A)
  reserve l amount =
      if ltb l.array.capacity amount
      then (do
        array' ← DynamicArray.resize fresh l.array amount 0
        done (record l { array = array' }))
      else done l

  -- `resize()` where the array is full.
  pub grow : ArrayList A → Outcome (ArrayList A)
  grow l =
      if l.size == l.array.capacity
      then (do array' ← DynamicArray.resize fresh l.array 0 0; done (record l { array = array' }))
      else done l

  pub enqueue : ArrayList A → A → Outcome (ArrayList A)
  enqueue l x = do
    l' ← grow l
    cells' ← store l'.array.cells l'.size x
    done (with_cells l' cells' ((l'.size + 1) % 2 ^ 32))

  pub shift_or_resize : ArrayList A → ℕ → Outcome (DynamicArray A)
  shift_or_resize l offset =
      if l.size == 0
      then done l.array
      else if ltb l.array.capacity ((offset + l.size) % 2 ^ 32)
      then (let min_capacity = (l.array.capacity + offset) % 2 ^ 32 in
          let double_capacity = l.array.capacity * 2 % 2 ^ 32 in
          DynamicArray.resize fresh l.array
            (if ltb min_capacity double_capacity then double_capacity else min_capacity) offset)
      else DynamicArray.shift l.array offset false

  pub push : ArrayList A → A → Outcome (ArrayList A)
  push l x = do
    array' ← shift_or_resize l 1
    cells' ← store array'.cells 0 x
    done (record {
      array = record { capacity = array'.capacity; cells = cells' };
      size = (l.size + 1) % 2 ^ 32;
    })

  -- The result tells whether the list changed.
  pub insert : ArrayList A → A → ℕ → Outcome (Bool × ArrayList A)
  insert l x index =
      if index == l.size
      then (do l' ← enqueue l x; done (true, l'))
      else if index == 0
      then (do l' ← push l x; done (true, l'))
      else if ltb l.size index
      then done (false, l)
      else (do
        l' ← grow l
        moved ← make_room (l'.size - index) l'.size l'.array.cells
        cells' ← store moved index x
        done (true, with_cells l' cells' ((l'.size + 1) % 2 ^ 32)))

  unfoldable pub clear : ArrayList A → ArrayList A
  clear l = record { array = DynamicArray.clear fresh l.array; size = 0 }
