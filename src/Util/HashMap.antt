-- ===== src/Util/HashMap.antt =====
-- `insert`, `contains` and `operator[]` of libsys/include/util/HashMap.hpp, over DynamicArray. A bucket, a LinkedList of pairs in the code,
-- is the list of its elements; the hash and the comparisons are the class's template parameters.
pub mod Chains
pub mod Lookup
pub mod Refine
mod Tests
use lamb_os.Base.{
  ℕ, zero, suc, ◌+◌, ◌*◌, ◌%◌, ◌^◌, Bool, true, false, ◌&&◌, List, [], ◌∷◌, ◌++◌, Option, none,
  some, ◌==◌, ltb, if◌then◌else◌, replicate,
}
use lamb_os.Base.Outcome.{Outcome, done, fault, ◌>>=◌, load, store}
use lamb_os.Util.DynamicArray.{DynamicArray}

pub record HashMap (K V : Type 0) : Type 0 where
  pub values : DynamicArray (List (K × V))
  pub size : ℕ

module _ {K V : Type 0} where
  unfoldable pub is_empty : HashMap K V → Bool
  is_empty m = m.size == 0

  -- A map with `capacity` buckets.
  unfoldable pub init : ℕ → HashMap K V
  init capacity = record {
    values = record { capacity = capacity; cells = replicate capacity [] };
    size = 0;
  }

  abbrev pub with_cells : HashMap K V → List (List (K × V)) → HashMap K V
  with_cells m cells' = record m { values = record m.values { cells = cells' } }

  pub should_resize : HashMap K V → Bool
  should_resize m = ltb (m.values.capacity * 2 % 2 ^ 32) m.size

module _ {K V : Type 0} (equal : K → K → Bool) where
  -- The loops over a bucket. A key that is there gets the new value, or the result is `none`.
  pub assign_in : List (K × V) → K → V → Option (List (K × V))
  assign_in [] k v = none
  assign_in ((k', v') ∷ chain) k v =
      let later = assign_in chain k v in
      if equal k' k
      then some ((k', v) ∷ chain)
      else elim later [ none ↦ none | some chain' ↦ some ((k', v') ∷ chain') ]

  pub insert_in : List (K × V) → K → V → List (K × V)
  insert_in chain k v = elim (assign_in chain k v) [
    | some assigned ↦ assigned
    | none ↦ chain ++ ((k, v) ∷ [])
  ]

  pub contains_in : List (K × V) → K → Bool
  contains_in [] k = false
  contains_in ((k', v') ∷ chain) k =
      let later = contains_in chain k in if equal k' k then true else later

  pub find_in : List (K × V) → K → Option V
  find_in [] k = none
  find_in ((k', v') ∷ chain) k =
      let later = find_in chain k in if equal k' k then some v' else later

module _ {K V : Type 0} (hasher : K → ℕ) where
  -- Without a bucket, the division by the capacity traps.
  pub hash : HashMap K V → K → Outcome ℕ
  hash m k = if m.values.capacity == 0 then fault else done (hasher k % m.values.capacity)

module _ {K V : Type 0} (equal : K → K → Bool) (hasher : K → ℕ) where
  -- Growing has no behaviour: the call of `ArrayResizer::resize`, which is no template, as one does
  -- not compile.
  pub insert : HashMap K V → K → V → Outcome (Bool × HashMap K V)
  insert m k v = do
    m₁ ← (if should_resize m then fault else done m)
    new_hash ← hash hasher m₁ k
    chain ← load m₁.values.cells new_hash
    cells' ← store m₁.values.cells new_hash (insert_in equal chain k v)
    done (true, with_cells m₁ cells')

  pub contains : HashMap K V → K → Outcome Bool
  contains m k = do
    key_hash ← hash hasher m k
    chain ← load m.values.cells key_hash
    done (contains_in equal chain k)

  -- `operator[]`, which also returns the map; `fresh` is the value that `MappedType{}` makes.
  -- Where the second loop finds nothing, the code dereferences a null pointer.
  pub found_value : HashMap K V → Option V → Outcome (V × HashMap K V)
  found_value m none = fault
  found_value m (some v) = done (v, m)

  pub found_or_new : V → HashMap K V → K → ℕ → Option V → Outcome (V × HashMap K V)
  found_or_new fresh m k key_hash (some v) = done (v, m)
  found_or_new fresh m k key_hash none = do
    (inserted, m') ← insert m k fresh
    chain' ← load m'.values.cells key_hash
    found_value m' (find_in equal chain' k)

  pub at : V → HashMap K V → K → Outcome (V × HashMap K V)
  at fresh m k = do
    key_hash ← hash hasher m k
    chain ← load m.values.cells key_hash
    found_or_new fresh m k key_hash (find_in equal chain k)
