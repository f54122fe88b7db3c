-- ===== src/Base/Outcome.antt =====
-- How a run of kernel code can end: with a value, in `Kernel::panic`, which halts the machine, or
-- in an access outside an array, of which C++ says nothing.
use mathlib.Core.Path.{◌≡◌, refl}
use mathlib.Core.List.{List}
use mathlib.Core.Option.{Option, none, some}
use Prim.Native.Nat.{ℕ, ◌<◌}
use native.Mathlib.Omega.{arith}
use lamb_os.Base.Tests.{ltb, if◌then◌else◌}
use lamb_os.Base.Lists.{length, get_elem?, set, get_or, get_elem?-eq-get_or}

pub data Outcome {ℓ} (A : Type ℓ) : Type ℓ where
  done : A → Outcome A
  panic : Outcome A
  fault : Outcome A

infixl 5 ◌>>=◌
abbrev pub ◌>>=◌ {ℓ κ} : {A : Type ℓ} {B : Type κ} → Outcome A → (A → Outcome B) → Outcome B
done a >>= f = f a
panic >>= f = panic
fault >>= f = fault

abbrev pub in_bounds {ℓ} : {A : Type ℓ} → Option A → Outcome A
in_bounds none = fault
in_bounds (some a) = done a

-- `array[i]` and `array[i] = v`.
unfoldable pub load {ℓ} : {A : Type ℓ} → List A → ℕ → Outcome A
load xs i = in_bounds (get_elem? xs i)

unfoldable pub store {ℓ} : {A : Type ℓ} → List A → ℕ → A → Outcome (List A)
store xs i v = if ltb i (length xs) then done (set xs i v) else fault

pub load_in {ℓ} :
    {A : Type ℓ} (xs : List A) (i : ℕ) (d : A) → i < length xs → load xs i ≡ done (get_or xs i d)
unfolding load
load_in xs i d h = rw (get_elem?-eq-get_or xs i d h)

pub store_in {ℓ} :
    {A : Type ℓ} (xs : List A) (i : ℕ) (v : A) → i < length xs → store xs i v ≡ done (set xs i v)
unfolding store
store_in xs i v h = ground arith

pub >>=-eq-done {ℓ κ} :
    {A : Type ℓ} {B : Type κ} (m : Outcome A) (f : A → Outcome B) {b : B}
    → (m >>= f) ≡ done b
    → (a : A) × (m ≡ done a) × (f a ≡ done b)
>>=-eq-done (done a) f h = (a, refl, h)
>>=-eq-done panic f h = cc
>>=-eq-done fault f h = cc
