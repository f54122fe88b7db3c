-- ===== src/Util/BitSet.antt =====
-- libsys/include/util/BitSet.hpp, over its words of 32 bits.
pub mod Laws
mod Tests
use lamb_os.Base.{
  ℕ, ◌+◌, ◌-◌, ◌*◌, ◌/◌, ◌%◌, ◌^◌, bit_and, bit_or, Bool, true, false, not, List, ◌==◌,
  if◌then◌else◌, ltb, replicate,
}
use lamb_os.Base.Outcome.{Outcome, done, ◌>>=◌, load, store}

-- `_bits`; a `StoreUnit` is below 2 ^ 32.
pub record BitSet : Type 0 where
  pub bits : List ℕ

-- `div_ceil` of math/Math.hpp at unsigned types.
unfoldable pub div_ceil : ℕ → ℕ → ℕ
div_ceil dvd dvs = dvd / dvs + (if ltb 0 (dvd % dvs) then 1 else 0)

-- `BitSet(initial)`: every byte of the array is written.
unfoldable pub init : ℕ → Bool → BitSet
unfolding div_ceil
init size_bits initial = record {
  bits = replicate (div_ceil size_bits 32) (if initial then 2 ^ 32 - 1 else 0);
}

abbrev pub bitmask : ℕ → ℕ
bitmask bit = 2 ^ (bit % 32)

unfoldable pub test : BitSet → ℕ → Outcome Bool
unfolding load
test s bit = do unit ← load s.bits (bit / 32); done (not (bit_and unit (bitmask bit) == 0))

-- Both return what the bit was.
unfoldable pub set : BitSet → ℕ → Outcome (Bool × BitSet)
unfolding load store
set s bit = do
  prev ← test s bit
  unit ← load s.bits (bit / 32)
  bits' ← store s.bits (bit / 32) (bit_or unit (bitmask bit))
  done (prev, record s { bits = bits' })

unfoldable pub unset : BitSet → ℕ → Outcome (Bool × BitSet)
unfolding load store
unset s bit = do
  prev ← test s bit
  unit ← load s.bits (bit / 32)
  bits' ← store s.bits (bit / 32) (bit_and unit (2 ^ 32 - 1 - bitmask bit))
  done (prev, record s { bits = bits' })

-- `ProxyBit::operator=`, the assignment `bits[i] = b`.
unfoldable pub assign : BitSet → ℕ → Bool → Outcome BitSet
assign s bit b = do (prev, s') ← (if b then set s bit else unset s bit); done s'
