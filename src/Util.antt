-- ===== src/Util.antt =====
-- The containers and helpers of libsys/include/util and libsys/include/math.
pub mod RingBuffer
pub mod BitSet
pub mod DynamicArray
pub mod ArrayList
pub mod HashMap
