-- ===== src/Mem/Frames.antt =====
-- The physical page frames: kernel/include/mem/PageFrameAllocator.hpp and
-- kernel/src/arch/i386/mem/PageFrameAllocator.cpp. `pages` is `kPagesInBitmap`, which the source
-- sets to 1048576; all it relies on is that it is at most 2 ^ 20.
pub mod Bitmaps
pub mod Inv
pub mod Alloc
pub mod Release
mod Tests
use lamb_os.Base.{
  ℕ, zero, suc, ◌+◌, ◌-◌, ◌*◌, ◌/◌, ◌%◌, ◌^◌, bit_and, Bool, true, false, not, ◌&&◌, List, [], ◌∷◌,
  ◌==◌, if◌then◌else◌, Option, none, some,
}
use lamb_os.Base.Outcome.{Outcome, done, panic, ◌>>=◌}
use lamb_os.Util.BitSet.{BitSet, test, assign}
use lamb_os.Util.BitSet

pub record Bitmap : Type 0 where
  pub usable : BitSet
  pub used : BitSet

pub record Frames : Type 0 where
  pub bitmap : Bitmap
  pub last_alloc_frame : ℕ

-- The fields of `multiboot_memory_map_t` that the loader reads.
pub record MemoryMapEntry : Type 0 where
  pub addr : ℕ
  pub len : ℕ
  pub kind : ℕ

unfoldable pub frame_to_index : ℕ → ℕ
frame_to_index frame = bit_and frame 0xFFFFF000 / 0x1000

pub index_to_frame : ℕ → ℕ
index_to_frame index = index * 0x1000 % 2 ^ 32

abbrev pub inc32 : ℕ → ℕ
inc32 i = (i + 1) % 2 ^ 32

pub init : ℕ → Frames
init pages = record {
  bitmap = record { usable = BitSet.init pages false; used = BitSet.init pages false };
  last_alloc_frame = 0;
}

-- `used` is read only if the frame is usable.
pub usable_and_free : Bitmap → ℕ → Outcome Bool
usable_and_free b index = do
  u ← test b.usable index
  (if u then (do v ← test b.used index; done (not v)) else done false)

-- for (offset = 0; offset < n; ++offset) { bits[i + offset] = b; }
pub assign_run : ℕ → ℕ → Bool → BitSet → Outcome BitSet
assign_run zero i b s = done s
assign_run (suc n) i b s = do s' ← assign s i b; assign_run n (inc32 i) b s'

-- The entries that the walk from `mmapAddr` to `mmapLength` past it meets, in order. `size_t(x)`
-- keeps the low 32 bits of a 64-bit page number.
pub load_memory_map : List MemoryMapEntry → Bitmap → Outcome Bitmap
load_memory_map [] b = done b
load_memory_map (e ∷ es) b = do
  b' ←
      (if e.kind == 1
        then (do
          usable' ← assign_run (page_offset + e.len / 0x1000 - first) first true b.usable
          done (record b { usable = usable' }))
        else done b)
  load_memory_map es b'
  where
    page_offset : ℕ
    page_offset = e.addr / 0x1000

    first : ℕ
    first = page_offset % 2 ^ 32

pub mark_frame_usable : Frames → ℕ → Bool → Outcome Frames
mark_frame_usable a frame usable = do
  usable' ← assign a.bitmap.usable (frame_to_index frame) usable
  done (record a { bitmap = record { usable = usable'; used = a.bitmap.used } })

pub request_frame_index : Frames → ℕ → Outcome (Bool × Frames)
request_frame_index a index = do
  retval ← usable_and_free a.bitmap index
  (if retval
      then (do
        used' ← assign a.bitmap.used index true
        done (retval, record a { bitmap = record { usable = a.bitmap.usable; used = used' } }))
      else done (retval, a))

pub request_frame : Frames → ℕ → Outcome (Bool × Frames)
request_frame a frame = request_frame_index a (frame_to_index frame)

-- The first loop of `findFrames`: `found &= usableAndFree(i + offset)` reads every frame.
pub check_run : Bitmap → ℕ → ℕ → Bool → Outcome Bool
check_run b zero i found = done found
check_run b (suc n) i found = do f ← usable_and_free b i; check_run b n (inc32 i) (found && f)

pub find_frames : Frames → ℕ → ℕ → Outcome (Option ℕ × Frames)
find_frames a n i = do
  found ← check_run a.bitmap n i true
  (if found
      then (do
        used' ← assign_run n i true a.bitmap.used
        done (
          some (index_to_frame i),
          record {
            bitmap = record { usable = a.bitmap.usable; used = used' };
            last_alloc_frame = index_to_frame ((i + n - 1) % 2 ^ 32);
          },
        ))
      else done (none, a))

-- for (; i < limit; ++i), with `limit - i` rounds to go.
pub scan : Frames → ℕ → ℕ → ℕ → Outcome (Option ℕ × Frames)
scan a n zero i = done (none, a)
scan a n (suc rounds) i = do
  (result, a') ← find_frames a n i
  elim result [ some frame ↦ done (some frame, a') | none ↦ scan a' n rounds (inc32 i) ]

-- The frame number is a 32-bit integer.
pub alloc : ℕ → Frames → ℕ → Outcome (ℕ × Frames)
alloc pages a n =
    let start = frame_to_index a.last_alloc_frame in
    if n == 0 then done (2 ^ 32 - 1, a) else (do
      (first, a₁) ← scan a n (pages - start) start
      elim first [
        | some frame ↦ done (frame, a₁)
        | none ↦ (do
          (second, a₂) ← scan a₁ n start 0
          elim second [ some frame ↦ done (frame, a₂) | none ↦ panic ])
      ])

pub free : Frames → ℕ → ℕ → Outcome Frames
free a frame n = do
  used' ← assign_run n (frame_to_index frame) false a.bitmap.used
  done (record a { bitmap = record { usable = a.bitmap.usable; used = used' } })
