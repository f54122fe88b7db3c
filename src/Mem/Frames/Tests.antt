-- ===== src/Mem/Frames/Tests.antt =====
-- Runs of the allocator on a machine of 64 frames, and its theorems there.
use lamb_os.Base.{ℕ, ◌+◌, ◌*◌, ◌≤◌, ◌<◌, ◌≡◌, ◌⊎◌, refl, [], ◌∷◌, arith, false}
use lamb_os.Base.Outcome.{done, panic, fault}
use lamb_os.Util.BitSet
use lamb_os.Util.BitSet.{BitSet, assign}
use lamb_os.Util.BitSet.Laws.{at}
use lamb_os.Mem.Frames.{
  Frames, frame_to_index, index_to_frame, init, usable_and_free, assign_run, load_memory_map,
  check_run, find_frames, scan, alloc, free,
}
use lamb_os.Mem.Frames.Bitmaps.{free_at, all_free}
use lamb_os.Mem.Frames.Inv.{IsValid, Allocated}
use lamb_os.Mem.Frames.Alloc.{alloc_sound, alloc_one, alloc_overruns}
use lamb_os.Mem.Frames.Release.{free-alloc, allocs_disjoint}

-- Frames 0 to 39 are usable, 0 to 2 are taken.
abbrev small : Frames
small = record {
  bitmap = record {
    usable = record { bits = 0xFFFFFFFF ∷ 0xFF ∷ [] };
    used = record { bits = 7 ∷ 0 ∷ [] };
  };
  last_alloc_frame = 0x2000;
}

abbrev after : Frames
after = record {
  bitmap = record {
    usable = record { bits = 0xFFFFFFFF ∷ 0xFF ∷ [] };
    used = record { bits = 0x1F ∷ 0 ∷ [] };
  };
  last_alloc_frame = 0x4000;
}

abbrev next : Frames
next = record {
  bitmap = record {
    usable = record { bits = 0xFFFFFFFF ∷ 0xFF ∷ [] };
    used = record { bits = 0xFF ∷ 0 ∷ [] };
  };
  last_alloc_frame = 0x7000;
}

-- Frame 63 was allocated last, and is still in use.
abbrev at_the_end : Frames
at_the_end = record {
  bitmap = record {
    usable = record { bits = 0xFFFFFFFF ∷ 0xFFFFFFFF ∷ [] };
    used = record { bits = 7 ∷ 0x80000000 ∷ [] };
  };
  last_alloc_frame = 0x3F000;
}

small-IsValid : IsValid 64 small
unfolding frame_to_index
small-IsValid = record {
  usable_size = refl;
  used_size = refl;
  small = omega arith;
  last_in = omega arith;
}

at_the_end-IsValid : IsValid 64 at_the_end
unfolding frame_to_index
at_the_end-IsValid = record {
  usable_size = refl;
  used_size = refl;
  small = omega arith;
  last_in = omega arith;
}

loads :
    load_memory_map
      (record { addr = 0; len = 0x9FC00; kind = 1 }
        ∷ record { addr = 0xF0000; len = 0x10000; kind = 2 }
        ∷ [])
      (init 192).bitmap
    ≡ done (record {
      usable = record {
        bits = 0xFFFFFFFF ∷ 0xFFFFFFFF ∷ 0xFFFFFFFF ∷ 0xFFFFFFFF ∷ 0x7FFFFFFF ∷ 0 ∷ [];
      };
      used = (init 192).bitmap.used;
    })
unfolding load_memory_map assign_run assign init BitSet.init BitSet.set BitSet.test
loads = refl

takes_two : alloc 64 small 2 ≡ done (0x3000, after)
unfolding alloc scan find_frames check_run usable_and_free assign_run assign frame_to_index
    index_to_frame BitSet.test BitSet.set
takes_two = refl

takes_three : alloc 64 after 3 ≡ done (0x5000, next)
unfolding alloc scan find_frames check_run usable_and_free assign_run assign frame_to_index
    index_to_frame BitSet.test BitSet.set
takes_three = refl

alloc_sound_example : Allocated 64 small 2 0x3000 after
alloc_sound_example = alloc_sound 64 small 2 0x3000 after small-IsValid (omega arith) takes_two

alloc_one_example :
    ((f : ℕ) × (a' : Frames) × (alloc 64 small 1 ≡ done (f, a')) × Allocated 64 small 1 f a')
    ⊎ ((alloc 64 small 1 ≡ panic) × ((j : ℕ) → j < 64 → free_at small.bitmap j ≡ false))
alloc_one_example = alloc_one 64 small small-IsValid

no_run : (j : ℕ) → frame_to_index 0x3F000 ≤ j → j + 2 ≤ 64 → all_free at_the_end.bitmap 2 j ≡ false
unfolding frame_to_index
no_run j lo hi = absurd (omega arith)

alloc_overruns_example : alloc 64 at_the_end 2 ≡ fault
alloc_overruns_example = alloc_overruns 64 at_the_end 2 at_the_end-IsValid (omega arith) no_run

free-alloc_example :
    (a'' : Frames) × (free after 0x3000 2 ≡ done a'')
    × IsValid 64 a''
    × (a''.bitmap.usable ≡ small.bitmap.usable)
    × ((j : ℕ) → at a''.bitmap.used j ≡ at small.bitmap.used j)
free-alloc_example = free-alloc 64 small 2 0x3000 after small-IsValid (omega arith) takes_two

allocs_disjoint_example : (0x3000 + 2 * 4096 ≤ 0x5000) ⊎ (0x5000 + 3 * 4096 ≤ 0x3000)
allocs_disjoint_example =
    allocs_disjoint 64 small 2 3 0x3000 0x5000 after next small-IsValid (omega arith) (omega arith)
      takes_two takes_three
