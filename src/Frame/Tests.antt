-- ===== src/Frame/Tests.antt =====
-- Runs of the frame allocator on small states.
use paranuk_os.Base.{
  ℕ, zero, suc, ◌+◌, ◌*◌, ◌<◌, ◌≡◌, ◌≢◌, ◌⊎◌, refl, true, false, Option, some, none, List, [], ◌∷◌,
  arith, Result, ok, err, replicate, test_bit, raise, lower, ◌++◌,
}
use paranuk_os.MemoryMap.{page_size, MemoryMap, iter, regions_from, region_at, read_u64, read_le}
use paranuk_os.Frame.{
  FrameAllocator, PhysFrame, ReservedRange, find_free_run, scan, is_free, bit, mark_all, mark_used,
  set_bit, free_at, no_range, Config, alloc, alloc_contiguous, free, already_free, not_managed,
  InitError, is_reserved, any,
}
use paranuk_os.Frame.Bitmap.{replicate-IsBytes}
use paranuk_os.Frame.Invariant.{owned, unused, IsValid}
use paranuk_os.Frame.Runs.{IsFirstRun}
use paranuk_os.Frame.Alloc.{IsMarked, alloc_lem, alloc_contiguous_lem}
use paranuk_os.Frame.Free.{address_of, FreesFrame, free_lem, alloc-free, free_twice}
use paranuk_os.Frame.FirstFree.{first_free_in, IsFirstIn, first_free_in_lem, first_free_in-reserved}
use paranuk_os.Frame.Init.{init}
use paranuk_os.Frame.Init.Outcome.{IsInit, init_lem}

-- Eight frames from 1 MiB on; the third, and the eighth, which is reserved, cannot be handed out,
-- and the first is handed out.
abbrev reserved_slots : List ReservedRange
reserved_slots = record { start = 1077248; finish = 1081344 } ∷ replicate 7 no_range

abbrev eight : FrameAllocator
eight = record {
  allocatable = 123 ∷ [];
  used = 133 ∷ [];
  first_frame = 256;
  frames = 8;
  free_frames = 5;
  reserved = reserved_slots;
  reserved_len = 1;
}

-- Frame 7 is the only reserved one.
eight-apart :
    (i : ℕ) → i < 8 → owned eight i ≡ true → is_reserved eight (address_of eight i) ≡ false
unfolding any test_bit
eight-apart zero l e = refl
eight-apart (suc zero) l e = refl
eight-apart (suc (suc zero)) l e = refl
eight-apart (suc (suc (suc zero))) l e = refl
eight-apart (suc (suc (suc (suc zero)))) l e = refl
eight-apart (suc (suc (suc (suc (suc zero))))) l e = refl
eight-apart (suc (suc (suc (suc (suc (suc zero)))))) l e = refl
eight-apart (suc (suc (suc (suc (suc (suc (suc zero))))))) l e = absurd (ground (arith, e))
eight-apart (suc (suc (suc (suc (suc (suc (suc (suc i)))))))) l e = absurd (omega arith)

eight-IsValid : IsValid eight
unfolding test_bit
eight-IsValid = record {
  allocatable_len = omega arith;
  used_len = omega arith;
  allocatable_bytes = (omega arith, tt);
  used_bytes = (omega arith, tt);
  counted = refl;
  apart = eight-apart;
}

alloc_lem_example :
    (((j : ℕ) → j < 8 → unused eight j ≡ false) × (alloc eight ≡ some (eight, none)))
    ⊎ ((i : ℕ) × (b : FrameAllocator) × (i < 8)
        × (unused eight i ≡ true)
        × ((j : ℕ) → j < i → unused eight j ≡ false)
        × (alloc eight ≡ some (b, some (record { address = (256 + i) * page_size })))
        × IsMarked eight i 1 b)
alloc_lem_example = alloc_lem eight eight-IsValid

alloc_contiguous_lem_example :
    (IsFirstRun eight 3 none × (alloc_contiguous eight 3 ≡ some (eight, none)))
    ⊎ ((s : ℕ) × (b : FrameAllocator) × IsFirstRun eight 3 (some s)
        × (alloc_contiguous eight 3
            ≡ some (b, some (record { start = (256 + s) * page_size; len = 3 * page_size })))
        × IsMarked eight s 3 b)
alloc_contiguous_lem_example = alloc_contiguous_lem eight 3 eight-IsValid (omega arith)

-- The lowest run of three free frames starts at frame 3.
alloc_contiguous-eight :
    alloc_contiguous eight 3
    ≡ some (
      record eight { used = 189 ∷ []; free_frames = 2 },
      some (record { start = 1060864; len = 12288 }),
    )
unfolding alloc_contiguous find_free_run scan is_free bit mark_all mark_used set_bit test_bit raise
alloc_contiguous-eight = refl

free_lem_example :
    (((i : ℕ) → i < 8 → 1048576 ≢ address_of eight i)
      × (free eight (record { address = 1048576 }) ≡ some (eight, err (not_managed 1048576))))
    ⊎ ((i : ℕ) × (i < 8) × (1048576 ≡ address_of eight i) × FreesFrame eight i)
free_lem_example = free_lem eight 1048576 eight-IsValid

abbrev second : PhysFrame
second = record { address = 1052672 }

abbrev eight_allocated : FrameAllocator
eight_allocated = record eight { used = 135 ∷ []; free_frames = 4 }

alloc-eight : alloc eight ≡ some (eight_allocated, some second)
unfolding alloc find_free_run scan is_free bit mark_used set_bit test_bit raise
alloc-eight = refl

alloc-free_example :
    (c : FrameAllocator) × (free eight_allocated second ≡ some (c, ok tt))
    × ((j : ℕ) → unused c j ≡ unused eight j)
    × (c.free_frames ≡ 5)
    × IsValid c
alloc-free_example = alloc-free eight eight_allocated second eight-IsValid alloc-eight

abbrev first : PhysFrame
first = record { address = 1048576 }

abbrev eight_freed : FrameAllocator
eight_freed = record eight { used = 132 ∷ []; free_frames = 6 }

free-eight : free eight first ≡ some (eight_freed, ok tt)
unfolding free free_at any bit set_bit test_bit lower
free-eight = refl

free_twice_example : free eight_freed first ≡ some (eight_freed, err (already_free 1048576))
free_twice_example = free_twice eight eight_freed first eight-IsValid free-eight

first_free_in_lem_example :
    (out : Option PhysFrame) × (first_free_in eight 1056768 1064960 ≡ some out)
    × IsFirstIn eight 1056768 1064960 out
first_free_in_lem_example = first_free_in_lem eight 1056768 1064960 eight-IsValid

first_free_in-reserved_example : first_free_in eight 1077248 1081344 ≡ some none
first_free_in-reserved_example =
    first_free_in-reserved eight 0 (record { start = 1077248; finish = 1081344 }) eight-IsValid refl

-- A map with one descriptor: 16 pages of conventional memory at 1 MiB.
abbrev one_region : MemoryMap
one_region = record {
  bytes =
      7 ∷ 0 ∷ 0 ∷ 0 ∷ 0 ∷ 0 ∷ 0 ∷ 0 ∷ 0 ∷ 0 ∷ 16 ∷ 0 ∷ 0 ∷ 0 ∷ 0 ∷ 0 ∷ replicate 8 0
      ++ 16 ∷ replicate 15 0;
  entries = 1;
  stride = 40;
  version = 1;
}

abbrev one_config : Config
one_config = record { managed_start = 1048576; limit = 1114112 }

init_lem_example :
    (r : Result InitError FrameAllocator) × (init
        (replicate 8 0)
        one_region
        (record { start = 1077248; finish = 1081344 } ∷ [])
        one_config
      ≡ some r)
    × IsInit
        (replicate 8 0)
        one_region
        (record { start = 1077248; finish = 1081344 } ∷ [])
        one_config
        r
unfolding iter regions_from region_at read_u64 read_le
init_lem_example =
    init_lem (replicate 8 0) one_region (record { start = 1077248; finish = 1081344 } ∷ [])
      one_config (replicate-IsBytes 8 0 (omega arith)) (refl, tt) (tt, tt)
