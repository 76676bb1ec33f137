-- ===== src/Frame/Init/Outcome.antt =====
-- crates/kernel-memory/src/frame.rs: what `init` returns, on every branch.
use paranuk_os.Base.{
  ℕ, ◌+◌, ◌-◌, ◌*◌, ◌/◌, ◌≤◌, ◌<◌, ◌≡◌, inl, inr, refl, false, some, List, arith, ltb, leb, ◌==◌,
  Bool-cases, length, All, Result, ok, err,
}
use paranuk_os.MemoryMap.{page_size, MemoryMap, iter}
use paranuk_os.Frame.{
  FrameAllocator, ReservedRange, Config, InitError, bitmap_too_small, too_many_reserved_ranges,
  empty_range, no_usable_memory, div_ceil, max_reserved_ranges,
}
use paranuk_os.Frame.Bitmap.{IsBytes}
use paranuk_os.Frame.Invariant.{unused, IsValid}
use paranuk_os.Frame.Free.{address_of}
use paranuk_os.Frame.Init.{init}
use paranuk_os.Frame.Init.Regions.{IsPageAligned, ArePairwiseApart, IsFresh, mark_regions_lem}
use paranuk_os.Frame.Init.Filled.{
  start, start-IsBuilding, All-always, owned-start, filled-IsValid, filled-usable, filled-none,
  is_usable,
}

-- What `init` returns, case by case.
pub IsInit :
    List ℕ → MemoryMap → List ReservedRange → Config → Result InitError FrameAllocator → Type 0
IsInit bitmap map ranges cfg (ok a) =
    IsValid a
    × (a.first_frame ≡ div_ceil cfg.managed_start page_size)
    × (a.first_frame + a.frames ≡ cfg.limit / page_size)
    × (0 < a.free_frames)
    × ((j : ℕ) → j < a.frames → unused a j ≡ is_usable (iter map) ranges (address_of a j))
IsInit bitmap map ranges cfg (err (too_many_reserved_ranges n)) =
    (n ≡ length ranges) × (max_reserved_ranges < n)
IsInit bitmap map ranges cfg (err (empty_range from to)) =
    (from ≡ cfg.managed_start)
    × (to ≡ cfg.limit)
    × (length ranges ≤ max_reserved_ranges)
    × (to / page_size ≤ div_ceil from page_size)
IsInit bitmap map ranges cfg (err (bitmap_too_small needed got)) =
    (got ≡ length bitmap)
    × (got < needed)
    × (needed ≡ 2 * div_ceil (cfg.limit / page_size - div_ceil cfg.managed_start page_size) 8)
IsInit bitmap map ranges cfg (err no_usable_memory) =
    (j : ℕ)
    → div_ceil cfg.managed_start page_size ≤ j
    → j < cfg.limit / page_size
    → is_usable (iter map) ranges (j * page_size) ≡ false

-- `init` never panics and its loops end, when the bitmap is made of bytes, the regions of the map
-- start on a page boundary and no two conventional regions overlap. On success the allocator
-- satisfies the invariant, manages the frames from the first whole one at `managed_start` to the
-- limit, has a free one, and the free ones are those that a conventional region holds and no
-- reserved range meets. `NoUsableMemory` means that there is none of these; each other error names
-- the check that failed and its numbers.
pub init_lem :
    (bitmap : List ℕ) (map : MemoryMap) (ranges : List ReservedRange) (cfg : Config)
    → IsBytes bitmap
    → All IsPageAligned (iter map)
    → ArePairwiseApart (iter map)
    → (r : Result InitError FrameAllocator) × (init bitmap map ranges cfg ≡ some r)
      × IsInit bitmap map ranges cfg r
unfolding init IsInit start
init_lem bitmap map ranges cfg bytes al apart =
    elim (Bool-cases (ltb max_reserved_ranges (length ranges))) [
      | inl many ↦ (
        err (too_many_reserved_ranges (length ranges)),
        ground (arith, many),
        (refl, ground (arith, many)),
      )
      | inr few ↦ elim (Bool-cases (leb end_frame first_frame)) [
        | inl e ↦ (
          err (empty_range cfg.managed_start cfg.limit),
          ground (arith, few, e),
          (refl, refl, ground (arith, few), ground (arith, e)),
        )
        | inr wide ↦ elim (Bool-cases (ltb (length bitmap) (2 * div_ceil frames 8))) [
          | inl small ↦ (
            err (bitmap_too_small (2 * div_ceil frames 8) (length bitmap)),
            ground (arith, few, wide, small),
            (refl, ground (arith, small), refl),
          )
          | inr room ↦
              let (b, g, f) =
                mark_regions_lem (first_frame * page_size) (end_frame * page_size) first (iter map)
                  refl (ground (arith, wide))
                  (start-IsBuilding bitmap ranges first_frame frames bytes) al apart
                  (All-always (IsFresh first) (iter map)
                    (λ r j l h. owned-start bitmap ranges first_frame frames bytes j l)) in
              elim (Bool-cases (b.free_frames == 0)) [
                | inl e ↦ (
                  err no_usable_memory,
                  ground (arith, few, wide, room, g, e),
                  λ j l m.
                      filled-none bitmap ranges first_frame frames bytes (iter map) b f
                        (ground (arith, e)) j l (ground (arith, wide)),
                )
                | inr e ↦ (
                  ok b,
                  ground (arith, few, wide, room, g, e),
                  (
                    filled-IsValid bitmap ranges first_frame frames bytes (iter map) b f,
                    f.same.same_first,
                    ground (arith, wide, f.same.same_first, f.same.same_frames),
                    ground (arith, e),
                    filled-usable bitmap ranges first_frame frames bytes (iter map) b f,
                  ),
                )
              ]
        ]
      ]
    ]
  where
    first_frame : ℕ
    first_frame = div_ceil cfg.managed_start page_size

    end_frame : ℕ
    end_frame = cfg.limit / page_size

    frames : ℕ
    frames = end_frame - first_frame

    first : FrameAllocator
    first = start bitmap ranges first_frame frames bytes
