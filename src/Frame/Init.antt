-- ===== src/Frame/Init.antt =====
-- crates/kernel-memory/src/frame.rs: `FrameAllocator::init`.
pub mod Marks
pub mod Regions
pub mod Filled
pub mod Outcome
use paranuk_os.Base.{
  ℕ, zero, suc, ◌+◌, ◌-◌, ◌*◌, ◌/◌, ◌%◌, min, max, Bool, true, false, not, ◌&&◌, ◌||◌, Option, none,
  some, List, [], ◌∷◌, ◌++◌, Result, ok, err, ◌>>=◌, ◌>>◌, sub_word, ltb, leb, ◌==◌, if◌then◌else◌,
  length, take, drop, replicate, get_elem?, set?, test_bit, raise, lower,
}
use paranuk_os.MemoryMap.{MemoryKind, conventional, Region, end, MemoryMap, iter, page_size}
use paranuk_os.Frame.{
  max_reserved_ranges, ReservedRange, no_range, Config, InitError, bitmap_too_small,
  too_many_reserved_ranges, empty_range, no_usable_memory, FrameAllocator, div_ceil, is_reserved,
  mark_available,
}

abbrev pub is_conventional : MemoryKind → Bool
is_conventional conventional = true
is_conventional _ = false

-- The inner loop of `init`, from `address` to `finish`. `none` for fuel that runs out.
pub mark_range : ℕ → FrameAllocator → ℕ → ℕ → Option FrameAllocator
mark_range zero a address finish = none
mark_range (suc fuel) a address finish = elim (ltb address finish) [
  | false ↦ some a
  | true ↦ do
    b ← if is_reserved a address then some a else mark_available a address
    mark_range fuel b (address + page_size) finish
]

-- The outer loop of `init`, over the regions of the memory map.
pub mark_regions : ℕ → ℕ → FrameAllocator → List Region → Option FrameAllocator
mark_regions managed_start limit a [] = some a
mark_regions managed_start limit a (region ∷ rest) = elim (is_conventional region.kind) [
  | false ↦ mark_regions managed_start limit a rest
  | true ↦ do
    let from = max region.base managed_start
    let to = min (end region) limit
    b ← mark_range (suc (to - from)) a from to
    mark_regions managed_start limit b rest
]

-- The allocator before the loops of `init`.
abbrev pub blank : List ℕ → List ReservedRange → ℕ → ℕ → FrameAllocator
blank bitmap ranges first_frame frames =
    let half = div_ceil frames 8 in
    record {
      allocatable = replicate half 0;
      used = replicate half 255 ++ drop (2 * half) bitmap;
      first_frame = first_frame;
      frames = frames;
      free_frames = 0;
      reserved = ranges ++ replicate (max_reserved_ranges - length ranges) no_range;
      reserved_len = length ranges;
    }

pub init :
    List ℕ → MemoryMap → List ReservedRange → Config → Option (Result InitError FrameAllocator)
init bitmap map ranges cfg =
    let first_frame = div_ceil cfg.managed_start page_size in
    let end_frame = cfg.limit / page_size in
    let frames = end_frame - first_frame in
    let needed = 2 * div_ceil frames 8 in
    if ltb max_reserved_ranges (length ranges)
    then some (err (too_many_reserved_ranges (length ranges)))
    else if leb end_frame first_frame
    then some (err (empty_range cfg.managed_start cfg.limit))
    else if ltb (length bitmap) needed
    then some (err (bitmap_too_small needed (length bitmap)))
    else do
      a ←
          mark_regions (first_frame * page_size) (end_frame * page_size)
            (blank bitmap ranges first_frame frames) (iter map)
      some (if a.free_frames == 0 then err no_usable_memory else ok a)
