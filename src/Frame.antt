-- ===== src/Frame.antt =====
-- crates/kernel-memory/src/frame.rs: the bitmap allocator of physical page frames.
-- `none` is a panic: a bitmap index out of range, or a counter that would go below 0. The bitmaps
-- are lists of bytes. Addresses are natural numbers: below the limit, itself below 2^64, no sum
-- that the code writes can wrap.
pub mod Bitmap
pub mod Invariant
pub mod Runs
pub mod Alloc
pub mod Free
pub mod FirstFree
pub mod Init
mod Tests
use paranuk_os.Base.{
  ℕ, zero, suc, ◌+◌, ◌-◌, ◌*◌, ◌/◌, ◌%◌, min, max, Bool, true, false, not, ◌&&◌, ◌||◌, Option, none,
  some, List, [], ◌∷◌, ◌++◌, Result, ok, err, ◌>>=◌, ◌>>◌, sub_word, ltb, leb, ◌==◌, if◌then◌else◌,
  length, take, drop, replicate, get_elem?, set?, test_bit, raise, lower,
}
use paranuk_os.MemoryMap.{MemoryKind, conventional, Region, end, MemoryMap, iter, page_size}

abbrev pub min_free_addr : ℕ
min_free_addr = 1048576

abbrev pub max_reserved_ranges : ℕ
max_reserved_ranges = 8

pub record PhysFrame : Type 0 where
  pub address : ℕ

pub record PhysRange : Type 0 where
  pub start : ℕ
  pub len : ℕ

pub range_end : PhysRange → ℕ
range_end r = r.start + r.len

pub frames_of : PhysRange → ℕ
frames_of r = r.len / page_size

pub contains : PhysRange → ℕ → Bool
unfolding range_end
contains r address = leb r.start address && ltb address (range_end r)

pub record ReservedRange : Type 0 where
  pub start : ℕ
  pub finish : ℕ

abbrev pub overlaps : ReservedRange → ℕ → ℕ → Bool
overlaps r from to = ltb r.start to && ltb from r.finish

pub is_empty : ReservedRange → Bool
is_empty r = leb r.finish r.start

abbrev pub no_range : ReservedRange
no_range = record { start = 0; finish = 0 }

pub record Config : Type 0 where
  pub managed_start : ℕ
  pub limit : ℕ

pub config : ℕ → Config
config limit = record { managed_start = min_free_addr; limit = limit }

pub record FrameStats : Type 0 where
  pub managed : ℕ
  pub free_now : ℕ

pub data InitError : Type 0 where
  bitmap_too_small : ℕ → ℕ → InitError
  too_many_reserved_ranges : ℕ → InitError
  empty_range : ℕ → ℕ → InitError
  no_usable_memory : InitError

pub data FreeError : Type 0 where
  not_managed already_free in_reserved : ℕ → FreeError

pub record FrameAllocator : Type 0 where
  pub allocatable : List ℕ
  pub used : List ℕ
  pub first_frame : ℕ
  pub frames : ℕ
  pub free_frames : ℕ
  pub reserved : List ReservedRange
  pub reserved_len : ℕ

abbrev pub div_ceil : ℕ → ℕ → ℕ
div_ceil a b = (a + (b - 1)) / b

pub bitmap_bytes : ℕ → ℕ
bitmap_bytes frames = 2 * div_ceil frames 8

pub bit : List ℕ → ℕ → Option Bool
bit bytes index = do byte ← get_elem? bytes (index / 8); some (test_bit byte (index % 8))

pub set_bit : List ℕ → ℕ → Bool → Option (List ℕ)
set_bit bytes index value = do
  byte ← get_elem? bytes (index / 8)
  set? bytes (index / 8) (if value then raise byte (index % 8) else lower byte (index % 8))

pub any : List ReservedRange → ℕ → ℕ → Bool
any [] from to = false
any (range ∷ ranges) from to = overlaps range from to || any ranges from to

abbrev pub reserved_ranges : FrameAllocator → List ReservedRange
reserved_ranges a = take a.reserved_len a.reserved

abbrev pub frame_index : FrameAllocator → ℕ → Option ℕ
frame_index a address =
    let frame = address / page_size in
    if not (address % page_size == 0)
      || (ltb frame a.first_frame || leb (a.first_frame + a.frames) frame)
    then none
    else some (frame - a.first_frame)

abbrev pub is_reserved : FrameAllocator → ℕ → Bool
is_reserved a address = any (reserved_ranges a) address (address + page_size)

abbrev is_allocatable : FrameAllocator → ℕ → Option Bool
is_allocatable a index = bit a.allocatable index

abbrev is_used : FrameAllocator → ℕ → Option Bool
is_used a index = bit a.used index

-- `is_allocatable(index) && !is_used(index)`
pub is_free : FrameAllocator → ℕ → Option Bool
is_free a index = do
  x ← is_allocatable a index
  if x then (is_used a index >>= λ y. some (not y)) else some false

pub mark_available : FrameAllocator → ℕ → Option FrameAllocator
mark_available a address = elim (frame_index a address) [
  | none ↦ some a
  | some index ↦ do
    allocatable ← set_bit a.allocatable index true
    used ← set_bit a.used index false
    some (record a { allocatable = allocatable; used = used; free_frames = a.free_frames + 1 })
]

pub mark_used : FrameAllocator → ℕ → Option FrameAllocator
mark_used a index = do
  used ← set_bit a.used index true
  free ← sub_word a.free_frames 1
  some (record a { used = used; free_frames = free })

-- The loop of `find_free_run` from `index` on, with the rounds left.
pub scan : FrameAllocator → ℕ → ℕ → ℕ → ℕ → ℕ → Option (Option ℕ)
scan a count zero index run_start run = some none
scan a count (suc rounds) index run_start run = do
  free ← is_free a index
  let start = if run == 0 then index else run_start
  elim free [
    | false ↦ scan a count rounds (suc index) run_start 0
    | true ↦ elim (suc run == count) [
      | true ↦ some (some start)
      | false ↦ scan a count rounds (suc index) start (suc run)
    ]
  ]

pub find_free_run : FrameAllocator → ℕ → Option (Option ℕ)
find_free_run a count =
    if count == 0 || ltb a.frames count then some none else scan a count a.frames 0 0 0

pub alloc : FrameAllocator → Option (FrameAllocator × Option PhysFrame)
alloc a = do
  found ← find_free_run a 1
  elim found [
    | none ↦ some (a, none)
    | some index ↦ do
      b ← mark_used a index
      some (b, some (record { address = (b.first_frame + index) * page_size }))
  ]

-- The loop of `alloc_contiguous` from `index` on, `n` rounds.
pub mark_all : FrameAllocator → ℕ → ℕ → Option FrameAllocator
mark_all a index zero = some a
mark_all a index (suc n) = do b ← mark_used a index; mark_all b (suc index) n

pub alloc_contiguous : FrameAllocator → ℕ → Option (FrameAllocator × Option PhysRange)
alloc_contiguous a count = if count == 0 then some (a, none) else do
  found ← find_free_run a count
  elim found [
    | none ↦ some (a, none)
    | some start ↦ do
      b ← mark_all a start count
      some (
        b,
        some (record { start = (b.first_frame + start) * page_size; len = count * page_size }),
      )
  ]

-- The checks of `free` once the address has an index.
pub free_at : FrameAllocator → ℕ → ℕ → Option (FrameAllocator × Result FreeError (Unit {0}))
free_at a address index = if is_reserved a address then some (a, err (in_reserved address)) else do
  allocatable ← is_allocatable a index
  if not allocatable then some (a, err (not_managed address)) else do
    used ← is_used a index
    if not used then some (a, err (already_free address)) else do
      bits ← set_bit a.used index false
      some (record a { used = bits; free_frames = a.free_frames + 1 }, ok tt)

pub free : FrameAllocator → PhysFrame → Option (FrameAllocator × Result FreeError (Unit {0}))
unfolding free_at
free a frame = elim (frame_index a frame.address) [
  | none ↦ some (a, err (not_managed frame.address))
  | some index ↦ free_at a frame.address index
]

pub stats : FrameAllocator → FrameStats
stats a = record { managed = a.frames; free_now = a.free_frames }
