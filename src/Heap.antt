-- ===== src/Heap.antt =====
-- crates/kernel-memory/src/heap.rs: the first-fit free list of the kernel heap.
-- The arena is a list of bytes that stands beside the list and is passed on. The outer `Option` is
-- the panic of the code (a slice out of range, a sum that overflows under overflow checks), the inner
-- one Rust's; `read_header`, `align_up` and the other helpers that only return Rust's `Option` have
-- one. `& !(align - 1)` is written by the remainder, which it is for a power of two; a sum that a
-- check just above it bounds is written without a check.
pub mod Headers
pub mod Blocks
pub mod Sizes
pub mod Outside
pub mod Count
pub mod Coalesced
pub mod Join
pub mod Before
pub mod Alloc
pub mod Dealloc
pub mod Start
pub mod Payload
pub mod Again
pub mod Live
pub mod Run
mod Tests
use paranuk_os.Base.{
  ℕ, zero, suc, ◌+◌, ◌-◌, ◌*◌, ◌/◌, ◌%◌, min, max, Bool, true, false, not, ◌&&◌, ◌||◌, Option, none,
  some, List, [], ◌∷◌, ◌++◌, Result, ok, err, ◌>>=◌, add_word, sub_word, word, ltb, leb, ◌==◌,
  if◌then◌else◌, length, take, drop, slice?, copy_into, from_le, to_le, bit_and,
}

abbrev pub header_size : ℕ
header_size = 24

abbrev pub min_payload : ℕ
min_payload = 16

abbrev pub min_block : ℕ
min_block = 40

abbrev pub header_align : ℕ
header_align = 8

abbrev pub max_align : ℕ
max_align = 4096

abbrev pub magic_free : ℕ
magic_free = 0x4652_4545

abbrev pub magic_alloc : ℕ
magic_alloc = 0x414C_4C4F

-- `NONE`
abbrev pub no_block : ℕ
no_block = word - 1

pub data FreeListError : Type 0 where
  out_of_arena already_free not_allocated corrupted : ℕ → FreeListError

pub record HeapStats : Type 0 where
  pub free_blocks : ℕ
  pub free_bytes : ℕ
  pub largest_free : ℕ

pub record FreeList : Type 0 where
  pub head : ℕ
  pub arena_len : ℕ
  pub free_blocks : ℕ
  pub free_bytes : ℕ
  pub largest_free : ℕ

abbrev pub empty : FreeList
empty = record { head = no_block; arena_len = 0; free_blocks = 0; free_bytes = 0; largest_free = 0 }

pub write_header : List ℕ → ℕ → ℕ → ℕ → ℕ → Option (List ℕ)
write_header arena offset magic size next = do
  with_magic ← copy_into arena offset (to_le 4 magic)
  with_padding ← copy_into with_magic (offset + 4) (to_le 4 0)
  with_size ← copy_into with_padding (offset + 8) (to_le 8 size)
  copy_into with_size (offset + 16) (to_le 8 next)

pub read_header : List ℕ → ℕ → Option (ℕ × ℕ × ℕ)
read_header arena offset = do
  _ ← add_word offset header_size
  header ← slice? arena offset header_size
  some
      (from_le (take 4 header), from_le (take 8 (drop 8 header)), from_le (take 8 (drop 16 header)))

pub align_up : ℕ → ℕ → Option ℕ
align_up value align = do sum ← add_word value (align - 1); some (sum - sum % align)

-- `is_power_of_two`
abbrev pub is_power_of_two : ℕ → Bool
is_power_of_two n = ltb 0 n && bit_and n (n - 1) == 0

abbrev pub aligned_len : List ℕ → ℕ
aligned_len arena = length arena - length arena % header_align

pub init : List ℕ → Option (FreeList × List ℕ)
init arena =
    let arena_len = aligned_len arena in
    if ltb arena_len min_block then some (empty, arena) else do
      written ← write_header arena 0 magic_free arena_len no_block
      some (
        record {
          head = 0;
          arena_len = arena_len;
          free_blocks = 1;
          free_bytes = arena_len - header_size;
          largest_free = arena_len - header_size;
        },
        written,
      )

abbrev pub arena_matches : FreeList → List ℕ → Bool
arena_matches a arena = aligned_len arena == a.arena_len

abbrev pub max_blocks : FreeList → ℕ
max_blocks a = a.arena_len / header_align + 2

pub stats : FreeList → HeapStats
stats a = record {
  free_blocks = a.free_blocks;
  free_bytes = a.free_bytes;
  largest_free = a.largest_free;
}

abbrev pub is_empty : FreeList → Bool
is_empty a = a.head == no_block

-- The loop of `recompute`, with the rounds that the guard leaves and the three counters.
pub recompute_from : FreeList → List ℕ → ℕ → ℕ → HeapStats → Option HeapStats
recompute_from a arena zero current counted = some counted
recompute_from a arena (suc rounds) current counted =
    if current == no_block then some counted else elim (read_header arena current) [
      | none ↦ some counted
      | some (magic, size, next) ↦
          if not (magic == magic_free) || ltb size header_size then some counted else do
            end ← add_word current size
            let payload = size - header_size
            let rest = recompute_from a arena rounds next (record {
              free_blocks = counted.free_blocks + 1;
              free_bytes = counted.free_bytes + payload;
              largest_free = max counted.largest_free payload;
            })
            if ltb a.arena_len end then some counted else rest
    ]

pub recompute : FreeList → List ℕ → Option FreeList
unfolding recompute_from
recompute a arena = do
  counted ←
      recompute_from a arena (max_blocks a) a.head
        (record { free_blocks = 0; free_bytes = 0; largest_free = 0 })
  some (record a {
    free_blocks = counted.free_blocks;
    free_bytes = counted.free_bytes;
    largest_free = counted.largest_free;
  })
