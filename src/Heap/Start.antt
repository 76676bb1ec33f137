-- ===== src/Heap/Start.antt =====
-- crates/kernel-memory/src/heap.rs: `FreeList::init`.
use paranuk_os.Base.{
  ℕ, ◌+◌, ◌-◌, ◌≤◌, ◌<◌, ◌≡◌, ◌⊎◌, inl, inr, refl, true, false, ◌∷◌, some, List, [], arith, word,
  ltb, length,
}
use native.Mathlib.Decide.{dec_lt}
use paranuk_os.Heap.{FreeList, empty, init, aligned_len, magic_free, no_block}
use paranuk_os.Heap.Headers.{written, write_header-written, read_header-written, length-written}
use paranuk_os.Heap.Blocks.{IsHeap}

-- On an arena shorter than 2^64 bytes `init` does not panic. If the length, rounded down to a multiple
-- of 8, is below 40, the arena is left alone and the list is empty; otherwise the arena is a valid heap
-- of one free block of that length.
pub init-IsHeap :
    (arena : List ℕ)
    → length arena < word
    → (init arena ≡ some (empty, arena)) × (aligned_len arena < 40)
      ⊎ ((a : FreeList) × (arena' : List ℕ) × (init arena ≡ some (a, arena'))
          × IsHeap a arena' ((true, aligned_len arena) ∷ []))
unfolding init
init-IsHeap arena small = elim (dec_lt (aligned_len arena) 40) [
  | yes l ↦ let t : ltb (aligned_len arena) 40 ≡ true = ground arith in inl (rw t refl, l)
  | no l ↦
      let t : ltb (aligned_len arena) 40 ≡ false = ground arith in
      let fits : 0 + 24 ≤ length arena = omega arith in
      let n = length-written arena 0 magic_free (aligned_len arena) no_block fits in
      inr (
        record {
          head = 0;
          arena_len = aligned_len arena;
          free_blocks = 1;
          free_bytes = aligned_len arena - 24;
          largest_free = aligned_len arena - 24;
        },
        written arena 0 magic_free (aligned_len arena) no_block,
        rw (t, write_header-written arena 0 magic_free (aligned_len arena) no_block fits) refl,
        record {
          small = omega (arith, n);
          aligned = omega (arith, n);
          tiled = omega arith;
          holds = (
            omega arith,
            omega arith,
            read_header-written arena 0 magic_free (aligned_len arena) no_block fits small
                (omega arith) (omega arith) (omega arith),
            tt,
          );
          first = refl;
          coalesced = (tt, tt);
          blocks_counted = refl;
          bytes_counted = omega arith;
          largest_counted = omega arith;
        },
      )
]
