-- ===== src/Heap/Tests.antt =====
-- Runs of the kernel heap on a small arena.
use paranuk_os.Base.{
  copy_into, ℕ, ◌<◌, ◌≡◌, ◌⊎◌, refl, true, false, some, List, [], ◌∷◌, ◌++◌, arith, ok, err,
  replicate, to_le,
}
use paranuk_os.Heap.{
  FreeList, FreeListError, stats, empty, init, aligned_len, no_block, magic_free, magic_alloc,
  read_header, write_header, recompute, recompute_from, align_up,
}
use paranuk_os.Heap.Blocks.{Blocks, IsHeap}
use paranuk_os.Heap.Count.{recounted, recompute-recounted}
use paranuk_os.Heap.Start.{init-IsHeap}
use paranuk_os.Heap.Run.{starts, allocates, IsRun, Reach-IsRun}
use paranuk_os.Heap.Again.{alloc-dealloc}
use paranuk_os.Heap.Alloc.{
  alloc, search_from, free_block, place, fitted, size_before, carve, write_tail, write_front, link,
}
use paranuk_os.Heap.Alloc.Place.{Places, place_lem}
use paranuk_os.Heap.Alloc.Room.{Answers}
use paranuk_os.Heap.Alloc.Search.{alloc-first_fit}
use paranuk_os.Heap.Dealloc.{dealloc}
use paranuk_os.Heap.Dealloc.Release.{Frees, dealloc_lem}
use paranuk_os.Heap.Dealloc.Refused.{dealloc-free}

abbrev header : ℕ → ℕ → List ℕ
header magic size = to_le 4 magic ++ (to_le 4 0 ++ (to_le 8 size ++ to_le 8 no_block))

-- An arena of 128 bytes: a block of 40 bytes in use, and a free one behind it.
abbrev bytes : List ℕ
bytes = header magic_alloc 40 ++ (replicate 16 7 ++ (header magic_free 88 ++ replicate 64 0))

abbrev blocks : Blocks
blocks = (false, 40) ∷ (true, 88) ∷ []

abbrev one_used : FreeList
one_used = record {
  head = 40;
  arena_len = 128;
  free_blocks = 1;
  free_bytes = 64;
  largest_free = 64;
}

one_used-IsHeap : IsHeap one_used bytes blocks
unfolding read_header
one_used-IsHeap = record {
  small = omega arith;
  aligned = refl;
  tiled = refl;
  holds = (omega arith, refl, refl, (omega arith, refl, refl, tt));
  first = refl;
  coalesced = (tt, tt);
  blocks_counted = refl;
  bytes_counted = refl;
  largest_counted = refl;
}

-- The same arena with a second block in use.
abbrev two_bytes : List ℕ
two_bytes =
    header magic_alloc 40
    ++ (replicate 16 7
        ++ (header magic_alloc 40 ++ (replicate 16 0 ++ (header magic_free 48 ++ replicate 24 0))))

abbrev two_used : FreeList
two_used = record {
  head = 80;
  arena_len = 128;
  free_blocks = 1;
  free_bytes = 24;
  largest_free = 24;
}

alloc_test : alloc one_used bytes 16 64 ≡ some (two_used, two_bytes, some 64)
unfolding alloc search_from free_block place fitted size_before carve write_tail write_front link
    read_header write_header copy_into recompute recompute_from align_up
alloc_test = refl

alloc-first_fit_example : Answers one_used bytes blocks 16 64 (alloc one_used bytes 16 64)
alloc-first_fit_example =
    alloc-first_fit one_used bytes 16 64 (omega arith) refl (omega arith) (omega arith) blocks
      one_used-IsHeap

alloc-dealloc_example :
    (c : FreeList) × (arena : List ℕ) × (dealloc two_used two_bytes 64 ≡ some (c, arena, ok tt))
    × IsHeap c arena blocks
    × (stats c ≡ stats one_used)
alloc-dealloc_example =
    alloc-dealloc one_used bytes blocks 16 64 one_used-IsHeap (omega arith) (omega arith) refl
      (omega arith) two_used two_bytes 64 alloc_test

dealloc_lem_example :
    (b : FreeList) × (arena : List ℕ) × (dealloc one_used bytes 24 ≡ some (b, arena, ok tt))
    × Frees bytes [] 40 ((true, 88) ∷ []) b arena
dealloc_lem_example =
    dealloc_lem one_used bytes ((true, 88) ∷ []) 40 (omega arith) [] one_used-IsHeap

dealloc-free_example :
    (e : FreeListError) × (dealloc one_used bytes 72 ≡ some (one_used, bytes, err e))
dealloc-free_example =
    dealloc-free one_used bytes ((false, 40) ∷ []) [] 88 72 one_used-IsHeap (omega arith)
      (omega arith) (omega arith)

init-IsHeap_example :
    (init (replicate 48 0) ≡ some (empty, replicate 48 0)) × (aligned_len (replicate 48 0) < 40)
    ⊎ ((a : FreeList) × (arena : List ℕ) × (init (replicate 48 0) ≡ some (a, arena))
        × IsHeap a arena ((true, aligned_len (replicate 48 0)) ∷ []))
init-IsHeap_example = init-IsHeap (replicate 48 0) (omega arith)

recompute-recounted_example :
    recompute one_used bytes ≡ some (recounted one_used bytes (omega arith) blocks)
recompute-recounted_example =
    recompute-recounted one_used bytes (omega arith) blocks one_used-IsHeap.holds (omega arith) refl

place_lem_example : (gap : ℕ) × Places 40 16 64 gap
place_lem_example = place_lem 40 16 64 refl refl (omega arith) (omega arith)

-- An arena of 128 bytes after `init`, and after a call of `alloc`.
abbrev whole : FreeList
whole = record { head = 0; arena_len = 128; free_blocks = 1; free_bytes = 104; largest_free = 104 }

abbrev whole_bytes : List ℕ
whole_bytes = header magic_free 128 ++ replicate 104 0

abbrev cut_bytes : List ℕ
cut_bytes = header magic_alloc 40 ++ (replicate 16 0 ++ (header magic_free 88 ++ replicate 64 0))

init_test : init (replicate 128 0) ≡ some (whole, whole_bytes)
unfolding init write_header copy_into
init_test = refl

cut_test : alloc whole whole_bytes 16 8 ≡ some (one_used, cut_bytes, some 24)
unfolding alloc search_from free_block place fitted size_before carve write_tail write_front link
    read_header write_header copy_into recompute recompute_from align_up
cut_test = refl

Reach-IsRun_example : IsRun one_used cut_bytes (24 ∷ [])
Reach-IsRun_example = Reach-IsRun (
    allocates 16 8 (starts (replicate 128 0) (omega arith) (omega arith) init_test) (omega arith)
      refl (omega arith) cut_test)
