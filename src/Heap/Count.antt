-- ===== src/Heap/Count.antt =====
-- crates/kernel-memory/src/heap.rs: `recompute` counts the free blocks.
use paranuk_os.Base.{
  ℕ, zero, suc, ◌+◌, ◌-◌, ◌%◌, ◌≤◌, ◌<◌, ◌≡◌, refl, sym, ap, ◌∙◌, max, true, false, some, List, [],
  ◌∷◌, arith, word, add_word, ltb, ◌==◌, length,
}
use paranuk_os.Heap.{FreeList, HeapStats, no_block, recompute_from, recompute, max_blocks}
use paranuk_os.Heap.Sizes.{Holds-sizes}
use paranuk_os.Heap.Blocks.{
  IsHeap, IsCoalesced, Blocks, total, first_free, Holds, count_free, bytes_free, largest,
}

-- The counters with the free blocks of a sequence added.
abbrev added : HeapStats → Blocks → HeapStats
added c bs = record {
  free_blocks = c.free_blocks + count_free bs;
  free_bytes = c.free_bytes + bytes_free bs;
  largest_free = max c.largest_free (largest bs);
}

module _ (a : FreeList) (arena : List ℕ) (small : a.arena_len < word) where
  recompute_from-added :
      (bs : Blocks) (at rounds : ℕ) (c : HeapStats)
      → Holds arena at bs no_block
      → at + total bs ≤ a.arena_len
      → length bs ≤ rounds
      → recompute_from a arena rounds (first_free at bs no_block) c ≡ some (added c bs)
  unfolding recompute_from
  recompute_from-added [] at zero c h l m = ground arith
  recompute_from-added [] at (suc rounds) c h l m = ground arith
  recompute_from-added ((false, s) ∷ bs) at rounds c h l m =
      recompute_from-added bs (at + s) rounds c h.3 (omega arith) (omega arith) ∙ ground arith
  recompute_from-added ((true, s) ∷ bs) at zero c h l m = absurd (omega arith)
  recompute_from-added ((true, s) ∷ bs) at (suc rounds) c h l m =
      let next : HeapStats = record {
        free_blocks = c.free_blocks + 1;
        free_bytes = c.free_bytes + (s - 24);
        largest_free = max c.largest_free (s - 24);
      } in
      let e1 : (at == no_block) ≡ false = ground arith in
      let e2 : ltb s 24 ≡ false = ground (arith, h.0) in
      let e3 : add_word at s ≡ some (at + s) = ground arith in
      let e4 : ltb a.arena_len (at + s) ≡ false = ground arith in
      rw (e1, h.2, e2, e3, e4, recompute_from)
        (recompute_from-added bs (at + s) rounds next h.3 (omega arith) (omega arith)
          ∙ ground arith)

  -- The state with the counters of a sequence of blocks.
  abbrev pub recounted : Blocks → FreeList
  recounted bs = record a {
    free_blocks = count_free bs;
    free_bytes = bytes_free bs;
    largest_free = largest bs;
  }

  -- On headers that describe a sequence of blocks within the arena, and a head that is the first free
  -- one, `recompute` does not panic, reaches the end of the list before its guard stops it, and counts
  -- the free blocks, their bytes and the largest.
  pub recompute-recounted :
      (bs : Blocks)
      → Holds arena 0 bs no_block
      → total bs ≤ a.arena_len
      → a.head ≡ first_free 0 bs no_block
      → recompute a arena ≡ some (recounted bs)
  unfolding recompute
  recompute-recounted bs h l e =
      let zeros : HeapStats = record { free_blocks = 0; free_bytes = 0; largest_free = 0 } in
      let counted =
        recompute_from-added bs 0 (max_blocks a) zeros h (omega arith)
          (omega (arith, (Holds-sizes arena 0 bs no_block h).0)) in
      rw (e, counted, recompute) (ground arith)

-- The end of `alloc` and `dealloc`: once the headers and the head of the list are right, the state
-- with its counters is valid.
pub recompute-IsHeap :
    (a : FreeList) (arena xs : List ℕ) (bs cs : Blocks) (head : ℕ)
    → IsHeap a arena bs
    → length xs ≡ length arena
    → Holds xs 0 cs no_block
    → total cs ≡ total bs
    → head ≡ first_free 0 cs no_block
    → IsCoalesced cs
    → (b : FreeList) × (recompute (record a { head = head }) xs ≡ some b) × IsHeap b xs cs
recompute-IsHeap a arena xs bs cs head v l h t f c =
    let linked : FreeList = record a { head = head } in
    let small : a.arena_len < word = omega (arith, v.aligned, v.small) in
    (
      recounted linked xs small cs,
      recompute-recounted linked xs small cs h (omega (arith, t, v.tiled)) f,
      record {
        small = omega (arith, l, v.small);
        aligned = v.aligned ∙ ap (λ n. n - n % 8) (sym l);
        tiled = t ∙ v.tiled;
        holds = h;
        first = f;
        coalesced = c;
        blocks_counted = refl;
        bytes_counted = refl;
        largest_counted = refl;
      },
    )
