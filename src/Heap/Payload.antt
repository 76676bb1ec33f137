-- ===== src/Heap/Payload.antt =====
-- crates/kernel-memory/src/heap.rs: writes to the payload of a block in use leave the heap valid.
use paranuk_os.Base.{
  ℕ, ◌+◌, ◌-◌, ◌%◌, ◌≤◌, ◌≡◌, ◌⊎◌, inl, inr, sym, ap, ◌∙◌, true, false, ◌∷◌, ◌++◌, List, arith,
  length, take, drop, patch, length-patch, drop-patch_after, take-drop-patch_before,
}
use paranuk_os.Heap.{FreeList, no_block}
use paranuk_os.Heap.Headers.{read_header-same}
use paranuk_os.Heap.Blocks.{
  Blocks, total, first_free, total-append, Holds-split_start, Holds-append_start, IsHeap,
}
use paranuk_os.Heap.Outside.{SameOutside, Holds-outside, Keeps, Keeps-outside, Keeps-append}

SameOutside-patch :
    (arena new : List ℕ) (at : ℕ)
    → at + length new ≤ length arena
    → SameOutside at (at + length new) arena (patch arena at new)
SameOutside-patch arena new at l = record {
  same_length = length-patch arena at new l;
  same_slices = λ from n h. apart from n h;
}
  where
    apart :
        (from n : ℕ)
        → (from + n ≤ at) ⊎ (at + length new ≤ from)
        → take n (drop from (patch arena at new)) ≡ take n (drop from arena)
    apart from n (inl before) = take-drop-patch_before arena at from n new before l
    apart from n (inr behind) = ap (take n) (drop-patch_after arena at from new behind l)

-- Whatever is written to the payload of a block in use, the heap stays valid with the same blocks, and
-- no byte of another block in use changes.
pub patch-IsHeap :
    (a : FreeList) (arena new : List ℕ) (xs ys : Blocks) (s at : ℕ)
    → IsHeap a arena (xs ++ (false, s) ∷ ys)
    → total xs + 24 ≤ at
    → at + length new ≤ total xs + s
    → IsHeap a (patch arena at new) (xs ++ (false, s) ∷ ys)
      × Keeps arena (patch arena at new) 0 (xs ++ (true, s) ∷ ys)
patch-IsHeap a arena new xs ys s at v l m =
    let (before, (ge, d, r, behind)) =
      Holds-split_start arena xs ((false, s) ∷ ys) no_block v.holds in
    let fits : at + length new ≤ length arena =
      omega (arith, v.tiled, v.aligned, total-append xs ((false, s) ∷ ys)) in
    let arena' = patch arena at new in
    let same = SameOutside-patch arena new at fits in
    (
      record {
        small = omega (arith, same.same_length, v.small);
        aligned = v.aligned ∙ ap (λ n. n - n % 8) (sym same.same_length);
        tiled = v.tiled;
        holds =
            Holds-append_start arena' xs ((false, s) ∷ ys) no_block
              (Holds-outside arena arena' at (at + length new) 0 xs
                (first_free (total xs) ((false, s) ∷ ys) no_block) same (inl (omega arith)) before)
              (
                ge,
                d,
                read_header-same arena arena' (total xs) same.same_length
                      (same.same_slices (total xs) 24 (inl l))
                    ∙ r,
                Holds-outside arena arena' at (at + length new) (total xs + s) ys no_block same
                    (inr m) behind,
              );
        first = v.first;
        coalesced = v.coalesced;
        blocks_counted = v.blocks_counted;
        bytes_counted = v.bytes_counted;
        largest_counted = v.largest_counted;
      },
      Keeps-append arena arena' 0 xs ((true, s) ∷ ys)
          (Keeps-outside arena arena' at (at + length new) 0 xs same (inl (omega arith)))
          (Keeps-outside arena arena' at (at + length new) (0 + total xs + s) ys same
            (inr (omega arith))),
    )
