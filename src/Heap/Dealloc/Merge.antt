-- ===== src/Heap/Dealloc/Merge.antt =====
-- crates/kernel-memory/src/heap.rs: the writes at the end of `dealloc`.
use paranuk_os.Base.{
  ℕ, ◌+◌, ◌%◌, ◌≤◌, ◌<◌, ◌≡◌, inl, inr, refl, sym, ap, ◌∙◌, true, false, none, some, List, ◌∷◌,
  ◌++◌, arith, word, ◌==◌, length, ok,
}
use paranuk_os.Heap.{FreeList, no_block, read_header, write_header, magic_free, recompute}
use paranuk_os.Heap.Headers.{written, write_header-written, read_header-written}
use paranuk_os.Heap.Blocks.{
  Blocks, total, first_free, first_free-range, Holds, AllUsed, IsCoalesced, total-append,
  Holds-split_start, Holds-append_start, first_free-append_start, IsHeap,
}
use paranuk_os.Heap.Outside.{
  SameOutside, SameOutside-written, Holds-outside, Keeps, Keeps-outside, Keeps-trans,
}
use paranuk_os.Heap.Count.{recompute-IsHeap}
use paranuk_os.Heap.Before.{
  LastFree, prefix, previous_of, from_of, to_of, relinked, head_of, IsBefore, last_header, to_of-le,
  first_free-prefix, SameOutside-relinked, Holds-relinked, Keeps-relinked,
}
use paranuk_os.Heap.Dealloc.{insert}

-- The block is written, and the last free block before it is linked to it.
insert-relinked :
    (a : FreeList) (arena freed : List ℕ) (start size after : ℕ) (q : LastFree) (used : Blocks)
    (end : ℕ) (b : FreeList)
    → write_header arena start magic_free size after ≡ some freed
    → IsBefore q used freed end
    → recompute (record a { head = head_of q a.head start }) (relinked q freed start) ≡ some b
    → insert a arena start size (previous_of q) after ≡ some (b, relinked q freed start, ok tt)
unfolding insert
insert-relinked a arena freed start size after none used end b w v e = rw (w, insert, e) refl
insert-relinked a arena freed start size after (some (before, s)) used end b w v e =
    let (ge, le, r) = last_header freed before used s end v in
    let t : (total before == no_block) ≡ false = ground (arith, v.small) in
    rw
      (
        w,
        insert,
        t,
        r,
        write_header-written freed (total before) magic_free s start (omega arith),
        e,
      )
      refl

module _ (a : FreeList) (arena : List ℕ) (q : LastFree) (used ws zs : Blocks) (size : ℕ)
    (u : AllUsed used) (v : IsHeap a arena (prefix q used ++ ws))
    (same : total ws ≡ size + total zs) (large : 24 < size) (aligned : size % 8 ≡ 0)
    (behind : Holds arena (total (prefix q used) + size) zs no_block)
    (c : IsCoalesced (prefix q used ++ (true, size) ∷ zs)) where
  abbrev xs : Blocks
  xs = prefix q used

  abbrev start : ℕ
  start = total xs

  abbrev after : ℕ
  after = first_free (total xs + size) zs no_block

  inside : total xs + size + total zs ≤ length arena
  inside = omega (arith, v.tiled, v.aligned, total-append xs ws, same)

  after_small : after < word
  after_small = elim (first_free-range (total xs + size) zs no_block) [
    | inl e ↦ omega (arith, e)
    | inr (_, r) ↦ omega (arith, r, inside, v.small)
  ]

  abbrev freed : List ℕ
  freed = written arena (total xs) magic_free size after

  same-freed : SameOutside (total xs) (total xs + size) arena freed
  same-freed =
      SameOutside-written (total xs) (total xs + size) arena (total xs) magic_free size after
        (omega (arith, inside, large)) (omega arith) (omega (arith, large))

  IsBefore-freed : IsBefore q used freed (first_free (total xs) ws no_block)
  IsBefore-freed = record {
    all_used = u;
    holds =
        Holds-outside arena freed (total xs) (total xs + size) 0 xs
          (first_free (total xs) ws no_block) same-freed (inl (omega arith))
          (Holds-split_start arena xs ws no_block v.holds).0;
    inside = omega (arith, same-freed.same_length, inside);
    small = omega (arith, same-freed.same_length, v.small);
  }

  abbrev arena' : List ℕ
  arena' = relinked q freed (total xs)

  same-arena' : SameOutside (from_of q) (to_of q) freed arena'
  same-arena' =
      SameOutside-relinked q used freed (first_free (total xs) ws no_block) (total xs)
        IsBefore-freed

  header-freed : read_header freed (total xs) ≡ some (magic_free, size, after)
  header-freed =
      read_header-written arena (total xs) magic_free size after (omega (arith, inside, large))
        v.small (omega arith) (omega (arith, inside, v.small)) after_small

  Holds-merged : Holds arena' 0 (xs ++ (true, size) ∷ zs) no_block
  Holds-merged =
      let le = to_of-le q used in
      Holds-append_start arena' xs ((true, size) ∷ zs) no_block
        (Holds-relinked q used freed (first_free (total xs) ws no_block) (total xs) IsBefore-freed
          (omega (arith, inside, v.small)))
        (Holds-outside freed arena' (from_of q) (to_of q) (total xs) ((true, size) ∷ zs) no_block
          same-arena' (inr (omega (arith, le)))
          (
            large,
            aligned,
            header-freed,
            Holds-outside arena freed (total xs) (total xs + size) (total xs + size) zs no_block
                same-freed (inr (omega arith)) behind,
          ))

  head-merged : head_of q a.head (total xs) ≡ first_free 0 (xs ++ (true, size) ∷ zs) no_block
  head-merged =
      ap (λ n. head_of q n (total xs)) (v.first ∙ first_free-append_start xs ws no_block)
      ∙ sym (first_free-prefix q used (first_free (total xs) ws no_block) (total xs) u)
      ∙ sym (first_free-append_start xs ((true, size) ∷ zs) no_block)

  -- The block is put into the list, and the heap is valid again.
  pub insert_lem :
      (b : FreeList) × (arena'' : List ℕ) × (insert a arena (total xs) size (previous_of q) after
        ≡ some (b, arena'', ok tt))
      × IsHeap b arena'' (xs ++ (true, size) ∷ zs)
      × Keeps arena arena'' 0 xs
      × Keeps arena arena'' (total xs + size) zs
  insert_lem =
      let le = to_of-le q used in
      let (b, e, heap) =
        recompute-IsHeap a arena arena' (xs ++ ws) (xs ++ (true, size) ∷ zs)
          (head_of q a.head (total xs)) v (same-arena'.same_length ∙ same-freed.same_length)
          Holds-merged
          (omega (arith, total-append xs ws, total-append xs ((true, size) ∷ zs), same)) head-merged
          c in
      (
        b,
        arena',
        insert-relinked a arena freed (total xs) size after q used
            (first_free (total xs) ws no_block) b
            (write_header-written arena (total xs) magic_free size after
              (omega (arith, inside, large)))
            IsBefore-freed e,
        heap,
        Keeps-trans arena freed arena' 0 xs
            (Keeps-outside arena freed (total xs) (total xs + size) 0 xs same-freed
              (inl (omega arith)))
            (Keeps-relinked q used freed (first_free (total xs) ws no_block) (total xs)
              IsBefore-freed),
        Keeps-trans arena freed arena' (total xs + size) zs
            (Keeps-outside arena freed (total xs) (total xs + size) (total xs + size) zs same-freed
              (inr (omega arith)))
            (Keeps-outside freed arena' (from_of q) (to_of q) (total xs + size) zs same-arena'
              (inr (omega (arith, le)))),
      )
