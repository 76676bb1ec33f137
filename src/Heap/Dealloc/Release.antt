-- ===== src/Heap/Dealloc/Release.antt =====
-- crates/kernel-memory/src/heap.rs: what `dealloc` does on a valid heap.
use paranuk_os.Base.{
  ℕ, ◌+◌, ◌-◌, ◌%◌, ◌<◌, ◌≡◌, refl, sym, ap, ◌∙◌, subst, true, false, some, List, ◌∷◌, ◌++◌,
  append_assoc, arith, word, add_word, ltb, leb, ◌==◌, ok,
}
use paranuk_os.Heap.{FreeList, no_block, max_blocks, arena_matches}
use paranuk_os.Heap.Blocks.{
  Blocks, total, first_free, Holds, IsCoalesced, total-append, Holds-split_start, IsHeap,
}
use paranuk_os.Heap.Outside.{Keeps, Keeps-append}
use paranuk_os.Heap.Sizes.{Holds-sizes}
use paranuk_os.Heap.Join.{
  join, coalesce, coalesce-append, coalesce-id, IsCoalesced-coalesce, last_free,
}
use paranuk_os.Heap.Before.{LastFree, prefix, previous_of}
use paranuk_os.Heap.Coalesced.{IsCoalesced-behind_used}
use paranuk_os.Heap.Dealloc.{
  around, swallow_next, swallow_previous, insert, merge, release, dealloc,
}
use paranuk_os.Heap.Dealloc.Around.{around_lem, last_from, last_from-prefix}
use paranuk_os.Heap.Dealloc.Next.{IsNext, next_lem}
use paranuk_os.Heap.Dealloc.Previous.{IsPrevious, previous_lem}
use paranuk_os.Heap.Dealloc.Merge.{insert_lem}

-- The block at an offset is free, joined with the free blocks beside it, and the bytes of the other
-- blocks in use are as before.
pub record Frees (arena : List ℕ) (xs : Blocks) (s : ℕ) (ys : Blocks) (b : FreeList)
    (arena' : List ℕ) : Type 0 where
  pub heap : IsHeap b arena' (coalesce (xs ++ (true, s) ∷ ys))
  pub kept : Keeps arena arena' 0 (xs ++ (true, s) ∷ ys)

-- The steps of `merge`.
merge-insert :
    (a : FreeList) (arena : List ℕ) (header s previous current size after start whole before : ℕ)
    → swallow_next arena s (header + s) current ≡ ok (size, after)
    → swallow_previous a arena header size previous ≡ ok (start, whole, before)
    → merge a arena header s (header + s) (previous, current)
      ≡ insert a arena start whole before after
unfolding merge
merge-insert a arena header s previous current size after start whole before e f =
    rw (e, merge, f) refl

module _ (a : FreeList) (arena : List ℕ) (q : LastFree) (used ys : Blocks) (s : ℕ)
    (v : IsHeap a arena (prefix q used ++ (false, s) ∷ ys)) (size : ℕ) (zs : Blocks)
    (n : IsNext arena (total (prefix q used)) s ys size zs) (p : LastFree) (rest : Blocks)
    (whole : ℕ) (r : IsPrevious a arena q used size p rest whole) where
  abbrev xs : Blocks
  xs = prefix q used

  abbrev changed : Blocks
  changed = r.between ++ (false, s) ∷ ys

  coalesced : coalesce (xs ++ (true, s) ∷ ys) ≡ prefix p rest ++ (true, whole) ∷ zs
  coalesced =
      let j : coalesce ((true, s) ∷ ys) ≡ (true, size) ∷ zs =
        ap (join s) (coalesce-id ys (IsCoalesced-behind_used xs s ys v.coalesced)) ∙ n.joined in
      let k : coalesce ((true, size) ∷ zs) ≡ (true, size) ∷ zs =
        ap coalesce (sym j)
        ∙ coalesce-id (coalesce ((true, s) ∷ ys)) (IsCoalesced-coalesce ((true, s) ∷ ys))
        ∙ j in
      coalesce-append xs ((true, s) ∷ ys) ∙ ap (λ bs. coalesce (xs ++ bs)) j ∙ r.coalesced zs k

  reached : IsHeap a arena (prefix p rest ++ changed)
  reached =
      subst (IsHeap a arena)
        (ap (λ bs. bs ++ (false, s) ∷ ys) r.split
          ∙ append_assoc (prefix p rest) r.between ((false, s) ∷ ys))
        v

  sizes :
      (total xs ≡ total (prefix p rest) + total r.between)
      × (total xs % 8 ≡ 0)
      × (total (prefix p rest) % 8 ≡ 0)
  sizes = (
    ap total r.split ∙ total-append (prefix p rest) r.between,
    (Holds-sizes arena 0 xs _ (Holds-split_start arena xs ((false, s) ∷ ys) no_block v.holds).0).1,
    (Holds-sizes arena 0 (prefix p rest) _
        (Holds-split_start arena (prefix p rest) changed no_block reached.holds).0).1,
  )

  merged :
      (b : FreeList) × (arena' : List ℕ) × (merge a arena
          (total xs)
          s
          (total xs + s)
          (previous_of q, first_free (total xs + s) ys no_block)
        ≡ some (b, arena', ok tt))
      × Frees arena xs s ys b arena'
  merged =
      let e : total (prefix p rest) + whole ≡ total xs + size = r.same_end in
      let t : total changed ≡ whole + total zs =
        omega (arith, total-append r.between ((false, s) ∷ ys), sizes, n.same_end) in
      let w : whole % 8 ≡ 0 = omega (arith, sizes, n.aligned) in
      let (b, arena', f, heap, before, behind) =
        insert_lem a arena p rest changed zs whole r.all_used reached t
          (omega (arith, n.large, r.large)) w
          (subst (λ k. Holds arena k zs no_block) (sym e) n.behind)
          (subst IsCoalesced coalesced (IsCoalesced-coalesce (xs ++ (true, s) ∷ ys))) in
      (
        b,
        arena',
        merge-insert a arena (total xs) s (previous_of q) (first_free (total xs + s) ys no_block)
              size (first_free (total xs + size) zs no_block) (total (prefix p rest)) whole
              (previous_of p) n.swallowed r.swallowed
            ∙ ap
                (λ k.
                  insert a arena (total (prefix p rest)) whole (previous_of p)
                    (first_free k zs no_block))
                (sym e)
            ∙ f,
        record {
          heap = subst (IsHeap b arena') (sym coalesced) heap;
          kept = Keeps-append arena arena' 0 xs ((true, s) ∷ ys) (r.kept arena' before) (
              subst (λ k. Keeps arena arena' k ys) {x = total xs + s} (omega arith)
                (n.kept arena' (subst (λ k. Keeps arena arena' k zs) e behind)));
        },
      )

module _ (a : FreeList) (arena : List ℕ) (ys : Blocks) (s : ℕ)
    (small : a.arena_len < word - 1) where
  -- The header is accepted, and the walk finds the neighbours.
  release-merge :
      (front : Blocks) (offset : ℕ)
      → IsHeap a arena (front ++ (false, s) ∷ ys)
      → release a arena offset (total front)
        ≡ merge a arena
            (total front)
            s
            (total front + s)
            (last_from 0 no_block front, first_free (total front + s) ys no_block)
  unfolding release
  release-merge front offset v =
      let (before, (ge, m, r, behind)) =
        Holds-split_start arena front ((false, s) ∷ ys) no_block v.holds in
      let l : total front + (s + total ys) ≡ a.arena_len =
        omega (arith, v.tiled, total-append front ((false, s) ∷ ys)) in
      let e1 : add_word (total front) s ≡ some (total front + s) = ground arith in
      let e2 : ltb s 24 ≡ false = ground arith in
      let e3 : ltb a.arena_len (total front + s) ≡ false = ground arith in
      let e4 =
        subst
          (λ k.
            around a arena offset k (k + s) (max_blocks a) no_block
              (first_free 0 (front ++ (false, s) ∷ ys) no_block)
            ≡ some (ok (last_from 0 no_block front, first_free (k + s) ys no_block)))
          {x = 0 + total front} {y = total front} (omega arith)
          (around_lem a arena small front ys offset s (max_blocks a) no_block 0 v.holds
            (omega (arith, v.tiled))
            (omega (
              arith,
              v.tiled,
              (Holds-sizes arena 0 (front ++ (false, s) ∷ ys) no_block v.holds).0,
            ))) in
      let e5 : around a arena offset (total front) (total front + s) (max_blocks a) no_block a.head
          ≡ some (ok (last_from 0 no_block front, first_free (total front + s) ys no_block)) =
        ap (around a arena offset (total front) (total front + s) (max_blocks a) no_block) v.first
        ∙ e4 in
      rw (r, release, e1, e2, e3, e5) refl

  -- The guards pass.
  dealloc-release :
      (front : Blocks)
      → IsHeap a arena (front ++ (false, s) ∷ ys)
      → dealloc a arena (total front + 24) ≡ release a arena (total front + 24) (total front)
  unfolding dealloc
  dealloc-release front v =
      let (before, (ge, m, r, behind)) =
        Holds-split_start arena front ((false, s) ∷ ys) no_block v.holds in
      let l : total front + (s + total ys) ≡ a.arena_len =
        omega (arith, v.tiled, total-append front ((false, s) ∷ ys)) in
      let d = (Holds-sizes arena 0 front _ before).1 in
      let e1 : arena_matches a arena ≡ true = ground (arith, v.aligned) in
      let e2 : ltb (total front + 24) 24 ≡ false = ground arith in
      let e3 : leb a.arena_len (total front + 24) ≡ false = ground arith in
      let e4 : ((total front + 24) % 8 == 0) ≡ true = ground (arith, d) in
      rw (e1, e2, e3, e4) (ap (release a arena (total front + 24)) (omega arith))

  -- On a valid heap whose arena is shorter than 2^64 - 1 bytes, `dealloc` of the payload of a block in
  -- use succeeds. The block is free and joined with the free blocks beside it, the heap is valid, and
  -- no byte of another block in use changes.
  pub dealloc_lem :
      (front : Blocks)
      → IsHeap a arena (front ++ (false, s) ∷ ys)
      → (b : FreeList) × (arena' : List ℕ) × (dealloc a arena (total front + 24)
          ≡ some (b, arena', ok tt))
        × Frees arena front s ys b arena'
  dealloc_lem front v =
      let (q, used, u, e) = last_free front in
      let v' : IsHeap a arena (prefix q used ++ (false, s) ∷ ys) =
        subst (λ bs. IsHeap a arena (bs ++ (false, s) ∷ ys)) e v in
      let (before, (ge, m, _, behind)) =
        Holds-split_start arena (prefix q used) ((false, s) ∷ ys) no_block v'.holds in
      let (size, zs, n) =
        next_lem arena (total (prefix q used)) s ys ge m behind
          (omega (arith, v'.tiled, total-append (prefix q used) ((false, s) ∷ ys))) in
      let (p, rest, whole, r) = previous_lem a arena q used ys s size u v' small in
      let (b, arena', f, frees) = merged a arena q used ys s v' size zs n p rest whole r in
      (
        b,
        arena',
        dealloc-release front v
            ∙ release-merge front (total front + 24) v
            ∙ (λ i. merge a arena (total (e i)) s (total (e i) + s) (
              (ap (last_from 0 no_block) e ∙ last_from-prefix q used u) i,
              first_free (total (e i) + s) ys no_block,
            ))
            ∙ f,
        subst (λ bs. Frees arena bs s ys b arena') (sym e) frees,
      )
