-- ===== src/Heap/Alloc/Placed.antt =====
-- crates/kernel-memory/src/heap.rs: a free block of the heap is cut.
use paranuk_os.Base.{
  ℕ, ◌+◌, ◌-◌, ◌≡◌, inl, inr, refl, sym, ap, ◌∙◌, subst, Bool, true, false, none, some, List, [],
  ◌∷◌, ◌++◌, arith, ltb, leb, ◌==◌, if◌then◌else◌, length,
}
use paranuk_os.Heap.{FreeList, no_block, magic_alloc, magic_free, write_header}
use paranuk_os.Heap.Headers.{write_header-written}
use paranuk_os.Heap.Blocks.{
  Blocks, total, first_free, Holds, IsHeap, IsCoalesced, AllUsed, total-append, first_free-append,
  first_free-append_start, Holds-append, Holds-split_start, Holds-append_start,
}
use paranuk_os.Heap.Outside.{Holds-outside, Keeps, Keeps-outside, Keeps-trans, Keeps-append}
use paranuk_os.Heap.Before.{
  LastFree, prefix, previous_of, size_of, from_of, to_of, relinked, Keeps-relinked, head_of,
  IsBefore, to_of-le, first_free-prefix, last_header, SameOutside-relinked, Holds-relinked,
}
use paranuk_os.Heap.Count.{recompute-IsHeap}
use paranuk_os.Heap.Coalesced.{IsCoalesced-behind, IsCoalesced-used, IsCoalesced-free}
use paranuk_os.Heap.Alloc.{Cut, link, carve}
use paranuk_os.Heap.Alloc.Carve.{
  pieces, IsCut, IsWritten, allocated, write_header-allocated, tail_lem, front_lem,
}

pub total-pieces :
    (arena : List ℕ) (k : Cut) (s size : ℕ)
    → IsCut arena k s size
    → total (pieces k.front_gap size k.tail) ≡ s
total-pieces arena k s size c = ground (arith, c.gap_block, c.tail_block)

IsCoalesced-pieces :
    (xs ys : Blocks) (s gap size tail : ℕ)
    → IsCoalesced (xs ++ (true, s) ∷ ys)
    → IsCoalesced (xs ++ (pieces gap size tail ++ ys))
IsCoalesced-pieces xs ys s gap size tail h = cut (ltb 0 gap) (leb 40 tail)
  where
    rest : (t : Bool) → IsCoalesced ((if t then (true, tail) ∷ [] else []) ++ ys)
    rest true = IsCoalesced-behind xs s ys h
    rest false = (IsCoalesced-behind xs s ys h).1

    cut :
        (f t : Bool)
        → IsCoalesced (
            xs
            ++ (((if f then (true, gap) ∷ [] else [])
                  ++ (false, size) ∷ (if t then (true, tail) ∷ [] else []))
                ++ ys))
    cut true t =
        IsCoalesced-free xs s gap ys ((false, size) ∷ ((if t then (true, tail) ∷ [] else []) ++ ys))
          h tt (rest t)
    cut false t =
        IsCoalesced-used xs true s size ys ((if t then (true, tail) ∷ [] else []) ++ ys) h (rest t)

link-relinked :
    (a : FreeList) (k : Cut) (q : LastFree) (used : Blocks) (arena : List ℕ) (end next : ℕ)
    → IsBefore q used arena end
    → k.previous ≡ previous_of q
    → k.previous_size ≡ size_of q
    → link a k (arena, next)
      ≡ some (record a { head = head_of q a.head next }, relinked q arena next)
unfolding link
link-relinked a k none used arena end next v e f =
    let t : (k.previous == no_block) ≡ true = ground arith in rw t refl
link-relinked a k (some (before, s)) used arena end next v e f =
    let (ge, le, _) = last_header arena before used s end v in
    let t : (k.previous == no_block) ≡ false = ground arith in
    rw t (
      rw (e, f)
        (rw (write_header-written arena (total before) magic_free s next (omega arith)) refl))

module _ (a : FreeList) (arena : List ℕ) (q : LastFree) (used ys : Blocks) (s size : ℕ) (k : Cut)
    (u : AllUsed used) (v : IsHeap a arena (prefix q used ++ (true, s) ∷ ys))
    (c : IsCut arena k s size) (at : k.current ≡ total (prefix q used))
    (after : k.next ≡ first_free (k.current + s) ys no_block) (p : k.previous ≡ previous_of q)
    (ps : k.previous_size ≡ size_of q) where
  abbrev xs : Blocks
  xs = prefix q used

  cut : Blocks
  cut = xs ++ (pieces k.front_gap size k.tail ++ ys)

  -- What the heap holds before, in and behind the block.
  parts : Holds arena 0 xs k.current × Holds arena (k.current + s) ys no_block
  parts =
      let (before, (_, _, _, rest)) =
        Holds-split_start arena xs ((true, s) ∷ ys) no_block v.holds in
      (
        subst (λ n. Holds arena 0 xs n) (sym at) before,
        subst (λ n. Holds arena (n + s) ys no_block) (sym at) rest,
      )

  -- The list is linked to the pieces, once these are written.
  linked :
      (arena' : List ℕ) (head : ℕ)
      → IsWritten arena k s size c k.current (pieces k.front_gap size k.tail) arena' head
      → IsBefore q used arena' k.current
  linked arena' head w = record {
    all_used = u;
    holds =
        Holds-outside arena arena' k.current (k.current + s) 0 xs k.current w.same
          (inl (omega (arith, at))) parts.0;
    inside = omega (arith, w.same.same_length, c.inside, at);
    small = omega (arith, w.same.same_length, c.small);
  }

  -- The heap after the list is linked, and the blocks in use.
  Holds-cut :
      (arena' : List ℕ) (head : ℕ)
      → IsWritten arena k s size c k.current (pieces k.front_gap size k.tail) arena' head
      → Holds (relinked q arena' head) 0 cut no_block
  unfolding cut
  Holds-cut arena' head w =
      let b = linked arena' head w in
      let le = to_of-le q used in
      let xs' = relinked q arena' head in
      let same = SameOutside-relinked q used arena' k.current head b in
      let mid = pieces k.front_gap size k.tail in
      let t : k.current + total mid ≡ k.current + s =
        ap (λ n. k.current + n) (total-pieces arena k s size c) in
      let inner : Holds xs' k.current mid (first_free (k.current + total mid) ys no_block) =
        subst (λ n. Holds xs' k.current mid n) (after ∙ ap (λ n. first_free n ys no_block) (sym t))
          (Holds-outside arena' xs' (from_of q) (to_of q) k.current mid k.next same
            (inr (omega (arith, le, at))) w.held) in
      let rest : Holds xs' (k.current + total mid) ys no_block =
        subst (λ n. Holds xs' n ys no_block) (sym t)
          (Holds-outside arena' xs' (from_of q) (to_of q) (k.current + s) ys no_block same
            (inr (omega (arith, le, at)))
            (Holds-outside arena arena' k.current (k.current + s) (k.current + s) ys no_block w.same
              (inr (omega arith)) parts.1)) in
      let f : head ≡ first_free (total xs) (mid ++ ys) no_block =
        w.link_eq
        ∙ ap (first_free k.current mid) (after ∙ ap (λ n. first_free n ys no_block) (sym t))
        ∙ sym (first_free-append k.current mid ys no_block)
        ∙ ap (λ n. first_free n (mid ++ ys) no_block) at in
      Holds-append_start xs' xs (mid ++ ys) no_block
        (subst (λ n. Holds xs' 0 xs n) f
          (Holds-relinked q used arena' k.current head b w.link_small))
        (subst (λ n. Holds xs' n (mid ++ ys) no_block) at
          (Holds-append xs' k.current mid ys no_block inner rest))

  head-cut :
      (arena' : List ℕ) (head : ℕ)
      → IsWritten arena k s size c k.current (pieces k.front_gap size k.tail) arena' head
      → head_of q a.head head ≡ first_free 0 cut no_block
  unfolding cut
  head-cut arena' head w =
      let mid = pieces k.front_gap size k.tail in
      let t : k.current + total mid ≡ k.current + s =
        ap (λ n. k.current + n) (total-pieces arena k s size c) in
      ap (λ n. head_of q n head) (v.first ∙ first_free-append_start xs ((true, s) ∷ ys) no_block)
      ∙ sym (first_free-prefix q used (total xs) head u)
      ∙ ap (first_free 0 xs) (
          w.link_eq
          ∙ ap (first_free k.current mid) (after ∙ ap (λ n. first_free n ys no_block) (sym t))
          ∙ sym (first_free-append k.current mid ys no_block)
          ∙ ap (λ n. first_free n (mid ++ ys) no_block) at)
      ∙ sym (first_free-append_start xs (mid ++ ys) no_block)

  Keeps-cut :
      (arena' : List ℕ) (head : ℕ)
      → IsWritten arena k s size c k.current (pieces k.front_gap size k.tail) arena' head
      → Keeps arena (relinked q arena' head) 0 (xs ++ (true, s) ∷ ys)
  Keeps-cut arena' head w =
      let b = linked arena' head w in
      let le = to_of-le q used in
      let xs' = relinked q arena' head in
      let same = SameOutside-relinked q used arena' k.current head b in
      let behind_at = 0 + total xs + s in
      Keeps-append arena xs' 0 xs ((true, s) ∷ ys)
        (Keeps-trans arena arena' xs' 0 xs
          (Keeps-outside arena arena' k.current (k.current + s) 0 xs w.same
            (inl (omega (arith, at))))
          (Keeps-relinked q used arena' k.current head b))
        (Keeps-trans arena arena' xs' behind_at ys
          (Keeps-outside arena arena' k.current (k.current + s) behind_at ys w.same
            (inr (omega (arith, at))))
          (Keeps-outside arena' xs' (from_of q) (to_of q) behind_at ys same
            (inr (omega (arith, le)))))

  -- Cutting a free block of a valid heap leaves a valid heap, in which the block is replaced by its
  -- pieces, and keeps the bytes of the blocks in use.
  pub carve_lem :
      k.payload ≡ k.current + k.front_gap + 24
      → (if leb 40 k.tail then k.tail_start else k.block_end) - (k.payload - 24) ≡ size
      → (b : FreeList) × (arena' : List ℕ) × (carve a arena k ≡ some (b, arena', some k.payload))
        × IsHeap b arena' (xs ++ (pieces k.front_gap size k.tail ++ ys))
        × Keeps arena arena' 0 (xs ++ (true, s) ∷ ys)
  unfolding carve cut
  carve_lem start len =
      let (tailed, link2, e2, w2) = tail_lem arena k s size c in
      let (fronted, link3, e3, w3) = front_lem arena k s size c tailed link2 w2 in
      let xs' = relinked q fronted link3 in
      let e1 : write_header arena (k.payload - 24) magic_alloc
            ((if leb 40 k.tail then k.tail_start else k.block_end) - (k.payload - 24)) no_block
          ≡ some (allocated arena k s size c) =
        ap
          (λ n.
            write_header arena n magic_alloc
              ((if leb 40 k.tail then k.tail_start else k.block_end) - (k.payload - 24)) no_block)
          {y = k.current + k.front_gap} (omega arith)
        ∙ ap (λ n. write_header arena (k.current + k.front_gap) magic_alloc n no_block) len
        ∙ write_header-allocated arena k s size c in
      let e4 = link-relinked a k q used fronted k.current link3 (linked fronted link3 w3) p ps in
      let same_len : length xs' ≡ length arena =
        (SameOutside-relinked q used fronted k.current link3 (linked fronted link3 w3)).same_length
        ∙ w3.same.same_length in
      let mid = pieces k.front_gap size k.tail in
      let tot : total (xs ++ (mid ++ ys)) ≡ total (xs ++ (true, s) ∷ ys) = omega (
        arith,
        total-append xs (mid ++ ys),
        total-append mid ys,
        total-append xs ((true, s) ∷ ys),
        total-pieces arena k s size c,
      ) in
      let (b, e5, valid) =
        recompute-IsHeap a arena xs' (xs ++ (true, s) ∷ ys) cut (head_of q a.head link3) v same_len
          (Holds-cut fronted link3 w3) tot (head-cut fronted link3 w3)
          (IsCoalesced-pieces xs ys s k.front_gap size k.tail v.coalesced) in
      (b, xs', rw (e1, e2, e3, e4, e5, carve) refl, valid, Keeps-cut fronted link3 w3)
