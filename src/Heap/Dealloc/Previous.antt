-- ===== src/Heap/Dealloc/Previous.antt =====
-- crates/kernel-memory/src/heap.rs: the free block before the freed one.
use paranuk_os.Base.{
  ℕ, ◌+◌, ◌-◌, ◌≤◌, ◌<◌, ◌≡◌, refl, sym, ap, ◌∙◌, subst, true, false, none, some, List, [], ◌∷◌,
  ◌++◌, append_assoc, append-nil, arith, word, ◌==◌, ok,
}
use paranuk_os.Heap.{FreeList, no_block, read_header, magic_free, max_blocks}
use paranuk_os.Heap.Blocks.{
  Blocks, total, first_free, Holds, AllUsed, IsCoalesced, total-append, Holds-split_start, IsHeap,
}
use paranuk_os.Heap.Outside.{Keeps, Keeps-append}
use paranuk_os.Heap.Sizes.{Holds-sizes}
use paranuk_os.Heap.Join.{join, coalesce, coalesce-used, coalesce-before, last_free}
use paranuk_os.Heap.Before.{LastFree, prefix, previous_of}
use paranuk_os.Heap.Dealloc.{swallow_previous, previous_free, previous_free_from}
use paranuk_os.Heap.Dealloc.Around.{previous_free_lem, last_from, last_from-prefix}

-- The block reaches back to where the blocks `prefix p rest` end.
pub record IsPrevious (a : FreeList) (arena : List ℕ) (q : LastFree) (used : Blocks) (size : ℕ)
    (p : LastFree) (rest : Blocks) (whole : ℕ) : Type 0 where
  pub swallowed :
      swallow_previous a arena (total (prefix q used)) size (previous_of q)
      ≡ ok (total (prefix p rest), whole, previous_of p)
  pub all_used : AllUsed rest
  pub between : Blocks
  pub split : prefix q used ≡ prefix p rest ++ between
  pub same_end : total (prefix p rest) + whole ≡ total (prefix q used) + size
  pub large : size ≤ whole
  pub kept :
      (arena' : List ℕ)
      → Keeps arena arena' 0 (prefix p rest)
      → Keeps arena arena' 0 (prefix q used)
  pub coalesced :
      (zs : Blocks)
      → coalesce ((true, size) ∷ zs) ≡ (true, size) ∷ zs
      → coalesce (prefix q used ++ (true, size) ∷ zs) ≡ prefix p rest ++ (true, whole) ∷ zs

-- Nothing is joined.
apart :
    (a : FreeList) (arena : List ℕ) (q : LastFree) (used : Blocks) (size : ℕ)
    → AllUsed used
    → swallow_previous a arena (total (prefix q used)) size (previous_of q)
      ≡ ok (total (prefix q used), size, previous_of q)
    → ((zs : Blocks)
        → coalesce ((true, size) ∷ zs) ≡ (true, size) ∷ zs
        → coalesce (prefix q used ++ (true, size) ∷ zs) ≡ prefix q used ++ (true, size) ∷ zs)
    → IsPrevious a arena q used size q used size
apart a arena q used size u e c = record {
  swallowed = e;
  all_used = u;
  between = [];
  split = sym (append-nil (prefix q used));
  same_end = refl;
  large = omega arith;
  kept = λ arena' k. k;
  coalesced = c;
}

module _ (a : FreeList) (arena : List ℕ) (before used ys : Blocks) (t s size : ℕ)
    (v : IsHeap a arena ((before ++ (true, t) ∷ used) ++ (false, s) ∷ ys))
    (w : a.arena_len < word - 1) where
  abbrev behind_free : Blocks
  behind_free = used ++ (false, s) ∷ ys

  assoc : (bs : Blocks) → (before ++ (true, t) ∷ used) ++ bs ≡ before ++ (true, t) ∷ (used ++ bs)
  assoc bs = append_assoc before ((true, t) ∷ used) bs

  -- The header of the free block before.
  free_header :
      (24 < t)
      × (total before + t ≤ a.arena_len)
      × (read_header arena (total before)
          ≡ some (magic_free, t, first_free (total before + t) behind_free no_block))
      × Holds arena (total before + t) behind_free no_block
  free_header =
      let (_, (ge, _, r, rest)) =
        Holds-split_start arena before ((true, t) ∷ behind_free) no_block
          (subst (λ bs. Holds arena 0 bs no_block) (assoc ((false, s) ∷ ys)) v.holds) in
      (
        ge,
        omega (
          arith,
          v.tiled,
          ap total (assoc ((false, s) ∷ ys)),
          total-append before ((true, t) ∷ behind_free),
        ),
        r,
        rest,
      )

  joined_before :
      (bs : Blocks)
      → coalesce ((before ++ (true, t) ∷ used) ++ bs) ≡ before ++ join t (coalesce (used ++ bs))
  joined_before bs =
      ap coalesce (assoc bs)
      ∙ coalesce-before before t behind_free (used ++ bs)
          (subst IsCoalesced (assoc ((false, s) ∷ ys)) v.coalesced)

  found : previous_free a arena (total before) ≡ some (last_from 0 no_block before)
  unfolding previous_free
  found =
      let h = subst (λ bs. Holds arena 0 bs no_block) (assoc ((false, s) ∷ ys)) v.holds in
      let sizes =
        Holds-sizes arena 0 before _
          (Holds-split_start arena before ((true, t) ∷ behind_free) no_block h).0 in
      ap (λ n. previous_free_from arena (total before) (max_blocks a) no_block n)
        (v.first ∙ ap (λ bs. first_free 0 bs no_block) (assoc ((false, s) ∷ ys)))
      ∙ subst
          (λ n.
            previous_free_from arena n (max_blocks a) no_block
              (first_free 0 (before ++ (true, t) ∷ behind_free) no_block)
            ≡ some (last_from 0 no_block before))
          {x = 0 + total before} (omega arith)
          (previous_free_lem a arena w before behind_free t (max_blocks a) no_block 0 h
            (omega (arith, v.tiled, ap total (assoc ((false, s) ∷ ys))))
            (omega (arith, sizes.0, free_header)))

pub previous_lem :
    (a : FreeList) (arena : List ℕ) (q : LastFree) (used ys : Blocks) (s size : ℕ)
    → AllUsed used
    → IsHeap a arena (prefix q used ++ (false, s) ∷ ys)
    → a.arena_len < word - 1
    → (p : LastFree) × (rest : Blocks) × (whole : ℕ) × IsPrevious a arena q used size p rest whole
unfolding swallow_previous
previous_lem a arena none used ys s size u v w = (
  none,
  used,
  size,
  apart a arena none used size u refl
      (λ zs j. coalesce-used used ((true, size) ∷ zs) u ∙ ap (λ bs. used ++ bs) j),
)
previous_lem a arena (some (before, t)) [] ys s size u v w =
    let (ge, le, r, _) = free_header a arena before [] ys t s size v w in
    let (p, rest, ur, e) = last_free before in
    let e1 : (total before == no_block) ≡ false = ground arith in
    let n : total (before ++ (true, t) ∷ []) ≡ total before + t =
      omega (arith, total-append before ((true, t) ∷ [])) in
    let e2 : (total before + t == total (before ++ (true, t) ∷ [])) ≡ true = ground (arith, n) in
    (
      p,
      rest,
      size + t,
      record {
        swallowed =
            rw (e1, r, e2, found a arena before [] ys t s size v w)
              (λ i. ok (
                total (e i),
                size + t,
                (ap (last_from 0 no_block) e ∙ last_from-prefix p rest ur) i,
              ));
        all_used = ur;
        between = (true, t) ∷ [];
        split = ap (λ bs. bs ++ (true, t) ∷ []) e;
        same_end = omega (arith, n, ap total e);
        large = omega arith;
        kept = λ arena' k.
            Keeps-append arena arena' 0 before ((true, t) ∷ [])
              (subst (Keeps arena arena' 0) (sym e) k) tt;
        coalesced = λ zs j.
            joined_before a arena before [] ys t s size v w ((true, size) ∷ zs)
            ∙ ap (λ bs. before ++ join t bs) j
            ∙ (let c : t + size ≡ size + t = omega arith in λ i. e i ++ (true, c i) ∷ zs);
      },
    )
previous_lem a arena (some (before, t)) ((true, r) ∷ used) ys s size u v w = elim u [ ]
previous_lem a arena (some (before, t)) ((false, r) ∷ used) ys s size u v w =
    let more = (false, r) ∷ used in
    let (ge, le, h, next) = free_header a arena before more ys t s size v w in
    let e1 : (total before == no_block) ≡ false = ground arith in
    let n : total (before ++ (true, t) ∷ more) ≡ total before + (t + (r + total used)) =
      total-append before ((true, t) ∷ more) in
    let e2 : (total before + t == total (before ++ (true, t) ∷ more)) ≡ false =
      ground (arith, n, next.0) in
    (
      some (before, t),
      more,
      size,
      apart a arena (some (before, t)) more size u (rw (e1, h, e2) refl) (λ zs j.
          joined_before a arena before more ys t s size v w ((true, size) ∷ zs)
          ∙ ap (λ bs. before ++ join t bs)
              (coalesce-used more ((true, size) ∷ zs) u ∙ ap (λ bs. more ++ bs) j)
          ∙ sym (assoc a arena before more ys t s size v w ((true, size) ∷ zs))),
    )
