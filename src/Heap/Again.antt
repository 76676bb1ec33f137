-- ===== src/Heap/Again.antt =====
-- crates/kernel-memory/src/heap.rs: `alloc` and then `dealloc`.
use paranuk_os.Base.{
  ℕ, zero, suc, ◌+◌, ◌≤◌, ◌<◌, ◌≡◌, inl, inr, refl, sym, ap, ◌∙◌, subst, Bool, true, false, Option,
  none, some, List, [], ◌∷◌, ◌++◌, append_assoc, arith, ltb, leb, length, ok, if◌then◌else◌,
}
use paranuk_os.Heap.{FreeList, stats, is_power_of_two}
use paranuk_os.Heap.Blocks.{Blocks, total, total-append, IsHeap, IsCoalesced, StartsUsed}
use paranuk_os.Heap.Coalesced.{IsCoalesced-behind}
use paranuk_os.Heap.Join.{join, coalesce, coalesce-id, coalesce-append}
use paranuk_os.Heap.Alloc.{Outcome, alloc}
use paranuk_os.Heap.Alloc.Carve.{front, behind, pieces}
use paranuk_os.Heap.Alloc.Room.{Serves}
use paranuk_os.Heap.Alloc.Search.{alloc-first_fit}
use paranuk_os.Heap.Dealloc.{dealloc}
use paranuk_os.Heap.Dealloc.Release.{dealloc_lem}

total-front : (gap : ℕ) → total (front gap) ≡ gap
total-front zero = refl
total-front (suc gap) = ground arith

-- The pieces of a block, all free, are joined to the block.
coalesce-pieces :
    (gap taken tail s : ℕ) (ys : Blocks)
    → StartsUsed ys
    → IsCoalesced ys
    → total (front gap) + (taken + total (behind tail)) ≡ s
    → coalesce (front gap ++ (true, taken) ∷ (behind tail ++ ys)) ≡ (true, s) ∷ ys
coalesce-pieces gap taken tail s ys u c e = cut (ltb 0 gap) (leb 40 tail) e
  where
    last : (n : ℕ) (zs : Blocks) → StartsUsed zs → join n zs ≡ (true, n) ∷ zs
    last n [] k = refl
    last n ((true, t) ∷ zs) k = elim k [ ]
    last n ((false, t) ∷ zs) k = refl

    one : (n : ℕ) → join n (coalesce ys) ≡ (true, n) ∷ ys
    one n = ap (join n) (coalesce-id ys c) ∙ last n ys u

    cut :
        (f t : Bool)
        → total (if f then (true, gap) ∷ [] else [])
            + (taken + total (if t then (true, tail) ∷ [] else []))
          ≡ s
        → coalesce (
            (if f then (true, gap) ∷ [] else [])
            ++ (true, taken) ∷ ((if t then (true, tail) ∷ [] else []) ++ ys))
          ≡ (true, s) ∷ ys
    cut true true h =
        ap (λ bs. join gap (join taken bs)) (one tail) ∙ ap (λ n. (true, n) ∷ ys) (omega arith)
    cut true false h = ap (join gap) (one taken) ∙ ap (λ n. (true, n) ∷ ys) (omega arith)
    cut false true h = ap (join taken) (one tail) ∙ ap (λ n. (true, n) ∷ ys) (omega arith)
    cut false false h = one taken ∙ ap (λ n. (true, n) ∷ ys) (omega arith)

module _ (a : FreeList) (arena : List ℕ) (bs : Blocks) (size align : ℕ) (v : IsHeap a arena bs)
    (small : length arena < 9223372036854775808) where
  -- What `dealloc` does with a payload.
  abbrev Restores : FreeList → List ℕ → ℕ → Type 0
  Restores b arena' payload =
      (c : FreeList) × (arena'' : List ℕ) × (dealloc b arena' payload ≡ some (c, arena'', ok tt))
      × IsHeap c arena'' bs
      × (stats c ≡ stats a)

  same_stats : (c : FreeList) (xs : List ℕ) → IsHeap c xs bs → stats c ≡ stats a
  unfolding stats
  same_stats c xs h = λ i. record {
    free_blocks = (h.blocks_counted ∙ sym v.blocks_counted) i;
    free_bytes = (h.bytes_counted ∙ sym v.bytes_counted) i;
    largest_free = (h.largest_counted ∙ sym v.largest_counted) i;
  }

  -- The block that serves, in the heap after `alloc`; without it the heap would be as before.
  pub served_block :
      (b : FreeList) (arena' : List ℕ) (payload : ℕ)
      → Serves a arena bs size align b arena' payload
      → (xs ys : Blocks) × (s : ℕ) × IsHeap b arena' (xs ++ (false, s) ∷ ys)
        × (payload ≡ total xs + 24)
        × (coalesce (xs ++ (true, s) ∷ ys) ≡ bs)
        × (b.arena_len ≡ a.arena_len)
  served_block b arena' payload r =
      let xs = r.before ++ front r.gap in
      let ys = behind r.tail ++ r.behind in
      let w : IsHeap a arena (r.before ++ (true, r.block) ∷ r.behind) =
        subst (IsHeap a arena) r.split v in
      let (u, k) = IsCoalesced-behind r.before r.block r.behind w.coalesced in
      let t : total (front r.gap) + (r.taken + total (behind r.tail)) ≡ r.block =
        omega (arith, r.whole, total-append (front r.gap) ((false, r.taken) ∷ behind r.tail)) in
      (
        xs,
        ys,
        r.taken,
        subst (IsHeap b arena')
            (ap (λ cs. r.before ++ cs)
                (append_assoc (front r.gap) ((false, r.taken) ∷ behind r.tail) r.behind)
              ∙ sym (append_assoc r.before (front r.gap) ((false, r.taken) ∷ ys)))
            r.heap,
        omega (arith, r.at_payload, total-append r.before (front r.gap), total-front r.gap),
        ap coalesce (append_assoc r.before (front r.gap) ((true, r.taken) ∷ ys))
            ∙ coalesce-append r.before (front r.gap ++ (true, r.taken) ∷ ys)
            ∙ ap (λ cs. coalesce (r.before ++ cs))
                (coalesce-pieces r.gap r.taken r.tail r.block r.behind u k t)
            ∙ coalesce-id (r.before ++ (true, r.block) ∷ r.behind) w.coalesced
            ∙ sym r.split,
        omega (
          arith,
          r.heap.tiled,
          w.tiled,
          r.whole,
          total-append r.before (pieces r.gap r.taken r.tail ++ r.behind),
          total-append (pieces r.gap r.taken r.tail) r.behind,
          total-append r.before ((true, r.block) ∷ r.behind),
        ),
      )

  restores :
      (b : FreeList) (arena' : List ℕ) (payload : ℕ)
      → Serves a arena bs size align b arena' payload
      → Restores b arena' payload
  restores b arena' payload r =
      let (xs, ys, s, h, p, e, n) = served_block b arena' payload r in
      let (c, arena'', f, frees) = dealloc_lem b arena' ys s (omega (arith, n, v.aligned)) xs h in
      let heap : IsHeap c arena'' bs = subst (IsHeap c arena'') e frees.heap in
      (c, arena'', ap (dealloc b arena') p ∙ f, heap, same_stats c arena'' heap)

  abbrev Restored : Option Outcome → Type 0
  Restored none = Unit {0}
  Restored (some (b, arena', none)) = Unit {0}
  Restored (some (b, arena', some payload)) = Restores b arena' payload

  -- On a valid heap in an arena below 2^63 bytes, what `alloc` returns for a positive size and a power
  -- of two of at most 4096 as alignment is freed by `dealloc`, after which the heap is valid with the
  -- blocks and the statistics that it had before.
  pub alloc-dealloc :
      0 < size
      → is_power_of_two align ≡ true
      → align ≤ 4096
      → (b : FreeList) (arena' : List ℕ) (payload : ℕ)
      → alloc a arena size align ≡ some (b, arena', some payload)
      → (c : FreeList) × (arena'' : List ℕ) × (dealloc b arena' payload ≡ some (c, arena'', ok tt))
        × IsHeap c arena'' bs
        × (stats c ≡ stats a)
  alloc-dealloc pos power limit b arena' payload e =
      subst Restored e (elim (alloc-first_fit a arena size align pos power limit small bs v) [
        | inl (f, _) ↦ subst Restored (sym f) tt
        | inr (b', xs, p, f, r) ↦ subst Restored (sym f) (restores b' xs p r)
      ])
