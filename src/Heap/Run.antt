-- ===== src/Heap/Run.antt =====
-- crates/kernel-memory/src/heap.rs: whole histories of calls of the kernel heap.
use paranuk_os.Base.{
  ℕ, ◌+◌, ◌-◌, ◌≤◌, ◌<◌, ◌≡◌, inl, inr, refl, sym, ap, ◌∙◌, subst, true, false, Option, none, some,
  List, [], ◌∷◌, ◌++◌, arith, length, count, count-append, patch, Result, ◌==◌, if◌then◌else◌,
}
use paranuk_os.Heap.{
  FreeList, FreeListError, init, aligned_len, is_power_of_two, read_header, magic_alloc, no_block,
}
use paranuk_os.Heap.Blocks.{Blocks, total, total-append, IsHeap, Holds-split_start}
use paranuk_os.Heap.Join.{coalesce, total-coalesce}
use paranuk_os.Heap.Start.{init-IsHeap}
use paranuk_os.Heap.Payload.{patch-IsHeap}
use paranuk_os.Heap.Again.{served_block}
use paranuk_os.Heap.Live.{live, live-coalesce, live-block, count-live_used}
use paranuk_os.Heap.Alloc.{Outcome, alloc}
use paranuk_os.Heap.Alloc.Search.{alloc-first_fit}
use paranuk_os.Heap.Dealloc.{dealloc}
use paranuk_os.Heap.Dealloc.Release.{dealloc_lem}

-- The heap after `init`, on an arena that can hold a block, and any number of calls: of `alloc`, of `dealloc` on payloads that were handed
-- out and not yet given back, and of writes of the users to their payloads. The list holds those
-- payloads; the size of a payload stands in the header before it.
pub data Reach : FreeList → List ℕ → List ℕ → Type 0 where
  starts :
      {a : FreeList} {arena : List ℕ} (bytes : List ℕ)
      → length bytes < 9223372036854775808
      → 40 ≤ aligned_len bytes
      → init bytes ≡ some (a, arena)
      → Reach a arena []
  allocates :
      {a b : FreeList} {arena arena' ps : List ℕ} {p : ℕ} (size align : ℕ)
      → Reach a arena ps
      → 0 < size
      → is_power_of_two align ≡ true
      → align ≤ 4096
      → alloc a arena size align ≡ some (b, arena', some p)
      → Reach b arena' (p ∷ ps)
  fails :
      {a b : FreeList} {arena arena' ps : List ℕ} (size align : ℕ)
      → Reach a arena ps
      → 0 < size
      → is_power_of_two align ≡ true
      → align ≤ 4096
      → alloc a arena size align ≡ some (b, arena', none)
      → Reach b arena' ps
  frees :
      {a b : FreeList} {arena arena' : List ℕ} {r : Result FreeListError (Unit {0})}
      (qs rs : List ℕ) (p : ℕ)
      → Reach a arena (qs ++ p ∷ rs)
      → dealloc a arena p ≡ some (b, arena', r)
      → Reach b arena' (qs ++ rs)
  writes :
      {a : FreeList} {arena ps : List ℕ} (p s next at : ℕ) (new : List ℕ)
      → Reach a arena ps
      → 0 < count p ps
      → read_header arena (p - 24) ≡ some (magic_alloc, s, next)
      → p ≤ at
      → at + length new ≤ (p - 24) + s
      → Reach a (patch arena at new) ps

-- The blocks tile the arena and the payloads are those of the blocks in use.
pub record IsRun (a : FreeList) (arena ps : List ℕ) : Type 0 where
  pub blocks : Blocks
  pub heap : IsHeap a arena blocks
  pub small : a.arena_len < 9223372036854775808
  pub payloads : (p : ℕ) → count p ps ≡ count p (live 0 blocks)

-- The size in what a read of a header returns.
abbrev size_in : Option (ℕ × ℕ × ℕ) → ℕ
size_in none = 0
size_in (some (magic, size, next)) = size

cancel : (x a b c : ℕ) → a + (x + b) ≡ x + c → a + b ≡ c
cancel x a b c h = omega arith

abbrev AfterInit : Option (FreeList × List ℕ) → Type 0
AfterInit none = Unit {0}
AfterInit (some (a, arena)) = IsRun a arena []

init-IsRun :
    (bytes : List ℕ)
    → length bytes < 9223372036854775808
    → 40 ≤ aligned_len bytes
    → AfterInit (init bytes)
init-IsRun bytes small large = elim (init-IsHeap bytes (omega arith)) [
  | inl (e, l) ↦ absurd (omega (arith, l))
  | inr (a, arena, e, h) ↦ subst AfterInit (sym e) (record {
    blocks = (true, aligned_len bytes) ∷ [];
    heap = h;
    small = omega (arith, h.tiled);
    payloads = λ p. refl;
  })
]

abbrev AfterAlloc : List ℕ → Option Outcome → Type 0
AfterAlloc ps none = Unit {0}
AfterAlloc ps (some (b, arena, none)) = IsRun b arena ps
AfterAlloc ps (some (b, arena, some p)) = IsRun b arena (p ∷ ps)

module _ (a : FreeList) (arena ps : List ℕ) (v : IsRun a arena ps) where
  short : length arena < 9223372036854775808
  short = omega (arith, v.heap.aligned, v.small)

  alloc-IsRun :
      (size align : ℕ)
      → 0 < size
      → is_power_of_two align ≡ true
      → align ≤ 4096
      → AfterAlloc ps (alloc a arena size align)
  alloc-IsRun size align pos power limit =
      elim (alloc-first_fit a arena size align pos power limit short v.blocks v.heap) [
        | inl (e, _) ↦ subst (AfterAlloc ps) (sym e) v
        | inr (b, arena', p, e, r) ↦
            let (xs, ys, s, h, at, joined, n) =
              served_block a arena v.blocks size align v.heap short b arena' p r in
            subst (AfterAlloc ps) (sym e) (record {
              blocks = xs ++ (false, s) ∷ ys;
              heap = h;
              small = omega (arith, n, v.small);
              payloads = λ i.
                  (λ j. (if at j == i then 1 else 0) + v.payloads i j)
                  ∙ ap (λ bs. (if total xs + 24 == i then 1 else 0) + count i (live 0 bs))
                      (sym joined)
                  ∙ ap (λ l. (if total xs + 24 == i then 1 else 0) + count i l)
                      (live-coalesce 0 (xs ++ (true, s) ∷ ys))
                  ∙ sym (count-live_used i xs ys s);
            })
      ]

  -- The block of a payload that was handed out.
  block_of :
      (p : ℕ)
      → 0 < count p ps
      → (xs ys : Blocks) × (s : ℕ) × (v.blocks ≡ xs ++ (false, s) ∷ ys) × (p ≡ total xs + 24)
  block_of p c =
      let (xs, ys, s, e, at) = live-block p 0 v.blocks (omega (arith, c, v.payloads p)) in
      (xs, ys, s, e, omega (arith, at))

  patch-IsRun :
      (p s next at : ℕ) (new : List ℕ)
      → 0 < count p ps
      → read_header arena (p - 24) ≡ some (magic_alloc, s, next)
      → p ≤ at
      → at + length new ≤ (p - 24) + s
      → IsRun a (patch arena at new) ps
  patch-IsRun p s next at new c r l m =
      let (xs, ys, t, e, f) = block_of p c in
      let h : IsHeap a arena (xs ++ (false, t) ∷ ys) = subst (IsHeap a arena) e v.heap in
      let (_, (_, _, header, _)) = Holds-split_start arena xs ((false, t) ∷ ys) no_block h.holds in
      let same : ◌≡◌ {A = Option (ℕ × ℕ × ℕ)} (some (magic_alloc, t, no_block))
          (some (magic_alloc, s, next)) =
        sym header ∙ ap (read_header arena) {x = total xs} (omega (arith, f)) ∙ r in
      let size : t ≡ s = ap size_in same in
      let (heap, _) =
        patch-IsHeap a arena new xs ys t at h (omega (arith, f)) (omega (arith, f, size)) in
      record {
        blocks = v.blocks;
        heap = subst (IsHeap a (patch arena at new)) (sym e) heap;
        small = v.small;
        payloads = v.payloads;
      }

abbrev AfterDealloc : List ℕ → Option (FreeList × List ℕ × Result FreeListError (Unit {0})) → Type 0
AfterDealloc ps none = Unit {0}
AfterDealloc ps (some (b, arena, r)) = IsRun b arena ps

dealloc-IsRun :
    (a : FreeList) (arena qs rs : List ℕ) (p : ℕ)
    → IsRun a arena (qs ++ p ∷ rs)
    → AfterDealloc (qs ++ rs) (dealloc a arena p)
dealloc-IsRun a arena qs rs p v =
    let listed : 0 < count p (qs ++ p ∷ rs) = ground (arith, count-append p qs (p ∷ rs)) in
    let (xs, ys, s, e, at) = block_of a arena (qs ++ p ∷ rs) v p listed in
    let h : IsHeap a arena (xs ++ (false, s) ∷ ys) = subst (IsHeap a arena) e v.heap in
    let (b, arena', f, freed) = dealloc_lem a arena ys s (omega (arith, v.small)) xs h in
    subst (AfterDealloc (qs ++ rs)) (sym (ap (dealloc a arena) at ∙ f)) (record {
      blocks = coalesce (xs ++ (true, s) ∷ ys);
      heap = freed.heap;
      small = omega (
        arith,
        freed.heap.tiled,
        h.tiled,
        v.small,
        total-coalesce (xs ++ (true, s) ∷ ys),
        total-append xs ((true, s) ∷ ys),
        total-append xs ((false, s) ∷ ys),
      );
      payloads = λ i.
          count-append i qs rs
          ∙ cancel (if total xs + 24 == i then 1 else 0) (count i qs) (count i rs)
              (count i (live 0 (xs ++ (true, s) ∷ ys)))
              ((λ j. count i qs + ((if sym at j == i then 1 else 0) + count i rs))
                ∙ sym (count-append i qs (p ∷ rs))
                ∙ v.payloads i
                ∙ ap (λ bs. count i (live 0 bs)) e
                ∙ count-live_used i xs ys s)
          ∙ ap (count i) (sym (live-coalesce 0 (xs ++ (true, s) ∷ ys)));
    })

-- Along every history of `init`, of calls of `alloc` with a positive size and a power of two of at most
-- 4096 as alignment, of calls of `dealloc` on payloads that were handed out and not given back, and of
-- writes to such payloads, in an arena that is shorter than 2^63 bytes and has at least 40 bytes once
-- its length is rounded down to a multiple of 8, the heap is valid: the blocks tile the arena,
-- the list runs through the free ones, no two of which lie side by side, and the counters are right.
-- The payloads that were handed out and not given back are exactly those of the blocks in use.
pub Reach-IsRun : {a : FreeList} {arena ps : List ℕ} → Reach a arena ps → IsRun a arena ps
Reach-IsRun (starts bytes small large e) = subst AfterInit e (init-IsRun bytes small large)
Reach-IsRun (allocates {a} {b} {arena} {arena'} {ps} {p} size align h pos power limit e) =
    subst (AfterAlloc ps) e (alloc-IsRun a arena ps (Reach-IsRun h) size align pos power limit)
Reach-IsRun (fails {a} {b} {arena} {arena'} {ps} size align h pos power limit e) =
    subst (AfterAlloc ps) e (alloc-IsRun a arena ps (Reach-IsRun h) size align pos power limit)
Reach-IsRun (frees {a} {b} {arena} {arena'} qs rs p h e) =
    subst (AfterDealloc (qs ++ rs)) e (dealloc-IsRun a arena qs rs p (Reach-IsRun h))
Reach-IsRun (writes {a} {arena} {ps} p s next at new h c r l m) =
    patch-IsRun a arena ps (Reach-IsRun h) p s next at new c r l m
