-- ===== src/Heap/Alloc/Fitted.antt =====
-- crates/kernel-memory/src/heap.rs: the end of a round of `alloc`, once the payload fits.
use paranuk_os.Base.{
  ℕ, ◌+◌, ◌-◌, ◌%◌, ◌≤◌, ◌<◌, ◌≡◌, ◌⊎◌, inl, inr, refl, ap, ◌∙◌, true, false, none, some, List, ◌∷◌,
  ◌++◌, arith, word, sub_word, leb, ◌==◌, if◌then◌else◌, length,
}
use native.Mathlib.Decide.{dec_le}
use paranuk_os.Heap.{FreeList, header_align, no_block, align_up}
use paranuk_os.Heap.Blocks.{
  Blocks, total, first_free, first_free-range, IsHeap, AllUsed, total-append, Holds-split_start,
}
use paranuk_os.Heap.Sizes.{Holds-sizes}
use paranuk_os.Heap.Before.{LastFree, prefix, previous_of, size_of, IsBefore, last_header}
use paranuk_os.Heap.Alloc.{Cut, carve, fitted, size_before}
use paranuk_os.Heap.Alloc.Carve.{IsCut}
use paranuk_os.Heap.Alloc.Placed.{carve_lem, total-pieces}
use paranuk_os.Heap.Alloc.Place.{IsGap}
use paranuk_os.Heap.Alloc.Room.{NoRoom, Answers}

size_before-size_of :
    (q : LastFree) (used : Blocks) (arena : List ℕ) (end : ℕ)
    → IsBefore q used arena end
    → size_before arena (previous_of q) ≡ some (size_of q)
unfolding size_before
size_before-size_of none used arena end v = refl
size_before-size_of (some (before, s)) used arena end v =
    let (ge, le, r) = last_header arena before used s end v in
    let t : (total before == no_block) ≡ false = ground (arith, v.small) in rw (t, r) refl

-- An end that is rounded up stays inside a block whose end is aligned.
align_up-inside :
    (end limit : ℕ)
    → end ≤ limit
    → limit % 8 ≡ 0
    → limit < word - 8
    → (start : ℕ) × (align_up end header_align ≡ some start)
      × (end ≤ start)
      × (start ≤ limit)
      × (start % 8 ≡ 0)
unfolding align_up
align_up-inside end limit l m w =
    let start = end + 7 - (end + 7) % 8 in
    (start, ground arith, omega arith, omega arith, omega arith)

module _ (a : FreeList) (arena : List ℕ) (q : LastFree) (used ys : Blocks) (s size align gap : ℕ)
    (u : AllUsed used) (v : IsHeap a arena (prefix q used ++ (true, s) ∷ ys))
    (n : NoRoom 0 (prefix q used) size align) (small : length arena < 9223372036854775808)
    (pos : 0 < size) (g : IsGap (total (prefix q used)) align gap)
    (fits : total (prefix q used) + 24 + gap + size ≤ total (prefix q used) + s) where
  abbrev xs : Blocks
  xs = prefix q used

  at_block : ℕ
  at_block = total xs

  abbrev next : ℕ
  next = first_free (total xs + s) ys no_block

  -- What is known of the place of the block.
  bounds :
      (total xs + s ≤ length arena) × (total xs % 8 ≡ 0) × (s % 8 ≡ 0) × (total xs + s < word - 8)
  bounds =
      let (before, (_, m, _, _)) = Holds-split_start arena xs ((true, s) ∷ ys) no_block v.holds in
      let l : total xs + s ≤ length arena =
        omega (arith, v.tiled, v.aligned, total-append xs ((true, s) ∷ ys)) in
      (l, (Holds-sizes arena 0 xs (total xs) before).1, m, omega arith)

  IsBefore-block : IsBefore q used arena (total xs)
  IsBefore-block = record {
    all_used = u;
    holds = (Holds-split_start arena xs ((true, s) ∷ ys) no_block v.holds).0;
    inside = omega (arith, bounds.0);
    small = v.small;
  }

  abbrev cut_at : ℕ → Cut
  cut_at start = record {
    previous = previous_of q;
    current = total xs;
    next = next;
    block_end = total xs + s;
    payload = total xs + 24 + gap;
    front_gap = gap;
    tail_start = start;
    tail = total xs + s - start;
    previous_size = size_of q;
  }

  fitted-carve :
      (start : ℕ)
      → align_up (total xs + 24 + gap + size) header_align ≡ some start
      → start ≤ total xs + s
      → fitted a arena
          (previous_of q)
          (total xs)
          (total xs + s, next)
          (total xs + 24 + gap, total xs + 24 + gap + size, gap)
        ≡ carve a arena (cut_at start)
  unfolding fitted
  fitted-carve start e l =
      let t : sub_word (total xs + s) start ≡ some (total xs + s - start) = ground arith in
      rw (e, fitted, t, size_before-size_of q used arena (total xs) IsBefore-block) refl

  abbrev taken_at : ℕ → ℕ
  taken_at start =
      (if leb 40 (total xs + s - start) then start else (total xs + s)) - (total xs + 24 + gap - 24)

  module _ (start : ℕ) (l : total xs + 24 + gap + size ≤ start) (m : start ≤ total xs + s)
      (d : start % 8 ≡ 0) where
    taken_cases :
        ((total xs + s - start < 40) × (taken_at start ≡ s - gap))
        ⊎ ((40 ≤ total xs + s - start) × (taken_at start ≡ start - (total xs + gap)))
    taken_cases = elim (dec_le 40 (total xs + s - start)) [
      | yes h ↦
          let t : leb 40 (total xs + s - start) ≡ true = ground arith in
          inr (
            h,
            ap (λ b. (if b then start else (total xs + s)) - (total xs + 24 + gap - 24)) t
                ∙ omega arith,
          )
      | no h ↦
          let t : leb 40 (total xs + s - start) ≡ false = ground arith in
          inl (
            omega arith,
            ap (λ b. (if b then start else (total xs + s)) - (total xs + 24 + gap - 24)) t
                ∙ omega arith,
          )
    ]

    taken_room : size + 24 ≤ taken_at start
    taken_room = elim taken_cases [ inl (h, e) ↦ omega (arith, e) | inr (h, e) ↦ omega (arith, e) ]

    taken_aligned : taken_at start % 8 ≡ 0
    taken_aligned = elim taken_cases [
      | inl (h, e) ↦ omega (arith, e, bounds, g.gap_aligned)
      | inr (h, e) ↦ omega (arith, e, bounds, g.gap_aligned)
    ]

    cut_at-IsCut : IsCut arena (cut_at start) s (taken_at start)
    cut_at-IsCut = record {
      inside = bounds.0;
      small = v.small;
      next_small = elim (first_free-range (total xs + s) ys no_block) [
        | inl e ↦ omega (arith, e)
        | inr (_, r) ↦
            omega (arith, r, bounds, v.small, v.tiled, v.aligned, total-append xs ((true, s) ∷ ys))
      ];
      gap_block = g.gap_block;
      gap_aligned = g.gap_aligned;
      size_block = omega (arith, taken_room);
      size_aligned = taken_aligned;
      tail_block = elim taken_cases [
        | inl (h, e) ↦ inl (h, omega (arith, e))
        | inr (h, e) ↦ inr (h, omega (arith, bounds), omega (arith, e), omega (arith, e))
      ];
    }

  pub fitted_lem : Answers a arena (xs ++ (true, s) ∷ ys) size align (
      fitted a arena
        (previous_of q)
        (total xs)
        (total xs + s, next)
        (total xs + 24 + gap, total xs + 24 + gap + size, gap))
  fitted_lem =
      let (start, e, l, m, d) =
        align_up-inside (total xs + 24 + gap + size) (total xs + s) fits (omega (arith, bounds))
          bounds.3 in
      let tail = total xs + s - start in
      let taken = taken_at start in
      let c : IsCut arena (cut_at start) s taken = cut_at-IsCut start l m d in
      let (b, arena', f, heap, kept) =
        carve_lem a arena q used ys s taken (cut_at start) u v c refl refl refl refl (omega arith)
          refl in
      inr (
        b,
        arena',
        total xs + 24 + gap,
        fitted-carve start e m ∙ f,
        record {
          before = xs;
          behind = ys;
          block = s;
          gap = gap;
          taken = taken;
          tail = tail;
          whole = total-pieces arena (cut_at start) s taken c;
          split = refl;
          first_fit = n;
          heap = heap;
          kept = kept;
          at_payload = omega arith;
          payload_aligned = g.payload_aligned;
          room = taken_room start l m d;
        },
      )
