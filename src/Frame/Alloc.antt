-- ===== src/Frame/Alloc.antt =====
-- crates/kernel-memory/src/frame.rs: `alloc` and `alloc_contiguous`.
use paranuk_os.Base.{
  ℕ, zero, suc, ◌+◌, ◌-◌, ◌*◌, ◌≤◌, ◌<◌, ◌≡◌, ◌⊎◌, inl, inr, refl, ◌∙◌, true, false, ◌&&◌, Option,
  some, none, arith, ltb, leb, if◌then◌else◌,
}
use paranuk_os.MemoryMap.{page_size}
use paranuk_os.Frame.{FrameAllocator, find_free_run, alloc, mark_all, alloc_contiguous}
use paranuk_os.Frame.Invariant.{
  unused, IsValid, marked, mark_used-marked, marked-IsValid, unused-with_used, free_frames-pos,
}
use paranuk_os.Frame.Runs.{all_unused, all_unused-ext, IsFirstRun, find_free_run-IsFirstRun}

-- `b` is `a` with the `n` free frames from `s` on handed out.
pub record IsMarked (a : FrameAllocator) (s n : ℕ) (b : FrameAllocator) : Type 0 where
  pub valid : IsValid b
  pub same_allocatable : b.allocatable ≡ a.allocatable
  pub same_first : b.first_frame ≡ a.first_frame
  pub same_frames : b.frames ≡ a.frames
  pub same_reserved : b.reserved ≡ a.reserved
  pub same_reserved_len : b.reserved_len ≡ a.reserved_len
  pub counter : b.free_frames + n ≡ a.free_frames
  pub table : (j : ℕ) → unused b j ≡ (if leb s j && ltb j (s + n) then false else unused a j)

marked-IsMarked :
    (a : FrameAllocator) (i : ℕ)
    → IsValid a
    → i < a.frames
    → unused a i ≡ true
    → IsMarked a i 1 (marked a i)
marked-IsMarked a i v lt h = record {
  valid = marked-IsValid a i v lt h;
  same_allocatable = refl;
  same_first = refl;
  same_frames = refl;
  same_reserved = refl;
  same_reserved_len = refl;
  counter = omega (arith, free_frames-pos a i v lt h);
  table = λ j. ground (arith, unused-with_used a i j (a.free_frames - 1) true v lt);
}

-- `alloc` on a valid allocator. With no free frame it returns `None` and changes nothing. Otherwise
-- it hands out the free frame with the lowest address: that frame is not free any more, every other
-- frame stays as it was, the counter falls by one, and the allocator stays valid. It never panics.
pub alloc_lem :
    (a : FrameAllocator)
    → IsValid a
    → (((j : ℕ) → j < a.frames → unused a j ≡ false) × (alloc a ≡ some (a, none)))
      ⊎ ((i : ℕ) × (b : FrameAllocator) × (i < a.frames)
          × (unused a i ≡ true)
          × ((j : ℕ) → j < i → unused a j ≡ false)
          × (alloc a ≡ some (b, some (record { address = (a.first_frame + i) * page_size })))
          × IsMarked a i 1 b)
unfolding alloc
alloc_lem a v =
    let (out, e, first) = find_free_run-IsFirstRun a 1 v (omega arith) in by_run out e first
  where
    by_run :
        (out : Option ℕ)
        → find_free_run a 1 ≡ some out
        → IsFirstRun a 1 out
        → (((j : ℕ) → j < a.frames → unused a j ≡ false) × (alloc a ≡ some (a, none)))
          ⊎ ((i : ℕ) × (b : FrameAllocator) × (i < a.frames)
              × (unused a i ≡ true)
              × ((j : ℕ) → j < i → unused a j ≡ false)
              × (alloc a ≡ some (b, some (record { address = (a.first_frame + i) * page_size })))
              × IsMarked a i 1 b)
    by_run none e first = inl (λ j lt. ground (arith, first j), ground (arith, e))
    by_run (some i) e first =
        let h : unused a i ≡ true = ground (arith, first.1) in
        let lt : i < a.frames = omega (arith, first.0) in
        inr (
          i,
          marked a i,
          lt,
          h,
          λ j l. ground (arith, first.2 j l),
          ground (arith, e, mark_used-marked a i v lt h),
          marked-IsMarked a i v lt h,
        )

IsMarked-none : (a : FrameAllocator) (s : ℕ) → IsValid a → IsMarked a s 0 a
IsMarked-none a s v = record {
  valid = v;
  same_allocatable = refl;
  same_first = refl;
  same_frames = refl;
  same_reserved = refl;
  same_reserved_len = refl;
  counter = omega arith;
  table = λ j. ground arith;
}

IsMarked-trans :
    {a b c : FrameAllocator} {s n : ℕ}
    → IsMarked a s 1 b
    → IsMarked b (suc s) n c
    → IsMarked a s (suc n) c
IsMarked-trans {s = s} {n = n} p q = record {
  valid = q.valid;
  same_allocatable = q.same_allocatable ∙ p.same_allocatable;
  same_first = q.same_first ∙ p.same_first;
  same_frames = q.same_frames ∙ p.same_frames;
  same_reserved = q.same_reserved ∙ p.same_reserved;
  same_reserved_len = q.same_reserved_len ∙ p.same_reserved_len;
  counter = omega (arith, p.counter, q.counter);
  table = λ j. ground (arith, p.table j, q.table j);
}

-- The loop of `alloc_contiguous`.
mark_all_lem :
    (a : FrameAllocator) (s n : ℕ)
    → IsValid a
    → s + n ≤ a.frames
    → all_unused (unused a) s n ≡ true
    → (b : FrameAllocator) × (mark_all a s n ≡ some b) × IsMarked a s n b
unfolding mark_all
mark_all_lem a s zero v le h = (a, refl, IsMarked-none a s v)
mark_all_lem a s (suc n) v le h =
    let m : IsMarked a s 1 (marked a s) = marked-IsMarked a s v (omega arith) (ground arith) in
    let rest : all_unused (unused (marked a s)) (suc s) n ≡ true =
      all_unused-ext (unused (marked a s)) (unused a) (suc s) n (λ j l. ground (arith, m.table j))
      ∙ ground arith in
    let (b, e, k) = mark_all_lem (marked a s) (suc s) n m.valid (omega arith) rest in
    (b, ground (arith, mark_used-marked a s v (omega arith) (ground arith), e), IsMarked-trans m k)

-- `alloc_contiguous` on a valid allocator, for a positive count. With no run of that many free
-- frames it returns `None` and changes nothing. Otherwise it hands out the lowest such run: those
-- frames are not free any more, every other frame stays as it was, the counter falls by the count,
-- and the allocator stays valid. It never panics.
pub alloc_contiguous_lem :
    (a : FrameAllocator) (count : ℕ)
    → IsValid a
    → 0 < count
    → (IsFirstRun a count none × (alloc_contiguous a count ≡ some (a, none)))
      ⊎ ((s : ℕ) × (b : FrameAllocator) × IsFirstRun a count (some s)
          × (alloc_contiguous a count
              ≡ some (
                b,
                some (record { start = (a.first_frame + s) * page_size; len = count * page_size }),
              ))
          × IsMarked a s count b)
unfolding alloc_contiguous
alloc_contiguous_lem a count v pos =
    let (out, e, first) = find_free_run-IsFirstRun a count v pos in by_run out e first
  where
    by_run :
        (out : Option ℕ)
        → find_free_run a count ≡ some out
        → IsFirstRun a count out
        → (IsFirstRun a count none × (alloc_contiguous a count ≡ some (a, none)))
          ⊎ ((s : ℕ) × (b : FrameAllocator) × IsFirstRun a count (some s)
              × (alloc_contiguous a count
                  ≡ some (
                    b,
                    some (record {
                      start = (a.first_frame + s) * page_size;
                      len = count * page_size;
                    }),
                  ))
              × IsMarked a s count b)
    by_run none e first = inl (first, ground (arith, e))
    by_run (some s) e first =
        let (b, g, k) = mark_all_lem a s count v first.0 first.1 in
        inr (s, b, first, ground (arith, e, g, k.same_first), k)
