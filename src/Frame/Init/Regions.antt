-- ===== src/Frame/Init/Regions.antt =====
-- crates/kernel-memory/src/frame.rs: the outer loop of `init`, over the memory map.
use paranuk_os.Base.{
  ℕ, suc, ◌+◌, ◌-◌, ◌*◌, ◌/◌, ◌%◌, ◌≤◌, ◌<◌, ◌≡◌, ◌⊎◌, inl, inr, refl, ap, ◌∙◌, sym, min, max, Bool,
  true, false, not, ◌&&◌, ◌||◌, some, List, [], ◌∷◌, arith, ltb, leb, Bool-cases, take, All,
}
use paranuk_os.MemoryMap.{page_size, Region, end}
use paranuk_os.Frame.{FrameAllocator, is_reserved, any}
use paranuk_os.Frame.Init.{is_conventional, mark_range, mark_regions}
use paranuk_os.Frame.Invariant.{owned}
use paranuk_os.Frame.Free.{address_of}
use paranuk_os.Frame.Init.Marks.{IsBuilding, IsSameRange, mark_range_lem}

-- A conventional region holds the address; one of the list does.
abbrev pub inside : Region → ℕ → Bool
inside r address = is_conventional r.kind && (leb r.base address && ltb address (end r))

abbrev pub inside_any : List Region → ℕ → Bool
inside_any [] address = false
inside_any (r ∷ rs) address = inside r address || inside_any rs address

abbrev pub IsPageAligned : Region → Type 0
IsPageAligned r = r.base % page_size ≡ 0

-- Two regions that are both conventional do not overlap.
abbrev pub AreApart : Region → Region → Type 0
AreApart r q =
    (is_conventional r.kind ≡ false)
    ⊎ (is_conventional q.kind ≡ false)
    ⊎ (end r ≤ q.base)
    ⊎ (end q ≤ r.base)

abbrev pub ArePairwiseApart : List Region → Type 0
ArePairwiseApart [] = Unit {0}
ArePairwiseApart (r ∷ rs) = All (AreApart r) rs × ArePairwiseApart rs

-- Nothing of a region is marked yet.
abbrev pub IsFresh : FrameAllocator → Region → Type 0
IsFresh a r = (j : ℕ) → j < a.frames → inside r (address_of a j) ≡ true → owned a j ≡ false

-- `b` is what the loop makes of `a`.
pub record IsFilled (a : FrameAllocator) (rs : List Region) (b : FrameAllocator) : Type 0 where
  pub building : IsBuilding b
  pub same : IsSameRange a b
  pub table :
      (j : ℕ)
      → j < a.frames
      → owned b j
        ≡ (owned a j || (inside_any rs (address_of a j) && not (is_reserved a (address_of a j))))

-- The inner loop on one conventional region, clipped to the managed range.
mark_region_lem :
    (low high : ℕ) (a : FrameAllocator) (r : Region)
    → low ≡ a.first_frame * page_size
    → high ≡ (a.first_frame + a.frames) * page_size
    → IsBuilding a
    → IsPageAligned r
    → is_conventional r.kind ≡ true
    → IsFresh a r
    → let from = max r.base low in
      let to = min (end r) high in
      (b : FrameAllocator) × (mark_range (suc (to - from)) a from to ≡ some b)
      × IsFilled a (r ∷ []) b
mark_region_lem low high a r el eh v al c fresh =
    let from = max r.base low in
    let to = min (end r) high in
    let i = from / page_size - a.first_frame in
    let at : address_of a i ≡ from = omega arith in
    let (b, g, x) =
      mark_range_lem (suc (to - from)) a i to v (omega arith) (omega arith)
        (λ j l m n. fresh j l (ground arith)) in
    (
      b,
      ap (λ n. mark_range (suc (to - from)) a n to) (sym at) ∙ g,
      record { building = x.building; same = x.same; table = λ j l. x.table j l ∙ ground arith },
    )

-- Once a region is marked, those that are apart from it are as fresh as before.
IsFresh-filled :
    (a b : FrameAllocator) (r q : Region)
    → IsFilled a (r ∷ []) b
    → AreApart r q
    → IsFresh a q
    → IsFresh b q
IsFresh-filled a b r q f apart fresh j l h =
    let l' : j < a.frames = omega (arith, f.same.same_frames) in
    let at : address_of b j ≡ address_of a j = ap (λ n. (n + j) * page_size) f.same.same_first in
    let h' : inside q (address_of a j) ≡ true = ap (inside q) (sym at) ∙ h in
    f.table j l' ∙ ground (arith, fresh j l' h', h', apart)

All-IsFresh-filled :
    (a b : FrameAllocator) (r : Region) (rs : List Region)
    → IsFilled a (r ∷ []) b
    → All (AreApart r) rs
    → All (IsFresh a) rs
    → All (IsFresh b) rs
All-IsFresh-filled a b r [] f apart fresh = tt
All-IsFresh-filled a b r (q ∷ rs) f apart fresh =
    (IsFresh-filled a b r q f apart.0 fresh.0, All-IsFresh-filled a b r rs f apart.1 fresh.1)

IsFilled-refl : (a : FrameAllocator) → IsBuilding a → IsFilled a [] a
IsFilled-refl a v = record {
  building = v;
  same = record {
    same_first = refl;
    same_frames = refl;
    same_reserved = refl;
    same_reserved_len = refl;
  };
  table = λ j l. ground arith;
}

IsFilled-skip :
    (a b : FrameAllocator) (r : Region) (rs : List Region)
    → is_conventional r.kind ≡ false
    → IsFilled a rs b
    → IsFilled a (r ∷ rs) b
IsFilled-skip a b r rs c f = record {
  building = f.building;
  same = f.same;
  table = λ j l. f.table j l ∙ ground arith;
}

IsFilled-trans :
    (a b c : FrameAllocator) (r : Region) (rs : List Region)
    → IsFilled a (r ∷ []) b
    → IsFilled b rs c
    → IsFilled a (r ∷ rs) c
IsFilled-trans a b c r rs f g = record {
  building = g.building;
  same = record {
    same_first = g.same.same_first ∙ f.same.same_first;
    same_frames = g.same.same_frames ∙ f.same.same_frames;
    same_reserved = g.same.same_reserved ∙ f.same.same_reserved;
    same_reserved_len = g.same.same_reserved_len ∙ f.same.same_reserved_len;
  };
  table =
      λ j l. ground (arith, f.table j l, g.table j (omega (arith, f.same.same_frames)), moved j);
}
  where
    moved :
        (j : ℕ)
        → (inside_any rs (address_of b j) && not (is_reserved b (address_of b j)))
          ≡ (inside_any rs (address_of a j) && not (is_reserved a (address_of a j)))
    moved j = λ k.
        let address : ℕ = (f.same.same_first k + j) * page_size in
        inside_any rs address
        && not (
            any (take (f.same.same_reserved_len k) (f.same.same_reserved k)) address
              (address + page_size))

pub mark_regions_lem :
    (low high : ℕ) (a : FrameAllocator) (rs : List Region)
    → low ≡ a.first_frame * page_size
    → high ≡ (a.first_frame + a.frames) * page_size
    → IsBuilding a
    → All IsPageAligned rs
    → ArePairwiseApart rs
    → All (IsFresh a) rs
    → (b : FrameAllocator) × (mark_regions low high a rs ≡ some b) × IsFilled a rs b
unfolding mark_regions
mark_regions_lem low high a [] el eh v al apart fresh = (a, refl, IsFilled-refl a v)
mark_regions_lem low high a (r ∷ rs) el eh v al apart fresh =
    elim (Bool-cases (is_conventional r.kind)) [
      | inr c ↦
          let (b, g, f) = mark_regions_lem low high a rs el eh v al.1 apart.1 fresh.1 in
          (b, ground (arith, c, g), IsFilled-skip a b r rs c f)
      | inl c ↦
          let (b, g, f) = mark_region_lem low high a r el eh v al.0 c fresh.0 in
          let (d, h, k) =
            mark_regions_lem low high b rs (el ∙ ap (λ n. n * page_size) (sym f.same.same_first))
              (omega (arith, f.same.same_first, f.same.same_frames)) f.building al.1 apart.1
              (All-IsFresh-filled a b r rs f apart.0 fresh.1) in
          (d, ground (arith, c, g, h), IsFilled-trans a b d r rs f k)
    ]
