-- ===== src/Image/Checks/Ranges.antt =====
-- crates/kernel-image/src/lib.rs: the ranges that `check_no_overlap` compares.
use paranuk_os.Base.{
  ℕ, ◌+◌, ◌≤◌, ◌≡◌, ◌⊎◌, inl, inr, refl, true, false, ◌&&◌, List, [], ◌∷◌, ◌++◌, ltb, arith,
  Bool-cases, All,
}
use paranuk_os.Image.{Segment, Header, loaded}
use paranuk_os.Image.Checks.{meets}

-- One range ends before the other starts.
abbrev pub Apart : ℕ × ℕ → ℕ × ℕ → Type 0
Apart x y = (x.1 ≤ y.0) ⊎ (y.1 ≤ x.0)

abbrev pub PairwiseApart : List (ℕ × ℕ) → Type 0
PairwiseApart [] = Unit {0}
PairwiseApart (x ∷ xs) = All (Apart x) xs × PairwiseApart xs

abbrev pub range_of : Segment → ℕ × ℕ
range_of s = (s.paddr, s.paddr + s.memsz)

-- The ranges of the segments, in the order of their headers.
abbrev pub ranges_of : List Header → List (ℕ × ℕ)
ranges_of [] = []
ranges_of (loaded s ∷ hs) = range_of s ∷ ranges_of hs
ranges_of (_ ∷ hs) = ranges_of hs

abbrev pub AllApart : List (ℕ × ℕ) → ℕ × ℕ → Type 0
AllApart xs r = All (λ x. Apart x r) xs

pub All-snoc :
    (P : ℕ × ℕ → Type 0) (xs : List (ℕ × ℕ)) (r : ℕ × ℕ) → All P xs → P r → All P (xs ++ r ∷ [])
All-snoc P [] r h p = (p, tt)
All-snoc P (x ∷ xs) r h p = (h.0, All-snoc P xs r h.1 p)

All-middle : (P : ℕ × ℕ → Type 0) (xs ys : List (ℕ × ℕ)) (r : ℕ × ℕ) → All P (xs ++ r ∷ ys) → P r
All-middle P [] ys r h = h.0
All-middle P (x ∷ xs) ys r h = All-middle P xs ys r h.1

pub PairwiseApart-snoc :
    (xs : List (ℕ × ℕ)) (r : ℕ × ℕ)
    → PairwiseApart xs
    → AllApart xs r
    → PairwiseApart (xs ++ r ∷ [])
PairwiseApart-snoc [] r p a = (tt, tt)
PairwiseApart-snoc (x ∷ xs) r p a =
    (All-snoc (Apart x) xs r p.0 a.0, PairwiseApart-snoc xs r p.1 a.1)

pub PairwiseApart-middle :
    (xs ys : List (ℕ × ℕ)) (r : ℕ × ℕ) → PairwiseApart (xs ++ r ∷ ys) → AllApart xs r
PairwiseApart-middle [] ys r p = tt
PairwiseApart-middle (x ∷ xs) ys r p =
    (All-middle (Apart x) xs ys r p.0, PairwiseApart-middle xs ys r p.1)

pub meets_lem :
    (xs : List (ℕ × ℕ)) (start end : ℕ)
    → ((meets xs start end ≡ false) × AllApart xs (start, end))
      ⊎ ((meets xs start end ≡ true) × ¬ AllApart xs (start, end))
unfolding meets
meets_lem [] start end = inl (refl, tt)
meets_lem ((from, to) ∷ xs) start end = elim (Bool-cases (ltb start to && ltb from end)) [
  | inl e ↦ inr (
    ground (arith, e),
    λ a. elim a.0 [ inl l ↦ ground (arith, e, l) | inr l ↦ ground (arith, e, l) ],
  )
  | inr e ↦
      let this : Apart (from, to) (start, end) = ground (arith, e) in
      elim (meets_lem xs start end) [
        | inl (m, a) ↦ inl (ground (arith, e, m), (this, a))
        | inr (m, a) ↦ inr (ground (arith, e, m), λ k. a k.1)
      ]
]
