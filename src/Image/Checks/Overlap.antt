-- ===== src/Image/Checks/Overlap.antt =====
-- crates/kernel-image/src/lib.rs: `check_no_overlap`.
use paranuk_os.Base.{
  ℕ, ◌+◌, ◌≤◌, ◌<◌, ◌≡◌, ◌≢◌, ◌⊎◌, inl, inr, refl, ap, ◌∙◌, subst, sym, some, List, [], ◌∷◌, ◌++◌,
  Result, ok, err, ◌>>=◌, word, arith, All, length, length-append, append_assoc, append-nil,
}
use native.Mathlib.Decide.{dec_lt, ℕ_discrete}
use paranuk_os.Image.{
  Segment, SegmentError, filesz_larger_than_memsz, data_out_of_bounds, empty_segment,
  overlapping_segments, bad_program_headers, address_overflow, entry_not_executable, Header, ended,
  outside, skipped, loaded,
}
use paranuk_os.Image.Checks.{Flow, go, return, checked, overlap_body, check_no_overlap}
use paranuk_os.Image.Checks.Walk.{
  walk, all_headers, table_of, size_of, count_of, HasTable, IsUnwrapped, over_segments_lem,
}
use paranuk_os.Image.Checks.Segments.{IsPresent, headers-IsPresent}
use paranuk_os.Image.Checks.Entry.{Any, IsOutside}
use paranuk_os.Image.Checks.Ranges.{
  PairwiseApart, range_of, ranges_of, AllApart, PairwiseApart-snoc, PairwiseApart-middle, meets_lem,
}

-- The end of a segment is no 64-bit address.
abbrev pub IsTooHigh : Header → Type 0
IsTooHigh (loaded s) = word ≤ s.paddr + s.memsz
IsTooHigh _ = ⊥

overlap_body_lem :
    (ranges : List (ℕ × ℕ)) (s : Segment)
    → ((s.paddr + s.memsz < word)
        × AllApart ranges (range_of s)
        × (length ranges ≢ 16)
        × (overlap_body ranges s ≡ some (go (ranges ++ range_of s ∷ []))))
      ⊎ (IsTooHigh (loaded s) × (overlap_body ranges s ≡ some (return (err address_overflow))))
      ⊎ ((¬ AllApart ranges (range_of s))
          × (overlap_body ranges s ≡ some (return (err overlapping_segments))))
      ⊎ ((length ranges ≡ 16) × (overlap_body ranges s ≡ some (return (err bad_program_headers))))
unfolding overlap_body checked
overlap_body_lem ranges s = elim (dec_lt (s.paddr + s.memsz) word) [
  | no big ↦ inr (inl (omega arith, ground arith))
  | yes fits ↦ elim (meets_lem ranges s.paddr (s.paddr + s.memsz)) [
    | inr (m, bad) ↦ inr (inr (inl (bad, ground (arith, m))))
    | inl (m, a) ↦ elim (ℕ_discrete (length ranges) 16) [
      | yes full ↦ inr (inr (inr (full, ground (arith, m))))
      | no room ↦ inl (fits, a, room, ground (arith, m))
    ]
  ]
]

abbrev pub IsSound : Header → Type 0
IsSound skipped = Unit {0}
IsSound (loaded s) = s.paddr + s.memsz < word
IsSound _ = ⊥

-- What the loop finds, where `ranges` are those of all segments.
abbrev Walked : List (ℕ × ℕ) → List Header → Flow (List (ℕ × ℕ)) (Unit {0}) → Type 0
Walked ranges hs (go _) = PairwiseApart ranges × (length ranges ≤ 16) × All IsSound hs
Walked ranges hs (return (ok _)) = ⊥
Walked ranges hs (return (err overlapping_segments)) = ¬ PairwiseApart ranges
Walked ranges hs (return (err bad_program_headers)) = Any IsOutside hs ⊎ (16 < length ranges)
Walked ranges hs (return (err address_overflow)) = Any IsTooHigh hs
Walked ranges hs (return (err _)) = ⊥

Walked-cons :
    (ranges : List (ℕ × ℕ)) (h : Header) (hs : List Header) (f : Flow (List (ℕ × ℕ)) (Unit {0}))
    → IsSound h
    → Walked ranges hs f
    → Walked ranges (h ∷ hs) f
Walked-cons ranges h hs (go _) m w = (w.0, w.1, (m, w.2))
Walked-cons ranges h hs (return (ok _)) m w = w
Walked-cons ranges h hs (return (err bad_program_headers)) m (inl w) = inl (inr w)
Walked-cons ranges h hs (return (err bad_program_headers)) m (inr w) = inr w
Walked-cons ranges h hs (return (err address_overflow)) m w = inr w
Walked-cons ranges h hs (return (err overlapping_segments)) m w = w
Walked-cons ranges h hs (return (err filesz_larger_than_memsz)) m w = w
Walked-cons ranges h hs (return (err data_out_of_bounds)) m w = w
Walked-cons ranges h hs (return (err empty_segment)) m w = w
Walked-cons ranges h hs (return (err entry_not_executable)) m w = w

walk-overlap_body :
    (hs : List Header) (ranges : List (ℕ × ℕ))
    → All IsPresent hs
    → PairwiseApart ranges
    → length ranges ≤ 16
    → (f : Flow (List (ℕ × ℕ)) (Unit {0})) × (walk hs ranges overlap_body ≡ some f)
      × Walked (ranges ++ ranges_of hs) hs f
walk-overlap_body [] ranges p apart le = (
  go ranges,
  refl,
  (
    subst PairwiseApart (sym (append-nil ranges)) apart,
    omega (arith, length-append ranges [], le),
    tt,
  ),
)
walk-overlap_body (ended ∷ hs) ranges p apart le = elim p.0 [ ]
walk-overlap_body (outside ∷ hs) ranges p apart le =
    (return (err bad_program_headers), refl, inl (inl tt))
walk-overlap_body (skipped ∷ hs) ranges p apart le =
    let (f, e, w) = walk-overlap_body hs ranges p.1 apart le in
    (f, e, Walked-cons (ranges ++ ranges_of hs) skipped hs f tt w)
walk-overlap_body (loaded s ∷ hs) ranges p apart le = elim (overlap_body_lem ranges s) [
  | inl (fits, a, room, b) ↦
      let longer = ranges ++ range_of s ∷ [] in
      let (f, e, w) =
        walk-overlap_body hs longer p.1 (PairwiseApart-snoc ranges (range_of s) apart a)
          (omega (arith, length-append ranges (range_of s ∷ []), le, room)) in
      (
        f,
        rw (b) e,
        Walked-cons (ranges ++ range_of s ∷ ranges_of hs) (loaded s) hs f fits
            (subst (λ x. Walked x hs f) (append_assoc ranges (range_of s ∷ []) (ranges_of hs)) w),
      )
  | inr (inl (m, b)) ↦ (return (err address_overflow), rw (b) refl, inl m)
  | inr (inr (inl (bad, b))) ↦ (
    return (err overlapping_segments),
    rw (b) refl,
    λ k. bad (PairwiseApart-middle ranges (ranges_of hs) (range_of s) k),
  )
  | inr (inr (inr (full, b))) ↦ (
    return (err bad_program_headers),
    rw (b) refl,
    inr (omega (arith, length-append ranges (range_of s ∷ ranges_of hs), full)),
  )
]

-- What `check_no_overlap` finds.
abbrev pub IsOverlapChecked : List ℕ → Result SegmentError (Unit {0}) → Type 0
IsOverlapChecked image (ok _) =
    HasTable image
    × PairwiseApart (ranges_of (all_headers image))
    × (length (ranges_of (all_headers image)) ≤ 16)
    × All IsSound (all_headers image)
IsOverlapChecked image (err overlapping_segments) = ¬ PairwiseApart (ranges_of (all_headers image))
IsOverlapChecked image (err bad_program_headers) =
    (¬ HasTable image)
    ⊎ (Any IsOutside (all_headers image) ⊎ (16 < length (ranges_of (all_headers image))))
IsOverlapChecked image (err address_overflow) = Any IsTooHigh (all_headers image)
IsOverlapChecked image (err _) = ⊥

-- `check_no_overlap` never panics on an image whose table of program headers ends at a 64-bit number.
-- If it accepts, there are at most 16 segments, none wraps, and of any two one ends before the other
-- starts. If it reports an overlap, there is one. Otherwise there is no table, a header lies outside
-- the file, there are more than 16 segments, or the end of one wraps, as the error says.
pub check_no_overlap_lem :
    (image : List ℕ)
    → IsUnwrapped image
    → (r : Result SegmentError (Unit {0})) × (check_no_overlap image ≡ some r)
      × IsOverlapChecked image r
unfolding check_no_overlap
check_no_overlap_lem image w = elim (over_segments_lem image [] overlap_body (λ _. ok tt) w) [
  | inl (bad, e) ↦ (err bad_program_headers, e, inl bad)
  | inr (table, e) ↦
      let present : All IsPresent (all_headers image) =
        headers-IsPresent image (table_of image) (size_of image) (count_of image) 0 table.2
          (omega (arith, w)) in
      let (f, g, h) = walk-overlap_body (all_headers image) [] present tt (omega arith) in
      (ended_by f, e ∙ ap (λ x. x >>= λ flow. some (ended_by flow)) g, result table f h)
]
  where
    ended_by : Flow (List (ℕ × ℕ)) (Unit {0}) → Result SegmentError (Unit {0})
    ended_by flow = elim flow [ go t ↦ ok tt | return r ↦ r ]

    result :
        HasTable image
        → (f : Flow (List (ℕ × ℕ)) (Unit {0}))
        → Walked (ranges_of (all_headers image)) (all_headers image) f
        → IsOverlapChecked image (ended_by f)
    result table (go _) h = (table, h.0, h.1, h.2)
    result table (return (ok _)) h = elim h [ ]
    result table (return (err bad_program_headers)) h = inr h
    result table (return (err address_overflow)) h = h
    result table (return (err overlapping_segments)) h = h
    result table (return (err filesz_larger_than_memsz)) h = h
    result table (return (err data_out_of_bounds)) h = h
    result table (return (err empty_segment)) h = h
    result table (return (err entry_not_executable)) h = h
