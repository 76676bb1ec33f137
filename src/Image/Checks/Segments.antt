-- ===== src/Image/Checks/Segments.antt =====
-- crates/kernel-image/src/lib.rs: `check_segments`.
use paranuk_os.Base.{
  ℕ, zero, suc, ◌+◌, ◌*◌, ◌≤◌, ◌<◌, ◌≡◌, ◌⊎◌, inl, inr, refl, ap, ◌∙◌, some, List, [], ◌∷◌, Result,
  ok, err, ◌>>=◌, word, ◌==◌, if◌then◌else◌, length, arith, All,
}
use native.Mathlib.Decide.{dec_lt, dec_le, ℕ_discrete}
use paranuk_os.Image.{
  Segment, SegmentError, bad_program_headers, filesz_larger_than_memsz, data_out_of_bounds,
  address_overflow, empty_segment, Header, ended, outside, skipped, loaded,
}
use paranuk_os.Image.Headers.{header_of, headers}
use paranuk_os.Image.Checks.{Flow, go, return, checked, check_body, check_segments}
use paranuk_os.Image.Checks.Walk.{
  walk, all_headers, table_of, size_of, count_of, HasTable, IsUnwrapped, over_segments_lem,
}

-- The header ends before the end of the address space.
abbrev pub IsPresent : Header → Type 0
IsPresent ended = ⊥
IsPresent _ = Unit {0}

header_of-IsPresent :
    (image : List ℕ) (entry : ℕ) → entry + 56 < word → IsPresent (header_of image entry)
unfolding header_of
header_of-IsPresent image entry h = ground arith

pub headers-IsPresent :
    (image : List ℕ) (table size n index : ℕ)
    → 56 ≤ size
    → table + (index + n) * size < word
    → All IsPresent (headers image table size n index)
headers-IsPresent image table size zero index h w = tt
headers-IsPresent image table size (suc n) index h w = (
  header_of-IsPresent image (table + index * size) (omega (arith, w)),
  headers-IsPresent image table size n (suc index) h (omega (arith, w)),
)

-- The loader can take the header: it lies in the file, and if it is of a segment, that is not empty,
-- its bytes lie in the file and fit in it, and its end is a 64-bit address.
abbrev pub IsLoadable : List ℕ → Header → Type 0
IsLoadable image ended = ⊥
IsLoadable image outside = ⊥
IsLoadable image skipped = Unit {0}
IsLoadable image (loaded s) =
    (0 < s.memsz)
    × (s.filesz ≤ s.memsz)
    × (s.offset + s.filesz ≤ length image)
    × (s.offset + s.filesz < word)
    × (s.paddr + s.memsz < word)

abbrev pub loaded_count : List Header → ℕ
loaded_count [] = 0
loaded_count (loaded s ∷ hs) = suc (loaded_count hs)
loaded_count (_ ∷ hs) = loaded_count hs

-- What the body of the loop does with one segment.
check_body_lem :
    (image : List ℕ) (count : ℕ) (s : Segment)
    → (IsLoadable image (loaded s) × (check_body image count s ≡ some (go (suc count))))
      ⊎ ((e : SegmentError) × (check_body image count s ≡ some (return (err e)))
          × ¬ IsLoadable image (loaded s))
unfolding check_body checked
check_body_lem image count s = elim (ℕ_discrete s.memsz 0) [
  | yes e ↦ inr (empty_segment, ground (arith, e), λ h. omega (arith, h.0))
  | no nz ↦ elim (dec_le s.filesz s.memsz) [
    | no big ↦ inr (filesz_larger_than_memsz, ground arith, λ h. omega (arith, h.1))
    | yes fits ↦ elim (dec_lt (s.offset + s.filesz) word) [
      | no wraps ↦ inr (address_overflow, ground arith, λ h. omega (arith, h.3))
      | yes stays ↦ elim (dec_le (s.offset + s.filesz) (length image)) [
        | no out ↦ inr (data_out_of_bounds, ground arith, λ h. omega (arith, h.2))
        | yes inside ↦ elim (dec_lt (s.paddr + s.memsz) word) [
          | no over ↦ inr (address_overflow, ground arith, λ h. omega (arith, h.4))
          | yes end ↦ inl ((omega arith, fits, inside, stays, end), ground arith)
        ]
      ]
    ]
  ]
]

-- What the loop finds.
abbrev Walked : List ℕ → List Header → ℕ → Flow ℕ ℕ → Type 0
Walked image hs count (go n) = (n ≡ count + loaded_count hs) × All (IsLoadable image) hs
Walked image hs count (return (ok n)) = ⊥
Walked image hs count (return (err e)) = ¬ All (IsLoadable image) hs

walk-check_body :
    (image : List ℕ) (hs : List Header) (count : ℕ)
    → All IsPresent hs
    → (f : Flow ℕ ℕ) × (walk hs count (check_body image) ≡ some f) × Walked image hs count f
walk-check_body image [] count p = (go count, refl, (omega arith, tt))
walk-check_body image (ended ∷ hs) count p = elim p.0 [ ]
walk-check_body image (outside ∷ hs) count p = (return (err bad_program_headers), refl, λ h. h.0)
walk-check_body image (skipped ∷ hs) count p =
    let (f, e, h) = walk-check_body image hs count p.1 in (f, e, skip f h)
  where
    skip : (f : Flow ℕ ℕ) → Walked image hs count f → Walked image (skipped ∷ hs) count f
    skip (go n) h = (h.0, (tt, h.1))
    skip (return (ok n)) h = h
    skip (return (err e)) h = λ a. h a.1
walk-check_body image (loaded s ∷ hs) count p = elim (check_body_lem image count s) [
  | inr (e, b, bad) ↦ (return (err e), rw (b) refl, λ a. bad a.0)
  | inl (good, b) ↦
      let (f, e, h) = walk-check_body image hs (suc count) p.1 in (f, rw (b) e, more good f h)
]
  where
    more :
        IsLoadable image (loaded s)
        → (f : Flow ℕ ℕ) → Walked image hs (suc count) f
        → Walked image (loaded s ∷ hs) count f
    more good (go n) h = (omega (arith, h.0), (good, h.1))
    more good (return (ok n)) h = h
    more good (return (err e)) h = λ a. h a.1

-- What `check_segments` finds.
abbrev pub IsChecked : List ℕ → Result SegmentError ℕ → Type 0
IsChecked image (ok n) =
    HasTable image
    × All (IsLoadable image) (all_headers image)
    × (n ≡ loaded_count (all_headers image))
    × (0 < n)
IsChecked image (err e) = ¬ (
    HasTable image
    × All (IsLoadable image) (all_headers image)
    × (0 < loaded_count (all_headers image)))

-- `check_segments` never panics on an image whose table of program headers ends at a 64-bit number.
-- It accepts exactly an image that has such a table with a segment to load, and whose headers can
-- all be loaded, and then returns the number of segments. The alignment that a header asks for is not
-- among the conditions.
pub check_segments_lem :
    (image : List ℕ)
    → IsUnwrapped image
    → (r : Result SegmentError ℕ) × (check_segments image ≡ some r) × IsChecked image r
unfolding check_segments
check_segments_lem image w = elim (over_segments_lem image 0 (check_body image) after w) [
  | inl (bad, e) ↦ (err bad_program_headers, e, λ h. bad h.0)
  | inr (table, e) ↦
      let present : All IsPresent (all_headers image) =
        headers-IsPresent image (table_of image) (size_of image) (count_of image) 0 table.2
          (omega (arith, w)) in
      let (f, g, h) = walk-check_body image (all_headers image) 0 present in
      let (r, q, k) = result table f h in
      (r, e ∙ ap (λ x. x >>= λ flow. some (ended_by flow)) g ∙ ap some q, k)
]
  where
    after : ℕ → Result SegmentError ℕ
    after count = if count == 0 then err bad_program_headers else ok count

    ended_by : Flow ℕ ℕ → Result SegmentError ℕ
    ended_by flow = elim flow [ go t ↦ after t | return r ↦ r ]

    result :
        HasTable image
        → (f : Flow ℕ ℕ) → Walked image (all_headers image) 0 f
        → (r : Result SegmentError ℕ) × (ended_by f ≡ r) × IsChecked image r
    result table (go n) h = elim (ℕ_discrete n 0) [
      | yes z ↦ (err bad_program_headers, ground (arith, z), λ k. omega (arith, z, h.0, k.2))
      | no nz ↦ (ok n, ground (arith, nz), (table, h.1, omega (arith, h.0), omega (arith, nz)))
    ]
    result table (return (ok n)) h = elim h [ ]
    result table (return (err e)) h = (err e, refl, λ k. h k.1)
