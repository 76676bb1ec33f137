-- ===== src/Image/Checks.antt =====
-- crates/kernel-image/src/lib.rs: the loops over the segments of an image.
pub mod Walk
pub mod Segments
pub mod Entry
pub mod Ranges
pub mod Overlap
mod Tests
use paranuk_os.Base.{
  ℕ, zero, suc, ◌+◌, ◌*◌, min, max, Bool, true, false, not, ◌&&◌, ◌||◌, Option, none, some, List,
  [], ◌∷◌, ◌++◌, Result, ok, err, ◌>>=◌, add_word, ltb, leb, ◌==◌, if◌then◌else◌, length,
}
use paranuk_os.Image.{
  Segment, page_range, is_executable, SegmentError, bad_program_headers, filesz_larger_than_memsz,
  data_out_of_bounds, address_overflow, empty_segment, overlapping_segments, entry_not_executable,
  SegmentIter, next, segments,
}

-- What one round of a loop does: it goes on with the variables of the loop, or it returns.
pub data Flow (S R : Type 0) : Type 0 where
  go : S → Flow S R
  return : Result SegmentError R → Flow S R

-- The `?` on the item, and the body.
item :
    {S R : Type 0} → Result SegmentError Segment → (Segment → Option (Flow S R)) → Option (Flow S R)
item (err e) body = some (return (err e))
item (ok segment) body = body segment

-- `for segment in iter`, with `let segment = segment?` in front of the body. `none` for fuel that
-- runs out too.
pub for_each :
    {S R : Type 0}
    → ℕ
    → List ℕ
    → SegmentIter
    → S
    → (S → Segment → Option (Flow S R))
    → Option (Flow S R)
unfolding item
for_each zero image it s body = none
for_each (suc fuel) image it s body = do
  (rest, found) ← next image it
  elim found [
    | none ↦ some (go s)
    | some segment ↦ do
      flow ← item segment (body s)
      elim flow [ go t ↦ for_each fuel image rest t body | return r ↦ some (return r) ]
  ]

-- A function whose body is such a loop over all segments, and what follows the loop.
pub over_segments :
    {S R : Type 0}
    → List ℕ
    → S
    → (S → Segment → Option (Flow S R))
    → (S → Result SegmentError R)
    → Option (Result SegmentError R)
over_segments image s body after = do
  it ← segments image
  elim it [
    | err e ↦ some (err e)
    | ok it ↦ do
      flow ← for_each (suc it.remaining) image it s body
      some (elim flow [ go t ↦ after t | return r ↦ r ])
  ]

-- `checked_add(…).ok_or(AddressOverflow)?`
checked : {S R : Type 0} → ℕ → ℕ → (ℕ → Option (Flow S R)) → Option (Flow S R)
checked a b rest = elim (add_word a b) [
  | none ↦ some (return (err address_overflow))
  | some n ↦ rest n
]

pub check_body : List ℕ → ℕ → Segment → Option (Flow ℕ ℕ)
unfolding checked
check_body image count segment =
    if segment.memsz == 0
    then some (return (err empty_segment))
    else if ltb segment.memsz segment.filesz
    then some (return (err filesz_larger_than_memsz))
    else checked segment.offset segment.filesz (λ file_end.
      if ltb (length image) file_end
      then some (return (err data_out_of_bounds))
      else checked segment.paddr segment.memsz (λ _. some (go (suc count))))

pub check_segments : List ℕ → Option (Result SegmentError ℕ)
check_segments image =
    over_segments image 0 (check_body image)
      (λ count. if count == 0 then err bad_program_headers else ok count)

-- The inner loop of `check_no_overlap`.
pub meets : List (ℕ × ℕ) → ℕ → ℕ → Bool
meets [] start end = false
meets ((other_start, other_end) ∷ ranges) start end =
    (ltb start other_end && ltb other_start end) || meets ranges start end

-- The variable of the loop is the part of the array that is filled.
pub overlap_body : List (ℕ × ℕ) → Segment → Option (Flow (List (ℕ × ℕ)) (Unit {0}))
unfolding checked meets
overlap_body ranges segment = checked segment.paddr segment.memsz (λ end.
    if meets ranges segment.paddr end
    then some (return (err overlapping_segments))
    else if length ranges == 16
    then some (return (err bad_program_headers))
    else some (go (ranges ++ (segment.paddr, end) ∷ [])))

pub check_no_overlap : List ℕ → Option (Result SegmentError (Unit {0}))
check_no_overlap image = over_segments image [] overlap_body (λ _. ok tt)

pub entry_body : ℕ → Unit {0} → Segment → Option (Flow (Unit {0}) (Unit {0}))
unfolding checked
entry_body entry _ segment = checked segment.vaddr segment.memsz (λ end.
    if is_executable segment && (leb segment.vaddr entry && ltb entry end)
    then some (return (ok tt))
    else some (go tt))

pub check_entry : List ℕ → ℕ → Option (Result SegmentError (Unit {0}))
check_entry image entry = over_segments image tt (entry_body entry) (λ _. err entry_not_executable)

pub span_body : Option (ℕ × ℕ) → Segment → Option (Flow (Option (ℕ × ℕ)) (ℕ × ℕ))
span_body span segment = do
  (start, end) ← page_range segment
  some (
      go (elim span [ none ↦ some (start, end) | some (lo, hi) ↦ some (min lo start, max hi end) ]))

spanned : Option (ℕ × ℕ) → Result SegmentError (ℕ × ℕ)
spanned none = err bad_program_headers
spanned (some span) = ok span

pub loaded_span : List ℕ → Option (Result SegmentError (ℕ × ℕ))
unfolding spanned
loaded_span image = over_segments image none span_body spanned
