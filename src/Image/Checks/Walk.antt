-- ===== src/Image/Checks/Walk.antt =====
-- crates/kernel-image/src/lib.rs: the loops over the segments as walks along the program headers.
use paranuk_os.Base.{
  ℕ, zero, suc, ◌+◌, ◌*◌, ◌≤◌, ◌<◌, ◌≡◌, refl, ap, ◌∙◌, false, Option, none, some, List, [], ◌∷◌,
  Result, ok, err, ◌>>=◌, add_word, word, ltb, ◌==◌, length, ◌||◌, ◌≢◌, ◌⊎◌, inl, inr, arith,
  Bool-cases,
}
use paranuk_os.Image.{
  Segment, SegmentError, bad_program_headers, segments, iter_at, Header, ended, outside, skipped,
  loaded, header_at, next_from, next,
}
use native.Mathlib.Decide.{dec_lt}
use paranuk_os.Image.Validate.{field, read_le-field}
use paranuk_os.Image.Checks.{Flow, go, return, item, for_each, over_segments}
use paranuk_os.Image.Headers.{header_of, headers, header_at-header_of}

-- A loop along the headers.
abbrev pub walk :
    {S R : Type 0} → List Header → S → (S → Segment → Option (Flow S R)) → Option (Flow S R)
walk [] s body = some (go s)
walk (ended ∷ hs) s body = some (go s)
walk (outside ∷ hs) s body = some (return (err bad_program_headers))
walk (skipped ∷ hs) s body = walk hs s body
walk (loaded segment ∷ hs) s body = do
  flow ← body s segment
  elim flow [ go t ↦ walk hs t body | return r ↦ some (return r) ]

module _ {S R : Type 0} (image : List ℕ) (table size : ℕ)
    (body : S → Segment → Option (Flow S R)) where
  -- What `next` makes of the next header.
  next_from-header :
      (n index : ℕ) (h : Header)
      → table + index * size < word
      → header_of image (table + index * size) ≡ h
      → next_from image table size (suc n) index ≡ elim h [
        | ended ↦ some (iter_at table size n (suc index), none)
        | outside ↦ some (iter_at table size n (suc index), some (err bad_program_headers))
        | skipped ↦ next_from image table size n (suc index)
        | loaded segment ↦ some (iter_at table size n (suc index), some (ok segment))
      ]
  unfolding next_from
  next_from-header n index h w e =
      let e1 : add_word table (index * size) ≡ some (table + index * size) = ground arith in
      let e2 : header_at image (table + index * size) ≡ some h =
        header_at-header_of image (table + index * size) ∙ ap some e in
      rw (e1, e2, next_from) refl

  same_flow :
      (fuel n index : ℕ) (hs : List Header)
      → ((t : S) → for_each fuel image (iter_at table size n index) t body ≡ walk hs t body)
      → (x : Option (Flow S R))
      → (x >>= λ flow. elim flow [
        | go t ↦ for_each fuel image (iter_at table size n index) t body
        | return r ↦ some (return r)
      ])
        ≡ (x >>= λ flow. elim flow [ go t ↦ walk hs t body | return r ↦ some (return r) ])
  same_flow fuel n index hs same none = refl
  same_flow fuel n index hs same (some (go t)) = same t
  same_flow fuel n index hs same (some (return r)) = refl

  -- One round of the loop.
  for_each-header :
      (n fuel index : ℕ) (s : S) (h : Header)
      → table + index * size < word
      → header_of image (table + index * size) ≡ h
      → for_each (suc fuel) image (iter_at table size n (suc index)) s body
        ≡ walk (headers image table size n (suc index)) s body
      → ((t : S)
          → for_each fuel image (iter_at table size n (suc index)) t body
            ≡ walk (headers image table size n (suc index)) t body)
      → for_each (suc fuel) image (iter_at table size (suc n) index) s body
        ≡ walk (h ∷ headers image table size n (suc index)) s body
  unfolding for_each next item
  for_each-header n fuel index s ended w e skip on =
      rw (next_from-header n index ended w e, for_each) refl
  for_each-header n fuel index s outside w e skip on =
      rw (next_from-header n index outside w e, for_each) refl
  for_each-header n fuel index s skipped w e skip on =
      rw (next_from-header n index skipped w e, for_each) skip
  for_each-header n fuel index s (loaded segment) w e skip on =
      rw (next_from-header n index (loaded segment) w e, for_each)
        (same_flow fuel n (suc index) (headers image table size n (suc index)) on (body s segment))

  -- With more fuel than headers, and no wrap, a loop is the walk along the headers.
  pub for_each_lem :
      (n fuel index : ℕ) (s : S)
      → n < fuel
      → table + (index + n) * size < word
      → for_each fuel image (iter_at table size n index) s body
        ≡ walk (headers image table size n index) s body
  unfolding for_each next next_from item
  for_each_lem zero zero index s lt w = absurd (omega arith)
  for_each_lem zero (suc fuel) index s lt w = refl
  for_each_lem (suc n) zero index s lt w = absurd (omega arith)
  for_each_lem (suc n) (suc fuel) index s lt w =
      for_each-header n fuel index s (header_of image (table + index * size)) (omega (arith, w))
        refl (for_each_lem n (suc fuel) (suc index) s (omega arith) (omega (arith, w)))
        (λ t. for_each_lem n fuel (suc index) t (omega arith) (omega (arith, w)))

-- The numbers of the table that the file header holds.
abbrev pub table_of : List ℕ → ℕ
table_of image = field image 32 8

abbrev pub size_of : List ℕ → ℕ
size_of image = field image 54 2

abbrev pub count_of : List ℕ → ℕ
count_of image = field image 56 2

abbrev pub all_headers : List ℕ → List Header
all_headers image = headers image (table_of image) (size_of image) (count_of image) 0

-- The file has a table of program headers.
abbrev pub HasTable : List ℕ → Type 0
HasTable image = (64 ≤ length image) × (count_of image ≢ 0) × (56 ≤ size_of image)

-- The end of the table is a 64-bit number.
abbrev pub IsUnwrapped : List ℕ → Type 0
IsUnwrapped image = table_of image + count_of image * size_of image < word

-- A function over all segments fails where there is no table, and is the walk along its headers
-- where there is one.
pub over_segments_lem :
    {S R : Type 0} (image : List ℕ) (s : S) (body : S → Segment → Option (Flow S R))
    (after : S → Result SegmentError R)
    → IsUnwrapped image
    → ((¬ HasTable image) × (over_segments image s body after ≡ some (err bad_program_headers)))
      ⊎ (HasTable image
          × (over_segments image s body after ≡ (
              walk (all_headers image) s body >>= λ flow.
              some (elim flow [ go t ↦ after t | return r ↦ r ]))))
unfolding over_segments segments
over_segments_lem image s body after w = elim (dec_lt (length image) 64) [
  | yes small ↦ inl (λ t. omega (arith, t.0), ground arith)
  | no big ↦
      let e1 = read_le-field 8 image 32 (omega arith) in
      let e2 = read_le-field 2 image 54 (omega arith) in
      let e3 = read_le-field 2 image 56 (omega arith) in
      let e0 : ltb (length image) 64 ≡ false = ground arith in
      elim (Bool-cases ((count_of image == 0) || ltb (size_of image) 56)) [
        | inl e ↦
            inl (
              λ t. ground (arith, e, t.1, t.2),
              rw (e0, e1, e2, e3, e, over_segments, segments) refl,
            )
        | inr e ↦ inr (
          (ground arith, ground (arith, e), ground (arith, e)),
          rw (e0, e1, e2, e3, e, over_segments, segments)
              (rw
                (for_each_lem image (table_of image) (size_of image) body (count_of image)
                  (suc (count_of image)) 0 s (omega arith) (omega (arith, w)))
                refl),
        )
      ]
]
