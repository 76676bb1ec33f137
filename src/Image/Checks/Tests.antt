-- ===== src/Image/Checks/Tests.antt =====
-- Runs of the image checks on a small image.
use paranuk_os.Base.{ℕ, ◌≡◌, refl, List, ◌∷◌, ◌++◌, replicate, some, arith, Result, to_le, ok}
use paranuk_os.Image.{
  ImageError, SegmentError, validate, segments, next, next_from, header_at, segment_of, read_le,
}
use paranuk_os.Image.Validate.{IsValidated, validate_lem}
use paranuk_os.Image.Checks.{check_segments, over_segments, for_each, item, check_body, checked}
use paranuk_os.Image.Checks.Segments.{IsChecked, check_segments_lem}
use paranuk_os.Image.Checks.Entry.{IsEntryChecked, check_entry_lem}
use paranuk_os.Image.Checks.{check_entry}
use paranuk_os.Image.Checks.Overlap.{IsOverlapChecked, check_no_overlap_lem}
use paranuk_os.Image.Checks.{check_no_overlap}

-- A file header with one program header behind it: a segment at 2 MiB of 120 bytes in the file and
-- 200 in memory.
abbrev image : List ℕ
image =
    127 ∷ 69 ∷ 76 ∷ 70 ∷ 2 ∷ 1 ∷ replicate 10 0
    ++ (2 ∷ 0 ∷ 62 ∷ 0 ∷ 1 ∷ 0 ∷ 0 ∷ 0 ∷ to_le 8 2097152)
    ++ (to_le 8 64 ++ to_le 8 0)
    ++ (0 ∷ 0 ∷ 0 ∷ 0 ∷ 64 ∷ 0 ∷ 56 ∷ 0 ∷ to_le 8 1)
    ++ (1 ∷ 0 ∷ 0 ∷ 0 ∷ 5 ∷ 0 ∷ 0 ∷ 0 ∷ to_le 8 0)
    ++ (to_le 8 2097152 ++ to_le 8 2097152)
    ++ (to_le 8 120 ++ (to_le 8 200 ++ to_le 8 4096))

validate_lem_example : (r : Result ImageError ℕ) × (validate image ≡ some r) × IsValidated image r
validate_lem_example = validate_lem image

check_segments-image : check_segments image ≡ some (ok 1)
unfolding check_segments over_segments segments for_each item next next_from header_at segment_of
    read_le check_body checked
check_segments-image = refl

check_segments_lem_example :
    (r : Result SegmentError ℕ) × (check_segments image ≡ some r) × IsChecked image r
check_segments_lem_example = check_segments_lem image (omega arith)

check_entry_lem_example :
    (r : Result SegmentError (Unit {0})) × (check_entry image 2097152 ≡ some r)
    × IsEntryChecked image 2097152 r
check_entry_lem_example = check_entry_lem image 2097152 (omega arith)

check_no_overlap_lem_example :
    (r : Result SegmentError (Unit {0})) × (check_no_overlap image ≡ some r)
    × IsOverlapChecked image r
check_no_overlap_lem_example = check_no_overlap_lem image (omega arith)
