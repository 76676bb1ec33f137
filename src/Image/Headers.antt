-- ===== src/Image/Headers.antt =====
-- crates/kernel-image/src/lib.rs: the program headers of an image as a list.
use paranuk_os.Base.{
  ℕ, zero, suc, ◌+◌, ◌*◌, ◌≤◌, ◌<◌, ◌≡◌, refl, ◌∙◌, false, not, Option, some, List, [], ◌∷◌, ◌>>=◌,
  add_word, word, ltb, leb, ◌==◌, if◌then◌else◌, length, take, drop, slice?, arith, length-take,
  length-drop,
}
use paranuk_os.Image.{
  Segment, Header, ended, outside, skipped, loaded, segment_of, header_at, read_le,
}
use native.Mathlib.Decide.{dec_lt, dec_le}
use paranuk_os.Image.Validate.{field, read_le-field}

-- The segment that 56 bytes describe.
abbrev pub described : List ℕ → Segment
described bytes = record {
  offset = field bytes 8 8;
  paddr = field bytes 24 8;
  vaddr = field bytes 16 8;
  filesz = field bytes 32 8;
  memsz = field bytes 40 8;
  flags = field bytes 4 4;
}

-- The program header at an offset, without the reads that may panic.
unfoldable pub header_of : List ℕ → ℕ → Header
header_of image entry =
    let bytes = take 56 (drop entry image) in
    if leb word (entry + 56)
    then ended
    else if ltb (length image) (entry + 56)
    then outside
    else if field bytes 0 4 == 1
    then loaded (described bytes)
    else skipped

segment_of-described :
    (bytes : List ℕ) → length bytes ≡ 56 → segment_of bytes ≡ some (described bytes)
unfolding segment_of
segment_of-described bytes h = ground (
  arith,
  read_le-field 8 bytes 8 (omega arith),
  read_le-field 8 bytes 24 (omega arith),
  read_le-field 8 bytes 16 (omega arith),
  read_le-field 8 bytes 32 (omega arith),
  read_le-field 8 bytes 40 (omega arith),
  read_le-field 4 bytes 4 (omega arith),
)

-- What `header_at` does with the bytes of the header.
of_bytes : List ℕ → Option Header
of_bytes bytes = do
  p_type ← read_le 4 bytes 0
  if not (p_type == 1) then some skipped else do segment ← segment_of bytes; some (loaded segment)

of_bytes-described :
    (bytes : List ℕ)
    → length bytes ≡ 56
    → of_bytes bytes ≡ some (if field bytes 0 4 == 1 then loaded (described bytes) else skipped)
unfolding of_bytes
of_bytes-described bytes l =
    ground (arith, read_le-field 4 bytes 0 (omega (arith, l)), segment_of-described bytes l)

header_at-of_bytes :
    (image : List ℕ) (entry : ℕ)
    → entry + 56 ≤ length image
    → entry + 56 < word
    → header_at image entry ≡ of_bytes (take 56 (drop entry image))
unfolding header_at of_bytes
header_at-of_bytes image entry h w =
    let e1 : add_word entry 56 ≡ some (entry + 56) = ground arith in
    let e2 : ltb (length image) (entry + 56) ≡ false = ground arith in
    let e3 : slice? image entry 56 ≡ some (take 56 (drop entry image)) = ground arith in
    rw (e1, e2, e3, header_at) refl

pub header_at-header_of :
    (image : List ℕ) (entry : ℕ) → header_at image entry ≡ some (header_of image entry)
unfolding header_at header_of
header_at-header_of image entry = elim (dec_lt (entry + 56) word) [
  | no big ↦ ground arith
  | yes w ↦ elim (dec_le (entry + 56) (length image)) [
    | no out ↦ ground arith
    | yes h ↦
        let bytes = take 56 (drop entry image) in
        let l : length bytes ≡ 56 =
          length-take 56 (drop entry image) (omega (arith, length-drop entry image)) in
        let e1 : leb word (entry + 56) ≡ false = ground arith in
        let e2 : ltb (length image) (entry + 56) ≡ false = ground arith in
        header_at-of_bytes image entry h w
        ∙ of_bytes-described bytes l
        ∙ rw (e1, e2, header_of) refl
  ]
]

-- The headers from number `index` on, `n` of them.
abbrev pub headers : List ℕ → ℕ → ℕ → ℕ → ℕ → List Header
headers image table size zero index = []
headers image table size (suc n) index =
    header_of image (table + index * size) ∷ headers image table size n (suc index)
