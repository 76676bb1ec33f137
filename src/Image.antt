-- ===== src/Image.antt =====
-- crates/kernel-image/src/lib.rs: the checks of an ELF image and of its program headers.
-- An image is a list of bytes; `none` is a panic: an index out of range, or a sum of 64-bit numbers
-- that overflows under overflow checks. The index of a program header and the number of headers left
-- are of 16 bits; their sum is the number of headers, so neither wraps.
pub mod Validate
pub mod Checks
pub mod Headers
use paranuk_os.Base.{
  ℕ, zero, suc, ◌+◌, ◌-◌, ◌*◌, ◌/◌, ◌%◌, min, max, Bool, true, false, not, ◌&&◌, ◌||◌, Option, none,
  some, List, [], ◌∷◌, Result, ok, err, ◌>>=◌, add_word, mul_word, word, ltb, leb, ◌==◌,
  if◌then◌else◌, length, slice?, from_le, get_elem?, test_bit,
}

abbrev pub elf_header_min_len : ℕ
elf_header_min_len = 64

abbrev pub elf_magic : List ℕ
elf_magic = 127 ∷ 69 ∷ 76 ∷ 70 ∷ []

pub data ImageError : Type 0 where
  too_small : ℕ → ImageError
  not_elf not_elf64 not_little_endian : ImageError
  not_executable unsupported_machine : ℕ → ImageError

-- The `n` bytes at an offset, as a number: `read_u16`, `read_u32`, `read_u64`.
unfoldable pub read_le : ℕ → List ℕ → ℕ → Option ℕ
read_le n bytes offset = do field ← slice? bytes offset n; some (from_le field)

abbrev pub read_u16 : List ℕ → ℕ → Option ℕ
read_u16 = read_le 2

abbrev pub read_u32 : List ℕ → ℕ → Option ℕ
read_u32 = read_le 4

abbrev pub read_u64 : List ℕ → ℕ → Option ℕ
read_u64 = read_le 8

-- Equality of byte strings.
same_bytes : List ℕ → List ℕ → Bool
same_bytes [] [] = true
same_bytes [] (y ∷ ys) = false
same_bytes (x ∷ xs) [] = false
same_bytes (x ∷ xs) (y ∷ ys) = (x == y) && same_bytes xs ys

pub validate : List ℕ → Option (Result ImageError ℕ)
unfolding same_bytes
validate image =
    if ltb (length image) elf_header_min_len then some (err (too_small (length image))) else do
      magic ← slice? image 0 4
      if not (same_bytes magic elf_magic) then some (err not_elf) else do
        class ← get_elem? image 4
        if not (class == 2) then some (err not_elf64) else do
          encoding ← get_elem? image 5
          if not (encoding == 1) then some (err not_little_endian) else do
            e_type ← read_u16 image 16
            if not (e_type == 2) then some (err (not_executable e_type)) else do
              e_machine ← read_u16 image 18
              if not (e_machine == 62)
                  then some (err (unsupported_machine e_machine))
                  else do entry ← read_u64 image 24; some (ok entry)

abbrev pub page_size : ℕ
page_size = 4096

abbrev pub phdr_len : ℕ
phdr_len = 56

pub record Segment : Type 0 where
  pub offset : ℕ
  pub paddr : ℕ
  pub vaddr : ℕ
  pub filesz : ℕ
  pub memsz : ℕ
  pub flags : ℕ

-- `paddr & !(PAGE_SIZE - 1)`, and the end rounded up to a page.
pub page_range : Segment → Option (ℕ × ℕ)
page_range s = do
  bytes_end ← add_word s.paddr s.memsz
  finish ← mul_word ((bytes_end + (page_size - 1)) / page_size) page_size
  some (s.paddr - s.paddr % page_size, finish)

abbrev pub is_executable : Segment → Bool
is_executable s = test_bit s.flags 0

pub data SegmentError : Type 0 where
  bad_program_headers filesz_larger_than_memsz data_out_of_bounds address_overflow empty_segment
        overlapping_segments entry_not_executable :
      SegmentError

-- `SegmentIter`; the image stands beside it.
pub record SegmentIter : Type 0 where
  pub table_offset : ℕ
  pub entry_size : ℕ
  pub remaining : ℕ
  pub index : ℕ

-- What the body of the loop of `next` makes of one program header: the iteration ends, the header
-- lies out of the file, it is not to be loaded, or it is a segment.
pub data Header : Type 0 where
  ended outside skipped : Header
  loaded : Segment → Header

-- The segment that the bytes of one program header describe.
pub segment_of : List ℕ → Option Segment
segment_of bytes = do
  offset ← read_u64 bytes 8
  paddr ← read_u64 bytes 24
  vaddr ← read_u64 bytes 16
  filesz ← read_u64 bytes 32
  memsz ← read_u64 bytes 40
  flags ← read_u32 bytes 4
  some (record {
    offset = offset;
    paddr = paddr;
    vaddr = vaddr;
    filesz = filesz;
    memsz = memsz;
    flags = flags;
  })

pub header_at : List ℕ → ℕ → Option Header
header_at image entry = elim (add_word entry phdr_len) [
  | none ↦ some ended
  | some end ↦ if ltb (length image) end then some outside else do
    bytes ← slice? image entry phdr_len
    p_type ← read_u32 bytes 0
    if not (p_type == 1) then some skipped else do segment ← segment_of bytes; some (loaded segment)
]

abbrev iter_at : ℕ → ℕ → ℕ → ℕ → SegmentIter
iter_at table_offset entry_size remaining index = record {
  table_offset = table_offset;
  entry_size = entry_size;
  remaining = remaining;
  index = index;
}

-- The loop of `next`: the offset of the table, the size of an entry, the number of headers left, and
-- the index.
pub next_from : List ℕ → ℕ → ℕ → ℕ → ℕ → Option (SegmentIter × Option (Result SegmentError Segment))
next_from image table size zero index = some (iter_at table size zero index, none)
next_from image table size (suc remaining) index =
    let rest = next_from image table size remaining (suc index) in
    let it = iter_at table size remaining (suc index) in
    do
      entry ← add_word table (index * size)
      header ← header_at image entry
      elim header [
        | ended ↦ some (it, none)
        | outside ↦ some (it, some (err bad_program_headers))
        | skipped ↦ rest
        | loaded segment ↦ some (it, some (ok segment))
      ]

pub next : List ℕ → SegmentIter → Option (SegmentIter × Option (Result SegmentError Segment))
next image it = next_from image it.table_offset it.entry_size it.remaining it.index

pub segments : List ℕ → Option (Result SegmentError SegmentIter)
segments image =
    if ltb (length image) elf_header_min_len then some (err bad_program_headers) else do
      table ← read_u64 image 32
      size ← read_u16 image 54
      count ← read_u16 image 56
      some (
          if (count == 0) || ltb size phdr_len
          then err bad_program_headers
          else ok (iter_at table size count 0))
