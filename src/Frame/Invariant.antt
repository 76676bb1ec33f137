-- ===== src/Frame/Invariant.antt =====
-- crates/kernel-memory/src/frame.rs: the invariant of the allocator, and `mark_used`, `free` and
-- `mark_available` on the table of free frames that the two bitmaps stand for.
use paranuk_os.Base.{
  ℕ, zero, suc, ◌+◌, ◌-◌, ◌*◌, ◌≤◌, ◌<◌, ◌≡◌, Bool, true, false, not, ◌&&◌, some, arith, ◌==◌,
  if◌then◌else◌, length,
}
use paranuk_os.MemoryMap.{page_size}
use paranuk_os.Frame.{FrameAllocator, is_reserved, is_free, mark_used}
use paranuk_os.Frame.Bitmap.{
  bit_at, IsBytes, written, set_bit-written, bit-bit_at, length-written, written-IsBytes,
  bit_at-written, count_below, count_below-change,
}

-- Frame `i` can be handed out, is handed out, is free.
abbrev pub owned : FrameAllocator → ℕ → Bool
owned a = bit_at a.allocatable

abbrev pub taken : FrameAllocator → ℕ → Bool
taken a = bit_at a.used

abbrev pub unused : FrameAllocator → ℕ → Bool
unused a i = owned a i && not (taken a i)

pub record IsValid (a : FrameAllocator) : Type 0 where
  pub allocatable_len : a.frames ≤ 8 * length a.allocatable
  pub used_len : a.frames ≤ 8 * length a.used
  pub allocatable_bytes : IsBytes a.allocatable
  pub used_bytes : IsBytes a.used
  -- The counter agrees with the bitmaps.
  pub counted : a.free_frames ≡ count_below (unused a) a.frames
  -- No frame that can be handed out lies in a reserved range.
  pub apart :
      (i : ℕ)
      → i < a.frames
      → owned a i ≡ true
      → is_reserved a ((a.first_frame + i) * page_size) ≡ false

pub is_free-unused :
    (a : FrameAllocator) (i : ℕ) → IsValid a → i < a.frames → is_free a i ≡ some (unused a i)
unfolding is_free
is_free-unused a i v lt = ground (
  arith,
  bit-bit_at a.allocatable i (omega (arith, v.allocatable_len)),
  bit-bit_at a.used i (omega (arith, v.used_len)),
)

-- The allocator after one bit of `used` and the counter change.
abbrev pub with_used : FrameAllocator → ℕ → Bool → ℕ → FrameAllocator
with_used a i v n = record a { used = written a.used i v; free_frames = n }

pub unused-with_used :
    (a : FrameAllocator) (i j n : ℕ) (x : Bool)
    → IsValid a
    → i < a.frames
    → unused (with_used a i x n) j ≡ (if i == j then owned a j && not x else unused a j)
unused-with_used a i j n x v lt =
    ground (arith, bit_at-written a.used i j x v.used_bytes (omega (arith, v.used_len)))

pub with_used-IsValid :
    (a : FrameAllocator) (i n : ℕ) (x : Bool)
    → IsValid a
    → i < a.frames
    → owned a i ≡ true
    → n + (if unused a i then 1 else 0) ≡ a.free_frames + (if x then 0 else 1)
    → IsValid (with_used a i x n)
with_used-IsValid a i n x v lt own e = record {
  allocatable_len = v.allocatable_len;
  used_len = omega (arith, v.used_len, length-written a.used i x);
  allocatable_bytes = v.allocatable_bytes;
  used_bytes = written-IsBytes a.used i x v.used_bytes;
  apart = v.apart;
  counted = ground (
    arith,
    v.counted,
    unused-with_used a i i n x v lt,
    count_below-change (unused a) (unused (with_used a i x n)) i a.frames
        (λ j ne. ground (arith, unused-with_used a i j n x v lt)) lt,
  );
}

count_below-pos : (f : ℕ → Bool) (i n : ℕ) → f i ≡ true → i < n → 0 < count_below f n
count_below-pos f i zero h lt = absurd (omega arith)
count_below-pos f i (suc n) h lt = ground (arith, count_below-pos f i n h)

-- The allocator after a free frame is handed out.
abbrev pub marked : FrameAllocator → ℕ → FrameAllocator
marked a i = with_used a i true (a.free_frames - 1)

pub mark_used-marked :
    (a : FrameAllocator) (i : ℕ)
    → IsValid a
    → i < a.frames
    → unused a i ≡ true
    → mark_used a i ≡ some (marked a i)
unfolding mark_used
mark_used-marked a i v lt h = ground (
  arith,
  set_bit-written a.used i true (omega (arith, v.used_len)),
  v.counted,
  count_below-pos (unused a) i a.frames h lt,
)

pub marked-IsValid :
    (a : FrameAllocator) (i : ℕ)
    → IsValid a
    → i < a.frames
    → unused a i ≡ true
    → IsValid (marked a i)
marked-IsValid a i v lt h =
    with_used-IsValid a i (a.free_frames - 1) true v lt (ground arith)
      (ground (arith, v.counted, count_below-pos (unused a) i a.frames h lt))

pub free_frames-pos :
    (a : FrameAllocator) (i : ℕ) → IsValid a → i < a.frames → unused a i ≡ true → 0 < a.free_frames
free_frames-pos a i v lt h = omega (arith, v.counted, count_below-pos (unused a) i a.frames h lt)
