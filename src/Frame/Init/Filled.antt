-- ===== src/Frame/Init/Filled.antt =====
-- crates/kernel-memory/src/frame.rs: the allocator that the loops of `init` make.
use native.Mathlib.Decide.{ℕ_discrete}
use paranuk_os.Base.{
  ℕ, zero, suc, ◌+◌, ◌-◌, ◌*◌, ◌/◌, ◌%◌, ◌≤◌, ◌<◌, ◌≡◌, refl, ap, ◌∙◌, sym, Bool, true, false, not,
  ◌&&◌, List, [], ◌∷◌, ◌++◌, arith, length, take, drop, replicate, All, length-append,
  length-replicate, take-append, get_or-append_left, get_or-replicate_lt, test_bit_ends, test_bit,
}
use paranuk_os.MemoryMap.{page_size, Region}
use paranuk_os.Frame.{
  FrameAllocator, is_reserved, any, ReservedRange, div_ceil, max_reserved_ranges, no_range,
}
use paranuk_os.Frame.Bitmap.{IsBytes, replicate-IsBytes, count_below, count_below-ext}
use paranuk_os.Frame.Invariant.{owned, taken, unused, IsValid}
use paranuk_os.Frame.Free.{address_of}
use paranuk_os.Frame.Init.{blank}
use paranuk_os.Frame.Init.Marks.{IsBuilding}
use paranuk_os.Frame.Init.Regions.{inside_any, IsFilled}

append-IsBytes : (xs ys : List ℕ) → IsBytes xs → IsBytes ys → IsBytes (xs ++ ys)
append-IsBytes [] ys h k = k
append-IsBytes (x ∷ xs) ys h k = (h.0, append-IsBytes xs ys h.1 k)

drop-IsBytes : (n : ℕ) (xs : List ℕ) → IsBytes xs → IsBytes (drop n xs)
drop-IsBytes zero xs h = h
drop-IsBytes (suc n) [] h = tt
drop-IsBytes (suc n) (x ∷ xs) h = drop-IsBytes n xs h.1

count_below-none : (f : ℕ → Bool) (n : ℕ) → ((j : ℕ) → j < n → f j ≡ false) → count_below f n ≡ 0
count_below-none f zero h = refl
count_below-none f (suc n) h =
    ground (arith, h n (omega arith), count_below-none f n (λ j l. h j (omega arith)))

none-count_below : (f : ℕ → Bool) (n j : ℕ) → count_below f n ≡ 0 → j < n → f j ≡ false
none-count_below f zero j h l = absurd (omega arith)
none-count_below f (suc n) j h l = elim (ℕ_discrete j n) [
  | yes e ↦ ap f e ∙ ground arith
  | no ne ↦ none-count_below f n j (ground arith) (omega arith)
]

module _ (bitmap : List ℕ) (ranges : List ReservedRange) (first_frame frames : ℕ)
    (bytes : IsBytes bitmap) where
  unfoldable pub start : FrameAllocator
  start = blank bitmap ranges first_frame frames

  pub owned-start : (j : ℕ) → j < frames → owned start j ≡ false
  unfolding start
  owned-start j l =
      ap (λ b. test_bit b (j % 8))
        (get_or-replicate_lt (div_ceil frames 8) (j / 8) 0 0 (omega arith))
      ∙ (test_bit_ends (j % 8) (omega arith)).0

  taken-start : (j : ℕ) → j < frames → taken start j ≡ true
  unfolding start
  taken-start j l =
      ap (λ b. test_bit b (j % 8))
        (get_or-append_left (replicate (div_ceil frames 8) 255)
            (drop (2 * div_ceil frames 8) bitmap) (j / 8) 0
            (omega (arith, length-replicate {A = ℕ} (div_ceil frames 8) 255))
          ∙ get_or-replicate_lt (div_ceil frames 8) (j / 8) 255 0 (omega arith))
      ∙ (test_bit_ends (j % 8) (omega arith)).1

  pub start-IsBuilding : IsBuilding start
  unfolding start
  start-IsBuilding = record {
    allocatable_len = omega (arith, length-replicate {A = ℕ} (div_ceil frames 8) 0);
    used_len = omega (
      arith,
      length-append (replicate (div_ceil frames 8) 255) (drop (2 * div_ceil frames 8) bitmap),
      length-replicate {A = ℕ} (div_ceil frames 8) 255,
    );
    allocatable_bytes = replicate-IsBytes (div_ceil frames 8) 0 (omega arith);
    used_bytes =
        append-IsBytes (replicate (div_ceil frames 8) 255) (drop (2 * div_ceil frames 8) bitmap)
          (replicate-IsBytes (div_ceil frames 8) 255 (omega arith))
          (drop-IsBytes (2 * div_ceil frames 8) bitmap bytes);
    opposite = λ j l. ground (arith, owned-start j l, taken-start j l);
    counted = sym (count_below-none (owned start) frames owned-start);
  }

pub All-always : (P : Region → Type 0) (rs : List Region) → ((r : Region) → P r) → All P rs
All-always P [] h = tt
All-always P (r ∷ rs) h = (h r, All-always P rs h)

-- Address `address` may be handed out: a conventional region holds it, and no reserved range meets
-- its frame.
abbrev pub is_usable : List Region → List ReservedRange → ℕ → Bool
is_usable rs ranges address =
    inside_any rs address && not (any ranges address (address + page_size))

-- What the loops make of the allocator that `init` starts from.
module _ (bitmap : List ℕ) (ranges : List ReservedRange) (first_frame frames : ℕ)
    (bytes : IsBytes bitmap) (rs : List Region) (b : FrameAllocator)
    (f : IsFilled (start bitmap ranges first_frame frames bytes) rs b) where
  usable-eq : (j : ℕ) → j < frames → owned b j ≡ is_usable rs ranges ((first_frame + j) * page_size)
  unfolding start
  usable-eq j l =
      f.table j l
      ∙ ground (
        arith,
        owned-start bitmap ranges first_frame frames bytes j l,
        ap
            (λ (x : List ReservedRange).
              any x ((first_frame + j) * page_size) ((first_frame + j) * page_size + page_size))
            (take-append ranges (replicate (max_reserved_ranges - length ranges) no_range)),
      )

  reserved-eq : (address : ℕ) → is_reserved b address ≡ any ranges address (address + page_size)
  unfolding start
  reserved-eq address =
      (λ i.
        any (take (f.same.same_reserved_len i) (f.same.same_reserved i)) address
          (address + page_size))
      ∙ ap (λ (x : List ReservedRange). any x address (address + page_size))
          (take-append ranges (replicate (max_reserved_ranges - length ranges) no_range))

  unused-owned : (j : ℕ) → j < b.frames → unused b j ≡ owned b j
  unused-owned j l = ground (arith, f.building.opposite j l)

  pub filled-IsValid : IsValid b
  unfolding start
  filled-IsValid = record {
    allocatable_len = f.building.allocatable_len;
    used_len = f.building.used_len;
    allocatable_bytes = f.building.allocatable_bytes;
    used_bytes = f.building.used_bytes;
    counted = f.building.counted ∙ sym (count_below-ext (unused b) (owned b) b.frames unused-owned);
    apart = λ i l own.
        let l' : i < frames = omega (arith, f.same.same_frames) in
        let at : address_of b i ≡ (first_frame + i) * page_size =
          ap (λ n. (n + i) * page_size) f.same.same_first in
        reserved-eq (address_of b i)
        ∙ ap (λ n. any ranges n (n + page_size)) at
        ∙ ground (arith, own, usable-eq i l');
  }

  pub filled-usable : (j : ℕ) → j < b.frames → unused b j ≡ is_usable rs ranges (address_of b j)
  unfolding start
  filled-usable j l =
      unused-owned j l
      ∙ usable-eq j (omega (arith, f.same.same_frames))
      ∙ ap (λ n. is_usable rs ranges ((n + j) * page_size)) (sym f.same.same_first)

  pub filled-none :
      b.free_frames ≡ 0
      → (j : ℕ) → first_frame ≤ j
      → j < first_frame + frames
      → is_usable rs ranges (j * page_size) ≡ false
  unfolding start
  filled-none e j l m =
      let at : first_frame + (j - first_frame) ≡ j = omega arith in
      ap (λ n. is_usable rs ranges (n * page_size)) (sym at)
      ∙ sym (usable-eq (j - first_frame) (omega arith))
      ∙ none-count_below (owned b) b.frames (j - first_frame) (sym f.building.counted ∙ e)
          (omega (arith, f.same.same_frames))
