-- ===== src/Frame/Init/Marks.antt =====
-- crates/kernel-memory/src/frame.rs: what the two loops of `init` mark.
use native.Mathlib.Decide.{dec_lt, ℕ_discrete}
use paranuk_os.Base.{
  ℕ, zero, suc, ◌+◌, ◌-◌, ◌*◌, ◌≤◌, ◌<◌, ◌≡◌, inl, inr, refl, ap, ◌∙◌, Bool, true, false, not, ◌&&◌,
  ◌||◌, some, arith, ltb, leb, ◌==◌, if◌then◌else◌, Bool-cases, length,
}
use paranuk_os.MemoryMap.{page_size}
use paranuk_os.Frame.{FrameAllocator, frame_index, is_reserved, mark_available}
use paranuk_os.Frame.Init.{mark_range}
use paranuk_os.Frame.Bitmap.{
  IsBytes, set_bit-written, bit_at-written, length-written, written-IsBytes, written, count_below,
  count_below-change,
}
use paranuk_os.Frame.Invariant.{owned, taken}
use paranuk_os.Frame.Free.{address_of}

-- The allocator while `init` builds it: a frame that can be handed out is free.
pub record IsBuilding (a : FrameAllocator) : Type 0 where
  pub allocatable_len : a.frames ≤ 8 * length a.allocatable
  pub used_len : a.frames ≤ 8 * length a.used
  pub allocatable_bytes : IsBytes a.allocatable
  pub used_bytes : IsBytes a.used
  pub opposite : (j : ℕ) → j < a.frames → taken a j ≡ not (owned a j)
  pub counted : a.free_frames ≡ count_below (owned a) a.frames

pub record IsSameRange (a b : FrameAllocator) : Type 0 where
  pub same_first : b.first_frame ≡ a.first_frame
  pub same_frames : b.frames ≡ a.frames
  pub same_reserved : b.reserved ≡ a.reserved
  pub same_reserved_len : b.reserved_len ≡ a.reserved_len

abbrev offered : FrameAllocator → ℕ → FrameAllocator
offered a i = record a {
  allocatable = written a.allocatable i true;
  used = written a.used i false;
  free_frames = a.free_frames + 1;
}

module _ (a : FrameAllocator) (i : ℕ) (v : IsBuilding a) (lt : i < a.frames) where
  mark_available-offered : mark_available a (address_of a i) ≡ some (offered a i)
  unfolding mark_available
  mark_available-offered =
      let e : frame_index a (address_of a i) ≡ some i = ground arith in
      rw (e, mark_available)
        (ground (
          arith,
          set_bit-written a.allocatable i true (omega (arith, v.allocatable_len)),
          set_bit-written a.used i false (omega (arith, v.used_len)),
        ))

  owned-offered : (j : ℕ) → owned (offered a i) j ≡ (if i == j then true else owned a j)
  owned-offered j =
      bit_at-written a.allocatable i j true v.allocatable_bytes (omega (arith, v.allocatable_len))

  offered-IsBuilding : owned a i ≡ false → IsBuilding (offered a i)
  offered-IsBuilding fresh = record {
    allocatable_len = omega (arith, v.allocatable_len, length-written a.allocatable i true);
    used_len = omega (arith, v.used_len, length-written a.used i false);
    allocatable_bytes = written-IsBytes a.allocatable i true v.allocatable_bytes;
    used_bytes = written-IsBytes a.used i false v.used_bytes;
    opposite = λ j l. ground (
      arith,
      v.opposite j l,
      owned-offered j,
      bit_at-written a.used i j false v.used_bytes (omega (arith, v.used_len)),
    );
    counted = ground (
      arith,
      v.counted,
      fresh,
      owned-offered i,
      count_below-change (owned a) (owned (offered a i)) i a.frames
          (λ j ne. ground (arith, owned-offered j)) lt,
    );
  }

-- What the inner loop adds, from frame `i` on, below `finish`.
abbrev pub added : FrameAllocator → ℕ → ℕ → ℕ → Bool
added a i finish j =
    leb i j && (ltb (address_of a j) finish && not (is_reserved a (address_of a j)))

-- `b` is what the inner loop makes of `a`.
pub record IsExtended (a : FrameAllocator) (i finish : ℕ) (b : FrameAllocator) : Type 0 where
  pub building : IsBuilding b
  pub same : IsSameRange a b
  pub table : (j : ℕ) → j < a.frames → owned b j ≡ (owned a j || added a i finish j)

next_address : (a : FrameAllocator) (i : ℕ) → address_of a i + page_size ≡ address_of a (suc i)
next_address a i = omega arith

added-reserved :
    (a : FrameAllocator) (i finish j : ℕ)
    → is_reserved a (address_of a i) ≡ true
    → (owned a j || added a (suc i) finish j) ≡ (owned a j || added a i finish j)
added-reserved a i finish j r = elim (ℕ_discrete i j) [
  | yes e ↦ ground (arith, ap (λ k. is_reserved a (address_of a k)) e)
  | no ne ↦ ground arith
]

added-free :
    (a : FrameAllocator) (i finish j : ℕ)
    → is_reserved a (address_of a i) ≡ false
    → address_of a i < finish
    → ((if i == j then true else owned a j) || added a (suc i) finish j)
      ≡ (owned a j || added a i finish j)
added-free a i finish j r lt = elim (ℕ_discrete i j) [
  | yes e ↦ ground (arith, ap (λ k. is_reserved a (address_of a k)) e)
  | no ne ↦ ground arith
]

pub mark_range_lem :
    (fuel : ℕ) (a : FrameAllocator) (i finish : ℕ)
    → IsBuilding a
    → finish ≤ (a.first_frame + a.frames) * page_size
    → finish - address_of a i < fuel
    → ((j : ℕ) → j < a.frames → i ≤ j → address_of a j < finish → owned a j ≡ false)
    → (b : FrameAllocator) × (mark_range fuel a (address_of a i) finish ≡ some b)
      × IsExtended a i finish b
unfolding mark_range
mark_range_lem zero a i finish v le f fresh = absurd (omega arith)
mark_range_lem (suc fuel) a i finish v le f fresh = elim (dec_lt (address_of a i) finish) [
  | no ge ↦ (
    a,
    ground arith,
    record {
      building = v;
      same = record {
        same_first = refl;
        same_frames = refl;
        same_reserved = refl;
        same_reserved_len = refl;
      };
      table = λ j l. ground arith;
    },
  )
  | yes lt ↦
      let in_range : i < a.frames = omega arith in
      elim (Bool-cases (is_reserved a (address_of a i))) [
        | inl r ↦
            let (b, g, x) =
              mark_range_lem fuel a (suc i) finish v le (omega arith)
                (λ j l m n. fresh j l (omega arith) n) in
            (
              b,
              ground (arith, r, ap (λ n. mark_range fuel a n finish) (next_address a i) ∙ g),
              record {
                building = x.building;
                same = x.same;
                table = λ j l. x.table j l ∙ added-reserved a i finish j r;
              },
            )
        | inr r ↦
            let o = offered-IsBuilding a i v in_range (fresh i in_range (omega arith) lt) in
            let (b, g, x) =
              mark_range_lem fuel (offered a i) (suc i) finish o le (omega arith) (λ j l m n.
                ground (arith, owned-offered a i v in_range j, fresh j l (omega arith) n)) in
            (
              b,
              ground (
                arith,
                r,
                mark_available-offered a i v in_range,
                ap (λ n. mark_range fuel (offered a i) n finish) (next_address a i) ∙ g,
              ),
              record {
                building = x.building;
                same = record {
                  same_first = x.same.same_first;
                  same_frames = x.same.same_frames;
                  same_reserved = x.same.same_reserved;
                  same_reserved_len = x.same.same_reserved_len;
                };
                table = λ j l. ground (
                  arith,
                  x.table j l,
                  owned-offered a i v in_range j,
                  added-free a i finish j r lt,
                );
              },
            )
      ]
]
