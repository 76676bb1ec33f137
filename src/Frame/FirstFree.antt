-- ===== src/Frame/FirstFree.antt =====
-- crates/kernel-memory/src/frame.rs: `first_free_in`, with which the kernel's self check looks for a
-- free frame in a range that must not hold one.
use native.Mathlib.Decide.{dec_lt}
use paranuk_os.Base.{
  ℕ, zero, suc, ◌+◌, ◌-◌, ◌*◌, ◌/◌, ◌≤◌, ◌<◌, ◌≡◌, inl, inr, refl, ap, ◌∙◌, Bool, true, false,
  Option, some, none, List, [], ◌∷◌, arith, if◌then◌else◌, Bool-cases, Option-cases, get_elem?,
  ◌>>=◌,
}
use paranuk_os.MemoryMap.{page_size}
use paranuk_os.Frame.{
  FrameAllocator, PhysFrame, ReservedRange, any, overlaps, reserved_ranges, frame_index, is_free,
  div_ceil,
}
use paranuk_os.Frame.Invariant.{unused, IsValid, is_free-unused}
use paranuk_os.Frame.Free.{address_of, frame_index-address_of, frame_index-some}

-- The loop of `first_free_in` from `frame` on, `n` rounds.
pub first_free_from : FrameAllocator → ℕ → ℕ → Option (Option PhysFrame)
first_free_from a frame zero = some none
first_free_from a frame (suc n) =
    let rest = first_free_from a (suc frame) n in
    elim (frame_index a (frame * page_size)) [
      | none ↦ rest
      | some index ↦ do
        free ← is_free a index
        if free then some (some (record { address = frame * page_size })) else rest
    ]

pub first_free_in : FrameAllocator → ℕ → ℕ → Option (Option PhysFrame)
unfolding first_free_from
first_free_in a from to =
    first_free_from a (from / page_size) (div_ceil to page_size - from / page_size)

-- What the loop finds: the lowest free frame from number `frame` on, below number `last`.
abbrev IsFirstFree : FrameAllocator → ℕ → ℕ → Option PhysFrame → Type 0
IsFirstFree a frame last none =
    (i : ℕ)
    → i < a.frames
    → frame ≤ a.first_frame + i
    → a.first_frame + i < last
    → unused a i ≡ false
IsFirstFree a frame last (some f) =
    (i : ℕ) × (i < a.frames)
    × (frame ≤ a.first_frame + i)
    × (a.first_frame + i < last)
    × (f.address ≡ address_of a i)
    × (unused a i ≡ true)
    × ((j : ℕ) → j < i → frame ≤ a.first_frame + j → unused a j ≡ false)

IsFirstFree-skip :
    (a : FrameAllocator) (frame last : ℕ) (out : Option PhysFrame)
    → ((i : ℕ) → i < a.frames → a.first_frame + i ≡ frame → unused a i ≡ false)
    → IsFirstFree a (suc frame) last out
    → IsFirstFree a frame last out
IsFirstFree-skip a frame last none miss h = λ i l m k. elim (dec_lt frame (a.first_frame + i)) [
  | yes e ↦ h i l e k
  | no ne ↦ miss i l (omega arith)
]
IsFirstFree-skip a frame last (some f) miss (i, l, m, k, at, u, least) = (
  i,
  l,
  omega arith,
  k,
  at,
  u,
  λ j lt le. elim (dec_lt frame (a.first_frame + j)) [
    | yes e ↦ least j lt e
    | no ne ↦ miss j (omega arith) (omega arith)
  ],
)

first_free_from_lem :
    (a : FrameAllocator) (frame n last : ℕ)
    → IsValid a
    → frame + n ≡ last
    → (out : Option PhysFrame) × (first_free_from a frame n ≡ some out)
      × IsFirstFree a frame last out
unfolding first_free_from
first_free_from_lem a frame zero last v q = (none, refl, λ i l m k. absurd (omega arith))
first_free_from_lem a frame (suc n) last v q =
    let (out, g, h) = first_free_from_lem a (suc frame) n last v (omega arith) in
    elim (Option-cases (frame_index a (frame * page_size))) [
      | inl e ↦ (
        out,
        rw (first_free_from, e) g,
        IsFirstFree-skip a frame last out
            (λ i l m. absurd (
              ground (
                arith,
                e,
                frame_index-address_of a i l,
                ap (λ n. frame_index a (n * page_size)) m,
              )))
            h,
      )
      | inr (i, e) ↦
          let (lt, at) = frame_index-some a (frame * page_size) i e in
          elim (Bool-cases (unused a i)) [
            | inr u ↦ (
              out,
              rw (first_free_from, e) (ground (arith, is_free-unused a i v lt, u, g)),
              IsFirstFree-skip a frame last out (λ j l m. ap (unused a) (omega arith) ∙ u) h,
            )
            | inl u ↦ (
              some (record { address = frame * page_size }),
              rw (first_free_from, e) (ground (arith, is_free-unused a i v lt, u)),
              (i, lt, omega arith, omega arith, at, u, λ j l m. absurd (omega arith)),
            )
          ]
    ]

-- What `first_free_in` finds: the lowest free frame that meets `[from, to)`.
abbrev pub IsFirstIn : FrameAllocator → ℕ → ℕ → Option PhysFrame → Type 0
IsFirstIn a from to none =
    (i : ℕ)
    → i < a.frames
    → from < address_of a i + page_size
    → address_of a i < to
    → unused a i ≡ false
IsFirstIn a from to (some f) =
    (i : ℕ) × (i < a.frames)
    × (from < address_of a i + page_size)
    × (address_of a i < to)
    × (f.address ≡ address_of a i)
    × (unused a i ≡ true)
    × ((j : ℕ) → j < i → from < address_of a j + page_size → unused a j ≡ false)

IsFirstFree-IsFirstIn :
    (a : FrameAllocator) (from to last : ℕ) (out : Option PhysFrame)
    → from / page_size + (div_ceil to page_size - from / page_size) ≡ last
    → IsFirstFree a (from / page_size) last out
    → IsFirstIn a from to out
IsFirstFree-IsFirstIn a from to last none q h = λ i l m k. h i l (omega arith) (omega arith)
IsFirstFree-IsFirstIn a from to last (some f) q (i, l, m, k, at, u, least) =
    (i, l, omega arith, omega arith, at, u, λ j lt le. least j lt (omega arith))

-- On a valid allocator `first_free_in` never panics, and its loop ends. It returns the free frame
-- with the lowest address of those that meet the range, and `None` exactly when none does.
pub first_free_in_lem :
    (a : FrameAllocator) (from to : ℕ)
    → IsValid a
    → (out : Option PhysFrame) × (first_free_in a from to ≡ some out) × IsFirstIn a from to out
unfolding first_free_in
first_free_in_lem a from to v =
    let n = div_ceil to page_size - from / page_size in
    let (out, e, h) = first_free_from_lem a (from / page_size) n (from / page_size + n) v refl in
    (out, e, IsFirstFree-IsFirstIn a from to (from / page_size + n) out refl h)

any-apart :
    (rs : List ReservedRange) (k from to : ℕ) (r : ReservedRange)
    → get_elem? rs k ≡ some r
    → any rs from to ≡ false
    → overlaps r from to ≡ false
unfolding any
any-apart [] k from to r e h = absurd (ground (arith, e))
any-apart (x ∷ rs) zero from to r e h = ground (
  arith,
  e,
  ap {B = Bool}
      (λ (o : Option ReservedRange). elim o [ none ↦ false | some x ↦ overlaps x from to ]) e,
)
any-apart (x ∷ rs) (suc k) from to r e h = any-apart rs k from to r e (ground arith)

-- The check that the kernel makes when it starts: on a valid allocator no free frame meets a
-- reserved range, so `first_free_in` on that range returns `None`.
pub first_free_in-reserved :
    (a : FrameAllocator) (k : ℕ) (r : ReservedRange)
    → IsValid a
    → get_elem? (reserved_ranges a) k ≡ some r
    → first_free_in a r.start r.finish ≡ some none
first_free_in-reserved a k r v e =
    let (out, g, h) = first_free_in_lem a r.start r.finish v in g ∙ ap some (nothing out h)
  where
    nothing : (out : Option PhysFrame) → IsFirstIn a r.start r.finish out → out ≡ none
    nothing none h = refl
    nothing (some f) (i, l, m, k', at, u, least) = absurd (
        ground (
          arith,
          u,
          m,
          k',
          any-apart (reserved_ranges a) k (address_of a i) (address_of a i + page_size) r e
              (v.apart i l (ground arith)),
        ))
