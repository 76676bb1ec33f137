-- ===== src/Frame/Free.antt =====
-- crates/kernel-memory/src/frame.rs: `free`, alone and after `alloc`.
use paranuk_os.Base.{
  ℕ, ◌+◌, ◌*◌, ◌<◌, ◌≡◌, ◌≢◌, ◌⊎◌, inl, inr, refl, ap, ◌∙◌, subst, sym, true, false, some, List,
  arith, ◌==◌, if◌then◌else◌, Bool-cases, Option-cases, ok, err,
}
use paranuk_os.MemoryMap.{page_size}
use paranuk_os.Frame.{
  FrameAllocator, PhysFrame, not_managed, already_free, in_reserved, frame_index, is_reserved,
  alloc, free_at, free,
}
use paranuk_os.Frame.Bitmap.{set_bit-written, bit-bit_at, bit_at}
use paranuk_os.Frame.Invariant.{
  owned, taken, unused, IsValid, with_used, with_used-IsValid, unused-with_used,
}
use paranuk_os.Frame.Alloc.{IsMarked, alloc_lem}

abbrev pub address_of : FrameAllocator → ℕ → ℕ
address_of a i = (a.first_frame + i) * page_size

abbrev frame_of : FrameAllocator → ℕ → PhysFrame
frame_of a i = record { address = address_of a i }

pub frame_index-address_of :
    (a : FrameAllocator) (i : ℕ) → i < a.frames → frame_index a (address_of a i) ≡ some i
frame_index-address_of a i lt = ground arith

pub frame_index-some :
    (a : FrameAllocator) (address i : ℕ)
    → frame_index a address ≡ some i
    → (i < a.frames) × (address ≡ address_of a i)
frame_index-some a address i e = ground arith

-- `b` is `a` with frame `i` given back.
pub record IsFreed (a : FrameAllocator) (i : ℕ) (b : FrameAllocator) : Type 0 where
  pub valid : IsValid b
  pub same_allocatable : b.allocatable ≡ a.allocatable
  pub same_first : b.first_frame ≡ a.first_frame
  pub same_frames : b.frames ≡ a.frames
  pub counter : b.free_frames ≡ a.free_frames + 1
  pub table : (j : ℕ) → unused b j ≡ (if i == j then true else unused a j)

abbrev freed : FrameAllocator → ℕ → FrameAllocator
freed a i = with_used a i false (a.free_frames + 1)

module _ (a : FrameAllocator) (i : ℕ) (v : IsValid a) (lt : i < a.frames) where
  free-free_at : free a (frame_of a i) ≡ free_at a (address_of a i) i
  unfolding free
  free-free_at = rw (frame_index-address_of a i lt, free)

  free-freed : owned a i ≡ true → taken a i ≡ true → free a (frame_of a i) ≡ some (freed a i, ok tt)
  unfolding free_at
  free-freed own t =
      free-free_at
      ∙ ground (
        arith,
        v.apart i lt,
        bit-bit_at a.allocatable i (omega (arith, v.allocatable_len)),
        bit-bit_at a.used i (omega (arith, v.used_len)),
        set_bit-written a.used i false (omega (arith, v.used_len)),
      )

  freed-IsFreed : owned a i ≡ true → taken a i ≡ true → IsFreed a i (freed a i)
  freed-IsFreed own t = record {
    valid = with_used-IsValid a i (a.free_frames + 1) false v lt own (ground arith);
    same_allocatable = refl;
    same_first = refl;
    same_frames = refl;
    counter = refl;
    table = λ j.
        ground (arith, unused-with_used a i j (a.free_frames + 1) false v lt, own, ap (owned a));
  }

  free-already_free :
      owned a i ≡ true
      → taken a i ≡ false
      → free a (frame_of a i) ≡ some (a, err (already_free (address_of a i)))
  unfolding free_at
  free-already_free own t =
      free-free_at
      ∙ ground (
        arith,
        v.apart i lt,
        bit-bit_at a.allocatable i (omega (arith, v.allocatable_len)),
        bit-bit_at a.used i (omega (arith, v.used_len)),
      )

  free-not_managed :
      is_reserved a (address_of a i) ≡ false
      → owned a i ≡ false
      → free a (frame_of a i) ≡ some (a, err (not_managed (address_of a i)))
  unfolding free_at
  free-not_managed r own =
      free-free_at
      ∙ ground (arith, r, bit-bit_at a.allocatable i (omega (arith, v.allocatable_len)))

  free-in_reserved :
      is_reserved a (address_of a i) ≡ true
      → free a (frame_of a i) ≡ some (a, err (in_reserved (address_of a i)))
  unfolding free_at
  free-in_reserved r = free-free_at ∙ ground (arith, r)

-- What `free` does with frame `i`.
abbrev pub FreesFrame : FrameAllocator → ℕ → Type 0
FreesFrame a i =
    ((is_reserved a (address_of a i) ≡ true)
      × (free a (record { address = address_of a i })
          ≡ some (a, err (in_reserved (address_of a i)))))
    ⊎ ((is_reserved a (address_of a i) ≡ false)
        × (owned a i ≡ false)
        × (free a (record { address = address_of a i })
            ≡ some (a, err (not_managed (address_of a i)))))
    ⊎ ((owned a i ≡ true)
        × (taken a i ≡ false)
        × (free a (record { address = address_of a i })
            ≡ some (a, err (already_free (address_of a i)))))
    ⊎ ((b : FrameAllocator) × (owned a i ≡ true)
        × (taken a i ≡ true)
        × (free a (record { address = address_of a i }) ≡ some (b, ok tt))
        × IsFreed a i b)

FreesFrame-total : (a : FrameAllocator) (i : ℕ) → IsValid a → i < a.frames → FreesFrame a i
FreesFrame-total a i v lt = elim (Bool-cases (is_reserved a (address_of a i))) [
  | inl r ↦ inl (r, free-in_reserved a i v lt r)
  | inr r ↦ elim (Bool-cases (owned a i)) [
    | inr own ↦ inr (inl (r, own, free-not_managed a i v lt r own))
    | inl own ↦ elim (Bool-cases (taken a i)) [
      | inr t ↦ inr (inr (inl (own, t, free-already_free a i v lt own t)))
      | inl t ↦
          inr
            (inr (inr (freed a i, own, t, free-freed a i v lt own t, freed-IsFreed a i v lt own t)))
    ]
  ]
]

-- `free` on every branch, on a valid allocator. An address that is not that of a managed frame is
-- refused. A managed frame is refused when it lies in a reserved range, when it cannot be handed
-- out, and when it is free already; nothing changes then. Otherwise it was handed out: it is free
-- again, no other frame changes, the counter grows by one, and the allocator stays valid.
pub free_lem :
    (a : FrameAllocator) (address : ℕ)
    → IsValid a
    → (((i : ℕ) → i < a.frames → address ≢ address_of a i)
        × (free a (record { address = address }) ≡ some (a, err (not_managed address))))
      ⊎ ((i : ℕ) × (i < a.frames) × (address ≡ address_of a i) × FreesFrame a i)
unfolding free
free_lem a address v = elim (Option-cases (frame_index a address)) [
  | inl e ↦
      inl (λ i lt q. cc (e, ap (frame_index a) q, frame_index-address_of a i lt), rw (e, free))
  | inr (i, e) ↦
      let (lt, q) = frame_index-some a address i e in inr (i, lt, q, FreesFrame-total a i v lt)
]

-- What a frame that was handed out becomes when it is given back.
marked-free :
    (a b : FrameAllocator) (i : ℕ)
    → i < a.frames
    → unused a i ≡ true
    → IsMarked a i 1 b
    → (c : FrameAllocator) × (free b (frame_of a i) ≡ some (c, ok tt))
      × ((j : ℕ) → unused c j ≡ unused a j)
      × (c.free_frames ≡ a.free_frames)
      × IsValid c
marked-free a b i lt h m =
    let l : i < b.frames = omega (arith, m.same_frames) in
    let own : owned b i ≡ true =
      ground (arith, h, ap (λ (x : List ℕ). bit_at x i) m.same_allocatable) in
    let t : taken b i ≡ true = ground (arith, own, m.table i) in
    let k : IsFreed b i (freed b i) = freed-IsFreed b i m.valid l own t in
    (
      freed b i,
      ap (λ n. free b (record { address = (n + i) * page_size })) (sym m.same_first)
          ∙ free-freed b i m.valid l own t,
      λ j. ground (arith, k.table j, m.table j, h, ap (unused a)),
      omega (arith, m.counter),
      k.valid,
    )

-- Freeing what was just handed out succeeds and brings back the same free frames and counter.
pub alloc-free :
    (a b : FrameAllocator) (f : PhysFrame)
    → IsValid a
    → alloc a ≡ some (b, some f)
    → (c : FrameAllocator) × (free b f ≡ some (c, ok tt))
      × ((j : ℕ) → unused c j ≡ unused a j)
      × (c.free_frames ≡ a.free_frames)
      × IsValid c
alloc-free a b f v e = elim (alloc_lem a v) [
  | inl (_, g) ↦ absurd (ground (arith, g))
  | inr (i, b', lt, h, _, g, m) ↦
      let same : ◌≡◌ {A = FrameAllocator × PhysFrame} (b', frame_of a i) (b, f) =
        ground (arith, g) in
      subst
        (λ p.
          (c : FrameAllocator) × (free p.0 p.1 ≡ some (c, ok tt))
          × ((j : ℕ) → unused c j ≡ unused a j)
          × (c.free_frames ≡ a.free_frames)
          × IsValid c)
        same (marked-free a b' i lt h m)
]

freed-free :
    (a b : FrameAllocator) (i : ℕ) (f : PhysFrame)
    → i < a.frames
    → f.address ≡ address_of a i
    → owned a i ≡ true
    → IsFreed a i b
    → free b f ≡ some (b, err (already_free f.address))
freed-free a b i f lt q own k =
    let at : address_of b i ≡ f.address = ap (λ n. (n + i) * page_size) k.same_first ∙ sym q in
    let mine : owned b i ≡ true = ap (λ (x : List ℕ). bit_at x i) k.same_allocatable ∙ own in
    subst (λ n. free b (record { address = n }) ≡ some (b, err (already_free n))) at
      (free-already_free b i k.valid (omega (arith, k.same_frames)) mine
        (ground (arith, mine, k.table i)))

-- A frame that was just given back cannot be given back again.
pub free_twice :
    (a b : FrameAllocator) (f : PhysFrame)
    → IsValid a
    → free a f ≡ some (b, ok tt)
    → free b f ≡ some (b, err (already_free f.address))
free_twice a b f v e = elim (free_lem a f.address v) [
  | inl (_, g) ↦ cc (e, g)
  | inr (i, lt, q, inl (_, g)) ↦ cc (e, g, q)
  | inr (i, lt, q, inr (inl (_, _, g))) ↦ cc (e, g, q)
  | inr (i, lt, q, inr (inr (inl (_, _, g)))) ↦ cc (e, g, q)
  | inr (i, lt, q, inr (inr (inr (b', own, t, g, k)))) ↦
      let same : b' ≡ b = ground (arith, e, g, ap (λ (n : ℕ). free a (record { address = n })) q) in
      subst (λ x. free x f ≡ some (x, err (already_free f.address))) same
        (freed-free a b' i f lt q own k)
]
