-- ===== src/Heap/Dealloc/Refused.antt =====
-- crates/kernel-memory/src/heap.rs: what `dealloc` refuses.
use paranuk_os.Base.{
  ℕ, zero, suc, ◌+◌, ◌-◌, ◌%◌, ◌≤◌, ◌<◌, ◌≡◌, inl, inr, refl, ap, ◌∙◌, true, false, not, ◌||◌, some,
  List, [], ◌∷◌, ◌++◌, arith, word, add_word, ltb, leb, ◌==◌, length, Bool-cases, Option-cases, err,
}
use native.Mathlib.Decide.{dec_lt}
use paranuk_os.Heap.{
  FreeList, FreeListError, no_block, read_header, magic_free, magic_alloc, max_blocks, out_of_arena,
  already_free, not_allocated, corrupted, arena_matches,
}
use paranuk_os.Heap.Blocks.{Blocks, total, first_free, Holds, Holds-split_start, IsHeap}
use paranuk_os.Heap.Sizes.{Holds-sizes}
use paranuk_os.Heap.Dealloc.{around, release, dealloc, refused}
use paranuk_os.Heap.Dealloc.Around.{around_next}

module _ (a : FreeList) (arena : List ℕ) (small : a.arena_len < word - 1) where
  -- The walk reaches the free block that the offset lies in.
  around_inside :
      (rest ys : Blocks) (offset header block_end s rounds previous at : ℕ)
      → Holds arena at (rest ++ (true, s) ∷ ys) no_block
      → at + total (rest ++ (true, s) ∷ ys) ≤ a.arena_len
      → length (rest ++ (true, s) ∷ ys) ≤ rounds
      → at + total rest < header
      → header < at + total rest + s
      → around a arena offset header block_end rounds previous
          (first_free at (rest ++ (true, s) ∷ ys) no_block)
        ≡ some (err (already_free offset))
  unfolding around
  around_inside [] ys offset header block_end s zero previous at h le n l m = absurd (omega arith)
  around_inside [] ys offset header block_end s (suc rounds) previous at h le n l m =
      let e1 : (at == no_block) ≡ false = ground arith in
      let e2 : ltb s 24 ≡ false = ground (arith, h.0) in
      let e3 : add_word at s ≡ some (at + s) = ground arith in
      let e4 : ltb a.arena_len (at + s) ≡ false = ground arith in
      let e5 : leb header at ≡ false = ground arith in
      let e6 : ltb header (at + s) ≡ true = ground arith in rw (e1, h.2, e2, e3, e4, e5, e6) refl
  around_inside ((false, t) ∷ rest) ys offset header block_end s rounds previous at h le n l m =
      around_inside rest ys offset header block_end s rounds previous (at + t) h.3 (omega arith)
        (omega arith) (omega arith) (omega arith)
  around_inside ((true, t) ∷ rest) ys offset header block_end s zero previous at h le n l m =
      absurd (omega arith)
  around_inside ((true, t) ∷ rest) ys offset header block_end s (suc rounds) previous at h le n l
        m =
      around_next a arena small offset header block_end rounds previous at t
        (first_free (at + t) (rest ++ (true, s) ∷ ys) no_block) h.2 h.0 (omega arith) (omega arith)
      ∙ around_inside rest ys offset header block_end s rounds at (at + t) h.3 (omega arith)
          (omega arith) (omega arith) (omega arith)

  module _ (xs ys : Blocks) (s offset header : ℕ) (v : IsHeap a arena (xs ++ (true, s) ∷ ys)) where
    -- The header of the offset is that of the free block.
    release_start :
        header ≡ total xs → release a arena offset header ≡ refused a arena (already_free offset)
    unfolding release
    release_start e =
        let (_, (_, _, r, _)) = Holds-split_start arena xs ((true, s) ∷ ys) no_block v.holds in
        ap (release a arena offset) e ∙ rw (r, release) refl

    walked :
        (block_end : ℕ)
        → total xs < header
        → header < total xs + s
        → around a arena offset header block_end (max_blocks a) no_block a.head
          ≡ some (err (already_free offset))
    walked block_end l m =
        ap (around a arena offset header block_end (max_blocks a) no_block) v.first
        ∙ around_inside xs ys offset header block_end s (max_blocks a) no_block 0 v.holds
            (omega (arith, v.tiled))
            (omega
              (arith, v.tiled, (Holds-sizes arena 0 (xs ++ (true, s) ∷ ys) no_block v.holds).0))
            (omega arith) (omega arith)

    -- The offset lies inside the free block: whatever stands there, something refuses it.
    release_inside :
        total xs < header
        → header < total xs + s
        → (e : FreeListError) × (release a arena offset header ≡ refused a arena e)
    unfolding release
    release_inside l m = elim (Option-cases (read_header arena header)) [
      | inl none_there ↦ (corrupted header, rw (none_there, release) refl)
      | inr ((magic, size, next), there) ↦ elim (Bool-cases (magic == magic_free)) [
        | inl free ↦ (already_free offset, rw (there, release, free) refl)
        | inr not_free ↦ elim (Bool-cases (magic == magic_alloc)) [
          | inr no_magic ↦ (not_allocated offset, rw (there, release, not_free, no_magic) refl)
          | inl magic_there ↦ elim (Option-cases (add_word header size)) [
            | inl over ↦ (corrupted header, rw (there, release, not_free, magic_there, over) refl)
            | inr (end, sum) ↦ elim (Bool-cases (ltb size 24 || ltb a.arena_len end)) [
              | inl bad ↦
                  (corrupted header, rw (there, release, not_free, magic_there, sum, bad) refl)
              | inr good ↦ (
                already_free offset,
                rw (there, release, not_free, magic_there, sum, good, walked end l m) refl,
              )
            ]
          ]
        ]
      ]
    ]

-- On a valid heap whose arena is shorter than 2^64 - 1 bytes, `dealloc` of an offset whose header would
-- lie in a free block returns an error, whatever bytes stand there, and changes nothing.
pub dealloc-free :
    (a : FreeList) (arena : List ℕ) (xs ys : Blocks) (s offset : ℕ)
    → IsHeap a arena (xs ++ (true, s) ∷ ys)
    → a.arena_len < word - 1
    → total xs + 24 ≤ offset
    → offset < total xs + s + 24
    → (e : FreeListError) × (dealloc a arena offset ≡ some (a, arena, err e))
unfolding dealloc
dealloc-free a arena xs ys s offset v small l m =
    elim (Bool-cases (
      not (arena_matches a arena)
      || (ltb offset 24 || (leb a.arena_len offset || not (offset % 8 == 0))))) [
        | inl bad ↦ (out_of_arena offset, rw bad refl)
        | inr good ↦
            let (e, f) : (e : FreeListError) × (release a arena offset (offset - 24)
                  ≡ refused a arena e) =
              elim (dec_lt (total xs) (offset - 24)) [
                | yes inside ↦
                    release_inside a arena small xs ys s offset (offset - 24) v inside (omega arith)
                | no start ↦ (
                  already_free offset,
                  release_start a arena small xs ys s offset (offset - 24) v (omega arith),
                )
              ] in
            (e, rw good f)
      ]
