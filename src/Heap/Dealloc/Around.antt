-- ===== src/Heap/Dealloc/Around.antt =====
-- crates/kernel-memory/src/heap.rs: the walks of `dealloc` along the list.
use paranuk_os.Base.{
  ℕ, zero, suc, ◌+◌, ◌-◌, ◌≤◌, ◌<◌, ◌≡◌, refl, ◌∙◌, subst, true, false, none, some, List, [], ◌∷◌,
  ◌++◌, arith, word, add_word, ltb, leb, ◌==◌, length, ok,
}
use paranuk_os.Heap.{FreeList, no_block, read_header, magic_free}
use paranuk_os.Heap.Blocks.{Blocks, total, first_free, Holds, AllUsed}
use paranuk_os.Heap.Before.{LastFree, prefix, previous_of}
use paranuk_os.Heap.Dealloc.{around, previous_free_from}

-- The last free block of blocks that start at an offset, if there is one.
abbrev pub last_from : ℕ → ℕ → Blocks → ℕ
last_from at previous [] = previous
last_from at previous ((true, s) ∷ bs) = last_from (at + s) at bs
last_from at previous ((false, s) ∷ bs) = last_from (at + s) previous bs

last_from-used :
    (at previous : ℕ) (used : Blocks) → AllUsed used → last_from at previous used ≡ previous
last_from-used at previous [] u = refl
last_from-used at previous ((true, s) ∷ used) u = elim u [ ]
last_from-used at previous ((false, s) ∷ used) u = last_from-used (at + s) previous used u

last_from-append :
    (at previous : ℕ) (xs used : Blocks) (s : ℕ)
    → AllUsed used
    → last_from at previous (xs ++ (true, s) ∷ used) ≡ at + total xs
last_from-append at previous [] used s u = last_from-used (at + s) at used u ∙ omega arith
last_from-append at previous ((true, t) ∷ xs) used s u =
    last_from-append (at + t) at xs used s u ∙ omega arith
last_from-append at previous ((false, t) ∷ xs) used s u =
    last_from-append (at + t) previous xs used s u ∙ omega arith

pub last_from-prefix :
    (q : LastFree) (used : Blocks)
    → AllUsed used
    → last_from 0 no_block (prefix q used) ≡ previous_of q
last_from-prefix none used u = last_from-used 0 no_block used u
last_from-prefix (some (before, s)) used u =
    last_from-append 0 no_block before used s u ∙ omega arith

module _ (a : FreeList) (arena : List ℕ) (small : a.arena_len < word - 1) where
  -- One round at a free block that ends before the freed one, or where the walk stops.
  module _ (offset header block_end rounds previous at s next : ℕ)
      (r : read_header arena at ≡ some (magic_free, s, next)) (ge : 24 < s)
      (le : at + s ≤ a.arena_len) where
    around_stop :
        header ≤ at
        → block_end ≤ at
        → around a arena offset header block_end (suc rounds) previous at ≡ some (ok (previous, at))
    unfolding around
    around_stop l m =
        let e1 : (at == no_block) ≡ false = ground arith in
        let e2 : ltb s 24 ≡ false = ground arith in
        let e3 : add_word at s ≡ some (at + s) = ground arith in
        let e4 : ltb a.arena_len (at + s) ≡ false = ground arith in
        let e5 : leb header at ≡ true = ground arith in
        let e6 : ltb at block_end ≡ false = ground arith in rw (e1, r, e2, e3, e4, e5, e6) refl

    pub around_next :
        at + s ≤ header
        → around a arena offset header block_end (suc rounds) previous at
          ≡ around a arena offset header block_end rounds at next
    unfolding around
    around_next l =
        let e1 : (at == no_block) ≡ false = ground arith in
        let e2 : ltb s 24 ≡ false = ground arith in
        let e3 : add_word at s ≡ some (at + s) = ground arith in
        let e4 : ltb a.arena_len (at + s) ≡ false = ground arith in
        let e5 : leb header at ≡ false = ground arith in
        let e6 : ltb header (at + s) ≡ false = ground arith in rw (e1, r, e2, e3, e4, e5, e6) refl

  around_end :
      (offset header block_end rounds previous : ℕ)
      → around a arena offset header block_end rounds previous no_block
        ≡ some (ok (previous, no_block))
  unfolding around
  around_end offset header block_end zero previous = refl
  around_end offset header block_end (suc rounds) previous = refl

  -- Behind the freed block the walk stops at the first free block.
  around_behind :
      (ys : Blocks) (offset header block_end rounds previous at : ℕ)
      → Holds arena at ys no_block
      → at + total ys ≤ a.arena_len
      → header ≤ at
      → block_end ≤ at
      → length ys ≤ rounds
      → around a arena offset header block_end rounds previous (first_free at ys no_block)
        ≡ some (ok (previous, first_free at ys no_block))
  around_behind [] offset header block_end rounds previous at h le l m n =
      around_end offset header block_end rounds previous
  around_behind ((false, s) ∷ ys) offset header block_end rounds previous at h le l m n =
      around_behind ys offset header block_end rounds previous (at + s) h.3 (omega arith)
        (omega arith) (omega arith) (omega arith)
  around_behind ((true, s) ∷ ys) offset header block_end zero previous at h le l m n =
      absurd (omega arith)
  around_behind ((true, s) ∷ ys) offset header block_end (suc rounds) previous at h le l m n =
      around_stop offset header block_end rounds previous at s (first_free (at + s) ys no_block) h.2
        h.0 (omega arith) l m

  -- The walk finds the free blocks around a block in use.
  pub around_lem :
      (rest ys : Blocks) (offset s rounds previous at : ℕ)
      → Holds arena at (rest ++ (false, s) ∷ ys) no_block
      → at + total (rest ++ (false, s) ∷ ys) ≤ a.arena_len
      → length (rest ++ (false, s) ∷ ys) ≤ rounds
      → around a arena offset
          (at + total rest)
          (at + total rest + s)
          rounds
          previous
          (first_free at (rest ++ (false, s) ∷ ys) no_block)
        ≡ some (ok (last_from at previous rest, first_free (at + total rest + s) ys no_block))
  around_lem [] ys offset s rounds previous at h le n =
      subst
        (λ k.
          around a arena offset k (k + s) rounds previous (first_free (at + s) ys no_block)
          ≡ some (ok (previous, first_free (k + s) ys no_block)))
        {x = at} (omega arith)
        (around_behind ys offset at (at + s) rounds previous (at + s) h.3 (omega arith)
          (omega arith) (omega arith) (omega arith))
  around_lem ((false, t) ∷ rest) ys offset s rounds previous at h le n =
      subst
        (λ k.
          around a arena offset k (k + s) rounds previous
            (first_free (at + t) (rest ++ (false, s) ∷ ys) no_block)
          ≡ some (ok (last_from (at + t) previous rest, first_free (k + s) ys no_block)))
        {x = at + t + total rest} (omega arith)
        (around_lem rest ys offset s rounds previous (at + t) h.3 (omega arith) (omega arith))
  around_lem ((true, t) ∷ rest) ys offset s zero previous at h le n = absurd (omega arith)
  around_lem ((true, t) ∷ rest) ys offset s (suc rounds) previous at h le n =
      around_next offset (at + total ((true, t) ∷ rest)) (at + total ((true, t) ∷ rest) + s) rounds
        previous at t _ h.2 h.0 (omega arith) (omega arith)
      ∙ subst
          (λ k.
            around a arena offset k (k + s) rounds at
              (first_free (at + t) (rest ++ (false, s) ∷ ys) no_block)
            ≡ some (ok (last_from (at + t) at rest, first_free (k + s) ys no_block)))
          {x = at + t + total rest} (omega arith)
          (around_lem rest ys offset s rounds at (at + t) h.3 (omega arith) (omega arith))

  -- The walk of `previous_free` finds the free block before a free block.
  pub previous_free_lem :
      (rest ys : Blocks) (s rounds previous at : ℕ)
      → Holds arena at (rest ++ (true, s) ∷ ys) no_block
      → at + total (rest ++ (true, s) ∷ ys) ≤ a.arena_len
      → length rest < rounds
      → previous_free_from arena
          (at + total rest)
          rounds
          previous
          (first_free at (rest ++ (true, s) ∷ ys) no_block)
        ≡ some (last_from at previous rest)
  unfolding previous_free_from
  previous_free_lem [] ys s zero previous at h le n = absurd (omega arith)
  previous_free_lem [] ys s (suc rounds) previous at h le n =
      let e1 : (at == no_block) ≡ false = ground (arith, h.0) in
      let e2 : (at == at + 0) ≡ true = ground arith in rw (e1, e2) refl
  previous_free_lem ((false, t) ∷ rest) ys s rounds previous at h le n =
      subst
        (λ k.
          previous_free_from arena k rounds previous
            (first_free (at + t) (rest ++ (true, s) ∷ ys) no_block)
          ≡ some (last_from (at + t) previous rest))
        {x = at + t + total rest} (omega arith)
        (previous_free_lem rest ys s rounds previous (at + t) h.3 (omega arith) (omega arith))
  previous_free_lem ((true, t) ∷ rest) ys s zero previous at h le n = absurd (omega arith)
  previous_free_lem ((true, t) ∷ rest) ys s (suc rounds) previous at h le n =
      let e1 : (at == no_block) ≡ false = ground (arith, h.0) in
      let e2 : (at == at + (t + total rest)) ≡ false = ground (arith, h.0) in
      rw (e1, e2, h.2)
        (subst
          (λ k.
            previous_free_from arena k rounds at
              (first_free (at + t) (rest ++ (true, s) ∷ ys) no_block)
            ≡ some (last_from (at + t) at rest))
          {x = at + t + total rest} (omega arith)
          (previous_free_lem rest ys s rounds at (at + t) h.3 (omega arith) (omega arith)))
