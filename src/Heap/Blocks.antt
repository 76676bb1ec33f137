-- ===== src/Heap/Blocks.antt =====
-- crates/kernel-memory/src/heap.rs: the arena as a sequence of blocks, free and in use, each behind
-- its header, and the invariant of the heap.
use paranuk_os.Base.{
  ℕ, ◌+◌, ◌-◌, ◌%◌, ◌≤◌, ◌<◌, ◌≡◌, ◌⊎◌, inl, inr, refl, sym, ap, ◌∙◌, subst, max, Bool, true, false,
  some, List, [], ◌∷◌, ◌++◌, arith, word, if◌then◌else◌, length,
}
use paranuk_os.Heap.{FreeList, magic_free, magic_alloc, no_block, read_header}

-- Whether a block is free, and its size with its header.
abbrev pub Blocks : Type 0
Blocks = List (Bool × ℕ)

abbrev pub total : Blocks → ℕ
total [] = 0
total (b ∷ bs) = b.1 + total bs

-- Where the first free block lies in blocks that start at an offset, if there is one.
abbrev pub first_free : ℕ → Blocks → ℕ → ℕ
first_free at [] end = end
first_free at ((true, s) ∷ bs) end = at
first_free at ((false, s) ∷ bs) end = first_free (at + s) bs end

abbrev pub magic_of : Bool → ℕ
magic_of true = magic_free
magic_of false = magic_alloc

-- From an offset on, the arena holds the headers of the blocks; the list of free blocks runs through
-- them in the order of their addresses, and goes on with `end`.
abbrev pub Holds : List ℕ → ℕ → Blocks → ℕ → Type 0
Holds arena at [] end = Unit {0}
Holds arena at ((free, s) ∷ bs) end =
    (24 < s)
    × (s % 8 ≡ 0)
    × (read_header arena at
        ≡ some (magic_of free, s, if free then first_free (at + s) bs end else no_block))
    × Holds arena (at + s) bs end

abbrev pub StartsUsed : Blocks → Type 0
StartsUsed ((true, s) ∷ bs) = ⊥
StartsUsed _ = Unit {0}

-- No two free blocks lie side by side.
abbrev pub IsCoalesced : Blocks → Type 0
IsCoalesced [] = Unit {0}
IsCoalesced ((true, s) ∷ bs) = StartsUsed bs × IsCoalesced bs
IsCoalesced ((false, s) ∷ bs) = IsCoalesced bs

abbrev pub AllUsed : Blocks → Type 0
AllUsed [] = Unit {0}
AllUsed ((true, s) ∷ bs) = ⊥
AllUsed ((false, s) ∷ bs) = AllUsed bs

abbrev pub count_free : Blocks → ℕ
count_free [] = 0
count_free ((free, s) ∷ bs) = (if free then 1 else 0) + count_free bs

abbrev pub bytes_free : Blocks → ℕ
bytes_free [] = 0
bytes_free ((free, s) ∷ bs) = (if free then s - 24 else 0) + bytes_free bs

abbrev pub largest : Blocks → ℕ
largest [] = 0
largest ((free, s) ∷ bs) = max (if free then s - 24 else 0) (largest bs)

-- The blocks tile the arena, the list runs through the free ones, no two of which lie side by side,
-- and the counters agree with them.
pub record IsHeap (a : FreeList) (arena : List ℕ) (bs : Blocks) : Type 0 where
  pub small : length arena < word
  pub aligned : a.arena_len ≡ length arena - length arena % 8
  pub tiled : total bs ≡ a.arena_len
  pub holds : Holds arena 0 bs no_block
  pub first : a.head ≡ first_free 0 bs no_block
  pub coalesced : IsCoalesced bs
  pub blocks_counted : a.free_blocks ≡ count_free bs
  pub bytes_counted : a.free_bytes ≡ bytes_free bs
  pub largest_counted : a.largest_free ≡ largest bs

pub total-append : (xs ys : Blocks) → total (xs ++ ys) ≡ total xs + total ys
total-append [] ys = omega arith
total-append (x ∷ xs) ys = omega (arith, total-append xs ys)

pub first_free-append :
    (at : ℕ) (xs ys : Blocks) (end : ℕ)
    → first_free at (xs ++ ys) end ≡ first_free at xs (first_free (at + total xs) ys end)
first_free-append at [] ys end = ap (λ n. first_free n ys end) (omega arith)
first_free-append at ((true, s) ∷ xs) ys end = refl
first_free-append at ((false, s) ∷ xs) ys end =
    first_free-append (at + s) xs ys end
    ∙ ap (λ n. first_free (at + s) xs (first_free n ys end)) (omega arith)

pub first_free-used : (at : ℕ) (xs : Blocks) (end : ℕ) → AllUsed xs → first_free at xs end ≡ end
first_free-used at [] end u = refl
first_free-used at ((true, s) ∷ xs) end u = elim u [ ]
first_free-used at ((false, s) ∷ xs) end u = first_free-used (at + s) xs end u

-- The first free block lies among the blocks, if there is one.
pub first_free-range :
    (at : ℕ) (xs : Blocks) (end : ℕ)
    → (first_free at xs end ≡ end)
      ⊎ ((at ≤ first_free at xs end) × (first_free at xs end ≤ at + total xs))
first_free-range at [] end = inl refl
first_free-range at ((true, s) ∷ xs) end = inr (omega arith, omega arith)
first_free-range at ((false, s) ∷ xs) end = elim (first_free-range (at + s) xs end) [
  | inl e ↦ inl e
  | inr (l, m) ↦ inr (omega arith, omega arith)
]

pub Holds-append :
    (arena : List ℕ) (at : ℕ) (xs ys : Blocks) (end : ℕ)
    → Holds arena at xs (first_free (at + total xs) ys end)
    → Holds arena (at + total xs) ys end
    → Holds arena at (xs ++ ys) end
Holds-append arena at [] ys end h k = subst (λ n. Holds arena n ys end) (omega arith) k
Holds-append arena at ((free, s) ∷ xs) ys end h k =
    let e : (at + s) + total xs ≡ at + (s + total xs) = omega arith in
    (
      h.0,
      h.1,
      h.2
          ∙ (λ i. some (
            magic_of free,
            s,
            if free then first_free (at + s) xs (first_free (sym e i) ys end) else no_block,
          ))
          ∙ (λ i. some (
            magic_of free,
            s,
            if free then sym (first_free-append (at + s) xs ys end) i else no_block,
          )),
      Holds-append arena (at + s) xs ys end
          (subst (λ n. Holds arena (at + s) xs (first_free n ys end)) (sym e) h.3)
          (subst (λ n. Holds arena n ys end) (sym e) k),
    )

pub Holds-split :
    (arena : List ℕ) (at : ℕ) (xs ys : Blocks) (end : ℕ)
    → Holds arena at (xs ++ ys) end
    → Holds arena at xs (first_free (at + total xs) ys end) × Holds arena (at + total xs) ys end
Holds-split arena at [] ys end h = (tt, subst (λ n. Holds arena n ys end) (omega arith) h)
Holds-split arena at ((free, s) ∷ xs) ys end h =
    let e : (at + s) + total xs ≡ at + (s + total xs) = omega arith in
    let (before, behind) = Holds-split arena (at + s) xs ys end h.3 in
    (
      (
        h.0,
        h.1,
        h.2
            ∙ (λ i. some (
              magic_of free,
              s,
              if free then first_free-append (at + s) xs ys end i else no_block,
            ))
            ∙ (λ i. some (
              magic_of free,
              s,
              if free then first_free (at + s) xs (first_free (e i) ys end) else no_block,
            )),
        subst (λ n. Holds arena (at + s) xs (first_free n ys end)) e before,
      ),
      subst (λ n. Holds arena n ys end) e behind,
    )

-- Blocks in use hold no links.
pub Holds-used :
    (arena : List ℕ) (at : ℕ) (xs : Blocks) (end end' : ℕ)
    → AllUsed xs
    → Holds arena at xs end
    → Holds arena at xs end'
Holds-used arena at [] end end' u h = tt
Holds-used arena at ((true, s) ∷ xs) end end' u h = elim u [ ]
Holds-used arena at ((false, s) ∷ xs) end end' u h =
    (h.0, h.1, h.2, Holds-used arena (at + s) xs end end' u h.3)

-- The same from the start of the arena.
pub Holds-split_start :
    (arena : List ℕ) (xs ys : Blocks) (end : ℕ)
    → Holds arena 0 (xs ++ ys) end
    → Holds arena 0 xs (first_free (total xs) ys end) × Holds arena (total xs) ys end
Holds-split_start arena xs ys end h =
    subst (λ n. Holds arena 0 xs (first_free n ys end) × Holds arena n ys end) {x = 0 + total xs}
      (omega arith) (Holds-split arena 0 xs ys end h)

pub Holds-append_start :
    (arena : List ℕ) (xs ys : Blocks) (end : ℕ)
    → Holds arena 0 xs (first_free (total xs) ys end)
    → Holds arena (total xs) ys end
    → Holds arena 0 (xs ++ ys) end
Holds-append_start arena xs ys end h k =
    let e : total xs ≡ 0 + total xs = omega arith in
    Holds-append arena 0 xs ys end (subst (λ n. Holds arena 0 xs (first_free n ys end)) e h)
      (subst (λ n. Holds arena n ys end) e k)

pub first_free-append_start :
    (xs ys : Blocks) (end : ℕ)
    → first_free 0 (xs ++ ys) end ≡ first_free 0 xs (first_free (total xs) ys end)
first_free-append_start xs ys end =
    first_free-append 0 xs ys end
    ∙ ap (λ n. first_free 0 xs (first_free n ys end)) {x = 0 + total xs} (omega arith)
