-- ===== src/Heap/Outside.antt =====
-- crates/kernel-memory/src/heap.rs: what a write outside some blocks leaves alone.
use paranuk_os.Base.{
  ℕ, ◌+◌, ◌≤◌, ◌≡◌, ◌⊎◌, inl, inr, refl, ◌∙◌, subst, true, false, List, [], ◌∷◌, ◌++◌, arith,
  length, take, drop,
}
use paranuk_os.Heap.Headers.{read_header-same}
use paranuk_os.Heap.Headers.{written, length-written, slice-written_apart}
use paranuk_os.Heap.Blocks.{Blocks, total, Holds}

-- The bytes outside `[from, to)` are the same.
pub record SameOutside (from to : ℕ) (arena arena' : List ℕ) : Type 0 where
  pub same_length : length arena' ≡ length arena
  pub same_slices :
      (at n : ℕ) → (at + n ≤ from) ⊎ (to ≤ at) → take n (drop at arena') ≡ take n (drop at arena)

pub Holds-outside :
    (arena arena' : List ℕ) (from to at : ℕ) (xs : Blocks) (end : ℕ)
    → SameOutside from to arena arena'
    → (at + total xs ≤ from) ⊎ (to ≤ at)
    → Holds arena at xs end
    → Holds arena' at xs end
Holds-outside arena arena' from to at [] end same apart h = tt
Holds-outside arena arena' from to at ((free, s) ∷ xs) end same apart h = (
  h.0,
  h.1,
  read_header-same arena arena' at same.same_length (same.same_slices at 24 (near apart)) ∙ h.2,
  Holds-outside arena arena' from to (at + s) xs end same (far apart) h.3,
)
  where
    near : (at + (s + total xs) ≤ from) ⊎ (to ≤ at) → (at + 24 ≤ from) ⊎ (to ≤ at)
    near (inl l) = inl (omega (arith, h.0))
    near (inr l) = inr l

    far : (at + (s + total xs) ≤ from) ⊎ (to ≤ at) → ((at + s) + total xs ≤ from) ⊎ (to ≤ at + s)
    far (inl l) = inl (omega arith)
    far (inr l) = inr (omega arith)

pub SameOutside-refl : (from to : ℕ) (arena : List ℕ) → SameOutside from to arena arena
SameOutside-refl from to arena = record { same_length = refl; same_slices = λ at n h. refl }

pub SameOutside-trans :
    {from to : ℕ} {xs ys zs : List ℕ}
    → SameOutside from to xs ys
    → SameOutside from to ys zs
    → SameOutside from to xs zs
SameOutside-trans p q = record {
  same_length = q.same_length ∙ p.same_length;
  same_slices = λ at n h. q.same_slices at n h ∙ p.same_slices at n h;
}

pub SameOutside-written :
    (from to : ℕ) (arena : List ℕ) (offset magic size next : ℕ)
    → offset + 24 ≤ length arena
    → from ≤ offset
    → offset + 24 ≤ to
    → SameOutside from to arena (written arena offset magic size next)
SameOutside-written from to arena offset magic size next fits l m = record {
  same_length = length-written arena offset magic size next fits;
  same_slices = λ at n h. slice-written_apart arena offset magic size next at n fits (apart at n h);
}
  where
    apart : (at n : ℕ) → (at + n ≤ from) ⊎ (to ≤ at) → (at + n ≤ offset) ⊎ (offset + 24 ≤ at)
    apart at n (inl k) = inl (omega arith)
    apart at n (inr k) = inr (omega arith)

-- The bytes of the blocks in use are the same.
abbrev pub Keeps : List ℕ → List ℕ → ℕ → Blocks → Type 0
Keeps arena arena' at [] = Unit {0}
Keeps arena arena' at ((true, s) ∷ bs) = Keeps arena arena' (at + s) bs
Keeps arena arena' at ((false, s) ∷ bs) =
    (take s (drop at arena') ≡ take s (drop at arena)) × Keeps arena arena' (at + s) bs

pub Keeps-outside :
    (arena arena' : List ℕ) (from to at : ℕ) (xs : Blocks)
    → SameOutside from to arena arena'
    → (at + total xs ≤ from) ⊎ (to ≤ at)
    → Keeps arena arena' at xs
Keeps-outside arena arena' from to at [] same apart = tt
Keeps-outside arena arena' from to at ((true, s) ∷ xs) same (inl l) =
    Keeps-outside arena arena' from to (at + s) xs same (inl (omega arith))
Keeps-outside arena arena' from to at ((true, s) ∷ xs) same (inr l) =
    Keeps-outside arena arena' from to (at + s) xs same (inr (omega arith))
Keeps-outside arena arena' from to at ((false, s) ∷ xs) same (inl l) = (
  same.same_slices at s (inl (omega arith)),
  Keeps-outside arena arena' from to (at + s) xs same (inl (omega arith)),
)
Keeps-outside arena arena' from to at ((false, s) ∷ xs) same (inr l) = (
  same.same_slices at s (inr l),
  Keeps-outside arena arena' from to (at + s) xs same (inr (omega arith)),
)

pub Keeps-trans :
    (xs ys zs : List ℕ) (at : ℕ) (bs : Blocks)
    → Keeps xs ys at bs
    → Keeps ys zs at bs
    → Keeps xs zs at bs
Keeps-trans xs ys zs at [] p q = tt
Keeps-trans xs ys zs at ((true, s) ∷ bs) p q = Keeps-trans xs ys zs (at + s) bs p q
Keeps-trans xs ys zs at ((false, s) ∷ bs) p q =
    (q.0 ∙ p.0, Keeps-trans xs ys zs (at + s) bs p.1 q.1)

pub Keeps-append :
    (arena arena' : List ℕ) (at : ℕ) (xs ys : Blocks)
    → Keeps arena arena' at xs
    → Keeps arena arena' (at + total xs) ys
    → Keeps arena arena' at (xs ++ ys)
Keeps-append arena arena' at [] ys p q =
    subst (λ n. Keeps arena arena' n ys) {x = at + 0} (omega arith) q
Keeps-append arena arena' at ((true, s) ∷ xs) ys p q =
    Keeps-append arena arena' (at + s) xs ys p
      (subst (λ n. Keeps arena arena' n ys) {x = at + (s + total xs)} (omega arith) q)
Keeps-append arena arena' at ((false, s) ∷ xs) ys p q = (
  p.0,
  Keeps-append arena arena' (at + s) xs ys p.1
      (subst (λ n. Keeps arena arena' n ys) {x = at + (s + total xs)} (omega arith) q),
)
