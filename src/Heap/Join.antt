-- ===== src/Heap/Join.antt =====
-- crates/kernel-memory/src/heap.rs: free blocks that lie side by side become one.
use paranuk_os.Base.{
  ℕ, ◌+◌, ◌≡◌, refl, sym, ap, ◌∙◌, Bool, true, false, none, some, [], ◌∷◌, ◌++◌, arith,
}
use paranuk_os.Heap.Blocks.{Blocks, total, StartsUsed, IsCoalesced, AllUsed}
use paranuk_os.Heap.Before.{LastFree, prefix}

-- A free block before blocks, joined with the first of them if that is free.
abbrev pub join : ℕ → Blocks → Blocks
join s [] = (true, s) ∷ []
join s ((true, t) ∷ bs) = (true, s + t) ∷ bs
join s ((false, t) ∷ bs) = (true, s) ∷ (false, t) ∷ bs

-- Each run of free blocks as one block.
abbrev pub coalesce : Blocks → Blocks
coalesce [] = []
coalesce ((true, s) ∷ bs) = join s (coalesce bs)
coalesce ((false, s) ∷ bs) = (false, s) ∷ coalesce bs

join-StartsUsed : (s : ℕ) (bs : Blocks) → StartsUsed bs → join s bs ≡ (true, s) ∷ bs
join-StartsUsed s [] h = refl
join-StartsUsed s ((true, t) ∷ bs) h = elim h [ ]
join-StartsUsed s ((false, t) ∷ bs) h = refl

pub coalesce-id : (bs : Blocks) → IsCoalesced bs → coalesce bs ≡ bs
coalesce-id [] h = refl
coalesce-id ((true, s) ∷ bs) h = ap (join s) (coalesce-id bs h.1) ∙ join-StartsUsed s bs h.0
coalesce-id ((false, s) ∷ bs) h = ap (λ cs. (false, s) ∷ cs) (coalesce-id bs h)

IsCoalesced-join : (s : ℕ) (bs : Blocks) → IsCoalesced bs → IsCoalesced (join s bs)
IsCoalesced-join s [] h = (tt, tt)
IsCoalesced-join s ((true, t) ∷ bs) h = h
IsCoalesced-join s ((false, t) ∷ bs) h = (tt, h)

pub IsCoalesced-coalesce : (bs : Blocks) → IsCoalesced (coalesce bs)
IsCoalesced-coalesce [] = tt
IsCoalesced-coalesce ((true, s) ∷ bs) = IsCoalesced-join s (coalesce bs) (IsCoalesced-coalesce bs)
IsCoalesced-coalesce ((false, s) ∷ bs) = IsCoalesced-coalesce bs

total-join : (s : ℕ) (bs : Blocks) → total (join s bs) ≡ s + total bs
total-join s [] = refl
total-join s ((true, t) ∷ bs) = omega arith
total-join s ((false, t) ∷ bs) = refl

pub total-coalesce : (bs : Blocks) → total (coalesce bs) ≡ total bs
total-coalesce [] = refl
total-coalesce ((true, s) ∷ bs) = total-join s (coalesce bs) ∙ ap (λ n. s + n) (total-coalesce bs)
total-coalesce ((false, s) ∷ bs) = ap (λ n. s + n) (total-coalesce bs)

pub coalesce-used : (used bs : Blocks) → AllUsed used → coalesce (used ++ bs) ≡ used ++ coalesce bs
coalesce-used [] bs u = refl
coalesce-used ((true, s) ∷ used) bs u = elim u [ ]
coalesce-used ((false, s) ∷ used) bs u = ap (λ cs. (false, s) ∷ cs) (coalesce-used used bs u)

-- What lies before a free block stays as it is.
pub coalesce-before :
    (before : Blocks) (s : ℕ) (rest bs : Blocks)
    → IsCoalesced (before ++ (true, s) ∷ rest)
    → coalesce (before ++ (true, s) ∷ bs) ≡ before ++ join s (coalesce bs)
coalesce-before [] s rest bs h = refl
coalesce-before ((false, t) ∷ before) s rest bs h =
    ap (λ cs. (false, t) ∷ cs) (coalesce-before before s rest bs h)
coalesce-before ((true, t) ∷ []) s rest bs h = elim h.0 [ ]
coalesce-before ((true, t) ∷ (true, r) ∷ before) s rest bs h = elim h.0 [ ]
coalesce-before ((true, t) ∷ (false, r) ∷ before) s rest bs h =
    ap (join t) (coalesce-before ((false, r) ∷ before) s rest bs h.1)

-- Every sequence of blocks ends with a last free block, if there is one, and blocks in use.
pub last_free :
    (bs : Blocks) → (q : LastFree) × (used : Blocks) × AllUsed used × (bs ≡ prefix q used)
last_free [] = (none, [], tt, refl)
last_free ((free, s) ∷ bs) = more free (last_free bs)
  where
    more :
        (free : Bool)
        → ((q : LastFree) × (used : Blocks) × AllUsed used × (bs ≡ prefix q used))
        → (q : LastFree) × (used : Blocks) × AllUsed used × ((free, s) ∷ bs ≡ prefix q used)
    more free (some (before, t), used, u, e) =
        (some ((free, s) ∷ before, t), used, u, ap (λ cs. (free, s) ∷ cs) e)
    more true (none, used, u, e) = (some ([], s), used, u, ap (λ cs. (true, s) ∷ cs) e)
    more false (none, used, u, e) = (none, (false, s) ∷ used, u, ap (λ cs. (false, s) ∷ cs) e)

-- Free blocks may be joined in any order.
pub coalesce-append : (xs bs : Blocks) → coalesce (xs ++ bs) ≡ coalesce (xs ++ coalesce bs)
coalesce-append [] bs = sym (coalesce-id (coalesce bs) (IsCoalesced-coalesce bs))
coalesce-append ((true, s) ∷ xs) bs = ap (join s) (coalesce-append xs bs)
coalesce-append ((false, s) ∷ xs) bs = ap (λ cs. (false, s) ∷ cs) (coalesce-append xs bs)
