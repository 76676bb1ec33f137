-- ===== src/Heap/Coalesced.antt =====
-- crates/kernel-memory/src/heap.rs: no two free blocks side by side, where a block is replaced.
use paranuk_os.Base.{ℕ, Bool, true, false, [], ◌∷◌, ◌++◌}
use paranuk_os.Heap.Blocks.{Blocks, IsCoalesced, StartsUsed}

-- What stands behind a free block.
pub IsCoalesced-behind :
    (xs : Blocks) (s : ℕ) (ys : Blocks)
    → IsCoalesced (xs ++ (true, s) ∷ ys)
    → StartsUsed ys × IsCoalesced ys
IsCoalesced-behind [] s ys h = h
IsCoalesced-behind ((true, t) ∷ xs) s ys h = IsCoalesced-behind xs s ys h.1
IsCoalesced-behind ((false, t) ∷ xs) s ys h = IsCoalesced-behind xs s ys h

pub IsCoalesced-behind_used :
    (xs : Blocks) (s : ℕ) (ys : Blocks) → IsCoalesced (xs ++ (false, s) ∷ ys) → IsCoalesced ys
IsCoalesced-behind_used [] s ys h = h
IsCoalesced-behind_used ((true, t) ∷ xs) s ys h = IsCoalesced-behind_used xs s ys h.1
IsCoalesced-behind_used ((false, t) ∷ xs) s ys h = IsCoalesced-behind_used xs s ys h

-- A block may be replaced by one in use.
pub IsCoalesced-used :
    (xs : Blocks) (free : Bool) (s u : ℕ) (ys zs : Blocks)
    → IsCoalesced (xs ++ (free, s) ∷ ys)
    → IsCoalesced zs
    → IsCoalesced (xs ++ (false, u) ∷ zs)
IsCoalesced-used [] free s u ys zs h k = k
IsCoalesced-used ((false, t) ∷ xs) free s u ys zs h k = IsCoalesced-used xs free s u ys zs h k
IsCoalesced-used ((true, t) ∷ []) free s u ys zs h k = (tt, k)
IsCoalesced-used ((true, t) ∷ (true, r) ∷ xs) free s u ys zs h k = elim h.0 [ ]
IsCoalesced-used ((true, t) ∷ (false, r) ∷ xs) free s u ys zs h k =
    (tt, IsCoalesced-used ((false, r) ∷ xs) free s u ys zs h.1 k)

-- A free block may be replaced by a free one.
pub IsCoalesced-free :
    (xs : Blocks) (s t : ℕ) (ys zs : Blocks)
    → IsCoalesced (xs ++ (true, s) ∷ ys)
    → StartsUsed zs
    → IsCoalesced zs
    → IsCoalesced (xs ++ (true, t) ∷ zs)
IsCoalesced-free [] s t ys zs h u k = (u, k)
IsCoalesced-free ((false, r) ∷ xs) s t ys zs h u k = IsCoalesced-free xs s t ys zs h u k
IsCoalesced-free ((true, r) ∷ []) s t ys zs h u k = elim h.0 [ ]
IsCoalesced-free ((true, r) ∷ (true, q) ∷ xs) s t ys zs h u k = elim h.0 [ ]
IsCoalesced-free ((true, r) ∷ (false, q) ∷ xs) s t ys zs h u k =
    (tt, IsCoalesced-free ((false, q) ∷ xs) s t ys zs h.1 u k)
