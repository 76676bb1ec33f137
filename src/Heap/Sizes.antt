-- ===== src/Heap/Sizes.antt =====
-- crates/kernel-memory/src/heap.rs: the sizes of the blocks.
use paranuk_os.Base.{ℕ, ◌+◌, ◌*◌, ◌%◌, ◌≤◌, ◌≡◌, List, [], ◌∷◌, arith, length}
use paranuk_os.Heap.Blocks.{Blocks, total, Holds}

-- A block has room for its header, and its size is a multiple of 8.
pub Holds-sizes :
    (arena : List ℕ) (at : ℕ) (bs : Blocks) (end : ℕ)
    → Holds arena at bs end
    → (24 * length bs ≤ total bs) × (total bs % 8 ≡ 0)
Holds-sizes arena at [] end h = (omega arith, omega arith)
Holds-sizes arena at ((free, s) ∷ bs) end h =
    let rest = Holds-sizes arena (at + s) bs end h.3 in
    (omega (arith, h.0, rest.0), omega (arith, h.1, rest.1))
