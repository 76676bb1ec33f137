-- ===== src/Heap/Alloc/Room.antt =====
-- crates/kernel-memory/src/heap.rs: what `alloc` promises.
use paranuk_os.Base.{
  ℕ, ◌+◌, ◌%◌, ◌≤◌, ◌<◌, ◌≡◌, ◌⊎◌, subst, true, false, Option, none, some, List, [], ◌∷◌, ◌++◌,
  arith,
}
use paranuk_os.Heap.{FreeList}
use paranuk_os.Heap.Blocks.{Blocks, total, IsHeap}
use paranuk_os.Heap.Outside.{Keeps}
use paranuk_os.Heap.Alloc.{Outcome}
use paranuk_os.Heap.Alloc.Place.{IsPlace}
use paranuk_os.Heap.Alloc.Carve.{pieces}

-- No free block has a place for the payload.
abbrev pub NoRoom : ℕ → Blocks → ℕ → ℕ → Type 0
NoRoom at [] size align = Unit {0}
NoRoom at ((true, s) ∷ bs) size align =
    ((p : ℕ) → IsPlace at align p → at + s < p + size) × NoRoom (at + s) bs size align
NoRoom at ((false, s) ∷ bs) size align = NoRoom (at + s) bs size align

pub NoRoom-append :
    (at : ℕ) (xs ys : Blocks) (size align : ℕ)
    → NoRoom at xs size align
    → NoRoom (at + total xs) ys size align
    → NoRoom at (xs ++ ys) size align
NoRoom-append at [] ys size align p q =
    subst (λ n. NoRoom n ys size align) {x = at + 0} (omega arith) q
NoRoom-append at ((true, s) ∷ xs) ys size align p q = (
  p.0,
  NoRoom-append (at + s) xs ys size align p.1
      (subst (λ n. NoRoom n ys size align) {x = at + (s + total xs)} (omega arith) q),
)
NoRoom-append at ((false, s) ∷ xs) ys size align p q =
    NoRoom-append (at + s) xs ys size align p
      (subst (λ n. NoRoom n ys size align) {x = at + (s + total xs)} (omega arith) q)

-- A size that is larger than what is left finds no room.
pub NoRoom-large :
    (at : ℕ) (xs : Blocks) (size align : ℕ) → total xs ≤ size → NoRoom at xs size align
NoRoom-large at [] size align l = tt
NoRoom-large at ((true, s) ∷ xs) size align l =
    (λ p q. omega (arith, q.0), NoRoom-large (at + s) xs size align (omega arith))
NoRoom-large at ((false, s) ∷ xs) size align l = NoRoom-large (at + s) xs size align (omega arith)

-- The first free block with a place for the payload is cut, and the payload lies in it.
pub record Serves (a : FreeList) (arena : List ℕ) (bs : Blocks) (size align : ℕ) (b : FreeList)
    (arena' : List ℕ) (payload : ℕ) : Type 0 where
  pub before : Blocks
  pub behind : Blocks
  pub block : ℕ
  pub gap : ℕ
  pub taken : ℕ
  pub tail : ℕ
  pub whole : total (pieces gap taken tail) ≡ block
  pub split : bs ≡ before ++ (true, block) ∷ behind
  pub first_fit : NoRoom 0 before size align
  pub heap : IsHeap b arena' (before ++ (pieces gap taken tail ++ behind))
  pub kept : Keeps arena arena' 0 bs
  pub at_payload : payload ≡ total before + gap + 24
  pub payload_aligned : payload % align ≡ 0
  pub room : size + 24 ≤ taken

-- Either nothing has room, and nothing changes, or the first block with room serves.
abbrev pub Answers : FreeList → List ℕ → Blocks → ℕ → ℕ → Option Outcome → Type 0
Answers a arena bs size align o =
    ((o ≡ some (a, arena, none)) × NoRoom 0 bs size align)
    ⊎ ((b : FreeList) × (arena' : List ℕ) × (payload : ℕ) × (o ≡ some (b, arena', some payload))
        × Serves a arena bs size align b arena' payload)
