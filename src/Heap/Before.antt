-- ===== src/Heap/Before.antt =====
-- crates/kernel-memory/src/heap.rs: the blocks before a place in the arena, as a walk along the list
-- knows them: up to the last free one, and those in use behind it. The walk keeps the offset of that
-- free block in `previous`, and a change of the list there writes its header.
use paranuk_os.Base.{
  ℕ, ◌+◌, ◌≤◌, ◌<◌, ◌≡◌, inl, inr, sym, ap, ◌∙◌, true, Option, none, some, List, ◌∷◌, ◌++◌, arith,
  word, length,
}
use paranuk_os.Heap.{magic_free, no_block, read_header}
use paranuk_os.Heap.Headers.{written, read_header-written}
use paranuk_os.Heap.Blocks.{
  Blocks, total, first_free, Holds, AllUsed, total-append, first_free-append, first_free-used,
  Holds-split_start, Holds-append_start, Holds-used,
}
use paranuk_os.Heap.Outside.{
  SameOutside, SameOutside-refl, SameOutside-written, Holds-outside, Keeps, Keeps-outside,
  Keeps-append,
}

-- The blocks before the last free one and its size, if there is one.
abbrev pub LastFree : Type 0
LastFree = Option (Blocks × ℕ)

abbrev pub prefix : LastFree → Blocks → Blocks
prefix none used = used
prefix (some (before, s)) used = before ++ (true, s) ∷ used

abbrev pub previous_of : LastFree → ℕ
previous_of none = no_block
previous_of (some (before, s)) = total before

abbrev pub size_of : LastFree → ℕ
size_of none = 0
size_of (some (before, s)) = s

-- The range of the last free block.
abbrev pub from_of : LastFree → ℕ
from_of none = 0
from_of (some (before, s)) = total before

abbrev pub to_of : LastFree → ℕ
to_of none = 0
to_of (some (before, s)) = total before + s

-- The arena and the head once the list goes on from here with `next`.
abbrev pub relinked : LastFree → List ℕ → ℕ → List ℕ
relinked none arena next = arena
relinked (some (before, s)) arena next = written arena (total before) magic_free s next

abbrev pub head_of : LastFree → ℕ → ℕ → ℕ
head_of none head next = next
head_of (some _) head next = head

pub to_of-le : (q : LastFree) (used : Blocks) → to_of q ≤ total (prefix q used)
to_of-le none used = omega arith
to_of-le (some (before, s)) used = omega (arith, total-append before ((true, s) ∷ used))

-- The head agrees with the blocks as before.
pub first_free-prefix :
    (q : LastFree) (used : Blocks) (end next : ℕ)
    → AllUsed used
    → first_free 0 (prefix q used) next ≡ head_of q (first_free 0 (prefix q used) end) next
first_free-prefix none used end next u = first_free-used 0 used next u
first_free-prefix (some (before, s)) used end next u =
    first_free-append 0 before ((true, s) ∷ used) next
    ∙ sym (first_free-append 0 before ((true, s) ∷ used) end)

-- What is known of the arena up to here.
pub record IsBefore (q : LastFree) (used : Blocks) (arena : List ℕ) (end : ℕ) : Type 0 where
  pub all_used : AllUsed used
  pub holds : Holds arena 0 (prefix q used) end
  pub inside : total (prefix q used) ≤ length arena
  pub small : length arena < word

-- The header of the last free block.
pub last_header :
    (arena : List ℕ) (before used : Blocks) (s end : ℕ)
    → IsBefore (some (before, s)) used arena end
    → (24 < s)
      × (total before + s ≤ length arena)
      × (read_header arena (total before) ≡ some (magic_free, s, end))
last_header arena before used s end v =
    let (_, (ge, _, r, _)) = Holds-split_start arena before ((true, s) ∷ used) end v.holds in
    (
      ge,
      omega (arith, v.inside, total-append before ((true, s) ∷ used)),
      r
          ∙ ap (λ n. some (magic_free, s, n))
              (first_free-used (total before + s) used end v.all_used),
    )

pub SameOutside-relinked :
    (q : LastFree) (used : Blocks) (arena : List ℕ) (end next : ℕ)
    → IsBefore q used arena end
    → SameOutside (from_of q) (to_of q) arena (relinked q arena next)
SameOutside-relinked none used arena end next v = SameOutside-refl 0 0 arena
SameOutside-relinked (some (before, s)) used arena end next v =
    let (ge, le, _) = last_header arena before used s end v in
    SameOutside-written (total before) (total before + s) arena (total before) magic_free s next
      (omega arith) (omega arith) (omega arith)

pub Holds-relinked :
    (q : LastFree) (used : Blocks) (arena : List ℕ) (end next : ℕ)
    → IsBefore q used arena end
    → next < word
    → Holds (relinked q arena next) 0 (prefix q used) next
Holds-relinked none used arena end next v n = Holds-used arena 0 used end next v.all_used v.holds
Holds-relinked (some (before, s)) used arena end next v n =
    let (hb, (ge, m, r, hu)) = Holds-split_start arena before ((true, s) ∷ used) end v.holds in
    let (_, le, _) = last_header arena before used s end v in
    let arena' = relinked (some (before, s)) arena next in
    let same = SameOutside-relinked (some (before, s)) used arena end next v in
    let f : first_free (total before + s) used next ≡ next =
      first_free-used (total before + s) used next v.all_used in
    Holds-append_start arena' before ((true, s) ∷ used) next
      (Holds-outside arena arena' (total before) (total before + s) 0 before (total before) same
        (inl (omega arith)) hb)
      (
        ge,
        m,
        read_header-written arena (total before) magic_free s next (omega arith) v.small
              (omega arith) (omega (arith, v.small)) n
            ∙ ap (λ n. some (magic_free, s, n)) (sym f),
        Holds-used arena' (total before + s) used end next v.all_used (
            Holds-outside arena arena' (total before) (total before + s) (total before + s) used end
              same (inr (omega arith)) hu),
      )

pub Keeps-relinked :
    (q : LastFree) (used : Blocks) (arena : List ℕ) (end next : ℕ)
    → IsBefore q used arena end
    → Keeps arena (relinked q arena next) 0 (prefix q used)
Keeps-relinked none used arena end next v =
    Keeps-outside arena arena 0 0 0 used (SameOutside-refl 0 0 arena) (inr (omega arith))
Keeps-relinked (some (before, s)) used arena end next v =
    let arena' = relinked (some (before, s)) arena next in
    let same = SameOutside-relinked (some (before, s)) used arena end next v in
    Keeps-append arena arena' 0 before ((true, s) ∷ used)
      (Keeps-outside arena arena' (total before) (total before + s) 0 before same
        (inl (omega arith)))
      (Keeps-outside arena arena' (total before) (total before + s) (0 + total before + s) used same
        (inr (omega arith)))
