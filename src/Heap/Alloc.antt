-- ===== src/Heap/Alloc.antt =====
-- crates/kernel-memory/src/heap.rs: `FreeList::alloc`.
pub mod Carve
pub mod Placed
pub mod Place
pub mod Room
pub mod Fitted
pub mod Search
use paranuk_os.Base.{
  ℕ, zero, suc, ◌+◌, ◌-◌, Bool, true, false, not, ◌&&◌, ◌||◌, Option, none, some, List, ◌>>=◌,
  add_word, sub_word, ltb, leb, ◌==◌, if◌then◌else◌,
}
use paranuk_os.Heap.{
  FreeList, header_size, min_block, header_align, max_align, magic_free, magic_alloc, no_block,
  read_header, write_header, align_up, is_power_of_two, arena_matches, max_blocks, recompute,
}

-- The state after `alloc`, the arena, and what is returned.
abbrev pub Outcome : Type 0
Outcome = FreeList × List ℕ × Option ℕ

abbrev pub failed : FreeList → List ℕ → Option Outcome
failed a arena = some (a, arena, none)

-- The checks of a block in the list: where it ends, and the next block.
unfoldable pub free_block : FreeList → List ℕ → ℕ → Option (ℕ × ℕ)
free_block a arena current = do
  (magic, block_size, next) ← read_header arena current
  if not (magic == magic_free) || ltb block_size header_size then none else do
    block_end ← add_word current block_size
    if ltb a.arena_len block_end then none else some (block_end, next)

-- Where the payload goes in a block: its start and end, and the gap before its header.
unfoldable pub place : ℕ → ℕ → ℕ → Option (ℕ × ℕ × ℕ)
place current size align = do
  let payload_min = current + header_size
  first ← align_up payload_min align
  let near = first - payload_min
  payload ←
      (if ltb 0 near && ltb near min_block
        then (add_word payload_min min_block >>= λ far. align_up far align)
        else some first)
  payload_end ← add_word payload size
  some (payload, payload_end, payload - payload_min)

-- The block that is cut: its neighbours in the list, its bounds, and the payload's place.
pub record Cut : Type 0 where
  pub previous : ℕ
  pub current : ℕ
  pub next : ℕ
  pub block_end : ℕ
  pub payload : ℕ
  pub front_gap : ℕ
  pub tail_start : ℕ
  pub tail : ℕ
  pub previous_size : ℕ

-- The header of the block behind the payload, where one is split off, and the block that the list
-- goes on with.
unfoldable pub write_tail : Cut → List ℕ → Option (List ℕ × ℕ)
write_tail c arena =
    if leb min_block c.tail
    then (write_header arena c.tail_start magic_free c.tail c.next >>= λ written.
        some (written, c.tail_start))
    else some (arena, c.next)

unfoldable pub write_front : Cut → List ℕ × ℕ → Option (List ℕ × ℕ)
write_front c (arena, new_next) =
    if ltb 0 c.front_gap
    then (write_header arena c.current magic_free c.front_gap new_next >>= λ written.
        some (written, c.current))
    else some (arena, new_next)

unfoldable pub link : FreeList → Cut → List ℕ × ℕ → Option (FreeList × List ℕ)
link a c (arena, new_next) =
    if c.previous == no_block
    then some (record a { head = new_next }, arena)
    else (write_header arena c.previous magic_free c.previous_size new_next >>= λ written.
        some (a, written))

unfoldable pub carve : FreeList → List ℕ → Cut → Option Outcome
unfolding write_tail write_front link
carve a arena c = do
  let header_offset = c.payload - header_size
  let alloc_size = (if leb min_block c.tail then c.tail_start else c.block_end) - header_offset
  allocated ← write_header arena header_offset magic_alloc alloc_size no_block
  with_tail ← write_tail c allocated
  with_front ← write_front c with_tail
  (linked, written) ← link a c with_front
  counted ← recompute linked written
  some (counted, written, some c.payload)

-- `if previous == NONE { 0 } else { read_header(arena, previous)?.1 }`
unfoldable pub size_before : List ℕ → ℕ → Option ℕ
size_before arena previous =
    if previous == no_block then some 0 else do (_, size, _) ← read_header arena previous; some size

-- The rest of a round, once the payload fits.
unfoldable pub fitted : FreeList → List ℕ → ℕ → ℕ → ℕ × ℕ → ℕ × ℕ × ℕ → Option Outcome
unfolding size_before
fitted a arena previous current (block_end, next) (payload, payload_end, front_gap) =
    elim (align_up payload_end header_align) [
      | none ↦ failed a arena
      | some tail_start ↦ elim (sub_word block_end tail_start) [
        | none ↦ failed a arena
        | some tail ↦ elim (size_before arena previous) [
          | none ↦ failed a arena
          | some previous_size ↦ carve a arena (record {
            previous = previous;
            current = current;
            next = next;
            block_end = block_end;
            payload = payload;
            front_gap = front_gap;
            tail_start = tail_start;
            tail = tail;
            previous_size = previous_size;
          })
        ]
      ]
    ]

-- The loop, with the rounds that the guard leaves.
unfoldable pub search_from : FreeList → List ℕ → ℕ → ℕ → ℕ → ℕ → ℕ → Option Outcome
search_from a arena size align zero previous current = failed a arena
search_from a arena size align (suc rounds) previous current =
    if current == no_block then failed a arena else elim (free_block a arena current) [
      | none ↦ failed a arena
      | some (block_end, next) ↦ elim (place current size align) [
        | none ↦ failed a arena
        | some (payload, payload_end, front_gap) ↦
            let rest = search_from a arena size align rounds current next in
            let found =
              fitted a arena previous current (block_end, next) (payload, payload_end, front_gap) in
            if ltb block_end payload_end then rest else found
      ]
    ]

unfoldable pub alloc : FreeList → List ℕ → ℕ → ℕ → Option Outcome
alloc a arena size align =
    if size == 0
      || (not (is_power_of_two align)
          || (ltb max_align align || (a.head == no_block || not (arena_matches a arena))))
    then failed a arena
    else search_from a arena size align (max_blocks a) no_block a.head
