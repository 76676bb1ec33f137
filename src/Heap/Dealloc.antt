-- ===== src/Heap/Dealloc.antt =====
-- crates/kernel-memory/src/heap.rs: `FreeList::dealloc`.
pub mod Around
pub mod Next
pub mod Previous
pub mod Merge
pub mod Release
pub mod Refused
use paranuk_os.Base.{
  ℕ, zero, suc, ◌+◌, ◌-◌, ◌%◌, Bool, true, false, not, ◌&&◌, ◌||◌, Option, none, some, List, Result,
  ok, err, ◌>>=◌, add_word, ltb, leb, ◌==◌, if◌then◌else◌,
}
use paranuk_os.Heap.{
  FreeList, FreeListError, out_of_arena, already_free, not_allocated, corrupted, header_size,
  header_align, magic_free, magic_alloc, no_block, read_header, write_header, arena_matches,
  max_blocks, recompute,
}

abbrev pub Outcome : Type 0
Outcome = FreeList × List ℕ × Result FreeListError (Unit {0})

abbrev pub refused : FreeList → List ℕ → FreeListError → Option Outcome
refused a arena e = some (a, arena, err e)

-- The loop of `previous_free`, with the rounds that the guard leaves.
pub previous_free_from : List ℕ → ℕ → ℕ → ℕ → ℕ → Option ℕ
previous_free_from arena target zero previous current = none
previous_free_from arena target (suc rounds) previous current =
    let rest = read_header arena current >>= λ header.
    previous_free_from arena target rounds current header.2 in
    if current == no_block then none else if current == target then some previous else rest

pub previous_free : FreeList → List ℕ → ℕ → Option ℕ
unfolding previous_free_from
previous_free a arena target = previous_free_from arena target (max_blocks a) no_block a.head

-- The loop that looks for the place in the list, with the rounds that the guard leaves: the free
-- blocks around the freed one, `header` to `block_end`.
pub around : FreeList → List ℕ → ℕ → ℕ → ℕ → ℕ → ℕ → ℕ → Option (Result FreeListError (ℕ × ℕ))
around a arena offset header block_end zero previous current =
    if current == no_block then some (ok (previous, current)) else some (err (corrupted current))
around a arena offset header block_end (suc rounds) previous current =
    if current == no_block
    then some (ok (previous, current))
    else elim (read_header arena current) [
      | none ↦ some (err (corrupted current))
      | some (magic, size, next) ↦
          if not (magic == magic_free) || ltb size header_size
          then some (err (corrupted current))
          else do
            end ← add_word current size
            let rest = around a arena offset header block_end rounds current next
            if ltb a.arena_len end
                then some (err (corrupted current))
                else if leb header current
                then some (
                    if ltb current block_end
                    then err (already_free offset)
                    else ok (previous, current))
                else if ltb header end
                then some (err (already_free offset))
                else rest
    ]

-- The freed block with the free one behind it: its size, and the block that the list goes on with.
pub swallow_next : List ℕ → ℕ → ℕ → ℕ → Result FreeListError (ℕ × ℕ)
swallow_next arena block_size block_end current =
    if not (current == no_block) && block_end == current
    then elim (read_header arena current) [
      | none ↦ err (corrupted current)
      | some (_, next_size, next_next) ↦ ok (block_size + next_size, next_next)
    ]
    else ok (block_size, current)

-- The same with the free block before it: the start, the size, and the block before that.
pub swallow_previous : FreeList → List ℕ → ℕ → ℕ → ℕ → Result FreeListError (ℕ × ℕ × ℕ)
swallow_previous a arena header size previous =
    if previous == no_block
    then ok (header, size, previous)
    else elim (read_header arena previous) [
      | none ↦ err (corrupted previous)
      | some (_, previous_size, _) ↦
          if previous + previous_size == header
          then elim (previous_free a arena previous) [
            | none ↦ err (corrupted previous)
            | some before ↦ ok (previous, size + previous_size, before)
          ]
          else ok (header, size, previous)
    ]

-- The writes at the end of `dealloc`.
pub insert : FreeList → List ℕ → ℕ → ℕ → ℕ → ℕ → Option Outcome
insert a arena start size previous current = do
  written ← write_header arena start magic_free size current
  if previous == no_block
      then (do
        counted ← recompute (record a { head = start }) written
        some (counted, written, ok tt))
      else elim (read_header written previous) [
        | none ↦ refused a written (corrupted previous)
        | some (_, previous_size, _) ↦ do
          linked ← write_header written previous magic_free previous_size start
          counted ← recompute a linked
          some (counted, linked, ok tt)
      ]

-- What is done once the neighbours in the list are known.
pub merge : FreeList → List ℕ → ℕ → ℕ → ℕ → ℕ × ℕ → Option Outcome
unfolding swallow_next swallow_previous insert
merge a arena header block_size block_end (previous, current) =
    elim (swallow_next arena block_size block_end current) [
      | err e ↦ refused a arena e
      | ok (size, after) ↦ elim (swallow_previous a arena header size previous) [
        | err e ↦ refused a arena e
        | ok (start, whole, before) ↦ insert a arena start whole before after
      ]
    ]

-- The check of the header, and what follows.
pub release : FreeList → List ℕ → ℕ → ℕ → Option Outcome
release a arena offset header = elim (read_header arena header) [
  | none ↦ refused a arena (corrupted header)
  | some (magic, block_size, _) ↦
      if magic == magic_free
      then refused a arena (already_free offset)
      else if not (magic == magic_alloc)
      then refused a arena (not_allocated offset)
      else elim (add_word header block_size) [
        | none ↦ refused a arena (corrupted header)
        | some block_end ↦
            if ltb block_size header_size || ltb a.arena_len block_end
            then refused a arena (corrupted header)
            else do
              found ← around a arena offset header block_end (max_blocks a) no_block a.head
              elim found [
                | err e ↦ refused a arena e
                | ok neighbours ↦ merge a arena header block_size block_end neighbours
              ]
      ]
]

pub dealloc : FreeList → List ℕ → ℕ → Option Outcome
dealloc a arena offset =
    if not (arena_matches a arena)
      || (ltb offset header_size || (leb a.arena_len offset || not (offset % header_align == 0)))
    then refused a arena (out_of_arena offset)
    else release a arena offset (offset - header_size)
