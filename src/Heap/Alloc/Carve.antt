-- ===== src/Heap/Alloc/Carve.antt =====
-- crates/kernel-memory/src/heap.rs: the headers that `alloc` writes into a free block.
use paranuk_os.Base.{
  ℕ, ◌+◌, ◌%◌, ◌≤◌, ◌<◌, ◌≡◌, ◌⊎◌, inl, inr, refl, sym, ap, ◌∙◌, subst, Bool, true, false, some,
  List, [], ◌∷◌, ◌++◌, arith, word, ltb, leb, if◌then◌else◌, length,
}
use paranuk_os.Heap.{magic_free, magic_alloc, no_block, read_header, write_header}
use paranuk_os.Heap.Headers.{
  written, write_header-written, read_header-written, read_header-written_apart, length-written,
}
use paranuk_os.Heap.Blocks.{Blocks, first_free, Holds}
use paranuk_os.Heap.Outside.{SameOutside, SameOutside-trans, SameOutside-written, Holds-outside}
use paranuk_os.Heap.Alloc.{Cut, write_tail, write_front}

-- The blocks that a free block is cut into: the gap before the payload and the tail behind it, where
-- they are blocks, and the block in use.
abbrev pub front : ℕ → Blocks
front gap = if ltb 0 gap then (true, gap) ∷ [] else []

abbrev pub behind : ℕ → Blocks
behind tail = if leb 40 tail then (true, tail) ∷ [] else []

abbrev pub pieces : ℕ → ℕ → ℕ → Blocks
pieces gap size tail = front gap ++ (false, size) ∷ behind tail

-- How a free block of `s` bytes is cut, with `size` bytes for the block in use.
pub record IsCut (arena : List ℕ) (k : Cut) (s size : ℕ) : Type 0 where
  pub inside : k.current + s ≤ length arena
  pub small : length arena < word
  pub next_small : k.next < word
  pub gap_block : (k.front_gap ≡ 0) ⊎ (40 ≤ k.front_gap)
  pub gap_aligned : k.front_gap % 8 ≡ 0
  pub size_block : 24 < size
  pub size_aligned : size % 8 ≡ 0
  pub tail_block :
      ((k.tail < 40) × (k.front_gap + size ≡ s))
      ⊎ ((40 ≤ k.tail)
          × (k.tail % 8 ≡ 0)
          × (k.front_gap + size + k.tail ≡ s)
          × (k.tail_start ≡ k.current + k.front_gap + size))

module _ (arena : List ℕ) (k : Cut) (s size : ℕ) (c : IsCut arena k s size) where
  abbrev in_use : ℕ
  in_use = k.current + k.front_gap

  pub allocated : List ℕ
  allocated = written arena in_use magic_alloc size no_block

  room : (in_use + 24 ≤ length arena) × (k.front_gap + size ≤ s)
  room = ground (arith, c.inside, c.size_block, c.tail_block)

  pub write_header-allocated : write_header arena in_use magic_alloc size no_block ≡ some allocated
  unfolding allocated
  write_header-allocated = write_header-written arena in_use magic_alloc size no_block room.0

  length-allocated : length allocated ≡ length arena
  unfolding allocated
  length-allocated = length-written arena in_use magic_alloc size no_block room.0

  same-allocated : SameOutside k.current (k.current + s) arena allocated
  unfolding allocated
  same-allocated =
      SameOutside-written k.current (k.current + s) arena in_use magic_alloc size no_block room.0
        (omega arith) (omega (arith, room.1, c.size_block))

  read-allocated : read_header allocated in_use ≡ some (magic_alloc, size, no_block)
  unfolding allocated
  read-allocated =
      read_header-written arena in_use magic_alloc size no_block room.0 c.small (omega arith)
        (omega (arith, room.1, c.inside, c.small)) (omega arith)

  -- What holds of the arena and of the rest of the list once the blocks from `at` on are written.
  pub record IsWritten (at : ℕ) (bs : Blocks) (xs : List ℕ) (link : ℕ) : Type 0 where
    pub same : SameOutside k.current (k.current + s) arena xs
    pub held : Holds xs at bs k.next
    pub link_eq : link ≡ first_free at bs k.next
    pub link_small : link < word

  pub tail_lem :
      (xs : List ℕ) × (link : ℕ) × (write_tail k allocated ≡ some (xs, link))
      × IsWritten in_use ((false, size) ∷ behind k.tail) xs link
  unfolding write_tail
  tail_lem = elim c.tail_block [
    | inl (no_tail, e) ↦
        let f : leb 40 k.tail ≡ false = ground arith in
        (
          allocated,
          k.next,
          rw f refl,
          subst
              (λ (b : Bool).
                IsWritten in_use ((false, size) ∷ (if b then (true, k.tail) ∷ [] else [])) allocated
                  k.next)
              (sym f)
              (record {
                same = same-allocated;
                held = (c.size_block, c.size_aligned, read-allocated, tt);
                link_eq = refl;
                link_small = c.next_small;
              }),
        )
    | inr (has_tail, m, e, at) ↦
        let f : leb 40 k.tail ≡ true = ground arith in
        let fits : k.tail_start + 24 ≤ length allocated =
          omega (arith, length-allocated, c.inside) in
        let xs = written allocated k.tail_start magic_free k.tail k.next in
        (
          xs,
          k.tail_start,
          rw f
              (rw (write_header-written allocated k.tail_start magic_free k.tail k.next fits) refl),
          subst
              (λ (b : Bool).
                IsWritten in_use ((false, size) ∷ (if b then (true, k.tail) ∷ [] else [])) xs
                  k.tail_start)
              (sym f)
              (record {
                same = SameOutside-trans same-allocated (
                    SameOutside-written k.current (k.current + s) allocated k.tail_start magic_free
                      k.tail k.next fits (omega arith) (omega arith));
                held = (
                  c.size_block,
                  c.size_aligned,
                  read_header-written_apart allocated k.tail_start magic_free k.tail k.next in_use
                        fits (inl (omega (arith, c.size_block)))
                      ∙ read-allocated,
                  (
                    omega arith,
                    m,
                    ap (read_header xs) (sym at)
                        ∙ read_header-written allocated k.tail_start magic_free k.tail k.next fits
                            (omega (arith, length-allocated, c.small)) (omega arith)
                            (omega (arith, c.inside, c.small)) c.next_small,
                    tt,
                  ),
                );
                link_eq = at;
                link_small = omega (arith, length-allocated, c.small);
              }),
        )
  ]

  pub front_lem :
      (xs : List ℕ) (link : ℕ)
      → IsWritten in_use ((false, size) ∷ behind k.tail) xs link
      → (ys : List ℕ) × (head : ℕ) × (write_front k (xs, link) ≡ some (ys, head))
        × IsWritten k.current (pieces k.front_gap size k.tail) ys head
  unfolding write_front
  front_lem xs link w = elim c.gap_block [
    | inl no_gap ↦
        let f : ltb 0 k.front_gap ≡ false = ground arith in
        (
          xs,
          link,
          rw f refl,
          subst
              (λ (b : Bool).
                IsWritten k.current
                  ((if b then (true, k.front_gap) ∷ [] else []) ++ (false, size) ∷ behind k.tail) xs
                  link)
              (sym f)
              (subst (λ n. IsWritten n ((false, size) ∷ behind k.tail) xs link) {x = in_use}
                (omega arith) w),
        )
    | inr has_gap ↦
        let f : ltb 0 k.front_gap ≡ true = ground arith in
        let fits : k.current + 24 ≤ length xs =
          omega (arith, w.same.same_length, c.inside, room.1) in
        let ys = written xs k.current magic_free k.front_gap link in
        let apart : SameOutside k.current in_use xs ys =
          SameOutside-written k.current in_use xs k.current magic_free k.front_gap link fits
            (omega arith) (omega arith) in
        (
          ys,
          k.current,
          rw f (rw (write_header-written xs k.current magic_free k.front_gap link fits) refl),
          subst
              (λ (b : Bool).
                IsWritten k.current
                  ((if b then (true, k.front_gap) ∷ [] else []) ++ (false, size) ∷ behind k.tail) ys
                  k.current)
              (sym f)
              (record {
                same = SameOutside-trans w.same (
                    SameOutside-written k.current (k.current + s) xs k.current magic_free
                      k.front_gap link fits (omega arith) (omega (arith, room.1, c.size_block)));
                held = (
                  omega arith,
                  c.gap_aligned,
                  read_header-written xs k.current magic_free k.front_gap link fits
                        (omega (arith, w.same.same_length, c.small)) (omega arith)
                        (omega (arith, room.1, c.inside, c.small)) w.link_small
                      ∙ ap (λ n. some (magic_free, k.front_gap, n)) w.link_eq,
                  Holds-outside xs ys k.current in_use in_use ((false, size) ∷ behind k.tail) k.next
                      apart (inr (omega arith)) w.held,
                );
                link_eq = refl;
                link_small = omega (arith, c.inside, c.small);
              }),
        )
  ]
