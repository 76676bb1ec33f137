-- ===== src/Heap/Alloc/Search.antt =====
-- crates/kernel-memory/src/heap.rs: the search of `alloc` along the list.
use paranuk_os.Base.{
  ℕ, zero, suc, ◌+◌, ◌/◌, ◌≤◌, ◌<◌, ◌≡◌, inl, inr, refl, sym, ap, ◌∙◌, subst, true, false, none,
  some, List, [], ◌∷◌, ◌++◌, append_assoc, append-nil, arith, word, add_word, ltb, ◌==◌, length,
  Bool-cases,
}
use native.Mathlib.Decide.{dec_le}
use paranuk_os.Heap.{FreeList, no_block, is_power_of_two, max_align, max_blocks, arena_matches}
use paranuk_os.Heap.Blocks.{
  Blocks, total, first_free, IsHeap, AllUsed, total-append, Holds-split_start,
}
use paranuk_os.Heap.Sizes.{Holds-sizes}
use paranuk_os.Heap.Before.{LastFree, prefix, previous_of}
use paranuk_os.Heap.Alloc.{free_block, search_from, alloc, fitted}
use paranuk_os.Heap.Alloc.Place.{Places, place_lem}
use paranuk_os.Heap.Alloc.Room.{NoRoom, NoRoom-append, NoRoom-large, Answers}
use paranuk_os.Heap.Alloc.Fitted.{fitted_lem}

prefix-used :
    (q : LastFree) (used rest : Blocks) (s : ℕ)
    → prefix q (used ++ (false, s) ∷ []) ++ rest ≡ prefix q used ++ (false, s) ∷ rest
prefix-used none used rest s = append_assoc used ((false, s) ∷ []) rest
prefix-used (some (before, t)) used rest s =
    ap (λ bs. bs ++ rest) (sym (append_assoc before ((true, t) ∷ used) ((false, s) ∷ [])))
    ∙ append_assoc (before ++ (true, t) ∷ used) ((false, s) ∷ []) rest

AllUsed-snoc : (used : Blocks) (s : ℕ) → AllUsed used → AllUsed (used ++ (false, s) ∷ [])
AllUsed-snoc [] s u = tt
AllUsed-snoc ((true, t) ∷ used) s u = elim u [ ]
AllUsed-snoc ((false, t) ∷ used) s u = AllUsed-snoc used s u

module _ (a : FreeList) (arena : List ℕ) (size align : ℕ) (pos : 0 < size)
    (power : is_power_of_two align ≡ true) (limit : align ≤ 4096)
    (small : length arena < 9223372036854775808) where
  -- The header of the block that the search stands at is accepted.
  free_block_lem :
      (xs ys : Blocks) (s : ℕ)
      → IsHeap a arena (xs ++ (true, s) ∷ ys)
      → free_block a arena (total xs) ≡ some (total xs + s, first_free (total xs + s) ys no_block)
  unfolding free_block
  free_block_lem xs ys s v =
      let (_, (ge, _, r, _)) = Holds-split_start arena xs ((true, s) ∷ ys) no_block v.holds in
      let l : total xs + s ≤ a.arena_len =
        omega (arith, v.tiled, total-append xs ((true, s) ∷ ys)) in
      let e1 : ltb s 24 ≡ false = ground (arith, ge) in
      let e2 : add_word (total xs) s ≡ some (total xs + s) = ground (arith, v.aligned) in
      let e3 : ltb a.arena_len (total xs + s) ≡ false = ground arith in
      rw (r, free_block, e1, e2, e3) refl

  -- What a round does at a free block whose gap is known.
  module _ (xs ys : Blocks) (s gap previous rounds : ℕ) (v : IsHeap a arena (xs ++ (true, s) ∷ ys))
      (pl : Places (total xs) size align gap) where
    abbrev next : ℕ
    next = first_free (total xs + s) ys no_block

    abbrev end : ℕ
    end = total xs + 24 + gap + size

    in_arena : total xs + (s + total ys) ≤ length arena
    in_arena = omega (arith, v.tiled, v.aligned, total-append xs ((true, s) ∷ ys))

    in_list : (total xs == no_block) ≡ false
    in_list = ground (arith, in_arena, v.small)

    round_overflow :
        word ≤ end
        → search_from a arena size align (suc rounds) previous (total xs) ≡ some (a, arena, none)
    unfolding search_from
    round_overflow o =
        let e : add_word (total xs + 24 + gap) size ≡ none = ground arith in
        rw (in_list, free_block_lem xs ys s v, pl.1, e) refl

    module _ (w : end < word) where
      added : add_word (total xs + 24 + gap) size ≡ some end
      added = ground arith

      round_next :
          total xs + s < end
          → search_from a arena size align (suc rounds) previous (total xs)
            ≡ search_from a arena size align rounds (total xs) next
      unfolding search_from
      round_next o =
          let t : ltb (total xs + s) end ≡ true = ground arith in
          rw (in_list, free_block_lem xs ys s v, pl.1, added, t) refl

      round_fits :
          end ≤ total xs + s
          → search_from a arena size align (suc rounds) previous (total xs)
            ≡ fitted a arena previous
                (total xs)
                (total xs + s, next)
                (total xs + 24 + gap, end, gap)
      unfolding search_from
      round_fits o =
          let t : ltb (total xs + s) end ≡ false = ground arith in
          rw (in_list, free_block_lem xs ys s v, pl.1, added, t) refl

    large : NoRoom 0 xs size align → word ≤ end → NoRoom 0 (xs ++ (true, s) ∷ ys) size align
    large n o = NoRoom-append 0 xs ((true, s) ∷ ys) size align n (
        NoRoom-large (0 + total xs) ((true, s) ∷ ys) size align
          (omega (arith, in_arena, pl.0.gap_bound)))

    passed :
        NoRoom 0 xs size align → total xs + s < end → NoRoom 0 (xs ++ (true, s) ∷ []) size align
    passed n o = NoRoom-append 0 xs ((true, s) ∷ []) size align n (
        subst (λ k. NoRoom k ((true, s) ∷ []) size align) {x = total xs} (omega arith)
          (λ p h. omega (arith, pl.0.least p h), tt))

  -- The answer of the search at each place of the list, with enough rounds to reach its end.
  search_lem :
      (rest : Blocks) (q : LastFree) (used : Blocks) (rounds : ℕ)
      → AllUsed used
      → IsHeap a arena (prefix q used ++ rest)
      → NoRoom 0 (prefix q used) size align
      → length rest ≤ rounds
      → Answers a arena (prefix q used ++ rest) size align (
          search_from a arena size align rounds
            (previous_of q)
            (first_free (total (prefix q used)) rest no_block))
  unfolding search_from
  search_lem [] q used zero u v n l =
      inl (refl, subst (λ bs. NoRoom 0 bs size align) (sym (append-nil (prefix q used))) n)
  search_lem [] q used (suc rounds) u v n l =
      inl (refl, subst (λ bs. NoRoom 0 bs size align) (sym (append-nil (prefix q used))) n)
  search_lem ((false, s) ∷ rest) q used rounds u v n l =
      let more = used ++ (false, s) ∷ [] in
      let e = prefix-used q used rest s in
      let more_eq : prefix q more ≡ prefix q used ++ (false, s) ∷ [] =
        sym (append-nil (prefix q more)) ∙ prefix-used q used [] s in
      let t : total (prefix q more) ≡ total (prefix q used) + s =
        ap total more_eq ∙ omega (arith, total-append (prefix q used) ((false, s) ∷ [])) in
      subst
        (λ bs. Answers a arena bs size align (
          search_from a arena size align rounds (previous_of q)
            (first_free (total (prefix q used) + s) rest no_block)))
        e
        (subst
          (λ k.
            Answers a arena (prefix q more ++ rest) size align
              (search_from a arena size align rounds (previous_of q) (first_free k rest no_block)))
          t
          (search_lem rest q more rounds (AllUsed-snoc used s u) (subst (IsHeap a arena) (sym e) v)
            (subst (λ bs. NoRoom 0 bs size align) (sym more_eq)
              (NoRoom-append 0 (prefix q used) ((false, s) ∷ []) size align n tt))
            (omega arith)))
  search_lem ((true, s) ∷ rest) q used zero u v n l = absurd (omega arith)
  search_lem ((true, s) ∷ rest) q used (suc rounds) u v n l =
      let xs = prefix q used in
      let (before, _) = Holds-split_start arena xs ((true, s) ∷ rest) no_block v.holds in
      let (gap, pl) =
        place_lem (total xs) size align (Holds-sizes arena 0 xs (total xs) before).1 power limit
          (omega (arith, v.tiled, v.aligned, total-append xs ((true, s) ∷ rest))) in
      let bs = xs ++ (true, s) ∷ rest in
      let end = total xs + 24 + gap + size in
      elim (dec_le word end) [
        | yes o ↦ inl (
          round_overflow xs rest s gap (previous_of q) rounds v pl o,
          large xs rest s gap (previous_of q) rounds v pl n o,
        )
        | no o ↦
            let w : end < word = omega arith in
            elim (dec_le end (total xs + s)) [
              | yes f ↦
                  subst (Answers a arena bs size align)
                    (sym (round_fits xs rest s gap (previous_of q) rounds v pl w f))
                    (fitted_lem a arena q used rest s size align gap u v n small pos pl.0 f)
              | no f ↦
                  let e : (xs ++ (true, s) ∷ []) ++ rest ≡ bs =
                    append_assoc xs ((true, s) ∷ []) rest in
                  subst (Answers a arena bs size align)
                    (sym (round_next xs rest s gap (previous_of q) rounds v pl w (omega arith)))
                    (subst
                      (λ cs. Answers a arena cs size align (
                        search_from a arena size align rounds (total xs)
                          (first_free (total xs + s) rest no_block)))
                      e
                      (subst
                        (λ k. Answers a arena ((xs ++ (true, s) ∷ []) ++ rest) size align (
                          search_from a arena size align rounds (total xs)
                            (first_free k rest no_block)))
                        {x = total (xs ++ (true, s) ∷ [])}
                        (omega (arith, total-append xs ((true, s) ∷ [])))
                        (search_lem rest (some (xs, s)) [] rounds tt
                          (subst (IsHeap a arena) (sym e) v)
                          (passed xs rest s gap (previous_of q) rounds v pl n (omega arith))
                          (omega arith))))
            ]
      ]

  -- The guards let such a request pass, but for an empty list, on which the search fails at once.
  alloc-search :
      arena_matches a arena ≡ true
      → alloc a arena size align ≡ search_from a arena size align (max_blocks a) no_block a.head
  unfolding alloc search_from
  alloc-search matches =
      let e1 : (size == 0) ≡ false = ground (arith, pos) in
      let e2 : ltb max_align align ≡ false = ground (arith, limit) in
      let e3 : max_blocks a ≡ suc (a.arena_len / 8 + 1) = omega arith in
      elim (Bool-cases (a.head == no_block)) [
        | inl h ↦ rw (e1, power, e2, h, e3, h) refl
        | inr h ↦ rw (e1, power, e2, h, matches) refl
      ]

  -- On a valid heap in an arena below 2^63 bytes, for a positive size and a power of two of at most
  -- 4096 as alignment, `alloc` does not panic. Either no free block has a place for the payload, and it
  -- returns nothing and changes nothing; or the first free block that has one is cut, the payload lies
  -- in it aligned and with its whole size, the heap is valid with the pieces in the block's place, and
  -- no byte of a block in use changes.
  pub alloc-first_fit :
      (bs : Blocks) → IsHeap a arena bs → Answers a arena bs size align (alloc a arena size align)
  unfolding alloc
  alloc-first_fit bs v =
      let found =
        search_lem bs none [] (max_blocks a) tt v tt
          (omega (arith, v.tiled, (Holds-sizes arena 0 bs no_block v.holds).0)) in
      let matches : arena_matches a arena ≡ true = ground (arith, v.aligned) in
      let head : first_free (total []) bs no_block ≡ a.head = sym v.first in
      subst (Answers a arena bs size align)
        (ap (search_from a arena size align (max_blocks a) no_block) head
          ∙ sym (alloc-search matches))
        found
