-- ===== src/Paging/Bodies.antt =====
-- crates/kernel-memory/src/paging.rs: the bodies of the two loops of `build` that map memory.
use paranuk_os.Base.{
  inl, inr, ℕ, suc, ◌+◌, ◌*◌, ◌≤◌, ◌<◌, ◌≡◌, refl, sym, ap, ◌∙◌, not, ◌||◌, true, false, some, List,
  arith, ltb, leb, ◌==◌, length, get_elem?, Bool-cases, Option-cases, bit_or,
}
use paranuk_os.MemoryMap.{MemoryMap, page_size}
use paranuk_os.Paging.{
  Progress, write_entry, fill_block, fill_page, block_size, pd_coverage, pd_entries, table_entry,
  overlaps_ram, large_page,
}
use paranuk_os.Paging.Entries.{block_at, page_at}
use paranuk_os.Paging.Writes.{
  IsInside, IsPages, skip-IsInside, write_entry-IsInside, get_elem?-IsPages, get_elem?-none,
}
use paranuk_os.Paging.Filling.{IsCounted, Steps}

module _ (start : List ℕ) (base tables : ℕ) (entry : ℕ → ℕ)
    (fits : tables * page_size ≤ length start) where
  module _ (map : MemoryMap) (limit first index table : ℕ) (in_tables : first + index < tables)
      (at : table ≡ base + (first + index) * page_size) where
    module _ (slot : ℕ) (p : Progress) (l : slot < 512)
        (v : IsCounted start tables entry ((first + index) * 512 + slot) p) where
      -- The next entry is written.
      writes :
          (value : ℕ)
          → value ≡ entry ((first + index) * 512 + slot)
          → (result : List ℕ) × (write_entry base p.arena table slot value ≡ some result)
            × IsInside start tables entry (suc ((first + index) * 512 + slot)) result
      writes value right =
          write_entry-IsInside start tables entry p.arena base ((first + index) * 512 + slot) table
            slot value fits v.inside
            (record {
              number = first + index;
              in_tables = in_tables;
              address = at;
              in_table = l;
              position = refl;
              right = right;
            })

      -- The next entry stays zero.
      leaves :
          entry ((first + index) * 512 + slot) ≡ 0
          → IsCounted start tables entry (suc ((first + index) * 512 + slot)) p
      leaves z = record {
        inside =
            skip-IsInside start tables entry ((first + index) * 512 + slot)
              (suc ((first + index) * 512 + slot)) p.arena (omega arith) (omega arith)
              (λ n le lt. ap entry {y = (first + index) * 512 + slot} (omega arith) ∙ z) v.inside;
        counted = v.counted;
      }

    pub fill_page-Steps :
        ((slot : ℕ)
          → slot < 512
          → entry ((first + index) * 512 + slot)
            ≡ page_at map limit (index * block_size + slot * page_size))
        → Steps start base tables entry fits (first + index) (fill_page base map limit index table)
    unfolding fill_page
    fill_page-Steps spec slot p l v =
        let address = index * block_size + slot * page_size in
        let write = writes slot p l v in
        let leave = leaves slot p l v in
        elim (Bool-cases (address == 0 || leb limit address)) [
          | inl skip ↦ (p, rw skip refl, leave (spec slot l ∙ rw skip refl))
          | inr near ↦ elim (Bool-cases (not (overlaps_ram map address (address + page_size)))) [
            | inl apart ↦ (p, rw (near, apart) refl, leave (spec slot l ∙ rw (near, apart) refl))
            | inr meets ↦
                let (a, f, w) =
                  write (table_entry address) (sym (spec slot l ∙ rw (near, meets) refl)) in
                (
                  record p {
                    arena = a;
                    pages = p.pages + 1;
                    mapped_bytes = p.mapped_bytes + page_size;
                  },
                  rw (near, meets, f) refl,
                  record { inside = w; counted = omega (arith, v.counted) },
                )
          ]
        ]

    module _ (pts : List ℕ) (pd_count : ℕ) (all : IsPages base (2 + pd_count) pts)
        (spec : (slot : ℕ)
          → slot < 512
          → entry ((first + index) * 512 + slot)
            ≡ block_at base map limit pd_count
                (length pts)
                (index * pd_entries + slot)
                (index * pd_coverage + slot * block_size)) where
      pub fill_block-Steps :
          Steps start base tables entry fits
            (first + index)
            (fill_block base map limit pts index table)
      unfolding fill_block
      fill_block-Steps slot p l v =
          let number = index * pd_entries + slot in
          let address = index * pd_coverage + slot * block_size in
          let write = writes slot p l v in
          elim (Option-cases (get_elem? pts number)) [
            | inr (pt, e) ↦
                let (h, lt) = get_elem?-IsPages base (2 + pd_count) number pt pts all e in
                let t : ltb number (length pts) ≡ true = ground (arith, lt) in
                let (a, f, w) =
                  write (table_entry pt) (ap table_entry h ∙ sym (spec slot l ∙ rw t refl)) in
                (
                  record p { arena = a },
                  rw (e, fill_block, f) refl,
                  record { inside = w; counted = v.counted },
                )
            | inl e ↦
                let le = get_elem?-none pts number e in
                let t : ltb number (length pts) ≡ false = ground (arith, le) in
                elim (Bool-cases
                  (leb limit address || not (overlaps_ram map address (address + block_size)))) [
                    | inl skip ↦ (
                      p,
                      rw (e, fill_block, skip) refl,
                      leaves slot p l v (spec slot l ∙ rw (t, skip) refl),
                    )
                    | inr no_skip ↦
                        let (a, f, w) =
                          write (bit_or (table_entry address) large_page)
                            (sym (spec slot l ∙ rw (t, no_skip) refl)) in
                        (
                          record p {
                            arena = a;
                            blocks = p.blocks + 1;
                            mapped_bytes = p.mapped_bytes + block_size;
                          },
                          rw (e, fill_block, no_skip, f) refl,
                          record { inside = w; counted = omega (arith, v.counted) },
                        )
                  ]
          ]
