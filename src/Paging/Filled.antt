-- ===== src/Paging/Filled.antt =====
-- crates/kernel-memory/src/paging.rs: what `build` does once its checks have passed.
use paranuk_os.Base.{
  drop, ap, subst, ℕ, ◌+◌, ◌*◌, ◌≤◌, ◌<◌, ◌≡◌, refl, sym, ◌∙◌, min, true, some, List, arith, word,
  add_word, leb, length, length-replicate, length-patch, drop-patch_after, replicate, patch,
  copy_into,
}
use paranuk_os.Frame.{div_ceil}
use paranuk_os.MemoryMap.{MemoryMap, page_size}
use paranuk_os.Paging.{
  Progress, PagingConfig, PageTables, block_size, pd_coverage, pd_entries, pdpt_coverage,
  max_identity_supported, table_entry, write_entry, link_pds, fill_tables, fill_block, fill_page,
  fill,
}
use paranuk_os.Paging.Steps.{tables_of, entries_of, take-drop-replicate, fill-steps}
use paranuk_os.Paging.Entries.{
  block_at, entry_of-unused_top, entry_of-directory, entry_of-unused_directory, entry_of-block,
  entry_of-page,
}
use paranuk_os.Paging.Writes.{
  IsInside, IsPages, skip-IsInside, write_entry-IsInside, take_pages-IsPages,
}
use paranuk_os.Paging.Filling.{IsCounted, link_pds-IsInside, fill_tables-IsCounted}
use paranuk_os.Paging.Bodies.{fill_block-Steps, fill_page-Steps}

module _ (base : ℕ) (arena : List ℕ) (map : MemoryMap) (config : PagingConfig)
    (mapped : base + length arena ≤ word) where
  abbrev needed : ℕ
  needed = tables_of config * page_size

  module _ (enough : tables_of config * page_size ≤ length arena)
      (identity : config.max_identity_bytes ≤ max_identity_supported)
      (pos : 0 < config.max_identity_bytes) where
    one_top : div_ceil config.max_identity_bytes pdpt_coverage ≡ 1
    one_top = omega arith

    module _ (limit : ℕ) where
      abbrev tables : ℕ
      tables = tables_of config

      abbrev pd_count : ℕ
      pd_count = div_ceil config.max_identity_bytes pd_coverage

      abbrev pt_count : ℕ
      pt_count = div_ceil config.fine_grained_bytes block_size

      abbrev bound : ℕ
      bound = min config.fine_grained_bytes limit

      abbrev entry : ℕ → ℕ
      entry = entries_of base map config limit

      abbrev Inside : ℕ → List ℕ → Type 0
      Inside = IsInside arena tables entry

      few : pd_count ≤ 512
      few = omega arith

      cleared : (xs : List ℕ) × (copy_into arena 0 (replicate needed 0) ≡ some xs) × Inside 0 xs
      unfolding copy_into
      cleared =
          let n = length-replicate {A = ℕ} needed 0 in
          let zeros : List ℕ = replicate needed 0 in
          let e : leb (0 + length zeros) (length arena) ≡ true = ground (arith, n) in
          (
            patch arena 0 zeros,
            rw e refl,
            record {
              same_length = length-patch arena 0 zeros (omega (arith, n));
              same_rest =
                  drop-patch_after arena 0 needed zeros (omega (arith, n)) (omega (arith, n));
              written = λ k lt. absurd (omega arith);
              ahead = λ k le lt.
                  take-drop-replicate 8 (k * 8) needed (drop (length zeros) arena) (omega arith);
            },
          )

      -- The top table and the table of the directories.
      linked :
          (xs pds : List ℕ)
          → Inside 0 xs
          → IsPages base 2 pds
          → length pds ≡ pd_count
          → (a : List ℕ) × (b : List ℕ) × (write_entry base xs
                (base + 0)
                0
                (table_entry (base + page_size))
              ≡ some a)
            × (link_pds base (base + page_size) 0 pds a ≡ some b)
            × Inside 1024 b
      linked xs pds v all n =
          let (a, e, w) =
            write_entry-IsInside arena tables entry xs base 0 (base + 0) 0
              (table_entry (base + page_size)) enough v
              (record {
                number = 0;
                in_tables = omega arith;
                address = refl;
                in_table = omega arith;
                position = refl;
                right = refl;
              }) in
          let w2 : Inside 512 a =
            skip-IsInside arena tables entry 1 512 a (omega arith) (omega (arith, one_top))
              (λ k le lt.
                entry_of-unused_top base map limit bound pd_count pt_count k (omega arith) lt)
              w in
          let (b, f, x) =
            link_pds-IsInside arena base tables entry enough (base + page_size) 0 pd_count pds a
              (λ i lt. entry_of-directory base map limit bound pd_count pt_count i lt) refl
              (omega (arith, one_top)) few all (omega (arith, n)) w2 in
          (
            a,
            b,
            e,
            f,
            skip-IsInside arena tables entry (512 + (0 + length pds)) 1024 b (omega (arith, n, few))
                (omega (arith, one_top))
                (λ k le lt.
                  entry_of-unused_directory base map limit bound pd_count pt_count k
                    (omega (arith, n)) lt)
                x,
          )

      -- The directories.
      blocks_filled :
          (pds pts b : List ℕ)
          → Inside 1024 b
          → IsPages base 2 pds
          → length pds ≡ pd_count
          → IsPages base (2 + pd_count) pts
          → length pts ≡ pt_count
          → (p : Progress) × (fill_tables
                (fill_block base map limit pts)
                0
                pds
                (record { arena = b; mapped_bytes = 0; blocks = 0; pages = 0 })
              ≡ some p)
            × IsCounted arena tables entry ((2 + pd_count) * 512) p
      blocks_filled pds pts b v all n allt nt =
          let (p, e, w) =
            fill_tables-IsCounted arena base tables entry enough (fill_block base map limit pts) 2
              pd_count 0 pds (record { arena = b; mapped_bytes = 0; blocks = 0; pages = 0 })
              (λ i table l at.
                fill_block-Steps arena base tables entry enough map limit 2 i table (omega arith) at
                  pts pd_count allt
                  (λ slot ls.
                    entry_of-block base map limit bound pd_count pt_count ((2 + i) * 512 + slot)
                      (i * pd_entries + slot) (i * pd_coverage + slot * block_size) few
                      (omega arith) (omega arith) (omega arith)
                    ∙ ap
                        (λ k.
                          block_at base map limit pd_count k (i * pd_entries + slot)
                            (i * pd_coverage + slot * block_size))
                        (sym nt)))
              all (omega (arith, n)) (record { inside = v; counted = refl }) in
          (
            p,
            e,
            subst (λ k. IsCounted arena tables entry k p) {x = (2 + (0 + length pds)) * 512}
                (omega (arith, n)) w,
          )

      -- The tables of pages.
      pages_filled :
          (pts : List ℕ) (p : Progress)
          → IsCounted arena tables entry ((2 + pd_count) * 512) p
          → IsPages base (2 + pd_count) pts
          → length pts ≡ pt_count
          → (q : Progress) × (fill_tables (fill_page base map bound) 0 pts p ≡ some q)
            × IsCounted arena tables entry (tables * 512) q
      pages_filled pts p v all n =
          let (q, e, w) =
            fill_tables-IsCounted arena base tables entry enough (fill_page base map bound)
              (2 + pd_count) pt_count 0 pts p
              (λ i table l at.
                fill_page-Steps arena base tables entry enough map bound (2 + pd_count) i table
                  (omega arith) at
                  (λ slot ls.
                    entry_of-page base map limit bound pd_count pt_count
                      ((2 + pd_count + i) * 512 + slot) (i * 512 + slot)
                      (i * block_size + slot * page_size) few (omega arith) (omega arith)))
              (subst (λ k. IsPages base k pts) {x = 2 + pd_count} (omega arith) all)
              (omega (arith, n))
              (subst (λ k. IsCounted arena tables entry k p) {x = (2 + pd_count) * 512}
                (omega arith) v) in
          (
            q,
            e,
            subst (λ k. IsCounted arena tables entry k q)
                {x = (2 + pd_count + (0 + length pts)) * 512} (omega (arith, n, one_top)) w,
          )

      pub fill_lem :
          (written : List ℕ) × (t : PageTables) × (fill base arena map config limit
            ≡ some (written, t))
          × Inside (tables * 512) written
          × (t.limit ≡ limit)
          × (t.pml4_phys ≡ base)
          × (t.tables_used ≡ tables_of config)
          × (t.mapped_bytes ≡ t.blocks * block_size + t.pages * page_size)
      fill_lem =
          let one = one_top in
          let (xs, e0, v0) = cleared in
          let e1 : add_word base 0 ≡ some (base + 0) = ground (arith, enough, one) in
          let e2 : add_word base page_size ≡ some (base + page_size) =
            ground (arith, enough, one) in
          let (pds, e3, all_pds, n3) =
            take_pages-IsPages base tables 2 pd_count (omega arith) (omega arith) in
          let (pts, e4, all_pts, n4) =
            take_pages-IsPages base tables (2 + pd_count) pt_count (omega arith) (omega arith) in
          let (a, b, e5, e6, v6) = linked xs pds v0 all_pds n3 in
          let (p, e7, v7) = blocks_filled pds pts b v6 all_pds n3 all_pts n4 in
          let (q, e8, v8) = pages_filled pts p v7 all_pts n4 in
          (
            q.arena,
            record {
              pml4_phys = base + 0;
              limit = limit;
              mapped_bytes = q.mapped_bytes;
              blocks = q.blocks;
              pages = q.pages;
              tables_used = tables;
            },
            fill-steps base arena map config limit xs (base + 0) (base + page_size) pds pts a b p q
                e0 e1 e2 e3 e4 e5 e6 e7 e8,
            v8.inside,
            refl,
            omega arith,
            refl,
            v8.counted,
          )
