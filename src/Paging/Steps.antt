-- ===== src/Paging/Steps.antt =====
-- crates/kernel-memory/src/paging.rs: the steps that `build` takes once its checks have passed, and what
-- it must write.
use paranuk_os.Base.{
  take, drop, zero, suc, ap, ◌∷◌, ◌++◌, ℕ, ◌+◌, ◌*◌, ◌≤◌, ◌≡◌, refl, min, some, List, arith,
  add_word, replicate, copy_into,
}
use paranuk_os.Frame.{div_ceil}
use paranuk_os.MemoryMap.{MemoryMap, page_size}
use paranuk_os.Paging.{
  Progress, PagingConfig, tables_needed, block_size, pd_coverage, table_entry, take_pages,
  write_entry, link_pds, fill_tables, fill_block, fill_page, fill,
}
use paranuk_os.Paging.Entries.{entry_of}

abbrev pub tables_of : PagingConfig → ℕ
tables_of config = tables_needed config.max_identity_bytes config.fine_grained_bytes

-- What the entries of the tables must be, by their number.
abbrev pub entries_of : ℕ → MemoryMap → PagingConfig → ℕ → ℕ → ℕ
entries_of base map config limit =
    entry_of base map limit (min config.fine_grained_bytes limit)
      (div_ceil config.max_identity_bytes pd_coverage)
      (div_ceil config.fine_grained_bytes block_size)

pub take-drop-replicate :
    (m k n : ℕ) (xs : List ℕ) → k + m ≤ n → take m (drop k (replicate n 0 ++ xs)) ≡ replicate m 0
take-drop-replicate zero zero n xs l = refl
take-drop-replicate (suc m) zero zero xs l = absurd (omega arith)
take-drop-replicate (suc m) zero (suc n) xs l =
    ap (λ ys. 0 ∷ ys) (take-drop-replicate m zero n xs (omega arith))
take-drop-replicate m (suc k) zero xs l = absurd (omega arith)
take-drop-replicate m (suc k) (suc n) xs l = take-drop-replicate m k n xs (omega arith)

-- The steps of `fill`.
pub fill-steps :
    (base : ℕ) (arena : List ℕ) (map : MemoryMap) (config : PagingConfig) (limit : ℕ) (xs : List ℕ)
    (pml4 pdpt : ℕ) (pds pts a b : List ℕ) (p q : Progress)
    → copy_into arena 0 (replicate (tables_of config * page_size) 0) ≡ some xs
    → add_word base 0 ≡ some pml4
    → add_word base page_size ≡ some pdpt
    → take_pages base 2 (div_ceil config.max_identity_bytes pd_coverage) ≡ some pds
    → take_pages base
        (2 + div_ceil config.max_identity_bytes pd_coverage)
        (div_ceil config.fine_grained_bytes block_size)
      ≡ some pts
    → write_entry base xs pml4 0 (table_entry pdpt) ≡ some a
    → link_pds base pdpt 0 pds a ≡ some b
    → fill_tables
        (fill_block base map limit pts)
        0
        pds
        (record { arena = b; mapped_bytes = 0; blocks = 0; pages = 0 })
      ≡ some p
    → fill_tables (fill_page base map (min config.fine_grained_bytes limit)) 0 pts p ≡ some q
    → fill base arena map config limit
      ≡ some (
        q.arena,
        record {
          pml4_phys = pml4;
          limit = limit;
          mapped_bytes = q.mapped_bytes;
          blocks = q.blocks;
          pages = q.pages;
          tables_used = tables_of config;
        },
      )
unfolding fill
fill-steps base arena map config limit xs pml4 pdpt pds pts a b p q e0 e1 e2 e3 e4 e5 e6 e7 e8 =
    rw (e0, e1, e2, e3, e4, e5, e6, e7, e8) refl
