-- ===== src/Paging/Built.antt =====
-- crates/kernel-memory/src/paging.rs: what `build` returns.
use paranuk_os.Frame.{div_ceil}
use paranuk_os.Base.{
  Option, Result, ◌>>=◌, if◌then◌else◌, take, drop, ℕ, ◌+◌, ◌*◌, ◌%◌, ◌≤◌, ◌<◌, ◌≡◌, ◌⊎◌, to_le,
  min, none, some, List, word, ◌==◌, length, ok, err,
}
use paranuk_os.MemoryMap.{MemoryMap, page_size, ram_top}
use paranuk_os.Paging.{
  PagingConfig, PageTables, BuildError, arena_misaligned, arena_too_small, no_usable_ram,
  config_too_large, fine_grained_too_large, block_size, pd_coverage, max_identity_supported,
  max_fine_grained_supported, fill,
}
use paranuk_os.Paging.Steps.{tables_of, entries_of}

-- Where the first table of pages lies in the arena. Its first entry is that of page 0.
abbrev first_table : PagingConfig → ℕ
first_table config = (2 + div_ceil config.max_identity_bytes pd_coverage) * page_size

-- What holds of the arena and of the summary once the tables are built.
pub record IsBuilt (base : ℕ) (arena : List ℕ) (map : MemoryMap) (config : PagingConfig)
    (written : List ℕ) (t : PageTables) : Type 0 where
  pub page_aligned : base % page_size ≡ 0
  pub identity : config.max_identity_bytes ≤ max_identity_supported
  pub fine : config.fine_grained_bytes ≤ max_fine_grained_supported
  pub enough : tables_of config * page_size ≤ length arena
  pub same_length : length written ≡ length arena
  pub same_rest :
      drop (tables_of config * page_size) written ≡ drop (tables_of config * page_size) arena
  pub entries :
      (n : ℕ)
      → n < tables_of config * 512
      → take 8 (drop (n * 8) written) ≡ to_le 8 (entries_of base map config t.limit n)
  pub null_unmapped :
      (config.fine_grained_bytes ≡ 0) ⊎ (take 8 (drop (first_table config) written) ≡ to_le 8 0)
  pub top : ℕ
  pub top_eq : ram_top map ≡ some top
  pub limit_eq : t.limit ≡ min top config.max_identity_bytes
  pub limit_pos : 0 < t.limit
  pub pml4_eq : t.pml4_phys ≡ base
  pub tables_eq : t.tables_used ≡ tables_of config
  pub counted : t.mapped_bytes ≡ t.blocks * block_size + t.pages * page_size

-- Why the tables are not built: the first check that fails, and that those before it hold.
abbrev pub IsRefused : ℕ → List ℕ → MemoryMap → PagingConfig → BuildError → Type 0
IsRefused base arena map config (arena_misaligned address) =
    (address ≡ base) × (0 < base % page_size)
IsRefused base arena map config (config_too_large bytes supported) =
    (base % page_size ≡ 0)
    × (bytes ≡ config.max_identity_bytes)
    × (supported < bytes)
    × (supported ≡ 512 * 1073741824)
IsRefused base arena map config (fine_grained_too_large bytes supported) =
    (base % page_size ≡ 0)
    × (config.max_identity_bytes ≤ max_identity_supported)
    × (bytes ≡ config.fine_grained_bytes)
    × (supported < bytes)
    × (supported ≡ 1073741824)
IsRefused base arena map config (arena_too_small needed got) =
    (base % page_size ≡ 0)
    × (config.max_identity_bytes ≤ max_identity_supported)
    × (config.fine_grained_bytes ≤ max_fine_grained_supported)
    × (got ≡ length arena)
    × (got < needed)
    × (needed ≡ tables_of config * page_size)
IsRefused base arena map config no_usable_ram =
    (base % page_size ≡ 0)
    × (config.max_identity_bytes ≤ max_identity_supported)
    × (config.fine_grained_bytes ≤ max_fine_grained_supported)
    × (tables_of config * page_size ≤ length arena)
    × ((ram_top map ≡ none)
        ⊎ ((top : ℕ) × (ram_top map ≡ some top) × (min top config.max_identity_bytes ≡ 0)))

module _ (base : ℕ) (arena : List ℕ) (map : MemoryMap) (config : PagingConfig)
    (mapped : base + length arena ≤ word) where
  abbrev needed : ℕ
  needed = tables_of config * page_size

  -- The entry number `k` for the limit `l`, as bytes.
  abbrev entry_at : ℕ → ℕ → List ℕ
  entry_at k l = to_le 8 (entries_of base map config l k)

  -- What `build` does with the map once the checks of the address, the configuration and the size have
  -- passed.
  abbrev on_top : Option ℕ → Option (List ℕ × Result BuildError PageTables)
  on_top none = some (arena, err no_usable_ram)
  on_top (some top) =
      if min top config.max_identity_bytes == 0 then some (arena, err no_usable_ram) else do
        (written, tables) ← fill base arena map config (min top config.max_identity_bytes)
        some (written, ok tables)
