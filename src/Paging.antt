-- ===== src/Paging.antt =====
-- crates/kernel-memory/src/paging.rs: the tables of the identity map, built inside an arena of bytes.
-- `base` stands for the address of the arena, and the arena is passed on beside the counters. `none`
-- is the panic of the code; the result is Rust's. An address below 512 GiB is written without a check
-- of its sum.
pub mod Entries
pub mod Writes
pub mod Filling
pub mod Bodies
pub mod Steps
pub mod Filled
pub mod Built
mod Tests
use paranuk_os.Base.{
  ℕ, zero, suc, ◌+◌, ◌-◌, ◌*◌, ◌/◌, ◌%◌, min, max, Bool, true, false, not, ◌&&◌, ◌||◌, Option, none,
  some, List, [], ◌∷◌, ◌++◌, Result, ok, err, ◌>>=◌, add_word, sub_word, ltb, leb, ◌==◌,
  if◌then◌else◌, length, drop, replicate, get_elem?, copy_into, to_le, bit_or,
}
use paranuk_os.MemoryMap.{MemoryMap, Region, is_ram, overlaps, iter, ram_top, page_size}
use paranuk_os.Frame.{div_ceil}

abbrev pub block_size : ℕ
block_size = 2097152

abbrev pub max_identity_bytes : ℕ
max_identity_bytes = 4294967296

abbrev pub pd_entries : ℕ
pd_entries = 512

abbrev pub pt_entries : ℕ
pt_entries = 512

abbrev pub pdpt_coverage : ℕ
pdpt_coverage = 549755813888

abbrev pub pd_coverage : ℕ
pd_coverage = 1073741824

abbrev pub max_identity_supported : ℕ
max_identity_supported = pd_coverage * pd_entries

abbrev pub max_fine_grained_supported : ℕ
max_fine_grained_supported = block_size * pd_entries

abbrev pub present : ℕ
present = 1

abbrev pub writable : ℕ
writable = 2

-- `BLOCK`
abbrev pub large_page : ℕ
large_page = 128

pub record PagingConfig : Type 0 where
  pub max_identity_bytes : ℕ
  pub fine_grained_bytes : ℕ

-- `PagingConfig::M2`
abbrev pub m2 : PagingConfig
m2 = record { max_identity_bytes = max_identity_bytes; fine_grained_bytes = block_size }

abbrev pub tables_needed : ℕ → ℕ → ℕ
tables_needed max_bytes fine_grained_bytes =
    1
    + div_ceil max_bytes pdpt_coverage
    + div_ceil max_bytes pd_coverage
    + div_ceil fine_grained_bytes block_size

pub data BuildError : Type 0 where
  arena_misaligned : ℕ → BuildError
  arena_too_small : ℕ → ℕ → BuildError
  no_usable_ram : BuildError
  config_too_large : ℕ → ℕ → BuildError
  fine_grained_too_large : ℕ → ℕ → BuildError

pub record PageTables : Type 0 where
  pub pml4_phys : ℕ
  pub limit : ℕ
  pub mapped_bytes : ℕ
  pub blocks : ℕ
  pub pages : ℕ
  pub tables_used : ℕ

-- What the loops of `build` change.
pub record Progress : Type 0 where
  pub arena : List ℕ
  pub mapped_bytes : ℕ
  pub blocks : ℕ
  pub pages : ℕ

any_overlaps : List Region → ℕ → ℕ → Bool
any_overlaps [] from to = false
any_overlaps (region ∷ rest) from to =
    if is_ram region.kind && overlaps region from to then true else any_overlaps rest from to

pub overlaps_ram : MemoryMap → ℕ → ℕ → Bool
unfolding any_overlaps
overlaps_ram map from to = any_overlaps (iter map) from to

pub write_entry : ℕ → List ℕ → ℕ → ℕ → ℕ → Option (List ℕ)
write_entry base arena table index value = do
  offset ← sub_word table base
  copy_into arena (offset + index * 8) (to_le 8 value)

-- `take_page`, from the page `next` on, `n` times.
pub take_pages : ℕ → ℕ → ℕ → Option (List ℕ)
take_pages base next zero = some []
take_pages base next (suc n) = do
  address ← add_word base (next * page_size)
  rest ← take_pages base (suc next) n
  some (address ∷ rest)

-- The entry that points to a table.
abbrev pub table_entry : ℕ → ℕ
table_entry address = bit_or (bit_or address present) writable

-- The loop that links the directories.
pub link_pds : ℕ → ℕ → ℕ → List ℕ → List ℕ → Option (List ℕ)
link_pds base pdpt index [] arena = some arena
link_pds base pdpt index (pd ∷ pds) arena = do
  written ← write_entry base arena pdpt index (table_entry pd)
  link_pds base pdpt (suc index) pds written

-- The body of the loop over the entries of a directory. The list of tables has `pt_count` items, so that
-- it has one at an index exactly if the index is below `pt_count`.
pub fill_block : ℕ → MemoryMap → ℕ → List ℕ → ℕ → ℕ → ℕ → Progress → Option Progress
fill_block base map limit pts index pd slot p =
    let address = index * pd_coverage + slot * block_size in
    elim (get_elem? pts (index * pd_entries + slot)) [
      | some pt ↦ do
        written ← write_entry base p.arena pd slot (table_entry pt)
        some (record p { arena = written })
      | none ↦
          if leb limit address || not (overlaps_ram map address (address + block_size))
          then some p
          else do
            written ← write_entry base p.arena pd slot (bit_or (table_entry address) large_page)
            some (record p {
              arena = written;
              blocks = p.blocks + 1;
              mapped_bytes = p.mapped_bytes + block_size;
            })
    ]

-- The body of the loop over the entries of a table of pages.
pub fill_page : ℕ → MemoryMap → ℕ → ℕ → ℕ → ℕ → Progress → Option Progress
fill_page base map fine_limit index pt slot p =
    let address = index * block_size + slot * page_size in
    if address == 0 || leb fine_limit address
    then some p
    else if not (overlaps_ram map address (address + page_size))
    then some p
    else do
      written ← write_entry base p.arena pt slot (table_entry address)
      some (record p {
        arena = written;
        pages = p.pages + 1;
        mapped_bytes = p.mapped_bytes + page_size;
      })

-- A loop over the entries of a table, from `slot` on, `n` of them.
pub fill_slots : (ℕ → Progress → Option Progress) → ℕ → ℕ → Progress → Option Progress
fill_slots body slot zero p = some p
fill_slots body slot (suc n) p = body slot p >>= fill_slots body (suc slot) n

-- A loop over tables, from `index` on.
pub fill_tables : (ℕ → ℕ → ℕ → Progress → Option Progress) → ℕ → List ℕ → Progress → Option Progress
fill_tables body index [] p = some p
fill_tables body index (table ∷ tables) p =
    fill_slots (body index table) 0 512 p >>= fill_tables body (suc index) tables

-- What `build` does once its checks have passed.
pub fill : ℕ → List ℕ → MemoryMap → PagingConfig → ℕ → Option (List ℕ × PageTables)
fill base arena map config limit = do
  let pd_count = div_ceil config.max_identity_bytes pd_coverage
  let pt_count = div_ceil config.fine_grained_bytes block_size
  let tables = tables_needed config.max_identity_bytes config.fine_grained_bytes
  let needed = tables * page_size
  cleared ← copy_into arena 0 (replicate needed 0)
  pml4 ← add_word base 0
  pdpt ← add_word base page_size
  pds ← take_pages base 2 pd_count
  pts ← take_pages base (2 + pd_count) pt_count
  with_pml4 ← write_entry base cleared pml4 0 (table_entry pdpt)
  with_pdpt ← link_pds base pdpt 0 pds with_pml4
  with_blocks ←
      fill_tables (fill_block base map limit pts) 0 pds
        (record { arena = with_pdpt; mapped_bytes = 0; blocks = 0; pages = 0 })
  p ← fill_tables (fill_page base map (min config.fine_grained_bytes limit)) 0 pts with_blocks
  some (
    p.arena,
    record {
      pml4_phys = pml4;
      limit = limit;
      mapped_bytes = p.mapped_bytes;
      blocks = p.blocks;
      pages = p.pages;
      tables_used = tables;
    },
  )

pub build : ℕ → List ℕ → MemoryMap → PagingConfig → Option (List ℕ × Result BuildError PageTables)
unfolding fill
build base arena map config =
    let needed = tables_needed config.max_identity_bytes config.fine_grained_bytes * page_size in
    if not (base % page_size == 0)
    then some (arena, err (arena_misaligned base))
    else if ltb max_identity_supported config.max_identity_bytes
    then some (arena, err (config_too_large config.max_identity_bytes max_identity_supported))
    else if ltb max_fine_grained_supported config.fine_grained_bytes
    then some
        (arena, err (fine_grained_too_large config.fine_grained_bytes max_fine_grained_supported))
    else if ltb (length arena) needed
    then some (arena, err (arena_too_small needed (length arena)))
    else elim (ram_top map) [
      | none ↦ some (arena, err no_usable_ram)
      | some top ↦
          let limit = min top config.max_identity_bytes in
          if limit == 0
          then some (arena, err no_usable_ram)
          else do (written, tables) ← fill base arena map config limit; some (written, ok tables)
    ]
