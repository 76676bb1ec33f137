-- ===== src/Paging/Entries.antt =====
-- crates/kernel-memory/src/paging.rs: what the tables of the identity map must hold. The entries are
-- numbered from 0 on through all tables: the top table, the table of the directories, the directories,
-- the tables of pages.
use paranuk_os.Base.{
  ℕ, ◌+◌, ◌-◌, ◌*◌, ◌≤◌, ◌<◌, ◌≡◌, refl, true, false, not, ◌||◌, arith, ltb, leb, ◌==◌, bit_or,
  if◌then◌else◌,
}
use paranuk_os.MemoryMap.{MemoryMap, page_size}
use paranuk_os.Paging.{block_size, table_entry, overlaps_ram, large_page}

-- The entry of a directory for the block `b` of 2 MiB, which starts at `address`: the table of its pages
-- if it has one; otherwise the block itself, if it starts below the limit and meets RAM.
abbrev pub block_at : ℕ → MemoryMap → ℕ → ℕ → ℕ → ℕ → ℕ → ℕ
block_at base map limit pds pts b address =
    if ltb b pts
    then table_entry (base + (2 + pds + b) * page_size)
    else if leb limit address || not (overlaps_ram map address (address + block_size))
    then 0
    else bit_or (table_entry address) large_page

-- The entry of a table of pages for the page at `address`: the page, if it is not page 0, starts below
-- the bound and meets RAM.
abbrev pub page_at : MemoryMap → ℕ → ℕ → ℕ
page_at map bound address =
    if (address == 0 || leb bound address) || not (overlaps_ram map address (address + page_size))
    then 0
    else table_entry address

-- The entry number `n`, with `pds` directories and `pts` tables of pages.
abbrev pub entry_of : ℕ → MemoryMap → ℕ → ℕ → ℕ → ℕ → ℕ → ℕ
entry_of base map limit bound pds pts n =
    if n == 0
    then table_entry (base + page_size)
    else if ltb n 512
    then 0
    else if ltb n (512 + pds)
    then table_entry (base + (2 + (n - 512)) * page_size)
    else if ltb n 1024
    then 0
    else if ltb n (1024 + pds * 512)
    then block_at base map limit pds pts (n - 1024) ((n - 1024) * block_size)
    else page_at map bound ((n - (1024 + pds * 512)) * page_size)

module _ (base : ℕ) (map : MemoryMap) (limit bound pds pts : ℕ) where
  pub entry_of-unused_top : (n : ℕ) → 0 < n → n < 512 → entry_of base map limit bound pds pts n ≡ 0
  entry_of-unused_top n p l =
      let e1 : (n == 0) ≡ false = ground arith in
      let e2 : ltb n 512 ≡ true = ground arith in rw (e1, e2) refl

  pub entry_of-directory :
      (i : ℕ)
      → i < pds
      → entry_of base map limit bound pds pts (512 + i) ≡ table_entry (base + (2 + i) * page_size)
  entry_of-directory i l =
      let e1 : ((512 + i) == 0) ≡ false = ground arith in
      let e2 : ltb (512 + i) 512 ≡ false = ground arith in
      let e3 : ltb (512 + i) (512 + pds) ≡ true = ground arith in
      let e4 : (512 + i) - 512 ≡ i = omega arith in rw (e1, e2, e3, e4) refl

  pub entry_of-unused_directory :
      (n : ℕ) → 512 + pds ≤ n → n < 1024 → entry_of base map limit bound pds pts n ≡ 0
  entry_of-unused_directory n p l =
      let e1 : (n == 0) ≡ false = ground arith in
      let e2 : ltb n 512 ≡ false = ground arith in
      let e3 : ltb n (512 + pds) ≡ false = ground arith in
      let e4 : ltb n 1024 ≡ true = ground arith in rw (e1, e2, e3, e4) refl

  pub entry_of-block :
      (n b address : ℕ)
      → pds ≤ 512
      → n ≡ 1024 + b
      → b < pds * 512
      → address ≡ b * block_size
      → entry_of base map limit bound pds pts n ≡ block_at base map limit pds pts b address
  entry_of-block n b address few h l a =
      let e1 : (n == 0) ≡ false = ground arith in
      let e2 : ltb n 512 ≡ false = ground arith in
      let e3 : ltb n (512 + pds) ≡ false = ground arith in
      let e4 : ltb n 1024 ≡ false = ground arith in
      let e5 : ltb n (1024 + pds * 512) ≡ true = ground arith in
      let e6 : n - 1024 ≡ b = omega arith in
      let e7 : b * block_size ≡ address = omega arith in rw (e1, e2, e3, e4, e5, e6, e7) refl

  pub entry_of-page :
      (n p address : ℕ)
      → pds ≤ 512
      → n ≡ 1024 + pds * 512 + p
      → address ≡ p * page_size
      → entry_of base map limit bound pds pts n ≡ page_at map bound address
  entry_of-page n p address few h a =
      let e1 : (n == 0) ≡ false = ground arith in
      let e2 : ltb n 512 ≡ false = ground arith in
      let e3 : ltb n (512 + pds) ≡ false = ground arith in
      let e4 : ltb n 1024 ≡ false = ground arith in
      let e5 : ltb n (1024 + pds * 512) ≡ false = ground arith in
      let e6 : (n - (1024 + pds * 512)) * page_size ≡ address = omega arith in
      rw (e1, e2, e3, e4, e5, e6) refl
