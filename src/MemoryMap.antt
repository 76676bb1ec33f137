-- ===== src/MemoryMap.antt =====
-- crates/kernel-memory/src/map.rs: the kernel's reading of the UEFI memory map.
-- `none` is a panic. Addresses are natural numbers; a check against 2^64 stands where the code has
-- one. `end` does not wrap on a map that `from_bytes` accepts, and is written without a check.
pub mod Kinds
pub mod Parse
pub mod Top
pub mod Range
mod Tests
use paranuk_os.Base.{
  ℕ, zero, suc, ◌+◌, ◌-◌, ◌*◌, ◌/◌, min, Bool, true, false, not, ◌&&◌, Option, none, some, List, [],
  ◌∷◌, Result, ok, err, ◌>>=◌, add_word, mul_word, word, ltb, leb, ◌==◌, if◌then◌else◌, length,
  take, slice?, from_le,
}

abbrev pub page_size : ℕ
page_size = 4096

abbrev pub descriptor_min_size : ℕ
descriptor_min_size = 40

abbrev off_type : ℕ
off_type = 0

abbrev off_physical_start : ℕ
off_physical_start = 8

abbrev off_number_of_pages : ℕ
off_number_of_pages = 24

pub data MemoryKind : Type 0 where
  reserved loader_code loader_data boot_services_code boot_services_data : MemoryKind
  runtime_services_code runtime_services_data conventional unusable acpi_reclaim : MemoryKind
  acpi_nvs mmio mmio_port_space pal_code persistent unaccepted : MemoryKind
  unknown : ℕ → MemoryKind

pub from_raw : ℕ → MemoryKind
from_raw n =
    if n == 0
    then reserved
    else if n == 1
    then loader_code
    else if n == 2
    then loader_data
    else if n == 3
    then boot_services_code
    else if n == 4
    then boot_services_data
    else if n == 5
    then runtime_services_code
    else if n == 6
    then runtime_services_data
    else if n == 7
    then conventional
    else if n == 8
    then unusable
    else if n == 9
    then acpi_reclaim
    else if n == 10
    then acpi_nvs
    else if n == 11
    then mmio
    else if n == 12
    then mmio_port_space
    else if n == 13
    then pal_code
    else if n == 14
    then persistent
    else if n == 15
    then unaccepted
    else unknown n

pub raw : MemoryKind → ℕ
raw reserved = 0
raw loader_code = 1
raw loader_data = 2
raw boot_services_code = 3
raw boot_services_data = 4
raw runtime_services_code = 5
raw runtime_services_data = 6
raw conventional = 7
raw unusable = 8
raw acpi_reclaim = 9
raw acpi_nvs = 10
raw mmio = 11
raw mmio_port_space = 12
raw pal_code = 13
raw persistent = 14
raw unaccepted = 15
raw (unknown other) = other

unfoldable pub is_ram : MemoryKind → Bool
is_ram loader_code = true
is_ram loader_data = true
is_ram boot_services_code = true
is_ram boot_services_data = true
is_ram runtime_services_code = true
is_ram runtime_services_data = true
is_ram conventional = true
is_ram acpi_reclaim = true
is_ram acpi_nvs = true
is_ram _ = false

pub record Region : Type 0 where
  pub kind : MemoryKind
  pub base : ℕ
  pub pages : ℕ

abbrev pub end : Region → ℕ
end r = r.base + r.pages * page_size

abbrev pub byte_len : Region → ℕ
byte_len r = r.pages * page_size

-- The region meets `[from, to)`.
abbrev pub overlaps : Region → ℕ → ℕ → Bool
overlaps r from to = ltb r.base to && ltb from (end r)

pub data MapError : Type 0 where
  empty : MapError
  stride_too_small : ℕ → MapError
  too_short : ℕ → ℕ → MapError
  too_large : ℕ → ℕ → MapError
  address_overflow : ℕ → MapError

pub buffer_len : ℕ → ℕ → Option ℕ
buffer_len entries stride = if ltb stride descriptor_min_size then none else mul_word entries stride

pub record MemoryMap : Type 0 where
  pub bytes : List ℕ
  pub entries : ℕ
  pub stride : ℕ
  pub version : ℕ

-- A read of `n` bytes, 0 out of range: `read_u32` and `read_u64`.
unfoldable pub read_le : ℕ → List ℕ → ℕ → ℕ
read_le n bytes offset = elim (add_word offset n) [
  | none ↦ 0
  | some _ ↦ elim (slice? bytes offset n) [ none ↦ 0 | some src ↦ from_le src ]
]

pub read_u32 : List ℕ → ℕ → ℕ
unfolding read_le
read_u32 = read_le 4

unfoldable pub read_u64 : List ℕ → ℕ → ℕ
unfolding read_le
read_u64 = read_le 8

-- `saturating_mul`
saturating_mul : ℕ → ℕ → ℕ
saturating_mul a b = min (a * b) (word - 1)

pub get : MemoryMap → ℕ → Option Region
unfolding saturating_mul
get m index = do
  let base_offset = saturating_mul index m.stride
  kind_at ← add_word base_offset off_type
  base_at ← add_word base_offset off_physical_start
  pages_at ← add_word base_offset off_number_of_pages
  some (record {
    kind = from_raw (read_u32 m.bytes kind_at);
    base = read_u64 m.bytes base_at;
    pages = read_u64 m.bytes pages_at;
  })

-- What `Regions::next` returns at an index below the number of entries.
unfoldable pub region_at : List ℕ → ℕ → ℕ → Region
region_at bytes stride index = record {
  kind = from_raw (read_u32 bytes (index * stride + off_type));
  base = read_u64 bytes (index * stride + off_physical_start);
  pages = read_u64 bytes (index * stride + off_number_of_pages);
}

-- The items that `Regions::next` returns from `index` on, `n` of them.
unfoldable pub regions_from : List ℕ → ℕ → ℕ → ℕ → List Region
regions_from bytes stride index zero = []
regions_from bytes stride index (suc n) =
    region_at bytes stride index ∷ regions_from bytes stride (suc index) n

unfoldable pub iter : MemoryMap → List Region
iter m = regions_from m.bytes m.stride 0 m.entries

-- `pages.checked_mul(PAGE_SIZE).and_then(|len| base.checked_add(len))`
checked_end : Region → Option ℕ
checked_end r = mul_word r.pages page_size >>= add_word r.base

-- The loop of `from_bytes` over the descriptors, from `index` on, `n` of them.
check_ends : MemoryMap → ℕ → ℕ → Option (Result MapError (Unit {0}))
check_ends m index zero = some (ok tt)
check_ends m index (suc n) = do
  region ← get m index
  elim (checked_end region) [
    | none ↦ some (err (address_overflow index))
    | some _ ↦ check_ends m (suc index) n
  ]

-- The map that `from_bytes` builds before it checks the descriptors.
abbrev pub sliced : List ℕ → ℕ → ℕ → ℕ → MemoryMap
sliced bytes needed stride version = record {
  bytes = take needed bytes;
  entries = needed / stride;
  stride = stride;
  version = version;
}

-- The `?` on the checks, and the map.
abbrev checked : MemoryMap → Result MapError (Unit {0}) → Result MapError MemoryMap
checked m (ok _) = ok m
checked m (err e) = err e

pub from_bytes : List ℕ → ℕ → ℕ → ℕ → Option (Result MapError MemoryMap)
from_bytes bytes entries stride version =
    if entries == 0
    then some (err empty)
    else if ltb stride descriptor_min_size
    then some (err (stride_too_small stride))
    else elim (buffer_len entries stride) [
      | none ↦ some (err (too_large entries stride))
      | some needed ↦
          if ltb (length bytes) needed then some (err (too_short needed (length bytes))) else do
            let m = sliced bytes needed stride version
            r ← check_ends m 0 m.entries
            some (checked m r)
    ]

-- The body of the loop of `ram_top`, and the loop.
pub raised : Option ℕ → Region → Option ℕ
raised top region = if not (is_ram region.kind) then top else elim top [
  | none ↦ some (end region)
  | some current ↦ if leb (end region) current then some current else some (end region)
]

ram_top_from : Option ℕ → List Region → Option ℕ
ram_top_from top [] = top
ram_top_from top (region ∷ rest) = ram_top_from (raised top region) rest

pub ram_top : MemoryMap → Option ℕ
unfolding ram_top_from
ram_top m = ram_top_from none (iter m)
