-- ===== src/MemoryMap/Tests.antt =====
-- Runs of the memory map's code on small buffers.
use paranuk_os.Base.{
  ℕ, ◌+◌, ◌*◌, ◌≤◌, ◌<◌, ◌≡◌, ◌⊎◌, refl, true, some, none, List, ◌∷◌, ◌++◌, arith, Result, All,
  replicate, word,
}
use paranuk_os.MemoryMap.{
  conventional, reserved, MemoryMap, MapError, from_raw, raw, is_ram, from_bytes, iter, get,
  ram_top,
}
use paranuk_os.MemoryMap.Kinds.{from_raw-raw_inverse, is_ram-from_raw}
use paranuk_os.MemoryMap.Parse.{IsParsed, from_bytes_lem}
use paranuk_os.MemoryMap.Top.{IsAbove, EndsAt, ram_top_lem}
use paranuk_os.MemoryMap.Range.{get-behind}

-- A descriptor of `pages` pages of a kind at `base * 2^16`.
abbrev descriptor : ℕ → ℕ → ℕ → List ℕ
descriptor kind base pages =
    kind ∷ replicate 9 0 ++ (base ∷ replicate 13 0 ++ (pages ∷ replicate 15 0))

abbrev two : List ℕ
two = descriptor 7 16 32 ++ descriptor 11 254 1

from_bytes_lem_example :
    (r : Result MapError MemoryMap) × (from_bytes two 2 40 1 ≡ some r) × IsParsed two 2 40 1 r
from_bytes_lem_example = from_bytes_lem two 2 40 1

from_raw-raw_inverse_example : (raw (from_raw 9) ≡ 9) × (from_raw (raw conventional) ≡ conventional)
from_raw-raw_inverse_example = from_raw-raw_inverse 9 conventional tt

is_ram-from_raw_example : is_ram (from_raw 9) ≡ true
is_ram-from_raw_example = is_ram-from_raw 9

abbrev two_map : MemoryMap
two_map = record { bytes = two; entries = 2; stride = 40; version = 1 }

ram_top_lem_example :
    All (IsAbove (ram_top two_map)) (iter two_map) × EndsAt (ram_top two_map) (iter two_map)
ram_top_lem_example = ram_top_lem two_map

get-behind_example :
    ((18446744073709551615 * 40 + 24 < word)
      × (get two_map 18446744073709551615 ≡ some (record { kind = reserved; base = 0; pages = 0 })))
    ⊎ ((word ≤ 18446744073709551615 * 40 + 24) × (get two_map 18446744073709551615 ≡ none))
get-behind_example = get-behind two_map 18446744073709551615 refl (omega arith)
