-- ===== src/MemoryMap/Range.antt =====
-- crates/kernel-memory/src/map.rs: `get` behind the last descriptor.
use paranuk_os.Base.{
  ℕ, ◌+◌, ◌*◌, ◌≤◌, ◌<◌, ◌≡◌, ◌⊎◌, inl, inr, ap, ◌∙◌, none, some, List, arith, ◌-◌, length, word,
}
use native.Mathlib.Decide.{dec_lt}
use paranuk_os.MemoryMap.{
  reserved, MemoryMap, from_raw, read_le, read_u32, read_u64, get, saturating_mul, region_at,
}
use paranuk_os.MemoryMap.Parse.{get-region_at}

read_le-behind :
    (n : ℕ) (bytes : List ℕ) (offset : ℕ)
    → 0 < n
    → length bytes ≤ offset
    → read_le n bytes offset ≡ 0
unfolding read_le
read_le-behind n bytes offset pos h = ground arith

-- Products grow with their first factor.
mul_le : (a b c : ℕ) → a ≤ b → a * c ≤ b * c
mul_le a b c h = let e : b ≡ a + (b - a) = omega arith in omega (arith, ap (λ n. n * c) e)

-- `get` at an index behind the last entry of a map whose buffer is exactly its descriptors: it
-- returns the empty region while the offset of the last field that it reads fits in 64 bits, and
-- panics under overflow checks when that offset does not.
pub get-behind :
    (m : MemoryMap) (index : ℕ)
    → length m.bytes ≡ m.entries * m.stride
    → m.entries ≤ index
    → ((index * m.stride + 24 < word)
        × (get m index ≡ some (record { kind = reserved; base = 0; pages = 0 })))
      ⊎ ((word ≤ index * m.stride + 24) × (get m index ≡ none))
unfolding get saturating_mul read_u32 read_u64 from_raw region_at
get-behind m index len h = elim (dec_lt (index * m.stride + 24) word) [
  | yes l ↦ inl (l, empty_at l)
  | no ge ↦ inr (omega arith, ground arith)
]
  where
    reads : (n at : ℕ) → 0 < n → read_le n m.bytes (index * m.stride + at) ≡ 0
    reads n at pos =
        read_le-behind n m.bytes (index * m.stride + at) pos
          (omega (arith, len, mul_le m.entries index m.stride h))

    empty_at :
        index * m.stride + 24 < word
        → get m index ≡ some (record { kind = reserved; base = 0; pages = 0 })
    empty_at l = get-region_at m index l ∙ (λ i. some (record {
      kind = from_raw (reads 4 0 (omega arith) i);
      base = reads 8 8 (omega arith) i;
      pages = reads 8 24 (omega arith) i;
    }))
