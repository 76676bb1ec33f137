-- ===== src/MemoryMap/Parse.antt =====
-- crates/kernel-memory/src/map.rs: `MemoryMap::from_bytes` and the descriptors it accepts.
use native.Mathlib.Decide.{dec_lt, ℕ_discrete}
use native.Mathlib.Nat.{mul-div_cancel}
use paranuk_os.Base.{
  ℕ, zero, suc, ◌+◌, ◌*◌, ◌≤◌, ◌<◌, ◌≡◌, ◌≢◌, ◌⊎◌, inl, inr, refl, sym, ap, ◌∙◌, subst, none, some,
  List, arith, Result, ok, err, ◌>>=◌, word, length, take, All,
}
use paranuk_os.MemoryMap.{
  Region, end, MemoryMap, MapError, empty, stride_too_small, too_short, too_large, address_overflow,
  descriptor_min_size, get, region_at, regions_from, iter, checked_end, check_ends, checked, sliced,
  buffer_len, from_bytes,
}

-- A region whose end does not wrap.
abbrev pub Fits : Region → Type 0
Fits r = end r < word

pub get-region_at :
    (m : MemoryMap) (index : ℕ)
    → index * m.stride + 24 < word
    → get m index ≡ some (region_at m.bytes m.stride index)
unfolding get region_at
get-region_at m index h = ground arith

checked_end-Fits : (r : Region) → Fits r → checked_end r ≡ some (end r)
unfolding checked_end
checked_end-Fits r h = ground arith

checked_end-none : (r : Region) → ¬ Fits r → checked_end r ≡ none
unfolding checked_end
checked_end-none r h = ground arith

-- The first region at `index` or behind it whose end wraps.
abbrev pub FirstBad : MemoryMap → ℕ → ℕ → ℕ → Type 0
FirstBad m index n i =
    (index ≤ i)
    × (i < index + n)
    × ¬ Fits (region_at m.bytes m.stride i)
    × ((j : ℕ) → index ≤ j → j < i → Fits (region_at m.bytes m.stride j))

check_ends_lem :
    (m : MemoryMap) (index n : ℕ)
    → descriptor_min_size ≤ m.stride
    → index * m.stride + n * m.stride < word
    → ((check_ends m index n ≡ some (ok tt)) × All Fits (regions_from m.bytes m.stride index n))
      ⊎ ((i : ℕ) × (check_ends m index n ≡ some (err (address_overflow i))) × FirstBad m index n i)
unfolding check_ends regions_from
check_ends_lem m index zero s h = inl (refl, tt)
check_ends_lem m index (suc n) s h =
    let r = region_at m.bytes m.stride index in
    let g : get m index ≡ some r = get-region_at m index (omega arith) in
    elim (dec_lt (end r) word) [
      | no bad ↦ inr (index, ground (arith, g, checked_end-none r bad), first_bad bad)
      | yes fits ↦ elim (check_ends_lem m (suc index) n s (omega arith)) [
        | inl (e, all) ↦ inl (ground (arith, g, checked_end-Fits r fits, e), (fits, all))
        | inr (i, e, f) ↦ inr (i, ground (arith, g, checked_end-Fits r fits, e), later_bad fits i f)
      ]
    ]
  where
    first_bad : ¬ Fits (region_at m.bytes m.stride index) → FirstBad m index (suc n) index
    first_bad bad = (omega arith, omega arith, bad, λ j le lt. absurd (omega arith))

    later_bad :
        Fits (region_at m.bytes m.stride index)
        → (i : ℕ) → FirstBad m (suc index) n i
        → FirstBad m index (suc n) i
    later_bad fits i (le, lt, bad, before) = (
      omega arith,
      omega arith,
      bad,
      λ j lj u. elim (ℕ_discrete j index) [
        | yes e ↦ subst (λ k. Fits (region_at m.bytes m.stride k)) (sym e) fits
        | no ne ↦ before j (omega arith) u
      ],
    )

-- What `from_bytes` returns on each branch.
abbrev pub IsParsed : List ℕ → ℕ → ℕ → ℕ → Result MapError MemoryMap → Type 0
IsParsed bytes entries stride version (ok m) =
    (0 < entries)
    × (descriptor_min_size ≤ stride)
    × (entries * stride < word)
    × (entries * stride ≤ length bytes)
    × (m ≡ record {
      bytes = take (entries * stride) bytes;
      entries = entries;
      stride = stride;
      version = version;
    })
    × All Fits (iter m)
IsParsed bytes entries stride version (err empty) = entries ≡ 0
IsParsed bytes entries stride version (err (stride_too_small n)) =
    (0 < entries) × (n ≡ stride) × (stride < descriptor_min_size)
IsParsed bytes entries stride version (err (too_large n k)) =
    (0 < entries)
    × (descriptor_min_size ≤ stride)
    × (n ≡ entries)
    × (k ≡ stride)
    × (word ≤ entries * stride)
IsParsed bytes entries stride version (err (too_short needed got)) =
    (0 < entries)
    × (descriptor_min_size ≤ stride)
    × (entries * stride < word)
    × (needed ≡ entries * stride)
    × (got ≡ length bytes)
    × (got < needed)
IsParsed bytes entries stride version (err (address_overflow i)) =
    (0 < entries)
    × (descriptor_min_size ≤ stride)
    × (entries * stride < word)
    × (entries * stride ≤ length bytes)
    × FirstBad (sliced bytes (entries * stride) stride version) 0 entries i

from_bytes-checks :
    (bytes : List ℕ) (entries stride version : ℕ)
    → entries ≢ 0
    → descriptor_min_size ≤ stride
    → entries * stride < word
    → entries * stride ≤ length bytes
    → let m = sliced bytes (entries * stride) stride version in
      from_bytes bytes entries stride version
      ≡ (check_ends m 0 m.entries >>= λ r. some (checked m r))
unfolding from_bytes buffer_len
from_bytes-checks bytes entries stride version ne ge small fits = ground arith

-- `from_bytes` never panics. It accepts exactly a positive number of entries, of at least the
-- standard stride, whose size fits a word and the buffer, and whose ends do not wrap; it then keeps
-- that part of the buffer. On every other branch the error names the first of these checks that
-- fails: the checks before it hold.
pub from_bytes_lem :
    (bytes : List ℕ) (entries stride version : ℕ)
    → (r : Result MapError MemoryMap) × (from_bytes bytes entries stride version ≡ some r)
      × IsParsed bytes entries stride version r
unfolding from_bytes buffer_len
from_bytes_lem bytes entries stride version = elim (ℕ_discrete entries 0) [
  | yes e ↦ (err empty, ground arith, e)
  | no ne ↦ elim (dec_lt stride descriptor_min_size) [
    | yes lt ↦ (err (stride_too_small stride), ground arith, (omega arith, refl, lt))
    | no ge ↦ elim (dec_lt (entries * stride) word) [
      | no big ↦ (
        err (too_large entries stride),
        ground arith,
        (omega arith, omega arith, refl, refl, omega arith),
      )
      | yes small ↦ elim (dec_lt (length bytes) (entries * stride)) [
        | yes short ↦ (
          err (too_short (entries * stride) (length bytes)),
          ground arith,
          (omega arith, omega arith, small, refl, refl, short),
        )
        | no fits ↦
            let m = sliced bytes (entries * stride) stride version in
            let q : m.entries ≡ entries = mul-div_cancel entries (omega arith) in
            let f =
              from_bytes-checks bytes entries stride version ne (omega arith) small (omega arith) in
            elim (check_ends_lem m 0 entries (omega arith) (omega arith)) [
              | inl (e, all) ↦ (
                ok m,
                f
                    ∙ ap (λ k. check_ends m 0 k >>= λ r. some (checked m r)) q
                    ∙ ap (λ c. c >>= λ r. some (checked m r)) e,
                (
                  omega arith,
                  omega arith,
                  small,
                  omega arith,
                  ap (λ (k : ℕ). record m { entries = k }) q,
                  unfold iter in
                      subst (λ k. All Fits (regions_from m.bytes m.stride 0 k)) (sym q) all,
                ),
              )
              | inr (i, e, bad) ↦ (
                err (address_overflow i),
                f
                    ∙ ap (λ k. check_ends m 0 k >>= λ r. some (checked m r)) q
                    ∙ ap (λ c. c >>= λ r. some (checked m r)) e,
                (omega arith, omega arith, small, omega arith, bad),
              )
            ]
      ]
    ]
  ]
]
