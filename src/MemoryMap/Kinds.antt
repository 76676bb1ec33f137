-- ===== src/MemoryMap/Kinds.antt =====
-- crates/kernel-memory/src/map.rs: `MemoryKind` and the numbers of `EFI_MEMORY_TYPE`.
use paranuk_os.Base.{ℕ, ◌<◌, ◌≡◌, refl, arith, leb, ◌&&◌, ◌||◌, ◌==◌}
use paranuk_os.MemoryMap.{MemoryKind, unknown, from_raw, raw, is_ram}

-- The kinds that `from_raw` builds: an unknown kind carries a number above 15.
abbrev pub IsKnown : MemoryKind → Type 0
IsKnown (unknown n) = 15 < n
IsKnown _ = Unit {0}

pub raw-from_raw : (n : ℕ) → raw (from_raw n) ≡ n
unfolding raw from_raw
raw-from_raw n = ground arith

pub from_raw-IsKnown : (n : ℕ) → IsKnown (from_raw n)
unfolding from_raw
from_raw-IsKnown n = ground arith

pub from_raw-raw : (k : MemoryKind) → IsKnown k → from_raw (raw k) ≡ k
unfolding raw from_raw
from_raw-raw (unknown n) h = ground arith
from_raw-raw MemoryKind.reserved h = refl
from_raw-raw _ h = refl

-- The number and the kind determine one another: every number is the number of the kind that it
-- stands for, and every kind that a number stands for comes back from its own number.
pub from_raw-raw_inverse :
    (n : ℕ) (k : MemoryKind) → IsKnown k → (raw (from_raw n) ≡ n) × (from_raw (raw k) ≡ k)
from_raw-raw_inverse n k h = (raw-from_raw n, from_raw-raw k h)

-- RAM are exactly the types 1 to 7, 9 and 10; a number that the kernel does not know is not RAM.
pub is_ram-from_raw : (n : ℕ) → is_ram (from_raw n) ≡ ((leb 1 n && leb n 7) || (n == 9 || n == 10))
unfolding is_ram from_raw
is_ram-from_raw n = ground arith
