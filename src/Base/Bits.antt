-- ===== src/Base/Bits.antt =====
-- Single bits of a byte: the laws of `byte | mask` and `byte & !mask`, checked on all bytes.
use Prim.Native.Nat.{ℕ, zero, suc, ◌+◌, ◌-◌, ◌*◌, ◌^◌, ◌≤◌, ◌<◌, bit_and, bit_or}
use mathlib.Core.Path.{◌≡◌, refl, ap, ◌∙◌, sym}
use mathlib.Core.Bool.{Bool, true, false, not, ◌&&◌}
use native.Mathlib.Omega.{arith}
use native.Mathlib.Decide.{ℕ_discrete}
use paranuk_os.Base.Tests.{==_iff, ltb, ◌==◌, if◌then◌else◌}

-- `byte & (1 << k) != 0`
unfoldable pub test_bit : ℕ → ℕ → Bool
test_bit byte k = not (bit_and byte (2 ^ k) == 0)

abbrev pub raise : ℕ → ℕ → ℕ
raise byte k = bit_or byte (2 ^ k)

-- `!mask` on a `u8`
abbrev pub lower : ℕ → ℕ → ℕ
lower byte k = bit_and byte (255 - 2 ^ k)

-- A test on the `rounds` numbers from `from` on.
unfoldable pub tested : (ℕ → Bool) → ℕ → ℕ → Bool
tested test from zero = true
tested test from (suc rounds) = if test from then tested test (suc from) rounds else false

pub tested-at :
    (test : ℕ → Bool) (from rounds at : ℕ)
    → from ≤ at
    → at < from + rounds
    → tested test from rounds ≡ true
    → test at ≡ true
unfolding tested
tested-at test from zero at le lt passed = absurd (omega arith)
tested-at test from (suc rounds) at le lt passed = elim (ℕ_discrete from at) [
  | yes e ↦ ap test (sym e) ∙ ground (arith, passed)
  | no ne ↦ tested-at test (suc from) rounds at (omega arith) (omega arith) (ground (arith, passed))
]

abbrev all_bytes : (ℕ → Bool) → Bool
all_bytes test = tested test 0 256

abbrev all_bits : (ℕ → Bool) → Bool
all_bits test = tested test 0 8

-- A test that all bytes and pairs of bits pass.
byte_bits :
    (test : ℕ → ℕ → ℕ → Bool)
    → all_bytes (λ b. all_bits (λ k. all_bits (test b k))) ≡ true
    → (b k j : ℕ) → b < 256
    → k < 8
    → j < 8
    → test b k j ≡ true
byte_bits test table b k j hb hk hj = tested-at (test b k) 0 8 j (omega arith) hj (
    tested-at (λ k. all_bits (test b k)) 0 8 k (omega arith) hk
      (tested-at (λ b. all_bits (λ k. all_bits (test b k))) 0 256 b (omega arith) hb table))

same : Bool → Bool → Bool
same true b = b
same false b = not b

same-eq : (a b : Bool) → same a b ≡ true → a ≡ b
unfolding same
same-eq true b h = ground arith
same-eq false b h = ground arith

raise_ok : ℕ → ℕ → ℕ → Bool
raise_ok b k j =
    same (test_bit (raise b k) j) (if k == j then true else test_bit b j) && ltb (raise b k) 256

lower_ok : ℕ → ℕ → ℕ → Bool
lower_ok b k j =
    same (test_bit (lower b k) j) (if k == j then false else test_bit b j) && ltb (lower b k) 256

raise_table : all_bytes (λ b. all_bits (λ k. all_bits (raise_ok b k))) ≡ true
unfolding tested same raise_ok test_bit
raise_table = refl

lower_table : all_bytes (λ b. all_bits (λ k. all_bits (lower_ok b k))) ≡ true
unfolding tested same lower_ok test_bit
lower_table = refl

module _ (b k j : ℕ) (hb : b < 256) (hk : k < 8) (hj : j < 8) where
  raise_ok-true : raise_ok b k j ≡ true
  raise_ok-true = byte_bits raise_ok raise_table b k j hb hk hj

  lower_ok-true : lower_ok b k j ≡ true
  lower_ok-true = byte_bits lower_ok lower_table b k j hb hk hj

  pub test_bit-raise : test_bit (raise b k) j ≡ (if k == j then true else test_bit b j)
  test_bit-raise = same-eq _ _ (unfold raise_ok in ground (arith, raise_ok-true))

  pub test_bit-lower : test_bit (lower b k) j ≡ (if k == j then false else test_bit b j)
  test_bit-lower = same-eq _ _ (unfold lower_ok in ground (arith, lower_ok-true))

pub raise-lt : (b k : ℕ) → b < 256 → k < 8 → raise b k < 256
unfolding raise_ok
raise-lt b k hb hk = ground (arith, raise_ok-true b k 0 hb hk (omega arith))

pub lower-lt : (b k : ℕ) → b < 256 → k < 8 → lower b k < 256
unfolding lower_ok
lower-lt b k hb hk = ground (arith, lower_ok-true b k 0 hb hk (omega arith))

ends_ok : ℕ → Bool
ends_ok k = not (test_bit 0 k) && test_bit 255 k

ends_table : all_bits ends_ok ≡ true
unfolding tested ends_ok test_bit
ends_table = refl

-- The bits of the two bytes that fill a bitmap.
pub test_bit_ends : (k : ℕ) → k < 8 → (test_bit 0 k ≡ false) × (test_bit 255 k ≡ true)
unfolding ends_ok
test_bit_ends k h = ground (arith, tested-at ends_ok 0 8 k (omega arith) h ends_table)

doubled_ok : ℕ → Bool
doubled_ok b = bit_or (b * 2) 1 == b * 2 + 1

doubled_table : all_bytes doubled_ok ≡ true
unfolding tested doubled_ok
doubled_table = refl

-- Setting the lowest bit of a doubled byte.
pub bit_or-double : (b : ℕ) → b < 256 → bit_or (b * 2) 1 ≡ b * 2 + 1
unfolding doubled_ok
bit_or-double b h = (==_iff _ _).0 (tested-at doubled_ok 0 256 b (omega arith) h doubled_table)
