-- ===== src/Base/Results.antt =====
-- Fallible code. `Option` stands for code that may panic: `none` is a panic (an index out of
-- range, a failed `debug_assert!`, an overflow under overflow checks). `Result` is Rust's.
use Prim.Native.Nat.{ℕ, ◌+◌, ◌-◌, ◌*◌}
use mathlib.Core.Bool.{Bool, true, false}
use mathlib.Core.Option.{Option, none, some}
use paranuk_os.Base.Tests.{ltb, leb, if◌then◌else◌}

pub data Result {ℓ κ} (E : Type κ) (A : Type ℓ) : Type (ℓ ⊔ κ) where
  ok : A → Result E A
  err : E → Result E A

infixl 5 ◌>>=◌ ◌>>◌
abbrev pub ◌>>=◌ {ℓ κ} : {A : Type ℓ} {B : Type κ} → Option A → (A → Option B) → Option B
none >>= f = none
some a >>= f = f a

abbrev pub ◌>>◌ {ℓ} : {B : Type ℓ} → Option (Unit {0}) → Option B → Option B
m >> k = m >>= λ _. k

-- `debug_assert!`
abbrev pub assert : Bool → Option (Unit {0})
assert true = some tt
assert false = none

-- 2^64, the number of values of `usize` and `u64` on x86-64.
abbrev pub word : ℕ
word = 18446744073709551616

-- `checked_add`, `checked_mul`, and what `+`, `-` and `*` do under overflow checks.
abbrev pub add_word : ℕ → ℕ → Option ℕ
add_word a b = if ltb (a + b) word then some (a + b) else none

abbrev pub sub_word : ℕ → ℕ → Option ℕ
sub_word a b = if leb b a then some (a - b) else none

abbrev pub mul_word : ℕ → ℕ → Option ℕ
mul_word a b = if ltb (a * b) word then some (a * b) else none

-- The code does not panic, and `P` holds of what it returns.
abbrev pub Returns {ℓ} : {A : Type ℓ} → (A → Type 0) → Option A → Type 0
Returns P none = ⊥
Returns P (some a) = P a
