-- ===== src/Frame/Bitmap.antt =====
-- crates/kernel-memory/src/frame.rs: `bit`, `set_bit`, and how many bits of a bitmap are set.
use native.Mathlib.Decide.{ℕ_discrete}
use paranuk_os.Base.{
  ℕ, zero, suc, ◌+◌, ◌*◌, ◌/◌, ◌%◌, ◌<◌, ◌≡◌, ◌≢◌, refl, ap, Bool, true, false, some, List, [], ◌∷◌,
  arith, ◌==◌, if◌then◌else◌, length, get_or, set, All, length-set, get_or-set, get_elem?-eq-get_or,
  test_bit, raise, lower, test_bit-raise, test_bit-lower, raise-lt, lower-lt, replicate,
}
use paranuk_os.Frame.{bit, set_bit}

abbrev pub bit_at : List ℕ → ℕ → Bool
bit_at bytes i = test_bit (get_or bytes (i / 8) 0) (i % 8)

abbrev pub IsBytes : List ℕ → Type 0
IsBytes = All (λ b. b < 256)

pub get_or-lt : (bytes : List ℕ) (i : ℕ) → IsBytes bytes → get_or bytes i 0 < 256
get_or-lt [] i h = omega arith
get_or-lt (b ∷ bytes) zero h = h.0
get_or-lt (b ∷ bytes) (suc i) h = get_or-lt bytes i h.1

set-IsBytes : (bytes : List ℕ) (i v : ℕ) → IsBytes bytes → v < 256 → IsBytes (set bytes i v)
set-IsBytes [] i v h lt = tt
set-IsBytes (b ∷ bytes) zero v h lt = (lt, h.1)
set-IsBytes (b ∷ bytes) (suc i) v h lt = (h.0, set-IsBytes bytes i v h.1 lt)

pub replicate-IsBytes : (n b : ℕ) → b < 256 → IsBytes (replicate n b)
replicate-IsBytes zero b h = tt
replicate-IsBytes (suc n) b h = (h, replicate-IsBytes n b h)

pub bit-bit_at :
    (bytes : List ℕ) (i : ℕ) → i < 8 * length bytes → bit bytes i ≡ some (bit_at bytes i)
unfolding bit
bit-bit_at bytes i h = ground (arith, get_elem?-eq-get_or bytes (i / 8) 0)

-- The bitmap after `set_bit`, where it does not panic.
abbrev pub written : List ℕ → ℕ → Bool → List ℕ
written bytes i v =
    let byte = get_or bytes (i / 8) 0 in
    set bytes (i / 8) (if v then raise byte (i % 8) else lower byte (i % 8))

pub set_bit-written :
    (bytes : List ℕ) (i : ℕ) (v : Bool)
    → i < 8 * length bytes
    → set_bit bytes i v ≡ some (written bytes i v)
unfolding set_bit
set_bit-written bytes i v h = ground (arith, get_elem?-eq-get_or bytes (i / 8) 0)

pub length-written : (bytes : List ℕ) (i : ℕ) (v : Bool) → length (written bytes i v) ≡ length bytes
length-written bytes i true = length-set bytes (i / 8) (raise (get_or bytes (i / 8) 0) (i % 8))
length-written bytes i false = length-set bytes (i / 8) (lower (get_or bytes (i / 8) 0) (i % 8))

pub written-IsBytes :
    (bytes : List ℕ) (i : ℕ) (v : Bool) → IsBytes bytes → IsBytes (written bytes i v)
written-IsBytes bytes i true h =
    set-IsBytes bytes (i / 8) (raise (get_or bytes (i / 8) 0) (i % 8)) h
      (raise-lt (get_or bytes (i / 8) 0) (i % 8) (get_or-lt bytes (i / 8) h) (omega arith))
written-IsBytes bytes i false h =
    set-IsBytes bytes (i / 8) (lower (get_or bytes (i / 8) 0) (i % 8)) h
      (lower-lt (get_or bytes (i / 8) 0) (i % 8) (get_or-lt bytes (i / 8) h) (omega arith))

-- `set_bit` changes one bit and no other.
pub bit_at-written :
    (bytes : List ℕ) (i j : ℕ) (v : Bool)
    → IsBytes bytes
    → i < 8 * length bytes
    → bit_at (written bytes i v) j ≡ (if i == j then v else bit_at bytes j)
bit_at-written bytes i j true h lt = ground (
  arith,
  get_or-set bytes (i / 8) (j / 8) (raise (get_or bytes (i / 8) 0) (i % 8)) 0 (omega arith),
  test_bit-raise (get_or bytes (i / 8) 0) (i % 8) (j % 8) (get_or-lt bytes (i / 8) h) (omega arith)
      (omega arith),
)
bit_at-written bytes i j false h lt = ground (
  arith,
  get_or-set bytes (i / 8) (j / 8) (lower (get_or bytes (i / 8) 0) (i % 8)) 0 (omega arith),
  test_bit-lower (get_or bytes (i / 8) 0) (i % 8) (j % 8) (get_or-lt bytes (i / 8) h) (omega arith)
      (omega arith),
)

-- How many numbers below a bound pass a test.
abbrev pub count_below : (ℕ → Bool) → ℕ → ℕ
count_below f zero = 0
count_below f (suc n) = (if f n then 1 else 0) + count_below f n

pub count_below-ext :
    (f g : ℕ → Bool) (n : ℕ) → ((j : ℕ) → j < n → f j ≡ g j) → count_below f n ≡ count_below g n
count_below-ext f g zero h = refl
count_below-ext f g (suc n) h =
    ground (arith, h n (omega arith), count_below-ext f g n (λ j lt. h j (omega arith)))

-- A change at one number changes the count by that number.
pub count_below-change :
    (f g : ℕ → Bool) (i n : ℕ)
    → ((j : ℕ) → j ≢ i → f j ≡ g j)
    → i < n
    → count_below g n + (if f i then 1 else 0) ≡ count_below f n + (if g i then 1 else 0)
count_below-change f g i zero h lt = absurd (omega arith)
count_below-change f g i (suc n) h lt = elim (ℕ_discrete i n) [
  | yes e ↦ ground (arith, e, count_below-ext f g n (λ j l. h j (omega arith)), ap f e, ap g e)
  | no ne ↦ ground (arith, h n (omega arith), count_below-change f g i n h (omega arith))
]
