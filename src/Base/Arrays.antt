-- ===== src/Base/Arrays.antt =====
-- Rust arrays and slices as lists, under the library's names with native indices.
use Prim.Native.Nat.{ℕ, zero, suc, ◌+◌, ◌<◌}
use mathlib.Core.Path.{◌≡◌, refl, ap}
use mathlib.Core.Bool.{Bool, true, false}
use mathlib.Core.List.{List, [], ◌∷◌, ◌++◌}
use mathlib.Core.Option
use mathlib.Core.Option.{Option, none, some}
use native.Mathlib.Omega.{arith}
use paranuk_os.Base.Tests.{ltb, ◌==◌, if◌then◌else◌}

module _ {ℓ} {A : Type ℓ} where
  abbrev pub length : List A → ℕ
  length [] = 0
  length (x ∷ xs) = suc (length xs)

  -- `xs[i]`, and `none` for the panic out of range.
  abbrev pub get_elem? : List A → ℕ → Option A
  get_elem? [] i = none
  get_elem? (x ∷ xs) zero = some x
  get_elem? (x ∷ xs) (suc i) = get_elem? xs i

  abbrev pub get_or : List A → ℕ → A → A
  get_or [] i d = d
  get_or (x ∷ xs) zero d = x
  get_or (x ∷ xs) (suc i) d = get_or xs i d

  abbrev pub set : List A → ℕ → A → List A
  set [] i v = []
  set (x ∷ xs) zero v = v ∷ xs
  set (x ∷ xs) (suc i) v = x ∷ set xs i v

  -- `xs[i] = v`, and `none` for the panic out of range.
  abbrev pub set? : List A → ℕ → A → Option (List A)
  set? xs i v = if ltb i (length xs) then some (set xs i v) else none

  abbrev pub replicate : ℕ → A → List A
  replicate zero a = []
  replicate (suc n) a = a ∷ replicate n a

  abbrev pub take : ℕ → List A → List A
  take zero xs = []
  take (suc n) [] = []
  take (suc n) (x ∷ xs) = x ∷ take n xs

  abbrev pub drop : ℕ → List A → List A
  drop zero xs = xs
  drop (suc n) [] = []
  drop (suc n) (x ∷ xs) = drop n xs

  -- `xs.iter().position(p)`
  abbrev pub position : (A → Bool) → List A → Option ℕ
  position p [] = none
  position p (x ∷ xs) = if p x then some 0 else Option.map suc (position p xs)

module _ {ℓ} {A : Type ℓ} where
  pub length-set : (xs : List A) (i : ℕ) (v : A) → length (set xs i v) ≡ length xs
  length-set [] i v = refl
  length-set (x ∷ xs) zero v = refl
  length-set (x ∷ xs) (suc i) v = ap suc (length-set xs i v)

  pub length-append : (xs ys : List A) → length (xs ++ ys) ≡ length xs + length ys
  length-append [] ys = omega arith
  length-append (x ∷ xs) ys = omega (arith, length-append xs ys)

  pub length-replicate : (n : ℕ) (a : A) → length (replicate n a) ≡ n
  length-replicate zero a = refl
  length-replicate (suc n) a = ap suc (length-replicate n a)

  pub get_elem?-eq-get_or :
      (xs : List A) (i : ℕ) (d : A) → i < length xs → get_elem? xs i ≡ some (get_or xs i d)
  get_elem?-eq-get_or [] i d h = absurd (omega arith)
  get_elem?-eq-get_or (x ∷ xs) zero d h = refl
  get_elem?-eq-get_or (x ∷ xs) (suc i) d h = get_elem?-eq-get_or xs i d (omega arith)

  -- A read after a write, at any two indices.
  pub get_or-set :
      (xs : List A) (i j : ℕ) (v d : A)
      → i < length xs
      → get_or (set xs i v) j d ≡ (if i == j then v else get_or xs j d)
  get_or-set [] i j v d h = absurd (omega arith)
  get_or-set (x ∷ xs) zero zero v d h = ground arith
  get_or-set (x ∷ xs) zero (suc j) v d h = ground arith
  get_or-set (x ∷ xs) (suc i) zero v d h = ground arith
  get_or-set (x ∷ xs) (suc i) (suc j) v d h = ground (arith, get_or-set xs i j v d)

  pub get_or-replicate : (n i : ℕ) (a : A) → get_or (replicate n a) i a ≡ a
  get_or-replicate zero i a = refl
  get_or-replicate (suc n) zero a = refl
  get_or-replicate (suc n) (suc i) a = get_or-replicate n i a

  -- What `position` finds is in range, passes the test, and is the first that does.
  pub position-some :
      (p : A → Bool) (xs : List A) (d : A) (i : ℕ)
      → position p xs ≡ some i
      → (i < length xs) × (p (get_or xs i d) ≡ true)
  position-some p [] d i h = absurd (cc)
  position-some p (x ∷ xs) d zero h = ground arith
  position-some p (x ∷ xs) d (suc i) h = ground (arith, position-some p xs d i)

  pub position-none :
      (p : A → Bool) (xs : List A) (d : A) (i : ℕ)
      → position p xs ≡ none
      → i < length xs
      → p (get_or xs i d) ≡ false
  position-none p [] d i h lt = absurd (omega arith)
  position-none p (x ∷ xs) d zero h lt = ground arith
  position-none p (x ∷ xs) d (suc i) h lt = ground (arith, position-none p xs d i)

  pub position-first :
      (p : A → Bool) (xs : List A) (d : A) (i j : ℕ)
      → position p xs ≡ some i
      → j < i
      → p (get_or xs j d) ≡ false
  position-first p [] d i j h lt = absurd (cc)
  position-first p (x ∷ xs) d zero j h lt = absurd (omega arith)
  position-first p (x ∷ xs) d (suc i) zero h lt = ground arith
  position-first p (x ∷ xs) d (suc i) (suc j) h lt = ground (arith, position-first p xs d i j)

  pub position-eq :
      (p : A → Bool) (xs : List A) (d : A) (i : ℕ)
      → i < length xs
      → p (get_or xs i d) ≡ true
      → ((j : ℕ) → j < i → p (get_or xs j d) ≡ false)
      → position p xs ≡ some i
  position-eq p [] d i lt h before = absurd (omega arith)
  position-eq p (x ∷ xs) d zero lt h before = ground arith
  position-eq p (x ∷ xs) d (suc i) lt h before = ground (
    arith,
    before 0 (omega arith),
    position-eq p xs d i (omega arith) h (λ j l. before (suc j) (omega arith)),
  )

  pub take-append : (xs ys : List A) → take (length xs) (xs ++ ys) ≡ xs
  take-append [] ys = refl
  take-append (x ∷ xs) ys = ap (◌∷◌ x) (take-append xs ys)

  pub get_or-append_left :
      (xs ys : List A) (i : ℕ) (d : A) → i < length xs → get_or (xs ++ ys) i d ≡ get_or xs i d
  get_or-append_left [] ys i d h = absurd (omega arith)
  get_or-append_left (x ∷ xs) ys zero d h = refl
  get_or-append_left (x ∷ xs) ys (suc i) d h = get_or-append_left xs ys i d (omega arith)

  pub get_or-replicate_lt : (n i : ℕ) (a d : A) → i < n → get_or (replicate n a) i d ≡ a
  get_or-replicate_lt zero i a d h = absurd (omega arith)
  get_or-replicate_lt (suc n) zero a d h = refl
  get_or-replicate_lt (suc n) (suc i) a d h = get_or-replicate_lt n i a d (omega arith)

abbrev pub All {ℓ} : {A : Type ℓ} → (A → Type 0) → List A → Type 0
All P [] = Unit {0}
All P (x ∷ xs) = P x × All P xs
