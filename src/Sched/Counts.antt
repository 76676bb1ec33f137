-- ===== src/Sched/Counts.antt =====
-- How often a thread stands in a list of thread ids, and the pigeonhole bound on such a list.
pub use paranuk_os.Base.{count, count-append}
use paranuk_os.Base.{
  ℕ, zero, suc, ◌+◌, ◌≤◌, ◌<◌, ◌≡◌, List, [], ◌∷◌, arith, length, ltb, if◌then◌else◌,
}

sum_counts : ℕ → List ℕ → ℕ
sum_counts zero xs = 0
sum_counts (suc n) xs = count n xs + sum_counts n xs

sum_counts-nil : (n : ℕ) → sum_counts n [] ≡ 0
unfolding sum_counts
sum_counts-nil zero = omega arith
sum_counts-nil (suc n) = omega (arith, sum_counts-nil n)

sum_counts-cons :
    (n x : ℕ) (xs : List ℕ) → sum_counts n (x ∷ xs) ≡ (if ltb x n then 1 else 0) + sum_counts n xs
unfolding sum_counts
sum_counts-cons zero x xs = ground arith
sum_counts-cons (suc n) x xs = ground (arith, sum_counts-cons n x xs)

length-eq-sum_counts :
    (n : ℕ) (xs : List ℕ) → ((i : ℕ) → n ≤ i → count i xs ≡ 0) → length xs ≡ sum_counts n xs
length-eq-sum_counts n [] h = omega (arith, sum_counts-nil n)
length-eq-sum_counts n (x ∷ xs) h =
    ground (
      arith,
      h x,
      sum_counts-cons n x xs,
      length-eq-sum_counts n xs (λ i le. omega (arith, h i le)),
    )

sum_counts-le : (n : ℕ) (xs : List ℕ) → ((i : ℕ) → count i xs ≤ 1) → sum_counts n xs ≤ n
unfolding sum_counts
sum_counts-le zero xs h = omega arith
sum_counts-le (suc n) xs h = omega (arith, h n, sum_counts-le n xs h)

sum_counts-lt :
    (n j : ℕ) (xs : List ℕ)
    → ((i : ℕ) → count i xs ≤ 1)
    → count j xs ≡ 0
    → j < n
    → sum_counts n xs < n
unfolding sum_counts
sum_counts-lt zero j xs h e lt = absurd (omega arith)
sum_counts-lt (suc n) j xs h e lt =
    ground (arith, h n, sum_counts-le n xs h, sum_counts-lt n j xs h e)

-- A list of distinct numbers below `n` that misses one of them is shorter than `n`.
pub length-lt_of_absent :
    (n j : ℕ) (xs : List ℕ)
    → ((i : ℕ) → count i xs ≤ 1)
    → ((i : ℕ) → n ≤ i → count i xs ≡ 0)
    → count j xs ≡ 0
    → j < n
    → length xs < n
length-lt_of_absent n j xs h out e lt =
    omega (arith, length-eq-sum_counts n xs out, sum_counts-lt n j xs h e lt)
