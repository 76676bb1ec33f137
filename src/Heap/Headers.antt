-- ===== src/Heap/Headers.antt =====
-- crates/kernel-memory/src/heap.rs: reading a block header after writing one.
use paranuk_os.Base.{
  copy_into, ℕ, zero, suc, ◌+◌, ◌^◌, ◌≤◌, ◌<◌, ◌≡◌, ◌⊎◌, inl, inr, refl, sym, ap, ◌∙◌, none, some,
  List, [], ◌∷◌, ◌++◌, append_assoc, arith, add_word, word, leb, if◌then◌else◌, length, take, drop,
  slice?, patch, to_le, length-append, from_le-to_le, length-patch, take-drop-patch,
  take-drop-patch_before, drop-patch_after, drop-drop,
}
use paranuk_os.Heap.{write_header, read_header}

patch-append : (a ys b : List ℕ) → patch (a ++ ys) (length a) b ≡ a ++ patch ys 0 b
patch-append [] ys b = refl
patch-append (x ∷ a) ys b = ap (◌∷◌ x) (patch-append a ys b)

-- Two writes side by side are one.
pub patch-patch :
    (xs : List ℕ) (offset : ℕ) (a b : List ℕ)
    → patch (patch xs offset a) (offset + length a) b ≡ patch xs offset (a ++ b)
patch-patch xs zero a b =
    ap (λ n. patch (patch xs 0 a) n b) {y = length a} (omega arith)
    ∙ patch-append a (drop (length a) xs) b
    ∙ ap (λ ys. a ++ (b ++ ys))
        (drop-drop (length b) (length a) xs ∙ ap (λ n. drop n xs) (sym (length-append a b)))
    ∙ sym (append_assoc a b (drop (length (a ++ b)) xs))
patch-patch [] (suc offset) a b = ap (λ n. patch [] n b) {y = suc (offset + length a)} (omega arith)
patch-patch (x ∷ xs) (suc offset) a b =
    ap (λ n. patch (x ∷ patch xs offset a) n b) {y = suc (offset + length a)} (omega arith)
    ∙ ap (◌∷◌ x) (patch-patch xs offset a b)

abbrev header_bytes : ℕ → ℕ → ℕ → List ℕ
header_bytes magic size next = to_le 4 magic ++ (to_le 4 0 ++ (to_le 8 size ++ to_le 8 next))

-- The arena with a header written at an offset.
abbrev pub written : List ℕ → ℕ → ℕ → ℕ → ℕ → List ℕ
written arena offset magic size next = patch arena offset (header_bytes magic size next)

module _ (arena : List ℕ) (offset magic size next : ℕ) (fits : offset + 24 ≤ length arena) where
  pub length-written : length (written arena offset magic size next) ≡ length arena
  length-written = length-patch arena offset (header_bytes magic size next) fits

copy_into-patch :
    (xs : List ℕ) (offset : ℕ) (a b : List ℕ)
    → offset + length a + length b ≤ length xs
    → copy_into (patch xs offset a) (offset + length a) b ≡ some (patch xs offset (a ++ b))
unfolding copy_into
copy_into-patch xs offset a b h =
    ground (arith, length-patch xs offset a (omega arith)) ∙ ap some (patch-patch xs offset a b)

start :
    (xs : List ℕ) (offset : ℕ) (a : List ℕ)
    → offset + length a ≤ length xs
    → copy_into xs offset a ≡ some (patch xs offset a)
unfolding copy_into
start xs offset a h = ground arith

pub write_header-written :
    (arena : List ℕ) (offset magic size next : ℕ)
    → offset + 24 ≤ length arena
    → write_header arena offset magic size next ≡ some (written arena offset magic size next)
unfolding write_header
write_header-written arena offset magic size next fits =
    let a = to_le 4 magic in
    let b = to_le 4 0 in
    let c = to_le 8 size in
    let e1 : copy_into arena offset a ≡ some (patch arena offset a) =
      start arena offset a (omega arith) in
    let e2 = copy_into-patch arena offset a b (omega arith) in
    let e3 = copy_into-patch arena offset (a ++ b) c (omega arith) in
    let e4 = copy_into-patch arena offset (a ++ (b ++ c)) (to_le 8 next) (omega arith) in
    rw (e1, e2, e3, e4, write_header) refl

same_slice :
    (xs ys : List ℕ) (at n : ℕ)
    → length ys ≡ length xs
    → take n (drop at ys) ≡ take n (drop at xs)
    → slice? ys at n ≡ slice? xs at n
same_slice xs ys at n l e = λ i. if leb (at + n) (l i) then some (e i) else none

-- A header is read from its 24 bytes alone.
pub read_header-same :
    (xs ys : List ℕ) (at : ℕ)
    → length ys ≡ length xs
    → take 24 (drop at ys) ≡ take 24 (drop at xs)
    → read_header ys at ≡ read_header xs at
unfolding read_header
read_header-same xs ys at l e = rw (same_slice xs ys at 24 l e, read_header) refl

pub slice-written_apart :
    (arena : List ℕ) (offset magic size next at n : ℕ)
    → offset + 24 ≤ length arena
    → (at + n ≤ offset) ⊎ (offset + 24 ≤ at)
    → take n (drop at (written arena offset magic size next)) ≡ take n (drop at arena)
slice-written_apart arena offset magic size next at n fits (inl before) =
    take-drop-patch_before arena offset at n (header_bytes magic size next) before fits
slice-written_apart arena offset magic size next at n fits (inr behind) =
    ap (take n) (drop-patch_after arena offset at (header_bytes magic size next) behind fits)

pub read_header-written_apart :
    (arena : List ℕ) (offset magic size next at : ℕ)
    → offset + 24 ≤ length arena
    → (at + 24 ≤ offset) ⊎ (offset + 24 ≤ at)
    → read_header (written arena offset magic size next) at ≡ read_header arena at
read_header-written_apart arena offset magic size next at fits apart =
    read_header-same arena (written arena offset magic size next) at
      (length-written arena offset magic size next fits)
      (slice-written_apart arena offset magic size next at 24 fits apart)

pub read_header-written :
    (arena : List ℕ) (offset magic size next : ℕ)
    → offset + 24 ≤ length arena
    → length arena < word
    → magic < 2 ^ 32
    → size < word
    → next < word
    → read_header (written arena offset magic size next) offset ≡ some (magic, size, next)
unfolding read_header
read_header-written arena offset magic size next fits small m s n =
    let e1 : add_word offset 24 ≡ some (offset + 24) = ground arith in
    let e2 : slice? (written arena offset magic size next) offset 24
        ≡ some (header_bytes magic size next) =
      ground (arith, length-written arena offset magic size next fits)
      ∙ ap some (take-drop-patch arena offset (header_bytes magic size next) (omega arith)) in
    rw (e1, e2, read_header)
      (λ i. some (from_le-to_le 4 magic m i, from_le-to_le 8 size s i, from_le-to_le 8 next n i))
