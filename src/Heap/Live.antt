-- ===== src/Heap/Live.antt =====
-- crates/kernel-memory/src/heap.rs: the payloads of the blocks in use.
use paranuk_os.Base.{
  ℕ, ◌+◌, ◌<◌, ◌≡◌, refl, sym, ap, ◌∙◌, true, false, List, [], ◌∷◌, ◌++◌, arith, count,
  count-append, ◌==◌, if◌then◌else◌,
}
use native.Mathlib.Decide.{ℕ_discrete}
use paranuk_os.Heap.Blocks.{Blocks, total}
use paranuk_os.Heap.Join.{join, coalesce}

abbrev pub live : ℕ → Blocks → List ℕ
live at [] = []
live at ((true, s) ∷ bs) = live (at + s) bs
live at ((false, s) ∷ bs) = (at + 24) ∷ live (at + s) bs

live-append : (at : ℕ) (xs ys : Blocks) → live at (xs ++ ys) ≡ live at xs ++ live (at + total xs) ys
live-append at [] ys = ap (λ n. live n ys) (omega arith)
live-append at ((true, s) ∷ xs) ys =
    live-append (at + s) xs ys ∙ ap (λ n. live (at + s) xs ++ live n ys) (omega arith)
live-append at ((false, s) ∷ xs) ys =
    ap (λ l. (at + 24) ∷ l)
      (live-append (at + s) xs ys ∙ ap (λ n. live (at + s) xs ++ live n ys) (omega arith))

-- Joining free blocks changes no payload.
pub live-coalesce : (at : ℕ) (bs : Blocks) → live at (coalesce bs) ≡ live at bs
live-coalesce at [] = refl
live-coalesce at ((true, s) ∷ bs) = joined (coalesce bs) ∙ live-coalesce (at + s) bs
  where
    joined : (cs : Blocks) → live at (join s cs) ≡ live (at + s) cs
    joined [] = refl
    joined ((true, t) ∷ cs) = ap (λ n. live n cs) (omega arith)
    joined ((false, t) ∷ cs) = refl
live-coalesce at ((false, s) ∷ bs) = ap (λ l. (at + 24) ∷ l) (live-coalesce (at + s) bs)

-- A payload lies in a block in use.
pub live-block :
    (p at : ℕ) (bs : Blocks)
    → 0 < count p (live at bs)
    → (xs ys : Blocks) × (s : ℕ) × (bs ≡ xs ++ (false, s) ∷ ys) × (p ≡ at + total xs + 24)
live-block p at [] l = absurd (omega arith)
live-block p at ((true, s) ∷ bs) l =
    let (xs, ys, t, e, f) = live-block p (at + s) bs l in
    ((true, s) ∷ xs, ys, t, ap (λ cs. (true, s) ∷ cs) e, omega (arith, f))
live-block p at ((false, s) ∷ bs) l = elim (ℕ_discrete (at + 24) p) [
  | yes e ↦ ([], bs, s, refl, omega (arith, e))
  | no ne ↦
      let (xs, ys, t, e, f) = live-block p (at + s) bs (ground (arith, l, ne)) in
      ((false, s) ∷ xs, ys, t, ap (λ cs. (false, s) ∷ cs) e, omega (arith, f))
]

swap : (x y z : ℕ) → x + (y + z) ≡ y + (x + z)
swap x y z = omega arith

-- A block in use adds its payload to those of the other blocks.
pub count-live_used :
    (p : ℕ) (xs ys : Blocks) (s : ℕ)
    → count p (live 0 (xs ++ (false, s) ∷ ys))
      ≡ (if total xs + 24 == p then 1 else 0) + count p (live 0 (xs ++ (true, s) ∷ ys))
count-live_used p xs ys s =
    let e : 0 + total xs ≡ total xs = omega arith in
    ap (count p) (live-append 0 xs ((false, s) ∷ ys))
    ∙ count-append p (live 0 xs) (live (0 + total xs) ((false, s) ∷ ys))
    ∙ ap (λ n. count p (live 0 xs) + ((if n + 24 == p then 1 else 0) + count p (live (n + s) ys))) e
    ∙ swap (count p (live 0 xs)) (if total xs + 24 == p then 1 else 0)
        (count p (live (total xs + s) ys))
    ∙ ap
        (λ n.
          (if total xs + 24 == p then 1 else 0) + (count p (live 0 xs) + count p (live (n + s) ys)))
        (sym e)
    ∙ ap (λ n. (if total xs + 24 == p then 1 else 0) + n)
        (sym (
          ap (count p) (live-append 0 xs ((true, s) ∷ ys))
          ∙ count-append p (live 0 xs) (live (0 + total xs) ((true, s) ∷ ys))))
