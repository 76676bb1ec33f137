-- ===== src/Heap/Dealloc/Next.antt =====
-- crates/kernel-memory/src/heap.rs: the free block behind the freed one.
use paranuk_os.Base.{
  ℕ, ◌+◌, ◌-◌, ◌%◌, ◌<◌, ◌≡◌, inl, inr, refl, sym, ap, subst, true, false, List, [], ◌∷◌, arith,
  word, ◌==◌, ok,
}
use paranuk_os.Heap.{no_block}
use paranuk_os.Heap.Blocks.{Blocks, total, first_free, first_free-range, Holds}
use paranuk_os.Heap.Outside.{Keeps}
use paranuk_os.Heap.Join.{join}
use paranuk_os.Heap.Dealloc.{swallow_next}

-- A block of `size` bytes and the blocks behind it take the place of one of `s` bytes before `ys`.
pub record IsNext (arena : List ℕ) (header s : ℕ) (ys : Blocks) (size : ℕ) (zs : Blocks)
    : Type 0 where
  pub swallowed :
      swallow_next arena s (header + s) (first_free (header + s) ys no_block)
      ≡ ok (size, first_free (header + size) zs no_block)
  pub joined : join s ys ≡ (true, size) ∷ zs
  pub behind : Holds arena (header + size) zs no_block
  pub same_end : size + total zs ≡ s + total ys
  pub large : 24 < size
  pub aligned : size % 8 ≡ 0
  pub kept :
      (arena' : List ℕ) → Keeps arena arena' (header + size) zs → Keeps arena arena' (header + s) ys

pub next_lem :
    (arena : List ℕ) (header s : ℕ) (ys : Blocks)
    → 24 < s
    → s % 8 ≡ 0
    → Holds arena (header + s) ys no_block
    → header + s + total ys < word - 1
    → (size : ℕ) × (zs : Blocks) × IsNext arena header s ys size zs
unfolding swallow_next
next_lem arena header s [] l m h w = (
  s,
  [],
  record {
    swallowed = refl;
    joined = refl;
    behind = tt;
    same_end = refl;
    large = l;
    aligned = m;
    kept = λ arena' k. tt;
  },
)
next_lem arena header s ((true, t) ∷ zs) l m h w =
    let e : header + s + t ≡ header + (s + t) = omega arith in
    let e1 : (header + s == no_block) ≡ false = ground arith in
    let e2 : (header + s == header + s) ≡ true = ground arith in
    (
      s + t,
      zs,
      record {
        swallowed = rw (e1, e2, h.2) (ap (λ n. ok (s + t, first_free n zs no_block)) e);
        joined = refl;
        behind = subst (λ n. Holds arena n zs no_block) e h.3;
        same_end = omega arith;
        large = omega arith;
        aligned = omega (arith, h.1);
        kept = λ arena' k. subst (λ n. Keeps arena arena' n zs) (sym e) k;
      },
    )
next_lem arena header s ((false, t) ∷ zs) l m h w = (
  s,
  (false, t) ∷ zs,
  record {
    swallowed = elim (first_free-range (header + s + t) zs no_block) [
      | inl e ↦
          let e1 : (first_free (header + s + t) zs no_block == no_block) ≡ true =
            ground (arith, e) in
          rw e1 refl
      | inr (ge, le) ↦
          let e1 : (first_free (header + s + t) zs no_block == no_block) ≡ false =
            ground (arith, ge, le) in
          let e2 : (header + s == first_free (header + s + t) zs no_block) ≡ false =
            ground (arith, h.0, ge) in
          rw (e1, e2) refl
    ];
    joined = refl;
    behind = h;
    same_end = refl;
    large = l;
    aligned = m;
    kept = λ arena' k. k;
  },
)
