-- ===== src/MemoryMap/Top.antt =====
-- crates/kernel-memory/src/map.rs: `ram_top`.
use paranuk_os.Base.{
  ℕ, ◌≤◌, ◌≡◌, ◌⊎◌, inl, inr, refl, sym, ◌∙◌, subst, true, false, Option, none, some, List, [], ◌∷◌,
  arith, All,
}
use paranuk_os.MemoryMap.{Region, end, MemoryMap, is_ram, iter, raised, ram_top_from, ram_top}

-- No RAM region of the list ends above the given address; there is none if no address is given.
abbrev pub IsAbove : Option ℕ → Region → Type 0
IsAbove none r = is_ram r.kind ≡ false
IsAbove (some top) r = (is_ram r.kind ≡ false) ⊎ (end r ≤ top)

-- A RAM region of the list ends at the address, if one is given.
abbrev pub EndsAt : Option ℕ → List Region → Type 0
EndsAt none rs = Unit {0}
EndsAt (some top) [] = ⊥
EndsAt (some top) (r ∷ rs) = ((is_ram r.kind ≡ true) × (end r ≡ top)) ⊎ EndsAt (some top) rs

-- What an accumulator says is kept by the loop.
abbrev Covers : Option ℕ → Option ℕ → Type 0
Covers none out = Unit {0}
Covers (some a) none = ⊥
Covers (some a) (some b) = a ≤ b

Covers-trans : (a b c : Option ℕ) → Covers a b → Covers b c → Covers a c
Covers-trans none b c h k = tt
Covers-trans (some a) none c h k = elim h [ ]
Covers-trans (some a) (some b) none h k = elim k [ ]
Covers-trans (some a) (some b) (some c) h k = omega arith

IsAbove-Covers : (a b : Option ℕ) (r : Region) → Covers a b → IsAbove a r → IsAbove b r
IsAbove-Covers none none r c h = h
IsAbove-Covers none (some b) r c h = inl h
IsAbove-Covers (some a) none r c h = elim c [ ]
IsAbove-Covers (some a) (some b) r c (inl h) = inl h
IsAbove-Covers (some a) (some b) r c (inr h) = inr (omega arith)

raised-step : (top : Option ℕ) (r : Region) → Covers top (raised top r) × IsAbove (raised top r) r
unfolding raised
raised-step none r = ground arith
raised-step (some t) r = ground arith

ram_top_from-Covers : (top : Option ℕ) (rs : List Region) → Covers top (ram_top_from top rs)
unfolding ram_top_from
ram_top_from-Covers none [] = tt
ram_top_from-Covers (some t) [] = omega arith
ram_top_from-Covers top (r ∷ rs) =
    Covers-trans top (raised top r) (ram_top_from (raised top r) rs) (raised-step top r).0
      (ram_top_from-Covers (raised top r) rs)

ram_top_from-IsAbove : (top : Option ℕ) (rs : List Region) → All (IsAbove (ram_top_from top rs)) rs
unfolding ram_top_from
ram_top_from-IsAbove top [] = tt
ram_top_from-IsAbove top (r ∷ rs) = (
  IsAbove-Covers (raised top r) (ram_top_from (raised top r) rs) r
      (ram_top_from-Covers (raised top r) rs) (raised-step top r).1,
  ram_top_from-IsAbove (raised top r) rs,
)

raised-cases :
    (top : Option ℕ) (r : Region)
    → (raised top r ≡ top) ⊎ ((is_ram r.kind ≡ true) × (raised top r ≡ some (end r)))
unfolding raised
raised-cases none r = ground arith
raised-cases (some t) r = ground arith

EndsAt-cons : (o : Option ℕ) (r : Region) (rs : List Region) → EndsAt o rs → EndsAt o (r ∷ rs)
EndsAt-cons none r rs h = tt
EndsAt-cons (some t) r rs h = inr h

ram_top_from-EndsAt :
    (top : Option ℕ) (rs : List Region)
    → (ram_top_from top rs ≡ top) ⊎ EndsAt (ram_top_from top rs) rs
unfolding ram_top_from
ram_top_from-EndsAt top [] = inl refl
ram_top_from-EndsAt top (r ∷ rs) = elim (ram_top_from-EndsAt (raised top r) rs) [
  | inr at ↦ inr (EndsAt-cons (ram_top_from (raised top r) rs) r rs at)
  | inl e ↦ elim (raised-cases top r) [
    | inl f ↦ inl (e ∙ f)
    | inr (ram, f) ↦ inr (subst (λ o. EndsAt o (r ∷ rs)) (sym (e ∙ f)) (inl (ram, refl)))
  ]
]

-- `ram_top` is the highest end of the RAM regions: no RAM region ends above it, one ends at it, and
-- it is `None` exactly when the map has no RAM region.
pub ram_top_lem : (m : MemoryMap) → All (IsAbove (ram_top m)) (iter m) × EndsAt (ram_top m) (iter m)
unfolding ram_top
ram_top_lem m = (
  ram_top_from-IsAbove none (iter m),
  elim (ram_top_from-EndsAt none (iter m)) [
    | inl e ↦ subst (λ o. EndsAt o (iter m)) (sym e) tt
    | inr at ↦ at
  ],
)
