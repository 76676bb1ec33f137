-- ===== src/Paging/Writes.antt =====
-- crates/kernel-memory/src/paging.rs: the writes of `build` fill the tables, entry after entry.
use native.Mathlib.Decide.{dec_lt, ℕ_discrete}
use paranuk_os.Base.{
  ℕ, zero, suc, ◌+◌, ◌*◌, ◌≤◌, ◌<◌, ◌≡◌, refl, sym, ap, ◌∙◌, subst, true, none, some, List, [], ◌∷◌,
  arith, word, add_word, sub_word, leb, length, take, drop, get_elem?, copy_into, patch, to_le,
  length-to_le, length-patch, drop-patch_after, take-drop-patch, take-drop-patch_before,
}
use paranuk_os.MemoryMap.{page_size}
use paranuk_os.Paging.{write_entry, take_pages}

-- The bytes behind the tables, and the length, are as at the start; the entries before `at` are those of
-- `entry`, and the others are zero.
pub record IsInside (start : List ℕ) (tables : ℕ) (entry : ℕ → ℕ) (at : ℕ) (arena : List ℕ)
    : Type 0 where
  pub same_length : length arena ≡ length start
  pub same_rest : drop (tables * page_size) arena ≡ drop (tables * page_size) start
  pub written : (n : ℕ) → n < at → take 8 (drop (n * 8) arena) ≡ to_le 8 (entry n)
  pub ahead : (n : ℕ) → at ≤ n → n < tables * 512 → take 8 (drop (n * 8) arena) ≡ to_le 8 0

module _ (start : List ℕ) (tables : ℕ) (entry : ℕ → ℕ) where
  -- Entries that stay zero.
  pub skip-IsInside :
      (at m : ℕ) (arena : List ℕ)
      → at ≤ m
      → m ≤ tables * 512
      → ((n : ℕ) → at ≤ n → n < m → entry n ≡ 0)
      → IsInside start tables entry at arena
      → IsInside start tables entry m arena
  skip-IsInside at m arena le l h v = record {
    same_length = v.same_length;
    same_rest = v.same_rest;
    written = λ n lt. elim (dec_lt n at) [
      | yes before ↦ v.written n before
      | no behind ↦
          v.ahead n (omega arith) (omega arith) ∙ ap (to_le 8) (sym (h n (omega arith) lt))
    ];
    ahead = λ n le2 lt. v.ahead n (omega arith) lt;
  }

  -- The entry of a table of the arena that comes next.
  pub record IsNext (base at table index value : ℕ) : Type 0 where
    pub number : ℕ
    pub in_tables : number < tables
    pub address : table ≡ base + number * page_size
    pub in_table : index < 512
    pub position : at ≡ number * 512 + index
    pub right : value ≡ entry at

  pub write_entry-IsInside :
      (arena : List ℕ) (base at table index value : ℕ)
      → tables * page_size ≤ length start
      → IsInside start tables entry at arena
      → IsNext base at table index value
      → (result : List ℕ) × (write_entry base arena table index value ≡ some result)
        × IsInside start tables entry (suc at) result
  unfolding write_entry copy_into
  write_entry-IsInside arena base at table index value fits v i =
      let new = to_le 8 value in
      let offset = i.number * page_size + index * 8 in
      let n = length-to_le 8 value in
      let same : offset ≡ at * 8 = omega (arith, i.position) in
      let inside : offset + 8 ≤ tables * page_size = omega (arith, i.in_tables, i.in_table) in
      let e1 : sub_word table base ≡ some (i.number * page_size) =
        ap (λ t. sub_word t base) i.address ∙ ground arith in
      let e2 : leb (offset + length new) (length arena) ≡ true = ground (arith, n, v.same_length) in
      let le : offset + length new ≤ length arena = omega (arith, n, v.same_length) in
      (
        patch arena offset new,
        rw (e1, e2) refl,
        record {
          same_length = length-patch arena offset new le ∙ v.same_length;
          same_rest =
              drop-patch_after arena offset (tables * page_size) new (omega (arith, n)) le
              ∙ v.same_rest;
          written = λ k lt. elim (ℕ_discrete k at) [
            | yes e ↦
                subst (λ j. take 8 (drop j (patch arena offset new)) ≡ to_le 8 (entry k))
                  {x = offset} (omega arith)
                  (take-drop-patch arena offset new (omega (arith, n))
                    ∙ ap (to_le 8) (i.right ∙ ap entry (sym e)))
            | no ne ↦
                take-drop-patch_before arena offset (k * 8) 8 new (omega arith) le
                ∙ v.written k (omega arith)
          ];
          ahead = λ k lt l.
              ap (take 8) (drop-patch_after arena offset (k * 8) new (omega (arith, n)) le)
              ∙ v.ahead k (omega arith) l;
        },
      )

-- The addresses of tables side by side.
abbrev pub IsPages : ℕ → ℕ → List ℕ → Type 0
IsPages base next [] = Unit {0}
IsPages base next (page ∷ pages) = (page ≡ base + next * page_size) × IsPages base (suc next) pages

pub get_elem?-IsPages :
    (base next i page : ℕ) (pages : List ℕ)
    → IsPages base next pages
    → get_elem? pages i ≡ some page
    → (page ≡ base + (next + i) * page_size) × (i < length pages)
get_elem?-IsPages base next i page [] h e = absurd (cc)
get_elem?-IsPages base next zero page (x ∷ xs) h e = ground (arith, h.0)
get_elem?-IsPages base next (suc i) page (x ∷ xs) h e =
    let (a, l) = get_elem?-IsPages base (suc next) i page xs h.1 e in (omega arith, omega arith)

pub get_elem?-none : (pages : List ℕ) (i : ℕ) → get_elem? pages i ≡ none → length pages ≤ i
get_elem?-none [] i e = omega arith
get_elem?-none (x ∷ xs) zero e = absurd (cc)
get_elem?-none (x ∷ xs) (suc i) e = omega (arith, get_elem?-none xs i e)

pub take_pages-IsPages :
    (base tables next n : ℕ)
    → base + tables * page_size ≤ word
    → next + n ≤ tables
    → (pages : List ℕ) × (take_pages base next n ≡ some pages)
      × IsPages base next pages
      × (length pages ≡ n)
unfolding take_pages
take_pages-IsPages base tables next zero w l = ([], refl, tt, refl)
take_pages-IsPages base tables next (suc n) w l =
    let (pages, e, all, len) = take_pages-IsPages base tables (suc next) n w (omega arith) in
    let f : add_word base (next * page_size) ≡ some (base + next * page_size) = ground arith in
    ((base + next * page_size) ∷ pages, rw (f, e) refl, (refl, all), ap suc len)
