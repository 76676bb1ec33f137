-- ===== src/Paging/Filling.antt =====
-- crates/kernel-memory/src/paging.rs: the loops of `build` over the entries of the tables.
use paranuk_os.Base.{
  subst, ℕ, zero, suc, ◌+◌, ◌*◌, ◌≤◌, ◌<◌, ◌≡◌, refl, sym, ap, ◌∙◌, Option, some, List, [], ◌∷◌,
  arith, length,
}
use paranuk_os.MemoryMap.{page_size}
use paranuk_os.Paging.{Progress, link_pds, fill_slots, fill_tables, block_size, table_entry}
use paranuk_os.Paging.Writes.{IsInside, IsPages, write_entry-IsInside}

-- The entries before `at` are filled, and the bytes that are mapped are those of the blocks and the
-- pages.
pub record IsCounted (start : List ℕ) (tables : ℕ) (entry : ℕ → ℕ) (at : ℕ) (p : Progress)
    : Type 0 where
  pub inside : IsInside start tables entry at p.arena
  pub counted : p.mapped_bytes ≡ p.blocks * block_size + p.pages * page_size

module _ (start : List ℕ) (base tables : ℕ) (entry : ℕ → ℕ)
    (fits : tables * page_size ≤ length start) where
  -- A body of a loop fills the entries of the table number `number`, one by one.
  abbrev pub Steps : ℕ → (ℕ → Progress → Option Progress) → Type 0
  Steps number body =
      (slot : ℕ) (p : Progress)
      → slot < 512
      → IsCounted start tables entry (number * 512 + slot) p
      → (q : Progress) × (body slot p ≡ some q)
        × IsCounted start tables entry (suc (number * 512 + slot)) q

  pub fill_slots-IsCounted :
      (number : ℕ) (body : ℕ → Progress → Option Progress) (slot n : ℕ) (p : Progress)
      → Steps number body
      → slot + n ≤ 512
      → IsCounted start tables entry (number * 512 + slot) p
      → (q : Progress) × (fill_slots body slot n p ≡ some q)
        × IsCounted start tables entry (number * 512 + (slot + n)) q
  unfolding fill_slots
  fill_slots-IsCounted number body slot zero p h l v = (
    p,
    refl,
    subst (λ k. IsCounted start tables entry k p) {x = number * 512 + slot} (omega arith) v,
  )
  fill_slots-IsCounted number body slot (suc n) p h l v =
      let (q, e, w) = h slot p (omega arith) v in
      let (r, f, x) = fill_slots-IsCounted number body (suc slot) n q h (omega arith) (
        subst (λ k. IsCounted start tables entry k q) {x = suc (number * 512 + slot)} (omega arith)
          w) in
      (
        r,
        rw e f,
        subst (λ k. IsCounted start tables entry k r) {x = number * 512 + (suc slot + n)}
            (omega arith) x,
      )

  pub fill_tables-IsCounted :
      (body : ℕ → ℕ → ℕ → Progress → Option Progress) (first bound index : ℕ) (pages : List ℕ)
      (p : Progress)
      → ((i table : ℕ)
          → i < bound
          → table ≡ base + (first + i) * page_size
          → Steps (first + i) (body i table))
      → IsPages base (first + index) pages
      → index + length pages ≤ bound
      → IsCounted start tables entry ((first + index) * 512) p
      → (q : Progress) × (fill_tables body index pages p ≡ some q)
        × IsCounted start tables entry ((first + (index + length pages)) * 512) q
  unfolding fill_tables
  fill_tables-IsCounted body first bound index [] p h all l v = (
    p,
    refl,
    subst (λ k. IsCounted start tables entry k p) {x = (first + index) * 512} (omega arith) v,
  )
  fill_tables-IsCounted body first bound index (table ∷ pages) p h all l v =
      let (q, e, w) =
        fill_slots-IsCounted (first + index) (body index table) 0 512 p
          (h index table (omega arith) all.0) (omega arith)
          (subst (λ k. IsCounted start tables entry k p) {x = (first + index) * 512} (omega arith)
            v) in
      let (r, f, x) =
        fill_tables-IsCounted body first bound (suc index) pages q h
          (subst (λ n. IsPages base n pages) {x = suc (first + index)} (omega arith) all.1)
          (omega arith)
          (subst (λ k. IsCounted start tables entry k q) {x = (first + index) * 512 + (0 + 512)}
            (omega arith) w) in
      (
        r,
        rw e f,
        subst (λ k. IsCounted start tables entry k r)
            {x = (first + (suc index + length pages)) * 512} (omega arith) x,
      )

  pub link_pds-IsInside :
      (pdpt index bound : ℕ) (pds arena : List ℕ)
      → ((i : ℕ) → i < bound → entry (512 + i) ≡ table_entry (base + (2 + i) * page_size))
      → pdpt ≡ base + 1 * page_size
      → 2 ≤ tables
      → bound ≤ 512
      → IsPages base (2 + index) pds
      → index + length pds ≤ bound
      → IsInside start tables entry (512 + index) arena
      → (written : List ℕ) × (link_pds base pdpt index pds arena ≡ some written)
        × IsInside start tables entry (512 + (index + length pds)) written
  unfolding link_pds
  link_pds-IsInside pdpt index bound [] arena h at two few all l v = (
    arena,
    refl,
    subst (λ k. IsInside start tables entry k arena) {x = 512 + index} (omega arith) v,
  )
  link_pds-IsInside pdpt index bound (pd ∷ pds) arena h at two few all l v =
      let (a, e, w) =
        write_entry-IsInside start tables entry arena base (512 + index) pdpt index (table_entry pd)
          fits v
          (record {
            number = 1;
            in_tables = omega arith;
            address = at;
            in_table = omega arith;
            position = omega arith;
            right = ap table_entry all.0 ∙ sym (h index (omega arith));
          }) in
      let (b, f, x) =
        link_pds-IsInside pdpt (suc index) bound pds a h at two few
          (subst (λ n. IsPages base n pds) {x = suc (2 + index)} (omega arith) all.1) (omega arith)
          (subst (λ k. IsInside start tables entry k a) {x = suc (512 + index)} (omega arith) w) in
      (
        b,
        rw e f,
        subst (λ k. IsInside start tables entry k b) {x = 512 + (suc index + length pds)}
            (omega arith) x,
      )
