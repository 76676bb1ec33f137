-- ===== src/Image/Checks/Entry.antt =====
-- crates/kernel-image/src/lib.rs: `check_entry`.
use paranuk_os.Base.{
  ℕ, ◌+◌, ◌≤◌, ◌<◌, ◌≡◌, ◌⊎◌, inl, inr, refl, ap, ◌∙◌, true, false, ◌&&◌, some, List, [], ◌∷◌,
  Result, ok, err, ◌>>=◌, word, ltb, leb, arith, Bool-cases, All,
}
use native.Mathlib.Decide.{dec_lt}
use paranuk_os.Image.{
  Segment, is_executable, SegmentError, filesz_larger_than_memsz, data_out_of_bounds, empty_segment,
  overlapping_segments, bad_program_headers, address_overflow, entry_not_executable, Header, ended,
  outside, skipped, loaded,
}
use paranuk_os.Image.Checks.{Flow, go, return, checked, entry_body, check_entry}
use paranuk_os.Image.Checks.Walk.{
  walk, all_headers, table_of, size_of, count_of, HasTable, IsUnwrapped, over_segments_lem,
}
use paranuk_os.Image.Checks.Segments.{IsPresent, headers-IsPresent}

-- One of a list has the property.
abbrev pub Any : (Header → Type 0) → List Header → Type 0
Any P [] = ⊥
Any P (h ∷ hs) = P h ⊎ Any P hs

-- The header is of an executable segment, with an end that does not wrap, which holds the address.
abbrev pub IsEntered : ℕ → Header → Type 0
IsEntered entry (loaded s) =
    (is_executable s ≡ true)
    × (s.vaddr ≤ entry)
    × (entry < s.vaddr + s.memsz)
    × (s.vaddr + s.memsz < word)
IsEntered entry _ = ⊥

-- The header is in order, and if it is of a segment, that is not executable or does not hold it.
abbrev pub IsMissed : ℕ → Header → Type 0
IsMissed entry skipped = Unit {0}
IsMissed entry (loaded s) =
    (s.vaddr + s.memsz < word)
    × ((is_executable s ≡ false) ⊎ (entry < s.vaddr) ⊎ (s.vaddr + s.memsz ≤ entry))
IsMissed entry _ = ⊥

abbrev pub IsOutside : Header → Type 0
IsOutside outside = Unit {0}
IsOutside _ = ⊥

abbrev pub IsWrapped : Header → Type 0
IsWrapped (loaded s) = word ≤ s.vaddr + s.memsz
IsWrapped _ = ⊥

entry_body_lem :
    (entry : ℕ) (s : Segment)
    → (IsMissed entry (loaded s) × (entry_body entry tt s ≡ some (go tt)))
      ⊎ (IsEntered entry (loaded s) × (entry_body entry tt s ≡ some (return (ok tt))))
      ⊎ (IsWrapped (loaded s) × (entry_body entry tt s ≡ some (return (err address_overflow))))
unfolding entry_body checked
entry_body_lem entry s = elim (dec_lt (s.vaddr + s.memsz) word) [
  | no big ↦ inr (inr (omega arith, ground arith))
  | yes fits ↦
      elim (Bool-cases (is_executable s && (leb s.vaddr entry && ltb entry (s.vaddr + s.memsz)))) [
        | inl e ↦ inr (
            inl
              ((ground (arith, e), ground (arith, e), ground (arith, e), fits), ground (arith, e)))
        | inr e ↦ inl ((fits, ground (arith, e)), ground (arith, e))
      ]
]

-- What the loop finds.
abbrev Walked : ℕ → List Header → Flow (Unit {0}) (Unit {0}) → Type 0
Walked entry hs (go _) = All (IsMissed entry) hs
Walked entry hs (return (ok _)) = Any (IsEntered entry) hs
Walked entry hs (return (err bad_program_headers)) = Any IsOutside hs
Walked entry hs (return (err address_overflow)) = Any IsWrapped hs
Walked entry hs (return (err _)) = ⊥

Walked-cons :
    (entry : ℕ) (h : Header) (hs : List Header) (f : Flow (Unit {0}) (Unit {0}))
    → IsMissed entry h
    → Walked entry hs f
    → Walked entry (h ∷ hs) f
Walked-cons entry h hs (go _) m w = (m, w)
Walked-cons entry h hs (return (ok _)) m w = inr w
Walked-cons entry h hs (return (err bad_program_headers)) m w = inr w
Walked-cons entry h hs (return (err address_overflow)) m w = inr w
Walked-cons entry h hs (return (err filesz_larger_than_memsz)) m w = w
Walked-cons entry h hs (return (err data_out_of_bounds)) m w = w
Walked-cons entry h hs (return (err empty_segment)) m w = w
Walked-cons entry h hs (return (err overlapping_segments)) m w = w
Walked-cons entry h hs (return (err entry_not_executable)) m w = w

walk-entry_body :
    (entry : ℕ) (hs : List Header)
    → All IsPresent hs
    → (f : Flow (Unit {0}) (Unit {0})) × (walk hs tt (entry_body entry) ≡ some f)
      × Walked entry hs f
walk-entry_body entry [] p = (go tt, refl, tt)
walk-entry_body entry (ended ∷ hs) p = elim p.0 [ ]
walk-entry_body entry (outside ∷ hs) p = (return (err bad_program_headers), refl, inl tt)
walk-entry_body entry (skipped ∷ hs) p =
    let (f, e, w) = walk-entry_body entry hs p.1 in (f, e, Walked-cons entry skipped hs f tt w)
walk-entry_body entry (loaded s ∷ hs) p = elim (entry_body_lem entry s) [
  | inl (m, b) ↦
      let (f, e, w) = walk-entry_body entry hs p.1 in
      (f, rw (b) e, Walked-cons entry (loaded s) hs f m w)
  | inr (inl (m, b)) ↦ (return (ok tt), rw (b) refl, inl m)
  | inr (inr (m, b)) ↦ (return (err address_overflow), rw (b) refl, inl m)
]

-- What `check_entry` finds.
abbrev pub IsEntryChecked : List ℕ → ℕ → Result SegmentError (Unit {0}) → Type 0
IsEntryChecked image entry (ok _) = HasTable image × Any (IsEntered entry) (all_headers image)
IsEntryChecked image entry (err entry_not_executable) =
    HasTable image × All (IsMissed entry) (all_headers image)
IsEntryChecked image entry (err bad_program_headers) =
    (¬ HasTable image) ⊎ Any IsOutside (all_headers image)
IsEntryChecked image entry (err address_overflow) = Any IsWrapped (all_headers image)
IsEntryChecked image entry (err _) = ⊥

-- `check_entry` never panics on an image whose table of program headers ends at a 64-bit number. If
-- it accepts, an executable segment holds the entry point. If it says that the entry point is not
-- executable, then no executable segment holds it and all headers are in order. Otherwise there is no
-- table, a header lies outside the file, or the end of a segment wraps, as the error says.
pub check_entry_lem :
    (image : List ℕ) (entry : ℕ)
    → IsUnwrapped image
    → (r : Result SegmentError (Unit {0})) × (check_entry image entry ≡ some r)
      × IsEntryChecked image entry r
unfolding check_entry
check_entry_lem image entry w =
    elim (over_segments_lem image tt (entry_body entry) (λ _. err entry_not_executable) w) [
      | inl (bad, e) ↦ (err bad_program_headers, e, inl bad)
      | inr (table, e) ↦
          let present : All IsPresent (all_headers image) =
            headers-IsPresent image (table_of image) (size_of image) (count_of image) 0 table.2
              (omega (arith, w)) in
          let (f, g, h) = walk-entry_body entry (all_headers image) present in
          (ended_by f, e ∙ ap (λ x. x >>= λ flow. some (ended_by flow)) g, result table f h)
    ]
  where
    ended_by : Flow (Unit {0}) (Unit {0}) → Result SegmentError (Unit {0})
    ended_by flow = elim flow [ go t ↦ err entry_not_executable | return r ↦ r ]

    result :
        HasTable image
        → (f : Flow (Unit {0}) (Unit {0})) → Walked entry (all_headers image) f
        → IsEntryChecked image entry (ended_by f)
    result table (go _) h = (table, h)
    result table (return (ok _)) h = (table, h)
    result table (return (err bad_program_headers)) h = inr h
    result table (return (err address_overflow)) h = h
    result table (return (err filesz_larger_than_memsz)) h = h
    result table (return (err data_out_of_bounds)) h = h
    result table (return (err empty_segment)) h = h
    result table (return (err overlapping_segments)) h = h
    result table (return (err entry_not_executable)) h = elim h [ ]
