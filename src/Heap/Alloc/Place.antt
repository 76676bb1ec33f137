-- ===== src/Heap/Alloc/Place.antt =====
-- crates/kernel-memory/src/heap.rs: where `alloc` puts a payload in a free block.
use paranuk_os.Base.{
  ℕ, suc, ◌+◌, ◌-◌, ◌*◌, ◌/◌, ◌%◌, ◌≤◌, ◌<◌, ◌≡◌, ◌⊎◌, inl, inr, refl, sym, ap, ◌∙◌, Bool, true,
  false, not, ◌&&◌, ◌||◌, some, arith, word, add_word, ltb, ◌==◌, ◌>>=◌, tested, tested-at,
}
use native.Mathlib.Decide.{dec_le}
use native.Mathlib.Nat.{
  mul-le-mul_left, mul-mod_right, mod-mod_of_dvd, dvd_of_mod-eq-zero, zero-mod,
}
use paranuk_os.Heap.{header_size, min_block, align_up, is_power_of_two}
use paranuk_os.Heap.Alloc.{place}

power_ok : ℕ → Bool
power_ok n = not (is_power_of_two n) || (n == 1 || (n == 2 || (n == 4 || (ltb 0 n && n % 8 == 0))))

power_table : tested power_ok 0 4097 ≡ true
unfolding tested power_ok
power_table = refl

-- An alignment that `alloc` takes divides 8, or is a multiple of 8.
alignments :
    (n : ℕ)
    → is_power_of_two n ≡ true
    → n ≤ 4096
    → ((0 < n) × (8 % n ≡ 0)) ⊎ ((0 < n) × (n % 8 ≡ 0))
unfolding power_ok
alignments n p l =
    ground (arith, p, tested-at power_ok 0 4097 n (omega arith) (omega arith) power_table)

multiple : (r n m : ℕ) → r % n ≡ 0 → n % m ≡ 0 → r % m ≡ 0
multiple r n m e f =
    sym (mod-mod_of_dvd m r (dvd_of_mod-eq-zero m f)) ∙ ap (λ k. k % m) e ∙ zero-mod m

rounded : ℕ → ℕ → ℕ
rounded value align = value + (align - 1) - (value + (align - 1)) % align

rounded_aligned : (value align : ℕ) → rounded value align % align ≡ 0
unfolding rounded
rounded_aligned value align =
    let sum = value + (align - 1) in
    ap (λ k. k % align) {y = align * (sum / align)} (omega arith)
    ∙ mul-mod_right align (sum / align)

rounded_least :
    (value align p : ℕ) → 0 < align → value ≤ p → p % align ≡ 0 → rounded value align ≤ p
unfolding rounded
rounded_least value align p pos l e =
    let sum = value + (align - 1) in
    elim (dec_le (sum / align) (p / align)) [
      | yes h ↦ omega (arith, mul-le-mul_left align h)
      | no h ↦
          let m : suc (p / align) ≤ sum / align = omega arith in
          absurd (omega (arith, mul-le-mul_left align m))
    ]

rounded_range :
    (value align : ℕ)
    → 0 < align
    → (value ≤ rounded value align) × (rounded value align < value + align)
unfolding rounded
rounded_range value align pos = (omega arith, omega arith)

align_up-rounded :
    (value align : ℕ)
    → 0 < align
    → value + align ≤ word
    → align_up value align ≡ some (rounded value align)
unfolding align_up rounded
align_up-rounded value align pos l = ground arith

-- A payload in a block directly behind the header, or with room for a block before its header.
abbrev pub IsPlace : ℕ → ℕ → ℕ → Type 0
IsPlace at align p = ((p ≡ at + 24) ⊎ (at + 64 ≤ p)) × (p % align ≡ 0)

-- The gap before the header of the payload that is placed.
pub record IsGap (at align gap : ℕ) : Type 0 where
  pub gap_block : (gap ≡ 0) ⊎ (40 ≤ gap)
  pub gap_aligned : gap % 8 ≡ 0
  pub gap_bound : gap ≤ 8192
  pub payload_aligned : (at + 24 + gap) % align ≡ 0
  pub least : (p : ℕ) → IsPlace at align p → at + 24 + gap ≤ p

module _ (at size align g : ℕ) (first : align_up (at + 24) align ≡ some (at + 24 + g)) where
  place_near :
      (g ≡ 0) ⊎ (40 ≤ g)
      → place at size align ≡ (add_word (at + 24 + g) size >>= λ end. some (at + 24 + g, end, g))
  unfolding place
  place_near h =
      let e : at + 24 + g - (at + header_size) ≡ g = omega arith in
      let f : (ltb 0 g && ltb g 40) ≡ false = ground (arith, h) in
      rw (first, e, f)
        (ap (λ n. add_word (at + 24 + g) size >>= λ end. some (at + 24 + g, end, n)) e)

  place_far :
      (h : ℕ)
      → 0 < g
      → g < 40
      → at + 64 < word
      → align_up (at + 64) align ≡ some (at + 24 + h)
      → place at size align ≡ (add_word (at + 24 + h) size >>= λ end. some (at + 24 + h, end, h))
  unfolding place
  place_far h l m w next =
      let e : at + 24 + g - (at + header_size) ≡ g = omega arith in
      let f : (ltb 0 g && ltb g 40) ≡ true = ground (arith, l, m) in
      let k : add_word (at + header_size) min_block ≡ some (at + 64) = ground arith in
      let e2 : at + 24 + h - (at + header_size) ≡ h = omega arith in
      rw (first, e, f, k, next, e2) refl

-- What `place` returns, with the gap that it leaves.
abbrev pub Places : ℕ → ℕ → ℕ → ℕ → Type 0
Places at size align gap =
    IsGap at align gap
    × (place at size align
        ≡ (add_word (at + 24 + gap) size >>= λ end. some (at + 24 + gap, end, gap)))

module _ (at size align : ℕ) (m : at % 8 ≡ 0) (a : align ≤ 4096) (pos : 0 < align)
    (l : at + 16384 ≤ word) where
  place_small : 8 % align ≡ 0 → Places at size align 0
  place_small d =
      let here : (at + 24) % align ≡ 0 = multiple (at + 24) 8 align (omega arith) d in
      let e : rounded (at + 24) align ≡ at + 24 + 0 = omega (
        arith,
        rounded_range (at + 24) align pos,
        rounded_least (at + 24) align (at + 24) pos (omega arith) here,
      ) in
      (
        record {
          gap_block = inl refl;
          gap_aligned = refl;
          gap_bound = omega arith;
          payload_aligned = ap (λ k. k % align) {x = at + 24 + 0} (omega arith) ∙ here;
          least = λ p h. ground (arith, h);
        },
        place_near at size align 0 (align_up-rounded (at + 24) align pos (omega arith) ∙ ap some e)
            (inl refl),
      )

  place_large : align % 8 ≡ 0 → (gap : ℕ) × Places at size align gap
  place_large d =
      let first = rounded (at + 24) align in
      let g = first - (at + 24) in
      let r = rounded_range (at + 24) align pos in
      let e : first ≡ at + 24 + g = omega (arith, r) in
      let up = align_up-rounded (at + 24) align pos (omega arith) ∙ ap some e in
      let far = rounded (at + 64) align in
      let h = far - (at + 24) in
      let r2 = rounded_range (at + 64) align pos in
      let e2 : far ≡ at + 24 + h = omega (arith, r2) in
      let up2 = align_up-rounded (at + 64) align pos (omega arith) ∙ ap some e2 in
      let m1 : (at + 24 + g) % align ≡ 0 =
        ap (λ k. k % align) (sym e) ∙ rounded_aligned (at + 24) align in
      let m2 : (at + 24 + h) % align ≡ 0 =
        ap (λ k. k % align) (sym e2) ∙ rounded_aligned (at + 64) align in
      let near : (g ≡ 0) ⊎ (40 ≤ g) → (gap : ℕ) × Places at size align gap = λ n. (
        g,
        (
          record {
            gap_block = n;
            gap_aligned = omega (arith, multiple (at + 24 + g) align 8 m1 d);
            gap_bound = omega (arith, r);
            payload_aligned = m1;
            least = λ p q.
                omega (arith, e, rounded_least (at + 24) align p pos (omega (arith, q.0)) q.1);
          },
          place_near at size align g up n,
        ),
      ) in
      elim (dec_le g 0) [
        | yes z ↦ near (inl (omega arith))
        | no z ↦ elim (dec_le 40 g) [
          | yes b ↦ near (inr b)
          | no b ↦ (
            h,
            (
              record {
                gap_block = inr (omega (arith, r2));
                gap_aligned = omega (arith, multiple (at + 24 + h) align 8 m2 d);
                gap_bound = omega (arith, r2);
                payload_aligned = m2;
                least = λ p q. elim q.0 [
                  | inl f ↦
                      absurd (omega (arith, rounded_least (at + 24) align p pos (omega arith) q.1))
                  | inr f ↦ omega (arith, e2, rounded_least (at + 64) align p pos f q.1)
                ];
              },
              place_far at size align g up h (omega arith) (omega arith) (omega arith) up2,
            ),
          )
        ]
      ]

-- At a block on a multiple of 8 that starts at least 16384 below 2^64, and for a power of two of at
-- most 4096 as alignment, the gap before the header is a multiple of 8, at most 8192, and empty or at
-- least 40 bytes. The payload is aligned, and at the lowest offset that is, directly behind the header
-- or with at least 40 bytes before it. `place` fails only if the end of the payload is no 64-bit number.
pub place_lem :
    (at size align : ℕ)
    → at % 8 ≡ 0
    → is_power_of_two align ≡ true
    → align ≤ 4096
    → at + 16384 ≤ word
    → (gap : ℕ) × Places at size align gap
place_lem at size align m p a l = elim (alignments align p a) [
  | inl (pos, d) ↦ (0, place_small at size align m a pos l d)
  | inr (pos, d) ↦ place_large at size align m a pos l d
]
