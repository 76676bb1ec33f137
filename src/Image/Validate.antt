-- ===== src/Image/Validate.antt =====
-- crates/kernel-image/src/lib.rs: `validate`.
use paranuk_os.Base.{
  ℕ, ◌+◌, ◌≤◌, ◌<◌, ◌≡◌, ◌≢◌, refl, ap, ◌∙◌, true, not, some, List, [], ◌∷◌, arith, ◌==◌,
  if◌then◌else◌, Bool-cases, length, take, drop, get_or, from_le, Result, ok, err, inl, inr,
  get_elem?-eq-get_or,
}
use native.Mathlib.Decide.{ℕ_discrete, dec_lt}
use paranuk_os.Image.{
  ImageError, too_small, not_elf, not_elf64, not_little_endian, not_executable, unsupported_machine,
  elf_magic, same_bytes, read_le, validate,
}

-- The number that `n` bytes at an offset hold, and one byte.
abbrev pub field : List ℕ → ℕ → ℕ → ℕ
field image offset n = from_le (take n (drop offset image))

abbrev pub byte : List ℕ → ℕ → ℕ
byte image offset = get_or image offset 0

pub read_le-field :
    (n : ℕ) (image : List ℕ) (offset : ℕ)
    → offset + n ≤ length image
    → read_le n image offset ≡ some (field image offset n)
unfolding read_le
read_le-field n image offset h = ground arith

same_bytes-eq : (xs ys : List ℕ) → same_bytes xs ys ≡ true → xs ≡ ys
unfolding same_bytes
same_bytes-eq [] [] h = refl
same_bytes-eq [] (y ∷ ys) h = absurd (ground (arith, h))
same_bytes-eq (x ∷ xs) [] h = absurd (ground (arith, h))
same_bytes-eq (x ∷ xs) (y ∷ ys) h =
    let e : x ≡ y = ground (arith, h) in
    let es : xs ≡ ys = same_bytes-eq xs ys (ground (arith, h)) in λ i. e i ∷ es i

same_bytes_refl : (xs : List ℕ) → same_bytes xs xs ≡ true
unfolding same_bytes
same_bytes_refl [] = refl
same_bytes_refl (x ∷ xs) = ground (arith, same_bytes_refl xs)

-- The image is large enough for a file header, and starts with the magic bytes.
abbrev pub HasMagic : List ℕ → Type 0
HasMagic image = (64 ≤ length image) × (take 4 image ≡ elf_magic)

-- What `validate` finds.
abbrev pub IsValidated : List ℕ → Result ImageError ℕ → Type 0
IsValidated image (ok entry) =
    HasMagic image
    × (byte image 4 ≡ 2)
    × (byte image 5 ≡ 1)
    × (field image 16 2 ≡ 2)
    × (field image 18 2 ≡ 62)
    × (entry ≡ field image 24 8)
IsValidated image (err (too_small n)) = (n ≡ length image) × (n < 64)
IsValidated image (err not_elf) = (64 ≤ length image) × (take 4 image ≢ elf_magic)
IsValidated image (err not_elf64) = HasMagic image × (byte image 4 ≢ 2)
IsValidated image (err not_little_endian) = HasMagic image × (byte image 4 ≡ 2) × (byte image 5 ≢ 1)
IsValidated image (err (not_executable n)) =
    HasMagic image × (byte image 4 ≡ 2) × (byte image 5 ≡ 1) × (n ≡ field image 16 2) × (n ≢ 2)
IsValidated image (err (unsupported_machine n)) =
    HasMagic image
    × (byte image 4 ≡ 2)
    × (byte image 5 ≡ 1)
    × (field image 16 2 ≡ 2)
    × (n ≡ field image 18 2)
    × (n ≢ 62)

-- `validate` with every read replaced by what it yields.
validated : List ℕ → Result ImageError ℕ
validated image =
    if not (same_bytes (take 4 image) elf_magic)
    then err not_elf
    else if not (byte image 4 == 2)
    then err not_elf64
    else if not (byte image 5 == 1)
    then err not_little_endian
    else if not (field image 16 2 == 2)
    then err (not_executable (field image 16 2))
    else if not (field image 18 2 == 62)
    then err (unsupported_machine (field image 18 2))
    else ok (field image 24 8)

validate-validated : (image : List ℕ) → 64 ≤ length image → validate image ≡ some (validated image)
unfolding validate validated
validate-validated image h = ground (
  arith,
  h,
  get_elem?-eq-get_or image 4 0 (omega arith),
  get_elem?-eq-get_or image 5 0 (omega arith),
  read_le-field 2 image 16 (omega arith),
  read_le-field 2 image 18 (omega arith),
  read_le-field 8 image 24 (omega arith),
)

validated_lem :
    (image : List ℕ)
    → 64 ≤ length image
    → (r : Result ImageError ℕ) × (validated image ≡ r) × IsValidated image r
unfolding validated
validated_lem image l = elim (Bool-cases (same_bytes (take 4 image) elf_magic)) [
  | inr e ↦ (
    err not_elf,
    ground (arith, e),
    (l, λ q. ground (arith, e, ap (same_bytes (take 4 image)) q, same_bytes_refl (take 4 image))),
  )
  | inl e ↦
      let magic : HasMagic image = (l, same_bytes-eq (take 4 image) elf_magic e) in
      elim (ℕ_discrete (byte image 4) 2) [
        | no n4 ↦ (err not_elf64, ground (arith, e, n4), (magic, n4))
        | yes y4 ↦ elim (ℕ_discrete (byte image 5) 1) [
          | no n5 ↦ (err not_little_endian, ground (arith, e, y4, n5), (magic, y4, n5))
          | yes y5 ↦ elim (ℕ_discrete (field image 16 2) 2) [
            | no n16 ↦ (
              err (not_executable (field image 16 2)),
              ground (arith, e, y4, y5, n16),
              (magic, y4, y5, refl, n16),
            )
            | yes y16 ↦ elim (ℕ_discrete (field image 18 2) 62) [
              | no n18 ↦ (
                err (unsupported_machine (field image 18 2)),
                ground (arith, e, y4, y5, y16, n18),
                (magic, y4, y5, y16, refl, n18),
              )
              | yes y18 ↦ (
                ok (field image 24 8),
                ground (arith, e, y4, y5, y16, y18),
                (magic, y4, y5, y16, y18, refl),
              )
            ]
          ]
        ]
      ]
]

-- `validate` never panics. It accepts exactly an image of at least 64 bytes with the magic, the
-- class, the byte order, the type and the machine of an executable for this processor, and returns
-- the entry point of its header. Each error names the first of these checks that fails.
pub validate_lem :
    (image : List ℕ) → (r : Result ImageError ℕ) × (validate image ≡ some r) × IsValidated image r
unfolding validate
validate_lem image = elim (dec_lt (length image) 64) [
  | yes lt ↦ (err (too_small (length image)), ground arith, (refl, lt))
  | no ge ↦
      let v = validate-validated image (omega arith) in
      let (r, e, h) = validated_lem image (omega arith) in (r, v ∙ ap some e, h)
]
