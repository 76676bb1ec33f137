-- ===== src/BootInfo/Laws.antt =====
-- crates/boot-info/src/lib.rs: what the kernel may rely on after `validate`, and the exit codes.
use paranuk_os.Base.{
  bit_or-double, ℕ, ◌+◌, ◌*◌, ◌≤◌, ◌<◌, ◌≡◌, ◌≢◌, ◌⊎◌, true, false, Result, ok, err, arith, word,
  ◌-◌, ◌==◌, if◌then◌else◌,
}
use paranuk_os.BootInfo.{
  BootInfo, BootInfoError, wrong_magic, unsupported_version, too_small, boot_info_magic, size_of,
  validate, sized, has_user_image, user_vaddr_end, qemu_exit_code,
}

-- The size that a version must have.
abbrev pub required : ℕ → ℕ
required version = if version == 0 then 88 else 120

-- What `validate` finds.
abbrev pub IsValidated : BootInfo → Result BootInfoError (Unit {0}) → Type 0
IsValidated info (ok _) =
    (info.magic ≡ boot_info_magic) × (info.version ≤ 1) × (required info.version ≤ info.size)
IsValidated info (err (wrong_magic found)) = (found ≡ info.magic) × (info.magic ≢ boot_info_magic)
IsValidated info (err (unsupported_version found supported)) =
    (info.magic ≡ boot_info_magic) × (found ≡ info.version) × (supported ≡ 1) × (1 < info.version)
IsValidated info (err (too_small size expected)) =
    (info.magic ≡ boot_info_magic)
    × (info.version ≤ 1)
    × (size ≡ info.size)
    × (expected ≡ required info.version)
    × (info.size < expected)

-- `validate` on every branch. It accepts exactly the right magic, a version of at most 1, and a size
-- of at least 88 bytes for version 0 and 120 for version 1; each error names the first of these that
-- does not hold.
pub validate-IsValidated : (info : BootInfo) → IsValidated info (validate info)
unfolding validate sized
validate-IsValidated info = ground arith

-- When a validated boot info has a user image.
abbrev pub HasImage : BootInfo → Type 0
HasImage info =
    (has_user_image info ≡ true)
    × (info.version ≡ 1)
    × (size_of ≤ info.size)
    × (info.user_phys ≢ 0)
    × (info.user_vaddr ≢ 0)
    × (info.user_vaddr < user_vaddr_end info)
    × (info.user_entry ≢ 0)

-- When it has none.
abbrev pub LacksImage : BootInfo → Type 0
LacksImage info =
    (has_user_image info ≡ false)
    × ((info.version ≡ 0)
        ⊎ (info.user_phys ≡ 0)
        ⊎ (info.user_vaddr ≡ 0)
        ⊎ (user_vaddr_end info ≤ info.user_vaddr)
        ⊎ (info.user_entry ≡ 0))

-- What `has_user_image` says of a boot info that `validate` accepts, whose image starts at a 64-bit
-- address below the last one. It is true exactly if the version is 1, the image has an address, a
-- virtual address and an entry other than 0, and it ends behind its start; the structure is then
-- large enough for the four fields of the image to lie inside it. It is false exactly if one of the
-- five fails.
pub has_user_image-validate :
    (info : BootInfo)
    → validate info ≡ ok tt
    → info.user_vaddr < word - 1
    → HasImage info ⊎ LacksImage info
unfolding validate sized has_user_image user_vaddr_end
has_user_image-validate info v lt = ground arith

-- A byte that is written to the exit port ends QEMU with an odd code, twice the byte and one.
qemu_exit_code-odd : (value : ℕ) → value < 256 → qemu_exit_code value ≡ 2 * value + 1
unfolding qemu_exit_code
qemu_exit_code-odd value lt = omega (arith, bit_or-double value lt)

-- Different bytes written to the exit port end QEMU with different codes, and no code is 0, so that
-- a run that never wrote one is told apart from all of them.
pub qemu_exit_code_injective :
    (a b : ℕ)
    → a < 256
    → b < 256
    → qemu_exit_code a ≡ qemu_exit_code b
    → (a ≡ b) × (qemu_exit_code a ≢ 0)
qemu_exit_code_injective a b la lb e =
    let p = qemu_exit_code-odd a la in
    let q = qemu_exit_code-odd b lb in (omega (arith, p, q, e), omega (arith, p))
