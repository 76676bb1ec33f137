-- ===== src/BootInfo/Tests.antt =====
-- Runs of the boot info's checks.
use paranuk_os.Base.{ℕ, ◌≡◌, ◌≢◌, ◌⊎◌, refl, arith}
use paranuk_os.BootInfo.{BootInfo, new, sized, validate, qemu_exit_code}
use paranuk_os.BootInfo.Laws.{
  IsValidated, HasImage, LacksImage, validate-IsValidated, has_user_image-validate,
  qemu_exit_code_injective,
}

abbrev old : BootInfo
old = record new { version = 0; size = 87 }

validate-IsValidated_example : IsValidated old (validate old)
unfolding new
validate-IsValidated_example = validate-IsValidated old

-- A boot info with a user image of four pages.
abbrev with_image : BootInfo
with_image = record new {
  user_phys = 4194304;
  user_size = 16384;
  user_vaddr = 1073741824;
  user_entry = 1073741840;
}

has_user_image-validate_example : HasImage with_image ⊎ LacksImage with_image
unfolding new validate sized
has_user_image-validate_example = has_user_image-validate with_image refl (omega arith)

qemu_exit_code_injective_example : (◌≡◌ {A = ℕ} 18 18) × (qemu_exit_code 18 ≢ 0)
qemu_exit_code_injective_example = qemu_exit_code_injective 18 18 (omega arith) (omega arith) refl
