-- ===== src/BootInfo.antt =====
-- crates/boot-info/src/lib.rs: the structure that the boot loader hands to the kernel.
-- Fields of fixed width are natural numbers. `size_of::<Self>()` is the size that `repr(C)` gives:
-- 120 bytes, which the crate's own test pins.
mod Laws
mod Tests
use paranuk_os.Base.{
  ℕ, ◌+◌, ◌-◌, ◌*◌, min, Bool, true, false, not, ◌&&◌, List, [], ◌∷◌, Result, ok, err, word, ltb,
  leb, ◌==◌, if◌then◌else◌,
}
use Prim.Native.Nat.{bit_or}

abbrev pub boot_info_magic : ℕ
boot_info_magic = 5792036358565751553

abbrev pub boot_info_version : ℕ
boot_info_version = 1

abbrev pub boot_info_size_v0 : ℕ
boot_info_size_v0 = 88

abbrev pub size_of : ℕ
size_of = 120

pub record BootInfo : Type 0 where
  pub magic : ℕ
  pub version : ℕ
  pub size : ℕ
  pub mmap_ptr : ℕ
  pub mmap_len : ℕ
  pub mmap_desc_size : ℕ
  pub mmap_desc_ver : ℕ
  pub rsdp : ℕ
  pub kernel_base : ℕ
  pub kernel_size : ℕ
  pub stack_top : ℕ
  pub stack_size : ℕ
  pub exit_port : ℕ
  pub reserved : ℕ
  pub user_phys : ℕ
  pub user_size : ℕ
  pub user_vaddr : ℕ
  pub user_entry : ℕ

pub data BootInfoError : Type 0 where
  wrong_magic : ℕ → BootInfoError
  unsupported_version : ℕ → ℕ → BootInfoError
  too_small : ℕ → ℕ → BootInfoError

pub new : BootInfo
new = record {
  magic = boot_info_magic;
  version = boot_info_version;
  size = size_of;
  mmap_ptr = 0;
  mmap_len = 0;
  mmap_desc_size = 0;
  mmap_desc_ver = 0;
  rsdp = 0;
  kernel_base = 0;
  kernel_size = 0;
  stack_top = 0;
  stack_size = 0;
  exit_port = 0;
  reserved = 0;
  user_phys = 0;
  user_size = 0;
  user_vaddr = 0;
  user_entry = 0;
}

-- The comparison of the size, after the `match` on the version.
sized : BootInfo → ℕ → Result BootInfoError (Unit {0})
sized info expected = if ltb info.size expected then err (too_small info.size expected) else ok tt

pub validate : BootInfo → Result BootInfoError (Unit {0})
unfolding sized
validate info =
    if not (info.magic == boot_info_magic)
    then err (wrong_magic info.magic)
    else if info.version == 0
    then sized info boot_info_size_v0
    else if info.version == boot_info_version
    then sized info size_of
    else err (unsupported_version info.version boot_info_version)

pub has_user_image : BootInfo → Bool
has_user_image info =
    leb 1 info.version
    && (leb size_of info.size
        && (not (info.user_phys == 0)
            && (not (info.user_size == 0)
                && (not (info.user_vaddr == 0) && not (info.user_entry == 0)))))

-- `saturating_add`
pub user_vaddr_end : BootInfo → ℕ
user_vaddr_end info = min (info.user_vaddr + info.user_size) (word - 1)

pub has_memory_map : BootInfo → Bool
has_memory_map info =
    not (info.mmap_ptr == 0) && (not (info.mmap_len == 0) && not (info.mmap_desc_size == 0))

pub exit_enabled : BootInfo → Bool
exit_enabled info = not (info.exit_port == 0)

-- The values that the boot loader and the kernel write to the exit port.
abbrev pub exit_values : List ℕ
exit_values = 16 ∷ 17 ∷ 18 ∷ 19 ∷ 20 ∷ 21 ∷ 22 ∷ 23 ∷ []

pub qemu_exit_code : ℕ → ℕ
qemu_exit_code value = bit_or (value * 2) 1
