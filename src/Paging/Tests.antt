-- ===== src/Paging/Tests.antt =====
-- The identity map of a machine with 2 MiB of memory.
use paranuk_os.Base.{ℕ, List, ◌++◌, replicate, to_le}
use paranuk_os.MemoryMap.{MemoryMap}
use paranuk_os.Paging.{PagingConfig}

-- One region of 512 pages of conventional memory from address 0 on.
abbrev map : MemoryMap
map = record {
  bytes = to_le 4 7 ++ (to_le 4 0 ++ (to_le 8 0 ++ (to_le 8 0 ++ (to_le 8 512 ++ to_le 8 0))));
  entries = 1;
  stride = 40;
  version = 1;
}

abbrev small : PagingConfig
small = record { max_identity_bytes = 2097152; fine_grained_bytes = 2097152 }

abbrev arena : List ℕ
arena = replicate 16384 0
