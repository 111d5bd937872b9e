-- ===== src/SharedMemory.antt =====
-- shmem/include/shmem/shared_memory_map.h and shmem/src/shared_memory.c: how the shared segment is
-- laid out, who creates and maps it, and how its name and size reach a child process.
pub mod Layout
pub mod Segment
pub mod Environment
mod Tests
use multiprocessor.Common.{◌/◌, ◌%◌, ◌*◌, ◌^◌, ◌+◌, ℕ}

-- `size_t`.
abbrev pub size_mod : ℕ
size_mod = 2 ^ 64

-- `memory_map_t`, at the start of the segment.
pub record MemoryMap : Type 0 where
  pub process_cnt : ℕ
  pub process_size : ℕ
  pub data_cnt : ℕ
  pub data_size : ℕ

-- `sizeof(memory_map_t)` where an `int` has 4 bytes and a `size_t` 8, with the padding.
abbrev pub map_bytes : ℕ
map_bytes = 32

-- `MEMORY_ALIGN`: up to a multiple of 256, in `size_t` arithmetic.
unfoldable pub align : ℕ → ℕ
align size = (size + 255) % size_mod / 2 ^ 8 * 2 ^ 8

-- `MEMORY_MAP_SIZE`.
unfoldable pub map_size : ℕ
unfolding align
map_size = align map_bytes

unfoldable pub create : ℕ → ℕ → ℕ → ℕ → MemoryMap
create proc_cnt proc_size data_cnt data_size = record {
  process_cnt = proc_cnt;
  process_size = proc_size;
  data_cnt = data_cnt;
  data_size = data_size;
}

-- `memory_get_size`.
unfoldable pub get_size : MemoryMap → ℕ
unfolding align map_size
get_size m =
    (map_size
      + align (m.process_size * m.process_cnt % size_mod)
      + align (m.data_size * m.data_cnt % size_mod))
    % size_mod

-- `memory_get_mapoffset`.
pub get_map_offset : MemoryMap → ℕ
get_map_offset m = 0

-- `memory_get_processoffset`.
pub get_process_offset : MemoryMap → ℕ
unfolding map_size
get_process_offset m = map_size

-- `memory_get_dataoffset`.
unfoldable pub get_data_offset : MemoryMap → ℕ
unfolding align map_size
get_data_offset m = (map_size + align (m.process_size * m.process_cnt % size_mod)) % size_mod

-- `memory_get_datasize`.
pub get_data_size : MemoryMap → ℕ
unfolding align
get_data_size m = align (m.data_size * m.data_cnt % size_mod)
