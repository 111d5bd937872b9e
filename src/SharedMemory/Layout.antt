-- ===== src/SharedMemory/Layout.antt =====
-- The regions of the segment of shmem/include/shmem/shared_memory_map.h do not overlap.
use multiprocessor.Common.{◌≡◌, arith, ◌%◌, ◌≤◌, ◌*◌, ◌<◌, ◌+◌, ℕ}
use multiprocessor.SharedMemory.{
  get_size, get_data_size, map_bytes, size_mod, get_data_offset, get_process_offset, get_map_offset,
  MemoryMap, align,
}

-- The products and their sum stay below 2 ^ 64, with what aligning adds.
pub record Fits (m : MemoryMap) : Type 0 where
  pub total : m.process_size * m.process_cnt + m.data_size * m.data_cnt + 1024 < size_mod

-- Where process entry `i` and data buffer `i` begin.
abbrev pub process_slot : MemoryMap → ℕ → ℕ
process_slot m i = get_process_offset m + i * m.process_size

abbrev pub data_slot : MemoryMap → ℕ → ℕ
data_slot m i = get_data_offset m + i * m.data_size

slot_end : (i n size : ℕ) → i < n → i * size + size ≤ size * n
slot_end i n size h = grind arith

slot_next : (i j size : ℕ) → i < j → i * size + size ≤ j * size
slot_next i j size h = grind arith

-- Aligning does not shrink, adds less than 256 and gives a multiple of 256, below the wrap.
pub align_lem :
    (n : ℕ) → n + 255 < size_mod → (n ≤ align n) × (align n < n + 256) × (align n % 256 ≡ 0)
unfolding align
align_lem n h = omega arith

-- Where the sizes do not wrap, the three regions follow one another: the map, then every process
-- entry, then, at a multiple of 256, every data buffer, and the segment ends behind the last one.
pub regions_apart :
    (m : MemoryMap)
    → Fits m
    → (get_map_offset m + map_bytes ≤ get_process_offset m)
      × ((i : ℕ) → i < m.process_cnt → process_slot m i + m.process_size ≤ get_data_offset m)
      × (get_data_offset m % 256 ≡ 0)
      × (get_data_offset m + get_data_size m ≡ get_size m)
      × ((i : ℕ) → i < m.data_cnt → data_slot m i + m.data_size ≤ get_size m)
unfolding get_map_offset get_process_offset get_data_offset get_data_size get_size align
regions_apart m h = (
  omega arith,
  λ i p. omega (arith, slot_end i m.process_cnt m.process_size p),
  omega arith,
  omega arith,
  λ i p. omega (arith, slot_end i m.data_cnt m.data_size p),
)

-- Two process entries, and two data buffers, of different numbers do not overlap.
pub slots_apart :
    (m : MemoryMap) (i j : ℕ)
    → i < j
    → (process_slot m i + m.process_size ≤ process_slot m j)
      × (data_slot m i + m.data_size ≤ data_slot m j)
slots_apart m i j h =
    (omega (arith, slot_next i j m.process_size h), omega (arith, slot_next i j m.data_size h))

pub data_slot-lt : (m : MemoryMap) (i : ℕ) → Fits m → i < m.data_cnt → data_slot m i < size_mod
unfolding get_size
data_slot-lt m i h p = let (a, b, c, d, last) = regions_apart m h in omega (arith, last i p)
