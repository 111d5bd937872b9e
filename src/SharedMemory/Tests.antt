-- ===== src/SharedMemory/Tests.antt =====
-- The segment of `pipeline_init` in pipeline/src/pipeline_server.c: 3 processes of 2208 bytes and
-- 512 buffers of 1024.
use multiprocessor.SharedMemory.Segment.Laws.{server_init_lem}
use multiprocessor.SharedMemory.Layout.{regions_apart, data_slot, Fits, process_slot}
use multiprocessor.SharedMemory.{
  align, map_size, get_data_size, get_size, map_bytes, get_data_offset, MemoryMap,
  get_process_offset, get_map_offset,
}
use multiprocessor.SharedMemory.Environment.{getenv-setenv, setenv, getenv}
use multiprocessor.SharedMemory.Segment.{Os, Answers, server_init, Object}
use multiprocessor.Common.{true, ℕ, none, ◌≤◌, ◌+◌, ◌<◌, refl, ◌≡◌, false, arith, some, ◌%◌}
use multiprocessor.SharedMemory

abbrev pipeline_map : MemoryMap
pipeline_map = SharedMemory.create 3 2208 512 1024

pipeline_offsets :
    (get_process_offset pipeline_map ≡ 256)
    × (get_data_offset pipeline_map ≡ 6912)
    × (get_size pipeline_map ≡ 531200)
unfolding SharedMemory.create get_process_offset get_data_offset get_size map_size align
pipeline_offsets = (refl, refl, refl)

pipeline_map-Fits : Fits pipeline_map
unfolding SharedMemory.create
pipeline_map-Fits = record { total = omega arith }

regions_apart_example :
    (get_map_offset pipeline_map + map_bytes ≤ get_process_offset pipeline_map)
    × ((i : ℕ) → i < 3 → process_slot pipeline_map i + 2208 ≤ get_data_offset pipeline_map)
    × (get_data_offset pipeline_map % 256 ≡ 0)
    × (get_data_offset pipeline_map + get_data_size pipeline_map ≡ get_size pipeline_map)
    × ((i : ℕ) → i < 512 → data_slot pipeline_map i + 1024 ≤ get_size pipeline_map)
unfolding SharedMemory.create
regions_apart_example = regions_apart pipeline_map pipeline_map-Fits

abbrev all_fine : Answers
all_fine = record { opens = true; truncates = true; maps = true }

abbrev no_map : Answers
no_map = record { opens = true; truncates = true; maps = false }

abbrev fresh : Os
fresh = record { linked = none; fds = 3 }

abbrev made : Object
made = record { size = 531200; header = some pipeline_map }

abbrev served : Os
served = record { linked = some made; fds = 3 }

server_init_lem_example :
    ((server_init no_map pipeline_map fresh).1.fds ≡ 3)
    × ((server_init no_map pipeline_map fresh).0 ≡ true
        → (server_init no_map pipeline_map fresh).1.linked
          ≡ some (record { size = get_size pipeline_map; header = some pipeline_map }))
    × ((server_init no_map pipeline_map fresh).0 ≡ false
        → (server_init no_map pipeline_map fresh).1.linked ≡ none)
server_init_lem_example = server_init_lem no_map pipeline_map fresh

-- Texts that are numbers: `print` and `parse` are then the identity.
getenv-setenv_example :
    getenv
      (λ (n : ℕ). n)
      (setenv
        (λ (n : ℕ). n)
        true
        true
        42
        pipeline_map
        (record { data_name = none; data_size = none })).1
      (record { path = 0; size = 1 })
    ≡ (true, record { path = 0; size = get_size pipeline_map })
getenv-setenv_example =
    getenv-setenv (λ n. n) (λ n. n) (λ n h. refl) 42 pipeline_map
      (record { data_name = none; data_size = none }) (record { path = 0; size = 1 })
      (omega (arith, pipeline_offsets.2))
