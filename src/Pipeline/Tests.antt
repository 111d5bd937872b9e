-- ===== src/Pipeline/Tests.antt =====
-- Runs of the start of pipeline/src/pipeline_server.c, with numbers for texts: `print` and `parse`
-- are then the identity.
use multiprocessor.SharedMemory.Environment.{Env}
use multiprocessor.Pipeline.Startup.{server_map}
use multiprocessor.SharedMemory.{align, map_size, get_size}
use multiprocessor.SharedMemory.Segment.{Os}
use multiprocessor.Common.{◌≡◌, none, some, refl, ℕ}
use multiprocessor.SharedMemory

-- Another program's segment has the name.
abbrev leftover : Os
leftover = record { linked = some (record { size = 8; header = none }); fds = 3 }

abbrev clean_env : Env ℕ
clean_env = record { data_name = none; data_size = none }

server_size : get_size (server_map 2208) ≡ 531200
unfolding get_size SharedMemory.create map_size align
server_size = refl
