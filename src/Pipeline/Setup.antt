-- ===== src/Pipeline/Setup.antt =====
-- How `pipeline_thread` and `model_default_configuration` of pipeline/src/pipeline_server.c set the
-- pipeline up: the pool of all data buffers of the segment, and the modules before their first step.
pub mod Fill
pub mod Buffers
mod Tests
use multiprocessor.RingBuffer
use multiprocessor.RingBuffer.{Ring}
use multiprocessor.SharedMemory.{size_mod, MemoryMap, get_data_offset}
use multiprocessor.ProcessManager.{cmd_job}
use multiprocessor.Pipeline.System.{System}
use multiprocessor.Pipeline.Pool.{Pool, ring_pool}
use multiprocessor.Pipeline.{
  starting, Module, finalization, process, source, Kind, Pc, wait_job, await_cmd, loop_top,
}
use multiprocessor.Common.{
  Run, set, Bool, get_elem?, map, ℕ, ◌*◌, suc, ◌∷◌, zero, if◌then◌else◌, ltb, ◌%◌, none, ◌+◌,
  Option, length, false, [], ok, some, fault, List,
}

-- An element of the array `modules`: its `thread_method`, and the index that `next` points to.
pub record Slot : Type 0 where
  pub thread_method : Kind
  pub next : Option ℕ

-- `model_default_configuration`: the destination first, then the source and the filter.
pub default_configuration : List Slot
default_configuration =
    record { thread_method = finalization; next = none }
    ∷ record { thread_method = source; next = some 2 }
    ∷ record { thread_method = process; next = some 0 }
    ∷ []

-- The modules from index `i` on, along `next`. The fuel is the number of modules: a chain with no
-- loop is not longer.
pub follow : (fuel : ℕ) → List Slot → Option ℕ → List Kind
follow zero slots i = []
follow (suc fuel) slots none = []
follow (suc fuel) slots (some i) = elim (get_elem? slots i) [
  | none ↦ []
  | some slot ↦ slot.thread_method ∷ follow fuel slots slot.next
]

-- The first statement of a thread.
pub entry : Kind → Pc
entry source = starting
entry process = starting
entry finalization = await_cmd

-- A module before its thread's first step, with the entry of the process table as
-- `process_subsystem_init` leaves it. `unset` is what stands in memory that `malloc` returned.
unfoldable pub init_module : (unset : ℕ) → Kind → Module
unfolding entry
init_module unset kind = record {
  kind = kind;
  pc = entry kind;
  local_cmd = unset;
  local_offset = unset;
  new_cmd = 0;
  cmd = cmd_job;
  dataoffset = unset;
  result = 1;
  sem_job = 0;
  sem_result = 0;
  proc_cmd = 0;
  proc_offs = 0;
  cmd_result = 0;
  child = wait_job;
}

-- The loop that stores the offset of each data buffer in the ring: `n` buffers from `i` on, in
-- `size_t` arithmetic. A store outside of the array is a fault.
pub fill : MemoryMap → (n i : ℕ) → Ring → Run Ring
fill m zero i r = ok r
fill m (suc n) i r =
    if ltb i (length r.buffer)
    then fill m n (i + 1)
        (record r { buffer = set r.buffer i ((get_data_offset m + i * m.data_size) % size_mod) })
    else fault

-- `ring_buffer_create(map->data_cnt, 0)` and the loop; a failed creation is a `NULL` that the loop
-- goes through.
pub init_ring : (allocated sem_ready : Bool) → MemoryMap → Run Ring
unfolding fill RingBuffer.create
init_ring allocated sem_ready m = elim (RingBuffer.create allocated sem_ready m.data_cnt false) [
  | none ↦ fault
  | some r ↦ fill m m.data_cnt 0 r
]

-- The system when the threads of the modules start, with a table of `cnt_max` entries of which none was
-- used, and the answers that `fork` will give.
pub init_system : (unset cnt_max : ℕ) (forks : ℕ → Bool) → List Kind → Ring → System ring_pool
unfolding init_module
init_system unset cnt_max forks kinds r = record {
  exit_flag = false;
  store = r;
  process_cnt = 0;
  process_cnt_max = cnt_max;
  forks = forks;
  modules = map (init_module unset) kinds;
}
