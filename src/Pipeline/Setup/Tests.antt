-- ===== src/Pipeline/Setup/Tests.antt =====
-- Runs of pipeline/src/pipeline_server.c with its default configuration and two data buffers.
use multiprocessor.Pipeline.Configuration.{
  mt_first, mt_middle, read_configuration_lem, mt_last, read_configuration, Description, ReadSlot,
}
use multiprocessor.RingBuffer.Fifo.{contents, Holds}
use multiprocessor.RingBuffer.{Ring}
use multiprocessor.SharedMemory.Layout.{data_slot}
use multiprocessor.ProcessManager.{cmd_job}
use multiprocessor.SharedMemory.{align, map_size, get_data_offset, MemoryMap}
use multiprocessor.Pipeline.Setup.Buffers.{buffer_once, Usable}
use multiprocessor.Pipeline.Setup.Fill.{init_ring_lem, slots}
use multiprocessor.Pipeline.Setup.{
  fill, entry, init_system, init_ring, init_module, follow, default_configuration,
}
use multiprocessor.Pipeline.Kept.{held}
use multiprocessor.Pipeline.System.{here, run_thread, act, advance}
use multiprocessor.Pipeline.Threads.{run_kind, source_thread, thread}
use multiprocessor.Pipeline.Pool.{ring_pool}
use multiprocessor.Pipeline.{finalization, process, source, Kind, send_job}
use multiprocessor.Common.{
  get_or, Option, length, false, ok, weigh, [], indicator, List, ◌≡◌, some, refl, true, count,
  arith, ◌∷◌, none, ◌+◌,
}
use multiprocessor.RingBuffer
use multiprocessor.Pipeline.System

-- Along the `next` pointers from the source on.
default_line : follow 3 default_configuration (some 1) ≡ source ∷ process ∷ finalization ∷ []
unfolding follow default_configuration
default_line = refl

abbrev kinds : List Kind
kinds = source ∷ process ∷ finalization ∷ []

abbrev small_map : MemoryMap
small_map = record { process_cnt = 3; process_size = 2208; data_cnt = 2; data_size = 1024 }

small_map-Usable : Usable small_map
small_map-Usable = record {
  fits = record { total = omega arith };
  some_buffers = omega arith;
  few_buffers = omega arith;
  wide_buffers = omega arith;
}

abbrev full_ring : Ring
full_ring = record { max_cnt = 2; used = 2; start = 0; buffer = 6912 ∷ 7936 ∷ []; sem = 2 }

full_ring-ready : init_ring true true small_map ≡ ok full_ring
unfolding init_ring RingBuffer.create fill get_data_offset map_size align
full_ring-ready = refl

init_ring_lem_example :
    (r : Ring) × (init_ring true true small_map ≡ ok r) × Holds 2 (slots small_map 0 2) r
init_ring_lem_example = init_ring_lem small_map small_map-Usable.fits (omega arith) (omega arith)

-- The source thread has started its child and taken the first buffer.
abbrev taken_one : System.System ring_pool
taken_one = record {
  exit_flag = false;
  process_cnt = 1;
  process_cnt_max = 2;
  forks = λ k. true;
  store = record { max_cnt = 2; used = 1; start = 1; buffer = 6912 ∷ 7936 ∷ []; sem = 1 };
  modules =
      record (init_module 0 source) { pc = send_job; local_cmd = cmd_job; local_offset = 6912 }
      ∷ init_module 0 process
      ∷ init_module 0 finalization
      ∷ [];
}

three_steps : System.Reach ring_pool (init_system 0 2 (λ k. true) kinds full_ring) taken_one
unfolding init_system init_module entry act advance thread run_kind source_thread RingBuffer.pop
    RingBuffer.wait RingBuffer.extract
three_steps =
    System.next (run_thread 0)
      (System.next (run_thread 0) (System.next (run_thread 0) System.here refl) refl) refl

buffer_once_example :
    count (data_slot small_map 0) (contents taken_one.store)
      + weigh (held (indicator (data_slot small_map 0))) taken_one.modules
    ≡ 1
buffer_once_example =
    buffer_once small_map kinds full_ring 0 small_map-Usable (refl, (cc, cc, (cc, cc, refl)))
      full_ring-ready 2 (λ k. true) (omega arith) (λ k. refl) {y = taken_one} three_steps 0
      (omega arith)

-- A file that names the destination first and the source last.
abbrev three_descriptions : List Description
three_descriptions =
    record { id = 2; module_type = mt_last; argc = 0; next = none }
    ∷ record { id = 1; module_type = mt_middle; argc = 0; next = some 2 }
    ∷ record { id = 0; module_type = mt_first; argc = 0; next = some 1 }
    ∷ []

read_configuration_lem_example :
    (slots : List (Option ReadSlot)) × (read_configuration three_descriptions ≡ ok slots)
    × (length slots ≡ 3)
    × (get_or slots 0 none ≡ some (record { thread_method = some source; next = some 1 }))
read_configuration_lem_example =
    read_configuration_lem three_descriptions 2
      (record { id = 0; module_type = mt_first; argc = 0; next = some 1 })
      (
        omega arith,
        (cc, (cc, tt)),
        (omega arith, (cc, tt), (omega arith, tt, tt, refl), refl),
        refl,
      )
      refl
