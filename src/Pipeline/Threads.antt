-- ===== src/Pipeline/Threads.antt =====
-- The three threads of pipeline/src/pipeline_server.c, one step at a time. `next` is the module that
-- `module->next` points to, `none` where it is `NULL`.
-- `has_entry` is whether `process_start` gives an entry of the table, where it is called.
-- `sem_wait` and the calls on the pool may block; what goes through `NULL` is a fault.
use multiprocessor.ProcessManager.{cmd_job, cmd_stop}
use multiprocessor.Pipeline.Pool.{Pool}
use multiprocessor.Pipeline.{
  Module, finalization, process, source, Kind, Pc, finished, stop_await_job, stop_send_job,
  stop_hand_over, stop_await_next, hand_over, await_next, give_back, check_result, await_job,
  send_job, copy_cmd, await_cmd, take_buffer, loop_top, starting,
}
use multiprocessor.Common.{
  fault, ◌==◌, blocked, ok, ◌+◌, none, if◌then◌else◌, Bool, some, Option, ◌-◌, ℕ, Run, ◌>>=◌,
}

module _ (pool : Pool) where
  open pool use {Store, give, take}

  -- What a step leaves: the pool, the thread's own module, and the next one.
  abbrev pub Outcome : Type 0
  Outcome = Run (Store × Module × Option Module)

  abbrev pub goes : Store → Module → Option Module → Outcome
  goes s m next = ok (s, m, next)

  -- `module->id = process_start(module->argv)` and the entry at that number, then on to `after`. Where
  -- the call gave -1 the entry is the one before the table.
  abbrev pub start_child : Pc → (has_entry : Bool) → Store → Module → Option Module → Outcome
  start_child after has_entry s m next =
      if has_entry then goes s (record m { pc = after }) next else fault

  -- `proc_info->cmd = cmd; proc_info->cmd_offs = dataoffset; sem_post(&proc_info->sem_job)`.
  abbrev pub post_job : ℕ → ℕ → Module → Module
  post_job command offset m = record m {
    proc_cmd = command;
    proc_offs = offset;
    sem_job = m.sem_job + 1;
  }

  -- `sem_wait(&proc_info->sem_result)`, then on to `after`.
  abbrev pub wait_result : Pc → Store → Module → Option Module → Outcome
  wait_result after s m next =
      if m.sem_result == 0
      then blocked
      else goes s (record m { pc = after; sem_result = m.sem_result - 1 }) next

  -- `sem_wait(&module->next->result)`, then on to `after`.
  abbrev pub wait_next : Pc → Store → Module → Option Module → Outcome
  wait_next after s m none = fault
  wait_next after s m (some n) =
      if n.result == 0
      then blocked
      else goes s (record m { pc = after }) (some (record n { result = n.result - 1 }))

  -- `next->cmd = ...; next->dataoffset = ...; sem_post(&next->new_cmd)`, then on to `after`. The
  -- stop command leaves the offset alone.
  abbrev pub hand_job : Pc → Store → Module → Option Module → Outcome
  hand_job after s m none = fault
  hand_job after s m (some n) =
      goes s (record m { pc = after })
        (some (record n { cmd = cmd_job; dataoffset = m.local_offset; new_cmd = n.new_cmd + 1 }))

  abbrev pub hand_stop : Pc → Store → Module → Option Module → Outcome
  hand_stop after s m none = fault
  hand_stop after s m (some n) =
      goes s (record m { pc = after }) (some (record n { cmd = cmd_stop; new_cmd = n.new_cmd + 1 }))

  -- `sem_wait(&module->new_cmd)`.
  abbrev pub wait_cmd : Store → Module → Option Module → Outcome
  wait_cmd s m next =
      if m.new_cmd == 0
      then blocked
      else goes s (record m { pc = copy_cmd; new_cmd = m.new_cmd - 1 }) next

  -- The two copies and `sem_post(&module->result)`, then on by the command.
  abbrev pub copy : (at_stop at_job : Pc) → Module → Module
  copy at_stop at_job m = record m {
    pc = if m.cmd == cmd_stop then at_stop else at_job;
    local_cmd = m.cmd;
    local_offset = m.dataoffset;
    result = m.result + 1;
  }

  -- `ring_buffer_push(module->data_ring, dataoffset)`, then back to the loop.
  abbrev pub give_buffer : Store → Module → Option Module → Outcome
  give_buffer s m next = give m.local_offset s >>= λ s'. goes s' (record m { pc = await_cmd }) next

  unfoldable pub finalization_thread : Pc → Store → Module → Option Module → Outcome
  finalization_thread await_cmd s m next = wait_cmd s m next
  finalization_thread copy_cmd s m next = goes s (copy finished give_back m) next
  finalization_thread give_back s m next = give_buffer s m next
  finalization_thread finished s m next = blocked
  finalization_thread _ s m next = fault

  unfoldable pub source_thread :
      (exit_flag has_entry : Bool) → Pc → Store → Module → Option Module → Outcome
  source_thread exit_flag has_entry starting s m next = start_child loop_top has_entry s m next
  source_thread exit_flag has_entry loop_top s m next =
      if exit_flag
      then goes s (record m { pc = stop_await_next }) next
      else goes s (record m { pc = take_buffer; local_cmd = m.cmd }) next
  source_thread exit_flag has_entry take_buffer s m next =
      take s >>= λ (offset, s'). goes s' (record m { pc = send_job; local_offset = offset }) next
  source_thread exit_flag has_entry send_job s m next =
      goes s (record (post_job m.local_cmd m.local_offset m) { pc = await_job }) next
  source_thread exit_flag has_entry await_job s m next = wait_result await_next s m next
  source_thread exit_flag has_entry await_next s m next = wait_next hand_over s m next
  source_thread exit_flag has_entry hand_over s m next = hand_job loop_top s m next
  source_thread exit_flag has_entry stop_await_next s m next = wait_next stop_hand_over s m next
  source_thread exit_flag has_entry stop_hand_over s m next = hand_stop stop_send_job s m next
  source_thread exit_flag has_entry stop_send_job s m next =
      goes s (record (post_job cmd_stop m.proc_offs m) { pc = stop_await_job }) next
  source_thread exit_flag has_entry stop_await_job s m next = wait_result finished s m next
  source_thread exit_flag has_entry finished s m next = blocked
  source_thread exit_flag has_entry _ s m next = fault

  unfoldable pub process_thread : (has_entry : Bool) → Pc → Store → Module → Option Module → Outcome
  process_thread has_entry starting s m next = start_child await_cmd has_entry s m next
  process_thread has_entry await_cmd s m next = wait_cmd s m next
  process_thread has_entry copy_cmd s m next = goes s (copy stop_await_next send_job m) next
  process_thread has_entry send_job s m next =
      goes s (record (post_job m.local_cmd m.local_offset m) { pc = await_job }) next
  process_thread has_entry await_job s m next = wait_result check_result s m next
  process_thread has_entry check_result s m next =
      goes s (record m { pc = if m.cmd_result == 0 then await_next else give_back }) next
  process_thread has_entry give_back s m next = give_buffer s m next
  process_thread has_entry await_next s m next = wait_next hand_over s m next
  process_thread has_entry hand_over s m next = hand_job await_cmd s m next
  process_thread has_entry stop_await_next s m next = wait_next stop_hand_over s m next
  process_thread has_entry stop_hand_over s m next = hand_stop stop_send_job s m next
  process_thread has_entry stop_send_job s m next =
      goes s (record (post_job cmd_stop m.proc_offs m) { pc = stop_await_job }) next
  process_thread has_entry stop_await_job s m next = wait_result finished s m next
  process_thread has_entry finished s m next = blocked
  process_thread has_entry _ s m next = fault

  unfoldable pub run_kind :
      Kind → (exit_flag has_entry : Bool) → Store → Module → Option Module → Outcome
  unfolding finalization_thread source_thread process_thread
  run_kind source exit_flag has_entry s m next = source_thread exit_flag has_entry m.pc s m next
  run_kind process exit_flag has_entry s m next = process_thread has_entry m.pc s m next
  run_kind finalization exit_flag has_entry s m next = finalization_thread m.pc s m next

  -- One step of the thread that `pthread_create` has_entry with `thread_method`.
  unfoldable pub thread : (exit_flag has_entry : Bool) → Store → Module → Option Module → Outcome
  unfolding run_kind
  thread exit_flag has_entry s m next = run_kind m.kind exit_flag has_entry s m next
