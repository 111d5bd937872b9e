-- ===== src/Pipeline.antt =====
-- pipeline/src/pipeline_server.c: a chain of modules, each a thread of the server with a child
-- process of its own, that pass data buffers of the shared segment from one to the next. The
-- threads are step functions over a program counter: a step is one call on a semaphore or on the
-- pool of free buffers, with the assignments next to it. (model/src/model.c and
-- streamer/src/streamer.c have the same three threads.)
pub mod Pool
pub mod Threads
pub mod Child
pub mod System
pub mod Kept
pub mod Handover
pub mod Steps
pub mod Links
pub mod Conservation
pub mod Setup
pub mod Configuration
pub mod Startup
mod Tests
use multiprocessor.Common.{ℕ}

-- Which thread a module runs: `source_thread`, `process_thread` or `finalization_thread`.
pub data Kind : Type 0 where
  source : Kind
  process : Kind
  finalization : Kind

-- Where a module's thread is: before its call of `process_start`, at the test of the exit flag, before `ring_buffer_pop`, before the
-- post of the child's job, and so on in the order of the source; the last five belong to the
-- shutdown behind the loop.
pub data Pc : Type 0 where
  starting : Pc
  loop_top : Pc
  take_buffer : Pc
  await_cmd : Pc
  copy_cmd : Pc
  send_job : Pc
  await_job : Pc
  check_result : Pc
  give_back : Pc
  await_next : Pc
  hand_over : Pc
  stop_await_next : Pc
  stop_hand_over : Pc
  stop_send_job : Pc
  stop_await_job : Pc
  finished : Pc

-- Where a child process is: before `sem_wait`, before `sem_post`, or past its loop.
pub data ChildPc : Type 0 where
  wait_job : ChildPc
  run_job : ChildPc
  exited : ChildPc

-- `struct module` with the locals of its thread, its entry of the process table, and its child.
pub record Module : Type 0 where
  pub kind : Kind
  pub pc : Pc
  -- the locals `cmd` and `dataoffset`
  pub local_cmd : ℕ
  pub local_offset : ℕ
  -- the fields `new_cmd`, `cmd`, `dataoffset` and `result`
  pub new_cmd : ℕ
  pub cmd : ℕ
  pub dataoffset : ℕ
  pub result : ℕ
  -- the fields of `proc_info`
  pub sem_job : ℕ
  pub sem_result : ℕ
  pub proc_cmd : ℕ
  pub proc_offs : ℕ
  pub cmd_result : ℕ
  pub child : ChildPc
