-- ===== src/Pipeline/Steps.antt =====
-- Every step of each thread of pipeline/src/pipeline_server.c keeps its buffers and its turns, and
-- none is a fault, in a chain where only a `finalization_thread` has no next module.
use multiprocessor.ProcessManager.{cmd_stop}
use multiprocessor.Pipeline.Handover.{
  keeps_hand_stop, keeps_hand_job, keeps_wait_next, keeps_take, keeps_give, keeps_copy,
  keeps_wait_cmd,
}
use multiprocessor.Pipeline.Threads.{
  run_kind, process_thread, source_thread, post_job, thread, finalization_thread, wait_result,
}
use multiprocessor.Pipeline.Kept.{
  quiet, Kept, Fine, TurnTo, PcOf, Later, receiving, sending, carries,
}
use multiprocessor.Pipeline.Pool.{Pool}
use multiprocessor.Pipeline.{
  starting, process, source, Kind, stop_await_job, stop_send_job, stop_hand_over, stop_await_next,
  hand_over, await_next, check_result, await_job, send_job, take_buffer, loop_top, Module,
  finalization, Pc, finished, give_back, copy_cmd, await_cmd,
}
use multiprocessor.Common.{
  Bool, ℕ, ◌==◌, inr, Option, refl, ◌≢◌, inl, ◌-◌, ◌≡◌, length, Bool-cases, none, ◌<◌, true,
}

module _ (pool : Pool) (cap : ℕ) (w : ℕ → ℕ) where
  open pool use {Store, Good, items}

  -- What a step starts from.
  pub record Ready (has_entry : Bool) (s : Store) (m : Module) (next : Option Module) : Type 0 where
    pub good : Good cap s
    pub place : PcOf m.kind m.pc
    pub turn : TurnTo m.pc next
    pub empty_box : m.pc ≡ copy_cmd → m.new_cmd ≡ 0
    pub room : carries m.pc ≡ true → length (items s) < cap
    pub can_start : m.pc ≡ starting → has_entry ≡ true
    pub has_next : m.kind ≢ finalization → next ≢ none

  module _ (has_entry : Bool) (s : Store) (m : Module) (next : Option Module)
      (h : Ready has_entry s m next) where
    -- A wait for the child's result.
    keeps_wait_result :
        (k after : Pc)
        → m.pc ≡ k
        → Later m.kind after
        → carries after ≡ carries k
        → sending after ≡ sending k
        → receiving after ≡ receiving k
        → Fine (Kept pool cap w s m next) (wait_result pool after s m next)
    keeps_wait_result k after at place a b c = elim (Bool-cases (m.sem_result == 0)) [
      | inl z ↦ rw z tt
      | inr nz ↦ rw nz (
          quiet pool cap w k at h.good next (record m { pc = after; sem_result = m.sem_result - 1 })
            refl place refl refl refl refl refl a b c h.turn)
    ]

    finalization-Kept :
        (k : Pc)
        → m.pc ≡ k
        → m.kind ≡ finalization
        → Fine (Kept pool cap w s m next) (finalization_thread pool k s m next)
    unfolding finalization_thread
    finalization-Kept await_cmd at kind =
        keeps_wait_cmd pool cap w s m await_cmd at h.good next refl (rw kind tt) h.turn
    finalization-Kept copy_cmd at kind =
        keeps_copy pool cap w s m copy_cmd at h.good finished give_back next refl (h.empty_box at)
          (rw kind tt) (rw kind tt) refl refl (refl, refl) (refl, refl) h.turn
    finalization-Kept give_back at kind =
        keeps_give pool cap w s m give_back at h.good next refl (h.room (rw at)) (rw kind tt) h.turn
    finalization-Kept finished at kind = tt
    finalization-Kept _ at kind = rw (kind, at) at h.place

    source-Kept :
        (exit_flag : Bool) (k : Pc)
        → m.pc ≡ k
        → m.kind ≡ source
        → Fine (Kept pool cap w s m next) (source_thread pool exit_flag has_entry k s m next)
    unfolding source_thread
    source-Kept exit_flag starting at kind = rw (h.can_start at) (
        quiet pool cap w starting at h.good next (record m { pc = loop_top }) refl (rw kind tt) refl
          refl refl refl refl refl refl refl h.turn)
    source-Kept exit_flag loop_top at kind = elim (Bool-cases exit_flag) [
      | inl e ↦ rw e (
          quiet pool cap w loop_top at h.good next (record m { pc = stop_await_next }) refl
            (rw kind tt) refl refl refl refl refl refl refl refl h.turn)
      | inr e ↦ rw e (
          quiet pool cap w loop_top at h.good next
            (record m { pc = take_buffer; local_cmd = m.cmd }) refl (rw kind tt) refl refl refl refl
            refl refl refl refl h.turn)
    ]
    source-Kept exit_flag take_buffer at kind =
        keeps_take pool cap w s m take_buffer at h.good next refl kind h.turn
    source-Kept exit_flag send_job at kind =
        quiet pool cap w send_job at h.good next
          (record (post_job pool m.local_cmd m.local_offset m) { pc = await_job }) refl (rw kind tt)
          refl refl refl refl refl refl refl refl h.turn
    source-Kept exit_flag await_job at kind =
        keeps_wait_result await_job await_next at (rw kind tt) refl refl refl
    source-Kept exit_flag await_next at kind =
        keeps_wait_next pool cap w s m await_next at h.good hand_over next (h.has_next (rw kind cc))
          (rw kind tt) refl refl refl refl refl h.turn
    source-Kept exit_flag hand_over at kind =
        keeps_hand_job pool cap w s m hand_over at h.good loop_top next (h.has_next (rw kind cc))
          refl (rw kind tt) refl refl refl h.turn
    source-Kept exit_flag stop_await_next at kind =
        keeps_wait_next pool cap w s m stop_await_next at h.good stop_hand_over next
          (h.has_next (rw kind cc)) (rw kind tt) refl refl refl refl refl h.turn
    source-Kept exit_flag stop_hand_over at kind =
        keeps_hand_stop pool cap w s m stop_hand_over at h.good next (h.has_next (rw kind cc)) refl
          (rw kind tt) h.turn
    source-Kept exit_flag stop_send_job at kind =
        quiet pool cap w stop_send_job at h.good next
          (record (post_job pool cmd_stop m.proc_offs m) { pc = stop_await_job }) refl (rw kind tt)
          refl refl refl refl refl refl refl refl h.turn
    source-Kept exit_flag stop_await_job at kind =
        keeps_wait_result stop_await_job finished at (rw kind tt) refl refl refl
    source-Kept exit_flag finished at kind = tt
    source-Kept exit_flag _ at kind = rw (kind, at) at h.place

    process-Kept :
        (k : Pc)
        → m.pc ≡ k
        → m.kind ≡ process
        → Fine (Kept pool cap w s m next) (process_thread pool has_entry k s m next)
    unfolding process_thread
    process-Kept starting at kind = rw (h.can_start at) (
        quiet pool cap w starting at h.good next (record m { pc = await_cmd }) refl (rw kind tt)
          refl refl refl refl refl refl refl refl h.turn)
    process-Kept await_cmd at kind =
        keeps_wait_cmd pool cap w s m await_cmd at h.good next refl (rw kind tt) h.turn
    process-Kept copy_cmd at kind =
        keeps_copy pool cap w s m copy_cmd at h.good stop_await_next send_job next refl
          (h.empty_box at) (rw kind tt) (rw kind tt) refl refl (refl, refl) (refl, refl) h.turn
    process-Kept send_job at kind =
        quiet pool cap w send_job at h.good next
          (record (post_job pool m.local_cmd m.local_offset m) { pc = await_job }) refl (rw kind tt)
          refl refl refl refl refl refl refl refl h.turn
    process-Kept await_job at kind =
        keeps_wait_result await_job check_result at (rw kind tt) refl refl refl
    process-Kept check_result at kind = elim (Bool-cases (m.cmd_result == 0)) [
      | inl e ↦ rw e (
          quiet pool cap w check_result at h.good next (record m { pc = await_next }) refl
            (rw kind tt) refl refl refl refl refl refl refl refl h.turn)
      | inr e ↦ rw e (
          quiet pool cap w check_result at h.good next (record m { pc = give_back }) refl
            (rw kind tt) refl refl refl refl refl refl refl refl h.turn)
    ]
    process-Kept give_back at kind =
        keeps_give pool cap w s m give_back at h.good next refl (h.room (rw at)) (rw kind tt) h.turn
    process-Kept await_next at kind =
        keeps_wait_next pool cap w s m await_next at h.good hand_over next (h.has_next (rw kind cc))
          (rw kind tt) refl refl refl refl refl h.turn
    process-Kept hand_over at kind =
        keeps_hand_job pool cap w s m hand_over at h.good await_cmd next (h.has_next (rw kind cc))
          refl (rw kind tt) refl refl refl h.turn
    process-Kept stop_await_next at kind =
        keeps_wait_next pool cap w s m stop_await_next at h.good stop_hand_over next
          (h.has_next (rw kind cc)) (rw kind tt) refl refl refl refl refl h.turn
    process-Kept stop_hand_over at kind =
        keeps_hand_stop pool cap w s m stop_hand_over at h.good next (h.has_next (rw kind cc)) refl
          (rw kind tt) h.turn
    process-Kept stop_send_job at kind =
        quiet pool cap w stop_send_job at h.good next
          (record (post_job pool cmd_stop m.proc_offs m) { pc = stop_await_job }) refl (rw kind tt)
          refl refl refl refl refl refl refl refl h.turn
    process-Kept stop_await_job at kind =
        keeps_wait_result stop_await_job finished at (rw kind tt) refl refl refl
    process-Kept finished at kind = tt
    process-Kept _ at kind = rw (kind, at) at h.place

    run_kind-Kept :
        (exit_flag : Bool) (k : Kind)
        → m.kind ≡ k
        → Fine (Kept pool cap w s m next) (run_kind pool k exit_flag has_entry s m next)
    unfolding thread
    run_kind-Kept exit_flag source kind = source-Kept exit_flag m.pc refl kind
    run_kind-Kept exit_flag process kind = process-Kept m.pc refl kind
    run_kind-Kept exit_flag finalization kind = finalization-Kept m.pc refl kind

    pub thread-Kept :
        (exit_flag : Bool)
        → Fine (Kept pool cap w s m next) (thread pool exit_flag has_entry s m next)
    unfolding thread
    thread-Kept exit_flag = run_kind-Kept exit_flag m.kind refl
