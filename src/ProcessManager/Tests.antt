-- ===== src/ProcessManager/Tests.antt =====
-- Runs of pmngr/src/process_mngr.c with numbers for texts.
use multiprocessor.ProcessManager.Start.{
  start-refused, start-parent, named, restart-refused, start-IsValid,
}
use multiprocessor.ProcessManager.Table.{subsystem_init_lem, AllReady}
use multiprocessor.ProcessManager.Stop.{stop_loop_lem, kill_all-blocked}
use multiprocessor.ProcessManager.{
  modify, stop_one, cmd_stop, blank, kill_all, stop_loop, ProcessInfo, subsystem_init, Manager,
}
use multiprocessor.Common.{
  ℕ, ◌≡◌, ◌↔◌, ◌∷◌, length, arith, [], blocked, get_elem?, none, false, some, true, refl, Option,
}
use multiprocessor.ProcessManager.Start

abbrev entry : (pid : Option ℕ) → ProcessInfo ℕ
entry pid = record blank { pid = pid }

-- Three entries, two of them started.
abbrev two_started : Manager ℕ
two_started = record {
  process_cnt = 2;
  process_cnt_max = 3;
  process_info = entry (some 11) ∷ entry (some 12) ∷ entry none ∷ [];
}

two_started-IsValid : Start.IsValid two_started
two_started-IsValid = record { table = refl; within = omega arith }

-- Both posts go to the first entry.
stop_both :
    stop_loop 2 0 two_started.process_info
    ≡ record (entry (some 11)) { sem_job = 2 } ∷ entry (some 12) ∷ entry none ∷ []
unfolding stop_loop stop_one modify
stop_both = refl

subsystem_init_lem_example :
    let (fine, info', s') = subsystem_init (λ i. (true, true)) (entry none ∷ []) two_started in
    ((fine ≡ true) ↔ AllReady (λ i. (true, true)) 0 1)
    × (fine ≡ true
        → (info' ≡ blank ∷ [])
          × (s'.process_info ≡ info')
          × (s'.process_cnt_max ≡ 1)
          × (s'.process_cnt ≡ 2))
    × (fine ≡ false → s' ≡ two_started)
    × (length info' ≡ 1)
subsystem_init_lem_example = subsystem_init_lem (λ i. (true, true)) (entry none ∷ []) two_started

stop_loop_lem_example :
    get_elem? (stop_loop 2 0 two_started.process_info) 0
    ≡ some (record (entry (some 11)) { sem_job = 2; cmd = cmd_stop })
stop_loop_lem_example = stop_loop_lem two_started 0 {p = entry (some 11)} refl

kill_all-blocked_example : kill_all (1 ∷ 0 ∷ []) two_started ≡ blocked
kill_all-blocked_example =
    kill_all-blocked (1 ∷ 0 ∷ []) {s = two_started} {p = entry (some 11)} two_started-IsValid refl
      (omega arith)
