-- ===== src/ProcessManager/Stop.antt =====
-- `process_kill_all` of pmngr/src/process_mngr.c.
use multiprocessor.ProcessManager.Start.{get_elem?-modify, IsValid}
use multiprocessor.ProcessManager.{
  modify, post_results, wait_first, cmd_stop, Manager, stop_one, ProcessInfo, kill_all, wait_loop,
  stop_loop,
}
use multiprocessor.Common.{
  false, length, ◌-◌, zero, ◌≡◌, ◌∷◌, if◌then◌else◌, [], suc, ◌&&◌, ltb, List, leb, ℕ, ◌==◌, ◌+◌,
  blocked, some, arith, get_elem?, ◌<◌,
}
use mathlib.Core.Option

abbrev pub total : List ℕ → ℕ
total [] = 0
total (k ∷ ks) = k + total ks

module _ {Text : Type 0} where
  -- Entry `j` after `n` rounds from entry `i` on: the posts all go to the first entry.
  abbrev pub stopped : (n i j : ℕ) → ProcessInfo Text → ProcessInfo Text
  stopped n i j p = record p {
    sem_job = p.sem_job + (if j == 0 then n else 0);
    cmd = if leb i j && ltb j (i + n) then cmd_stop else p.cmd;
  }

  abbrev post_job : ProcessInfo Text → ProcessInfo Text
  post_job p = record p { sem_job = p.sem_job + 1 }

  abbrev command_stop : ProcessInfo Text → ProcessInfo Text
  command_stop p = record p { cmd = cmd_stop }

  get_elem?-stop_one :
      (i j : ℕ) (ps : List (ProcessInfo Text))
      → get_elem? (stop_one i ps) j ≡ Option.map (stopped 1 i j) (get_elem? ps j)
  unfolding stop_one
  get_elem?-stop_one i j ps = ground (
    arith,
    get_elem?-modify 0 j post_job (modify i command_stop ps),
    get_elem?-modify i j command_stop ps,
  )

  get_elem?-stop_loop :
      (n i j : ℕ) (ps : List (ProcessInfo Text))
      → get_elem? (stop_loop n i ps) j ≡ Option.map (stopped n i j) (get_elem? ps j)
  unfolding stop_loop
  get_elem?-stop_loop zero i j ps = ground arith
  get_elem?-stop_loop (suc n) i j ps =
      ground (arith, get_elem?-stop_loop n (i + 1) j (stop_one i ps), get_elem?-stop_one i j ps)

  -- The first loop of `process_kill_all` sets the stop command in every entry that was started and
  -- in no other, but the job semaphore that it posts is always that of the first entry: that one
  -- gets a post for each started process, and no other entry's semaphore changes.
  pub stop_loop_lem :
      (s : Manager Text) (j : ℕ) {p : ProcessInfo Text}
      → get_elem? s.process_info j ≡ some p
      → get_elem? (stop_loop s.process_cnt 0 s.process_info) j
        ≡ some (record p {
          sem_job = if j == 0 then p.sem_job + s.process_cnt else p.sem_job;
          cmd = if ltb j s.process_cnt then cmd_stop else p.cmd;
        })
  stop_loop_lem s j e = ground (arith, get_elem?-stop_loop s.process_cnt 0 j s.process_info)

  wait_loop-blocked :
      (n : ℕ) (answers : List ℕ) (p : ProcessInfo Text) (ps : List (ProcessInfo Text))
      → p.sem_result + total answers < n
      → wait_loop n answers (p ∷ ps) ≡ blocked
  unfolding wait_loop wait_first post_results modify
  wait_loop-blocked zero answers p ps few = elim few [ ]
  wait_loop-blocked (suc n) [] p ps few =
      ground (arith, wait_loop-blocked n [] (record p { sem_result = p.sem_result - 1 }) ps)
  wait_loop-blocked (suc n) (k ∷ answers) p ps few =
      ground
        (arith, wait_loop-blocked n answers (record p { sem_result = p.sem_result + k - 1 }) ps)

  wait_loop-head :
      (n : ℕ) (answers : List ℕ) (ps : List (ProcessInfo Text)) {p : ProcessInfo Text}
      → get_elem? ps 0 ≡ some p
      → p.sem_result + total answers < n
      → wait_loop n answers ps ≡ blocked
  wait_loop-head n answers [] e few = cc
  wait_loop-head n answers (q ∷ ps) e few = wait_loop-blocked n answers q ps (ground arith)

  -- All waits of `process_kill_all` are on the first entry's result semaphore: where the counter is
  -- within the table and that entry has got fewer results than processes were started, the call
  -- does not return, whatever results the other entries have.
  pub kill_all-blocked :
      (answers : List ℕ) {s : Manager Text} {p : ProcessInfo Text}
      → IsValid s
      → get_elem? s.process_info 0 ≡ some p
      → p.sem_result + total answers < s.process_cnt
      → kill_all answers s ≡ blocked
  unfolding kill_all
  kill_all-blocked answers {s} h e few =
      let inside : ltb (length s.process_info) s.process_cnt ≡ false =
        ground (arith, h.table, h.within) in
      rw inside (
        wait_loop-head s.process_cnt answers (stop_loop s.process_cnt 0 s.process_info)
          (stop_loop_lem s 0 e) few)
