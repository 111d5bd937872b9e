-- ===== src/ProcessManager.antt =====
-- pmngr/src/process_mngr.c: the table of child processes in shared memory, and the calls that
-- start, stop and forget them.
pub mod Table
pub mod Start
pub mod Stop
mod Tests
use mathlib.Core.Bool.{not}
use multiprocessor.Common.{
  ltb, ◌∷◌, none, Option, length, blocked, false, zero, suc, ℕ, some, ◌&&◌, ok, [], Bool, ◌++◌,
  true, List, Run, leb, ◌+◌, ◌==◌, map, fault, ◌>>=◌, if◌then◌else◌, ◌-◌,
}

-- `struct process_info`. The semaphores are their counts; `pid` is -1 as `none`. A name and the
-- command's arguments are texts of any kind, and a name is not cut at 79 characters; the field
-- `process_state`, which nothing reads, is left out.
pub record ProcessInfo (Text : Type 0) : Type 0 where
  pub sem_job : ℕ
  pub sem_result : ℕ
  pub pid : Option ℕ
  pub process_name : Option Text
  pub cmd : ℕ
  pub cmd_result : ℕ
  pub cmd_offs : ℕ

-- `PROCESS_CMD_STOP` and `PROCESS_CMD_JOB`.
abbrev pub cmd_stop : ℕ
cmd_stop = 0

abbrev pub cmd_job : ℕ
cmd_job = 1

-- The static variables of the file: how many processes were started, how many may be, and the
-- table that `process_info` points to (`[]` where it is `NULL`).
pub record Manager (Text : Type 0) : Type 0 where
  pub process_cnt : ℕ
  pub process_cnt_max : ℕ
  pub process_info : List (ProcessInfo Text)

-- What `fork` answers.
pub data Fork : Type 0 where
  failed : Fork
  child : Fork
  parent : ℕ → Fork

-- How `process_start` ends: in the parent with the entry's number, with an error, or in the child,
-- which gets its number through the environment and goes on in another program.
pub data Started (Text : Type 0) : Type 0 where
  started : ℕ → Started Text
  refused : Started Text
  becomes : ℕ → Text → Started Text

module _ {Text : Type 0} where
  -- `memset` to zero and a `pid` of -1.
  abbrev pub blank : ProcessInfo Text
  blank = record {
    sem_job = 0;
    sem_result = 0;
    pid = none;
    process_name = none;
    cmd = 0;
    cmd_result = 0;
    cmd_offs = 0;
  }

  -- `process_info_init`: the arguments say whether the two `sem_init` calls succeed. It returns the
  -- entry and whether all went well; a second failure destroys the first semaphore.
  pub info_init : (job_ready result_ready : Bool) → ProcessInfo Text → Bool × ProcessInfo Text
  info_init job_ready result_ready info =
      let zeroed = record blank { pid = some 0 } in
      if not job_ready
      then (false, zeroed)
      else if not result_ready
      then (false, zeroed)
      else (true, record zeroed { pid = none })

  -- `process_info_destroy`.
  pub info_destroy : ProcessInfo Text → ProcessInfo Text
  info_destroy info = blank

  -- The loop of `process_subsystem_init` over the caller's table: `ready i` is what the `sem_init`
  -- calls of entry `i` answer. On a failure the entries before it are destroyed again.
  pub init_loop :
      (ℕ → Bool × Bool)
      → (done : List (ProcessInfo Text)) → ℕ
      → List (ProcessInfo Text)
      → Bool × List (ProcessInfo Text)
  unfolding info_init info_destroy
  init_loop ready done i [] = (true, done)
  init_loop ready done i (info ∷ rest) =
      let (fine, info') = info_init (ready i).0 (ready i).1 info in
      let more = init_loop ready (done ++ info' ∷ []) (i + 1) rest in
      if fine then more else (false, map info_destroy done ++ info' ∷ rest)

  -- `process_subsystem_init`; `cnt` is the length of the table. It returns whether it succeeded, the
  -- table as it is then in shared memory, and the manager.
  pub subsystem_init :
      (ℕ → Bool × Bool)
      → List (ProcessInfo Text)
      → Manager Text
      → Bool × List (ProcessInfo Text) × Manager Text
  unfolding init_loop
  subsystem_init ready info s =
      let (fine, info') = init_loop ready [] 0 info in
      if fine
      then (true, info', record s { process_info = info'; process_cnt_max = length info' })
      else (false, info', s)

  -- `process_subsystem_destroy`: it leaves `process_cnt` as it is.
  pub subsystem_destroy : Manager Text → List (ProcessInfo Text) × Manager Text
  unfolding info_destroy
  subsystem_destroy s =
      (map info_destroy s.process_info, record s { process_info = []; process_cnt_max = 0 })

  pub modify :
      ℕ → (ProcessInfo Text → ProcessInfo Text) → List (ProcessInfo Text) → List (ProcessInfo Text)
  modify i f [] = []
  modify zero f (p ∷ ps) = f p ∷ ps
  modify (suc i) f (p ∷ ps) = p ∷ modify i f ps

  -- `process_start`; `env_set` and `exec_fine` are what `setenv` and `execv` do in the child.
  pub start : Fork → (env_set exec_fine : Bool) → Text → Manager Text → Started Text × Manager Text
  unfolding modify
  start fork env_set exec_fine program s =
      if leb s.process_cnt_max s.process_cnt
      then (refused, s)
      else let id = s.process_cnt in
        let counted = record s { process_cnt = id + 1 } in
        elim fork [
          | failed ↦ (refused, counted)
          | child ↦ (if env_set && exec_fine then becomes id program else refused, counted)
          | parent pid ↦ (
            started id,
            record counted {
              process_info =
                  modify id (λ p. record p { pid = some pid; process_name = some program })
                    s.process_info;
            },
          )
        ]

  -- One round of the first loop of `process_kill_all`: the command goes to entry `i`, the post to
  -- the semaphore of the entry that `process_info` points to, the first.
  pub stop_one : ℕ → List (ProcessInfo Text) → List (ProcessInfo Text)
  unfolding modify
  stop_one i ps =
      modify 0 (λ p. record p { sem_job = p.sem_job + 1 })
        (modify i (λ p. record p { cmd = cmd_stop }) ps)

  -- The first loop, from entry `i` on, with `n` rounds left.
  pub stop_loop : (n i : ℕ) → List (ProcessInfo Text) → List (ProcessInfo Text)
  unfolding stop_one
  stop_loop zero i ps = ps
  stop_loop (suc n) i ps = stop_loop n (i + 1) (stop_one i ps)

  -- `sem_wait(&process_info->sem_result)`, on the first entry.
  pub wait_first : List (ProcessInfo Text) → Run (List (ProcessInfo Text))
  wait_first [] = fault
  wait_first (p ∷ ps) =
      if p.sem_result == 0 then blocked else ok (record p { sem_result = p.sem_result - 1 } ∷ ps)

  -- What the children do before a wait: they post `k` results to the first entry.
  pub post_results : ℕ → List (ProcessInfo Text) → List (ProcessInfo Text)
  unfolding modify
  post_results k ps = modify 0 (λ p. record p { sem_result = p.sem_result + k }) ps

  -- The second loop; `answers` says how many results the first entry gets before each wait.
  pub wait_loop : ℕ → List ℕ → List (ProcessInfo Text) → Run (List (ProcessInfo Text))
  unfolding wait_first post_results
  wait_loop zero answers ps = ok ps
  wait_loop (suc n) [] ps = wait_first ps >>= wait_loop n []
  wait_loop (suc n) (k ∷ answers) ps = wait_first (post_results k ps) >>= wait_loop n answers

  -- `process_kill_all`: the command to every entry that was started, then as many waits. A command
  -- to an entry behind the table is a fault.
  pub kill_all : List ℕ → Manager Text → Run (List (ProcessInfo Text))
  unfolding stop_loop wait_loop
  kill_all answers s =
      if ltb (length s.process_info) s.process_cnt
      then fault
      else wait_loop s.process_cnt answers (stop_loop s.process_cnt 0 s.process_info)
