-- ===== src/Pipeline/Child.antt =====
-- `pipeline_process` of pipeline/src/pipeline_client.c: the loop of a child process.
use multiprocessor.ProcessManager.{cmd_stop}
use multiprocessor.Pipeline.{Module, ChildPc, exited, run_job, wait_job}
use multiprocessor.Common.{◌-◌, ◌==◌, ℕ, ok, some, if◌then◌else◌, none, Run, ◌+◌, blocked, Option}

unfoldable pub child_at : ChildPc → Option ℕ → Module → Run Module
child_at wait_job status m =
    if m.sem_job == 0 then blocked else ok (record m { child = run_job; sem_job = m.sem_job - 1 })
child_at run_job status m =
    if m.proc_cmd == cmd_stop
    then ok (record m { child = exited; cmd_result = 0; sem_result = m.sem_result + 1 })
    else elim status [
      | none ↦ ok (record m { child = exited; cmd_result = 0; sem_result = m.sem_result + 1 })
      | some code ↦
          ok (record m { child = wait_job; cmd_result = code; sem_result = m.sem_result + 1 })
    ]
child_at exited status m = blocked

-- One step of a child. `status` is what `pipeline_action` leaves in its second argument, `none` for
-- -1; a child with no action is one whose status is always 0.
unfoldable pub child_step : Option ℕ → Module → Run Module
unfolding child_at
child_step status m = child_at m.child status m
