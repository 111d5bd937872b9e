-- ===== src/Pipeline/Startup.antt =====
-- `pipeline_init` and `pipeline_destroy` of pipeline/src/pipeline_server.c, and
-- `pipeline_process_init` of pipeline/src/pipeline_client.c: how the server and a child come to the
-- same segment. A text is of any type; there is one name, "/pipeline".
use mathlib.Core.Bool.{not}
use multiprocessor.SharedMemory.Environment.{setenv, Env}
use multiprocessor.SharedMemory.{get_size, MemoryMap}
use multiprocessor.SharedMemory.Segment.{Os, unlink, server_init, client_init, Answers, destroy}
use multiprocessor.Common.{
  false, Bool, ◌<◌, arith, refl, ℕ, Option, true, ◌≡◌, ◌-◌, ◌+◌, if◌then◌else◌, some, none, ◌^◌,
}
use multiprocessor.SharedMemory

-- `PROCESS_INFO_SIZE` is `entry_size`.
abbrev pub server_map : ℕ → MemoryMap
server_map entry_size = SharedMemory.create 3 entry_size 512 1024

-- `struct pipeline` as the caller gets it: whether it has a mapping, and whether its thread runs.
pub record PipelineState : Type 0 where
  pub mapped : Bool
  pub running : Bool

module _ {Text : Type 0} (print : ℕ → Text) where
  -- `pipeline_init`: the answers of `malloc`, of the calls of `shared_memory_server_init` and of the
  -- two `setenv`; whether `setenv` succeeds is not looked at.
  pub pipeline_init :
      (allocated : Bool) (a : Answers) (name_set size_set : Bool)
      → (entry_size : ℕ) → Text
      → Os
      → Env Text
      → Option PipelineState × Os × Env Text
  unfolding server_init unlink setenv
  pipeline_init allocated a name_set size_set entry_size path os env =
      if not allocated
      then (none, os, env)
      else let (mapped, os') = server_init a (server_map entry_size) (unlink os) in
        if mapped
        then (
          some (record { mapped = true; running = true }),
          os',
          (setenv print name_set size_set path (server_map entry_size) env).1,
        )
        else (some (record { mapped = false; running = false }), os', env)

-- The shared part of `pipeline_destroy`, behind the end of the pipeline's thread.
pub pipeline_destroy : Os → Os
unfolding destroy
pipeline_destroy os = destroy os

module _ {Text : Type 0} (parse : Text → ℕ) where
  -- `pipeline_process_init`: `id` is the text of `SHMEM_PROCESS_ID`. `none` where the child exits;
  -- else the number of its entry and the size that it maps.
  pub process_init : Answers → Env Text → (id : Option Text) → Os → Option (ℕ × ℕ) × Os
  unfolding client_init
  process_init a env id os = elim env.data_name [
    | none ↦ (none, os)
    | some path ↦ elim env.data_size [
      | none ↦ (none, os)
      | some size ↦ elim id [
        | none ↦ (none, os)
        | some number ↦
            let (mapped, os') = client_init a os in
            if mapped then (some (parse number, parse size), os') else (none, os')
      ]
    ]
  ]

abbrev pub all_succeed : Answers
all_succeed = record { opens = true; truncates = true; maps = true }

module _ {Text : Type 0} (print : ℕ → Text) (parse : Text → ℕ)
    (parse-print : (n : ℕ) → n < 2 ^ 63 → parse (print n) ≡ n) where
  -- If `sscanf` reads back what `snprintf` writes below 2 ^ 63 and the calls of the system succeed,
  -- `pipeline_init` starts the pipeline even where another segment has its name, and a child that
  -- gets the environment and an entry's number maps a segment of exactly the size that the server
  -- made, with its own number. No descriptor stays open, and `pipeline_destroy` removes the name.
  pub startup :
      (entry_size number : ℕ) (path : Text) (os : Os) (env : Env Text)
      → get_size (server_map entry_size) < 2 ^ 63
      → number < 2 ^ 63
      → (os' : Os) × (env' : Env Text) × (pipeline_init print true all_succeed true true entry_size
            path os env
          ≡ (some (record { mapped = true; running = true }), os', env'))
        × (process_init parse all_succeed env' (some (print number)) os'
            ≡ (some (number, get_size (server_map entry_size)), os'))
        × (os'.linked
            ≡ some (record {
              size = get_size (server_map entry_size);
              header = some (server_map entry_size);
            }))
        × (os'.fds ≡ os.fds)
        × ((pipeline_destroy os').linked ≡ none)
  unfolding pipeline_init process_init pipeline_destroy server_init client_init unlink destroy
      setenv
  startup entry_size number path os env small few =
      let m = server_map entry_size in
      let os' : Os = record {
        linked = some (record { size = get_size m; header = some m });
        fds = os.fds + 1 - 1;
      } in
      let env' : Env Text = record {
        data_name = some path;
        data_size = some (print (get_size m));
      } in
      let same : os.fds + 1 - 1 ≡ os.fds = omega arith in
      let again : os.fds + 1 - 1 + 1 - 1 ≡ os.fds + 1 - 1 = omega arith in
      (
        os',
        env',
        refl,
        rw (parse-print number few, parse-print (get_size m) small, again) refl,
        refl,
        same,
        refl,
      )

  -- Where `malloc` succeeds and `mmap` fails, `pipeline_init` returns a pipeline all the same: it has
  -- no mapping and no thread, the name stands for nothing, no descriptor stays open, and the
  -- environment is as it was.
  pub startup_failed :
      (a : Answers) (entry_size : ℕ) (path : Text) (os : Os) (env : Env Text)
      → a.maps ≡ false
      → let (p, os', env') = pipeline_init print true a true true entry_size path os env in
        (p ≡ some (record { mapped = false; running = false }))
        × (os'.linked ≡ none)
        × (os'.fds ≡ os.fds)
        × (env' ≡ env)
  unfolding pipeline_init server_init unlink
  startup_failed a entry_size path os env failed =
      (ground arith, ground arith, ground arith, ground arith)
