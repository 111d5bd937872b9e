-- ===== src/SharedMemory/Environment.antt =====
-- shmem/src/shared_memory.c: the name and the size of the segment go to a child process through the
-- environment. `Text` is what an environment variable holds; `print` and `parse` stand for
-- `snprintf` and `sscanf` with `%zd`.
use mathlib.Core.Bool.{not}
use multiprocessor.Common.{
  some, ◌^◌, Bool, Option, ◌<◌, false, ◌≡◌, if◌then◌else◌, arith, ℕ, true, none, ◌&&◌,
}
use multiprocessor.SharedMemory.{MemoryMap, get_size}

-- `SHMEM_DATA_NAME` and `SHMEM_DATA_SIZE`.
pub record Env (Text : Type 0) : Type 0 where
  pub data_name : Option Text
  pub data_size : Option Text

module _ {Text : Type 0} (print : ℕ → Text) where
  -- `shared_memory_setenv`: the two answers are those of `setenv`. It returns whether it succeeded.
  unfoldable pub setenv : (name_set size_set : Bool) → Text → MemoryMap → Env Text → Bool × Env Text
  setenv name_set size_set path m env =
      if not name_set
      then (false, env)
      else let named = record env { data_name = some path } in
        if not size_set
        then (false, named)
        else (true, record named { data_size = some (print (get_size m)) })

-- The two variables of the caller of `shared_memory_getenv`: its `char *` and what its `size_t *`
-- points to.
pub record Caller (Text : Type 0) : Type 0 where
  pub path : Text
  pub size : ℕ

module _ {Text : Type 0} (parse : Text → ℕ) where
  -- `shared_memory_getenv`. The pointer to the name is assigned to the parameter alone, so of the
  -- caller's variables only the size can change.
  pub getenv : Env Text → Caller Text → Bool × Caller Text
  getenv env caller = elim env.data_name [
    | none ↦ (false, caller)
    | some path ↦ elim env.data_size [
      | none ↦ (false, caller)
      | some size ↦ (true, record caller { size = parse size })
    ]
  ]

module _ {Text : Type 0} (print : ℕ → Text) (parse : Text → ℕ)
    (parse-print : (n : ℕ) → n < 2 ^ 63 → parse (print n) ≡ n) where
  -- If `sscanf` reads back what `snprintf` writes below 2 ^ 63, a child that calls
  -- `shared_memory_getenv` after both `setenv` calls of `shared_memory_setenv` have succeeded is
  -- told that all is well and gets the segment's size, but not its name: the caller's path is the
  -- one that it had before.
  pub getenv-setenv :
      (path : Text) (m : MemoryMap) (env : Env Text) (caller : Caller Text)
      → get_size m < 2 ^ 63
      → getenv parse (setenv print true true path m env).1 caller
        ≡ (true, record { path = caller.path; size = get_size m })
  unfolding setenv getenv
  getenv-setenv path m env caller small = rw (parse-print (get_size m) small)

  -- After a failed `shared_memory_setenv` on a clean environment a child's
  -- `shared_memory_getenv` fails too and changes nothing of its caller.
  pub getenv-setenv_failed :
      (a b : Bool) (path : Text) (m : MemoryMap) (caller : Caller Text)
      → (a && b) ≡ false
      → let (done, env) = setenv print a b path m (record { data_name = none; data_size = none }) in
        (done ≡ false) × (getenv parse env caller ≡ (false, caller))
  unfolding setenv getenv
  getenv-setenv_failed a b path m caller h = (ground arith, ground arith)
