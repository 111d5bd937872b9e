-- ===== src/Pipeline/System.antt =====
-- The whole of pipeline/src/pipeline_server.c at work: the modules in the order of their `next`
-- pointers, the first one first, with one step of a thread or of a child at a time.
use multiprocessor.Pipeline.Child.{child_step}
use multiprocessor.Pipeline.Threads.{thread}
use multiprocessor.Pipeline.Pool.{Pool}
use multiprocessor.Pipeline.{Pc, Module, starting}
use multiprocessor.Common.{
  ◌+◌, ltb, ◌&&◌, zero, [], ℕ, ok, true, Run, List, some, none, Bool, Option, ◌∷◌, ◌≡◌, suc,
  blocked, ◌>>=◌,
}

-- The next module as a step leaves it.
abbrev pub or_same : Option Module → Module → Module
or_same none n = n
or_same (some n') n = n'

-- A thread before its call of `process_start`.
abbrev pub at_start : Pc → ℕ
at_start starting = 1
at_start _ = 0

abbrev pub starts_at : ℕ → List Module → ℕ
starts_at i [] = 0
starts_at zero (m ∷ ms) = at_start m.pc
starts_at (suc i) (m ∷ ms) = starts_at i ms

abbrev pub pending : Module → ℕ
pending m = at_start m.pc

-- The child of the module at a position makes a step.
unfoldable pub advance_child : Option ℕ → ℕ → List Module → Run (List Module)
advance_child status i [] = blocked
advance_child status zero (m ∷ ms) = child_step status m >>= λ m'. ok (m' ∷ ms)
advance_child status (suc i) (m ∷ ms) = advance_child status i ms >>= λ ms'. ok (m ∷ ms')

module _ (pool : Pool) where
  open pool use {Store}

  -- The thread of the module at a position makes a step. The last module's `next` is `NULL`.
  unfoldable pub advance :
      (exit_flag has_entry : Bool) → ℕ → Store → List Module → Run (Store × List Module)
  advance exit_flag has_entry i s [] = blocked
  advance exit_flag has_entry zero s (m ∷ []) =
      thread pool exit_flag has_entry s m none >>= λ (s', m', n'). ok (s', m' ∷ [])
  advance exit_flag has_entry zero s (m ∷ n ∷ ms) =
      thread pool exit_flag has_entry s m (some n) >>= λ (s', m', n').
      ok (s', m' ∷ or_same n' n ∷ ms)
  advance exit_flag has_entry (suc i) s (m ∷ ms) =
      advance exit_flag has_entry i s ms >>= λ (s', ms'). ok (s', m ∷ ms')

  pub record System : Type 0 where
    pub exit_flag : Bool
    pub store : Store
    -- `process_cnt` and `process_cnt_max` of process_mngr.c, and whether the `fork` for an entry succeeds
    pub process_cnt : ℕ
    pub process_cnt_max : ℕ
    pub forks : ℕ → Bool
    pub modules : List Module

  pub data Event : Type 0 where
    -- a step of the thread at a position
    run_thread : ℕ → Event
    -- a step of the child at a position, whose action answers so
    run_child : ℕ → Option ℕ → Event
    -- `pipeline_destroy` sets the exit flag
    raise_flag : Event

  -- What `process_start` answers now: an entry, the first that was not used, where there is one and
  -- `fork` succeeds.
  abbrev pub has_room : System → Bool
  has_room y = ltb y.process_cnt y.process_cnt_max && y.forks y.process_cnt

  unfoldable pub act : Event → System → Run System
  unfolding advance advance_child
  act (run_thread i) y = advance y.exit_flag (has_room y) i y.store y.modules >>= λ (s', ms').
      ok (record y {
        store = s';
        modules = ms';
        process_cnt = y.process_cnt + starts_at i y.modules;
      })
  act (run_child i status) y =
      advance_child status i y.modules >>= λ ms'. ok (record y { modules = ms' })
  act raise_flag y = ok (record y { exit_flag = true })

  -- Any sequence of steps, in any order.
  pub data Reach (y : System) : System → Type 0 where
    here : Reach y y
    next : {t u : System} (e : Event) → Reach y t → act e t ≡ ok u → Reach y u
