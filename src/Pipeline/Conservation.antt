-- ===== src/Pipeline/Conservation.antt =====
-- In pipeline/src/pipeline_server.c every data buffer is in exactly one place: the pool of free
-- buffers, a thread's hands, or under a module's command.
use multiprocessor.Pipeline.Pool.{Pool}
use multiprocessor.ProcessManager.{cmd_stop}
use multiprocessor.Pipeline.Links.{advance-Whole, Whole, Tail-same, Fine-bind, Tail}
use multiprocessor.Pipeline.Kept.{Fine, held}
use multiprocessor.Pipeline.System.{
  at_start, starts_at, pending, has_room, Event, next, System, Reach, here, raise_flag, run_child,
  run_thread, act, advance, advance_child,
}
use multiprocessor.Pipeline.Child.{child_at, child_step}
use multiprocessor.Pipeline.{Pc, Module, ChildPc, exited, run_job, wait_job}
use multiprocessor.Common.{
  true, ltb, arith, fault, blocked, ◌≢◌, Run, ◌≤◌, inl, some, Bool-cases, ok, ap, sym, ℕ, refl,
  weigh, zero, ◌==◌, inr, Option, List, suc, ◌+◌, ◌∷◌, [], ◌∙◌, none, ◌≡◌,
}

-- What a step of a child leaves alone.
abbrev ChildKept : Module → Module → Type 0
ChildKept m m' =
    (m'.kind ≡ m.kind)
    × (m'.pc ≡ m.pc)
    × ((w : ℕ → ℕ) → held w m' ≡ held w m)
    × (m'.result ≡ m.result)
    × (m'.new_cmd ≡ m.new_cmd)

child_at-kept :
    (k : ChildPc) (status : Option ℕ) (m : Module) → Fine (ChildKept m) (child_at k status m)
unfolding child_step
child_at-kept wait_job status m = elim (Bool-cases (m.sem_job == 0)) [
  | inl z ↦ rw z tt
  | inr nz ↦ rw nz (refl, refl, λ w. refl, refl, refl)
]
child_at-kept run_job status m = elim (Bool-cases (m.proc_cmd == cmd_stop)) [
  | inl z ↦ rw z (refl, refl, λ w. refl, refl, refl)
  | inr nz ↦ rw nz (answer status)
]
  where
    answer :
        (status : Option ℕ)
        → Fine (ChildKept m) (elim status [
          | none ↦ ok (record m { child = exited; cmd_result = 0; sem_result = m.sem_result + 1 })
          | some code ↦
              ok (record m { child = wait_job; cmd_result = code; sem_result = m.sem_result + 1 })
        ])
    answer none = (refl, refl, λ w. refl, refl, refl)
    answer (some code) = (refl, refl, λ w. refl, refl, refl)
child_at-kept exited status m = tt

-- The chain behind a first module after a child's step.
abbrev TailKept : Module → List Module → List Module → Type 0
TailKept m ms ms' = Tail m ms' × ((w : ℕ → ℕ) → weigh (held w) ms' ≡ weigh (held w) ms)

advance_child-kept :
    (status : Option ℕ) (i : ℕ) (m : Module) (ms : List Module)
    → Tail m ms
    → Fine (TailKept m ms) (advance_child status i ms)
unfolding advance_child child_step
advance_child-kept status i m [] tail = tt
advance_child-kept status zero m (n ∷ ms) tail =
    Fine-bind (TailKept m (n ∷ ms)) (child_step status n) _ (child_at-kept n.child status n)
      λ n' (kind, at, weight, result, new_cmd). (
        (
          tail.0,
          λ e. tail.1 (sym kind ∙ e),
          rw (kind, at) tail.2,
          rw (result, new_cmd, at) tail.3,
          Tail-same n n' ms kind at tail.4,
        ),
        λ w. ap (λ (t : ℕ). t + weigh (held w) ms) (weight w),
      )
advance_child-kept status (suc i) m (n ∷ ms) tail =
    Fine-bind (TailKept m (n ∷ ms)) (advance_child status i ms) _
      (advance_child-kept status i n ms tail.4)
      λ ms' (tail', weight).
        ((tail.0, tail.1, tail.2, tail.3, tail'), λ w. ap (λ (t : ℕ). held w n + t) (weight w))

pub Fine-ok : {A : Type 0} (P : A → Type 0) (r : Run A) (a : A) → Fine P r → r ≡ ok a → P a
Fine-ok P (ok b) a p e = let same : b ≡ a = cc in rw same at p
Fine-ok P blocked a p e = absurd cc
Fine-ok P fault a p e = absurd p

pub Fine-ne-fault : {A : Type 0} (P : A → Type 0) (r : Run A) → Fine P r → r ≢ fault
Fine-ne-fault P (ok b) p e = cc
Fine-ne-fault P blocked p e = cc
Fine-ne-fault P fault p e = p

Fine-both :
    {A : Type 0} (P Q : A → Type 0) (r : Run A) → Fine P r → Fine Q r → Fine (λ a. P a × Q a) r
Fine-both P Q (ok a) p q = (p, q)
Fine-both P Q blocked p q = tt
Fine-both P Q fault p q = p

module _ (pool : Pool) (cap : ℕ) (total : (ℕ → ℕ) → ℕ) where
  advance_child-Whole :
      (status : Option ℕ) (i : ℕ) (s : pool.Store) (ms : List Module)
      → Whole pool cap total (s, ms)
      → Fine (λ ms'. Whole pool cap total (s, ms')) (advance_child status i ms)
  unfolding advance_child child_step
  advance_child-Whole status i s [] all = absurd all.1
  advance_child-Whole status zero s (m ∷ ms) (good, (kind, place, tail), weight) =
      Fine-bind (λ ms'. Whole pool cap total (s, ms')) (child_step status m) _
        (child_at-kept m.child status m)
        λ m' (kind', at, same, result, new_cmd). (
          good,
          (kind' ∙ kind, rw (kind', at) place, Tail-same m m' ms kind' at tail),
          λ w. ap (λ (t : ℕ). weigh w (pool.items s) + (t + weigh (held w) ms)) (same w) ∙ weight w,
        )
  advance_child-Whole status (suc i) s (m ∷ ms) (good, (kind, place, tail), weight) =
      Fine-bind (λ ms'. Whole pool cap total (s, ms')) (advance_child status i ms) _
        (advance_child-kept status i m ms tail)
        λ ms' (tail', same). (
          good,
          (kind, place, tail'),
          λ w. ap (λ (t : ℕ). weigh w (pool.items s) + (held w m + t)) (same w) ∙ weight w,
        )

  starts_at-pending : (i : ℕ) (ms : List Module) → starts_at i ms ≤ weigh pending ms
  starts_at-pending i [] = omega arith
  starts_at-pending zero (m ∷ ms) = omega arith
  starts_at-pending (suc i) (m ∷ ms) = omega (arith, starts_at-pending i ms)

  advance_child-pending :
      (status : Option ℕ) (i : ℕ) (ms : List Module)
      → Fine (λ ms'. weigh pending ms' ≡ weigh pending ms) (advance_child status i ms)
  unfolding advance_child child_step
  advance_child-pending status i [] = tt
  advance_child-pending status zero (m ∷ ms) =
      Fine-bind (λ ms'. weigh pending ms' ≡ pending m + weigh pending ms) (child_step status m) _
        (child_at-kept m.child status m)
        λ m' (kind', at, same, result, new_cmd). ap (λ (k : Pc). at_start k + weigh pending ms) at
  advance_child-pending status (suc i) (m ∷ ms) =
      Fine-bind (λ ms'. weigh pending ms' ≡ pending m + weigh pending ms)
        (advance_child status i ms) _ (advance_child-pending status i ms)
        λ ms' same. ap (λ (t : ℕ). pending m + t) same

  -- A system with its chain in order, its pool in order, the given weight in all, and an entry of the
  -- table for every child that is to be started, by a `fork` that succeeds.
  abbrev pub Intact : System pool → Type 0
  Intact y =
      Whole pool cap total (y.store, y.modules)
      × (y.process_cnt + weigh pending y.modules ≤ y.process_cnt_max)
      × ((k : ℕ) → y.forks k ≡ true)

  enters : (i : ℕ) (y : System pool) → Intact y → starts_at i y.modules ≡ 1 → has_room pool y ≡ true
  enters i y all one =
      let room : ltb y.process_cnt y.process_cnt_max ≡ true =
        ground (arith, all.1, starts_at-pending i y.modules, one) in
      rw (room, all.2 y.process_cnt) refl

  module _ (fits : total (λ _. 1) ≤ cap) where
    pub act-Intact : (e : Event pool) (y : System pool) → Intact y → Fine Intact (act pool e y)
    unfolding act
    act-Intact (run_thread i) y all =
        Fine-bind Intact (advance pool y.exit_flag (has_room pool y) i y.store y.modules) _
          (advance-Whole pool cap total fits y.exit_flag (has_room pool y) i y.store y.modules all.0
            (enters i y all))
          λ (s', ms') moved. (moved.0, omega (arith, all.1, moved.1), all.2)
    act-Intact (run_child i status) y all =
        Fine-bind Intact (advance_child status i y.modules) _
          (Fine-both (λ ms'. Whole pool cap total (y.store, ms'))
            (λ ms'. weigh pending ms' ≡ weigh pending y.modules) (advance_child status i y.modules)
            (advance_child-Whole status i y.store y.modules all.0)
            (advance_child-pending status i y.modules))
          λ ms' (all', same). (all', omega (arith, all.1, same), all.2)
    act-Intact raise_flag y all = all

    pub Reach-Intact : (y t : System pool) → Intact y → Reach pool y t → Intact t
    Reach-Intact y t all here = all
    Reach-Intact y t all (next {t = u} e r run) =
        Fine-ok Intact (act pool e u) t (act-Intact e u (Reach-Intact y u all r)) run
