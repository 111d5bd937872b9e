-- ===== src/ProcessManager/Table.antt =====
-- `process_subsystem_init` and `process_subsystem_destroy` of pmngr/src/process_mngr.c.
use native.Mathlib.Nat.{add-zero}
use mathlib.Core.List.{append_assoc, append-nil}
use multiprocessor.ProcessManager.{
  Manager, info_destroy, subsystem_init, blank, info_init, init_loop, ProcessInfo,
}
use multiprocessor.Common.{
  length-map, inr, length-append, inl, Bool-cases, false, ◌↔◌, map, [], length, List, arith, ap,
  ◌∙◌, suc, replicate, ◌∷◌, true, ℕ, ◌<◌, ◌++◌, refl, ◌+◌, Bool, ◌≡◌, zero,
}

-- The semaphores of `n` entries from number `i` on can all be made.
abbrev pub AllReady : (ℕ → Bool × Bool) → ℕ → ℕ → Type 0
AllReady ready i n = (j : ℕ) → j < n → ready (i + j) ≡ (true, true)

AllReady-cons :
    (ready : ℕ → Bool × Bool) (i n : ℕ)
    → ready i ≡ (true, true)
    → AllReady ready (i + 1) n
    → AllReady ready i (suc n)
AllReady-cons ready i n now later zero h = rw (add-zero i) now
AllReady-cons ready i n now later (suc j) h =
    let e : i + suc j ≡ i + 1 + j = omega arith in rw e (later j (omega arith))

module _ {Text : Type 0} where
  replicate-snoc : (n : ℕ) (p : ProcessInfo Text) → p ∷ replicate n p ≡ replicate n p ++ p ∷ []
  replicate-snoc zero p = refl
  replicate-snoc (suc n) p = ap (λ ps. p ∷ ps) (replicate-snoc n p)

  init_loop-ready :
      (ready : ℕ → Bool × Bool) (done : List (ProcessInfo Text)) (i : ℕ)
      (ps : List (ProcessInfo Text))
      → AllReady ready i (length ps)
      → init_loop ready done i ps ≡ (true, done ++ replicate (length ps) blank)
  unfolding init_loop info_init
  init_loop-ready ready done i [] all = rw (append-nil done)
  init_loop-ready ready done i (p ∷ ps) all =
      let now : ready i ≡ (true, true) = rw (← add-zero i) (all 0 (omega arith)) in
      let later =
        init_loop-ready ready (done ++ blank ∷ []) (i + 1) ps (λ j h.
          let e : i + 1 + j ≡ i + suc j = omega arith in rw e (all (suc j) (omega arith))) in
      rw now (later ∙ rw (append_assoc done (blank ∷ []) (replicate (length ps) blank)))

  fine→ready :
      (answer : Bool × Bool) (p : ProcessInfo Text)
      → (info_init answer.0 answer.1 p).0 ≡ true
      → answer ≡ (true, true)
  unfolding info_init
  fine→ready (true, true) p e = refl
  fine→ready (true, false) p e = cc
  fine→ready (false, b) p e = cc

  init_loop-length :
      (ready : ℕ → Bool × Bool) (done : List (ProcessInfo Text)) (i : ℕ)
      (ps : List (ProcessInfo Text))
      → length (init_loop ready done i ps).1 ≡ length done + length ps
  unfolding init_loop
  init_loop-length ready done i [] = omega arith
  init_loop-length ready done i (p ∷ ps) =
      let info = (info_init (ready i).0 (ready i).1 p).1 in
      elim (Bool-cases (info_init (ready i).0 (ready i).1 p).0) [
        | inl e ↦ rw e (
            omega (
              arith,
              init_loop-length ready (done ++ info ∷ []) (i + 1) ps,
              length-append done (info ∷ []),
            ))
        | inr e ↦ rw e (
            omega (
              arith,
              length-append (map info_destroy done) (info ∷ ps),
              length-map done (info_destroy {Text = Text}),
            ))
      ]

  init_loop_sound :
      (ready : ℕ → Bool × Bool) (done : List (ProcessInfo Text)) (i : ℕ)
      (ps : List (ProcessInfo Text))
      → (init_loop ready done i ps).0 ≡ true
      → AllReady ready i (length ps)
  unfolding init_loop
  init_loop_sound ready done i [] e = λ j h. elim h [ ]
  init_loop_sound ready done i (p ∷ ps) e =
      elim (Bool-cases (info_init (ready i).0 (ready i).1 p).0) [
        | inl fine ↦
            let later =
              init_loop_sound ready (done ++ (info_init (ready i).0 (ready i).1 p).1 ∷ []) (i + 1)
                ps (rw fine at e) in
            AllReady-cons ready i (length ps) (fine→ready (ready i) p fine) later
        | inr bad ↦ let wrong : false ≡ true = rw bad at e in cc
      ]

  -- `process_subsystem_init` succeeds exactly if every semaphore of the table can be made. Then every
  -- entry is blank, with no process, and the manager has the whole table; else the manager is as it
  -- was, and the table keeps its length.
  pub subsystem_init_lem :
      (ready : ℕ → Bool × Bool) (info : List (ProcessInfo Text)) (s : Manager Text)
      → let (fine, info', s') = subsystem_init ready info s in
        ((fine ≡ true) ↔ AllReady ready 0 (length info))
        × (fine ≡ true
            → (info' ≡ replicate (length info) blank)
              × (s'.process_info ≡ info')
              × (s'.process_cnt_max ≡ length info)
              × (s'.process_cnt ≡ s.process_cnt))
        × (fine ≡ false → s' ≡ s)
        × (length info' ≡ length info)
  unfolding subsystem_init
  subsystem_init_lem ready info s =
      let size = init_loop-length ready [] 0 info in
      elim (Bool-cases (init_loop ready [] 0 info).0) [
        | inl e ↦
            let sound = init_loop_sound ready [] 0 info e in
            let whole = ap (λ t. t.1) (init_loop-ready ready [] 0 info sound) in
            rw e (
              (λ _. sound, λ _. refl),
              λ _. (whole, refl, omega (arith, size), refl),
              λ f. cc,
              omega (arith, size),
            )
        | inr e ↦ rw e (
          (λ f. cc, λ all. let made = ap (λ t. t.0) (init_loop-ready ready [] 0 info all) in cc),
          λ f. cc,
          λ _. refl,
          omega (arith, size),
        )
      ]
