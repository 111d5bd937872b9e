-- ===== src/ProcessManager/Start.antt =====
-- `process_start` of pmngr/src/process_mngr.c.
use multiprocessor.ProcessManager.Table.{subsystem_init_lem, AllReady}
use multiprocessor.ProcessManager.{
  subsystem_destroy, subsystem_init, failed, refused, started, Fork, parent, modify, ProcessInfo,
  start, Manager,
}
use multiprocessor.Common.{
  false, leb, ◌∷◌, ◌==◌, ◌≤◌, if◌then◌else◌, ◌+◌, ◌≡◌, ◌≢◌, length, zero, Bool, some, ◌<◌, arith,
  List, ap, ℕ, [], refl, get_elem?, suc,
}
use mathlib.Core.Option

module _ {Text : Type 0} where
  -- The counter of started processes stays within the table.
  pub record IsValid (s : Manager Text) : Type 0 where
    pub table : s.process_cnt_max ≡ length s.process_info
    pub within : s.process_cnt ≤ s.process_cnt_max

  pub length-modify :
      (i : ℕ) (f : ProcessInfo Text → ProcessInfo Text) (ps : List (ProcessInfo Text))
      → length (modify i f ps) ≡ length ps
  unfolding modify
  length-modify i f [] = refl
  length-modify zero f (p ∷ ps) = refl
  length-modify (suc i) f (p ∷ ps) = ap suc (length-modify i f ps)

  -- What stands at an index after a change of entry `i`.
  pub get_elem?-modify :
      (i j : ℕ) (f : ProcessInfo Text → ProcessInfo Text) (ps : List (ProcessInfo Text))
      → get_elem? (modify i f ps) j
        ≡ (if i == j then Option.map f (get_elem? ps j) else get_elem? ps j)
  unfolding modify
  get_elem?-modify i j f [] = ground arith
  get_elem?-modify zero zero f (p ∷ ps) = ground arith
  get_elem?-modify zero (suc j) f (p ∷ ps) = ground arith
  get_elem?-modify (suc i) zero f (p ∷ ps) = ground arith
  get_elem?-modify (suc i) (suc j) f (p ∷ ps) = ground (arith, get_elem?-modify i j f ps)

  abbrev pub named : ℕ → Text → ProcessInfo Text → ProcessInfo Text
  named pid program p = record p { pid = some pid; process_name = some program }

  -- Where the counter is within the table, `process_start` keeps it there, whatever `fork`, `setenv`
  -- and `execv` do.
  pub start-IsValid :
      (fork : Fork) (a b : Bool) (program : Text) {s : Manager Text}
      → IsValid s
      → IsValid (start fork a b program s).1
  unfolding start
  start-IsValid fork a b program {s} h =
      let name = λ (pid : ℕ) (p : ProcessInfo Text). record p {
        pid = some pid;
        process_name = some program;
      } in
      elim fork as (λ k. IsValid (start k a b program s).1) [
        | Fork.failed ↦ ground arith
        | Fork.child ↦ ground arith
        | Fork.parent pid ↦
            ground (arith, length-modify s.process_cnt (named pid program) s.process_info)
      ]

  -- Where the counter is within the table, with an entry to spare and a `fork` that succeeds, the parent gets the number of the first entry
  -- that was not in use, which is inside the table. That entry now has the child's pid and program,
  -- and keeps its semaphores and command; all other entries are as they were.
  pub start-parent :
      (pid : ℕ) (a b : Bool) (program : Text) {s : Manager Text}
      → IsValid s
      → s.process_cnt < s.process_cnt_max
      → let (r, s') = start (parent pid) a b program s in
        (r ≡ started s.process_cnt)
        × (s.process_cnt < length s.process_info)
        × (s'.process_cnt ≡ s.process_cnt + 1)
        × (get_elem? s'.process_info s.process_cnt
            ≡ Option.map (named pid program) (get_elem? s.process_info s.process_cnt))
        × ((j : ℕ) → j ≢ s.process_cnt → get_elem? s'.process_info j ≡ get_elem? s.process_info j)
  unfolding start
  start-parent pid a b program {s} h room =
      let name = named pid program in
      let id = s.process_cnt in
      let fits : leb s.process_cnt_max id ≡ false = ground arith in
      rw fits (
        refl,
        omega (arith, h.table),
        refl,
        ground (arith, get_elem?-modify id id name s.process_info),
        λ j other. ground (arith, get_elem?-modify id j name s.process_info),
      )

  -- Without an entry to spare `process_start` fails and changes nothing. A failed `fork` fails too,
  -- but the entry is used up: the table is as it was and the counter has grown.
  pub start-refused :
      (fork : Fork) (a b : Bool) (program : Text) (s : Manager Text)
      → (s.process_cnt_max ≤ s.process_cnt → start fork a b program s ≡ (refused, s))
        × (s.process_cnt < s.process_cnt_max
            → start failed a b program s ≡ (refused, record s { process_cnt = s.process_cnt + 1 }))
  unfolding start
  start-refused fork a b program s = (λ h. ground arith, λ h. ground arith)

  -- The counter survives `process_subsystem_destroy`: a manager that is set up anew with a table no
  -- longer than the number of processes ever started can start none, whatever `fork` answers.
  pub restart-refused :
      (ready : ℕ → Bool × Bool) (info : List (ProcessInfo Text)) (s : Manager Text) (fork : Fork)
      (a b : Bool) (program : Text)
      → AllReady ready 0 (length info)
      → length info ≤ s.process_cnt
      → (start fork a b program (subsystem_init ready info (subsystem_destroy s).1).2).0 ≡ refused
  unfolding subsystem_destroy
  restart-refused ready info s fork a b program all short =
      let emptied = (subsystem_destroy s).1 in
      let (fine, made, kept, size) = subsystem_init_lem ready info emptied in
      let (table, whole, cnt_max, cnt) = made (fine.1 all) in
      ap (λ t. t.0)
        ((start-refused fork a b program (subsystem_init ready info emptied).2).0
          (omega (arith, cnt_max, cnt)))
