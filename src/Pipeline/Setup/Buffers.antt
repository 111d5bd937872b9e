-- ===== src/Pipeline/Setup/Buffers.antt =====
-- The pipeline of pipeline/src/pipeline_server.c as `pipeline_thread` starts it, under any order of
-- steps of its threads and children: where the data buffers are.
use multiprocessor.RingBuffer.Fifo.{Holds, contents}
use multiprocessor.RingBuffer.{int_max, Ring}
use multiprocessor.SharedMemory.Layout.{slots_apart, data_slot, Fits}
use multiprocessor.SharedMemory.{MemoryMap}
use multiprocessor.Pipeline.Setup.Fill.{init_ring_lem, slots}
use multiprocessor.Pipeline.Conservation.{Reach-Intact, Intact}
use multiprocessor.Pipeline.Setup.{entry, init_system, init_ring, init_module}
use multiprocessor.Pipeline.Links.{Chain, Tail}
use multiprocessor.Pipeline.System.{pending, System, Reach}
use multiprocessor.Pipeline.Kept.{Turn, PcOf, held}
use multiprocessor.Pipeline.Pool.{ring_pool}
use multiprocessor.Pipeline.{finalization, process, source, Kind}
use multiprocessor.Common.{
  Bool, suc, sym, inl, ap, count, ◌+◌, ◌==◌, weigh-one, List, ◌∷◌, refl, Run, ◌≤◌, Bool-cases,
  length, [], ◌≡◌, weigh, zero, ℕ, ◌≢◌, arith, map, ok, ◌∙◌, inr, ◌<◌, true, indicator,
}

-- The kinds of a chain: a source, then filters, then one destination.
abbrev Behind : Kind → List Kind → Type 0
Behind k [] = k ≡ finalization
Behind k (n ∷ ns) = (k ≢ finalization) × (n ≢ source) × Behind n ns

abbrev pub Line : List Kind → Type 0
Line [] = ⊥
Line (k ∷ ks) = (k ≡ source) × Behind k ks

entry-PcOf : (k : Kind) → PcOf k (entry k)
unfolding entry
entry-PcOf source = tt
entry-PcOf process = tt
entry-PcOf finalization = tt

entry-Turn : (unset : ℕ) (k n : Kind) → n ≢ source → Turn (entry k) (init_module unset n)
unfolding entry init_module
entry-Turn unset k source h = absurd (h refl)
entry-Turn unset source process h = refl
entry-Turn unset source finalization h = refl
entry-Turn unset process process h = refl
entry-Turn unset process finalization h = refl
entry-Turn unset finalization process h = refl
entry-Turn unset finalization finalization h = refl

init-Tail :
    (unset : ℕ) (k : Kind) (ks : List Kind)
    → Behind k ks
    → Tail (init_module unset k) (map (init_module unset) ks)
unfolding init_module
init-Tail unset k [] h = h
init-Tail unset k (n ∷ ns) h =
    (h.0, h.1, entry-PcOf n, entry-Turn unset k n h.1, init-Tail unset n ns h.2)

init-held : (unset : ℕ) (w : ℕ → ℕ) (k : Kind) → held w (init_module unset k) ≡ 0
unfolding init_module
init-held unset w source = refl
init-held unset w process = refl
init-held unset w finalization = refl

init-weigh :
    (unset : ℕ) (w : ℕ → ℕ) (ks : List Kind) → weigh (held w) (map (init_module unset) ks) ≡ 0
init-weigh unset w [] = refl
init-weigh unset w (k ∷ ks) = omega (arith, init-held unset w k, init-weigh unset w ks)

length-slots : (m : MemoryMap) (i k : ℕ) → length (slots m i k) ≡ k
length-slots m i zero = refl
length-slots m i (suc k) = ap suc (length-slots m (i + 1) k)

slots_behind :
    (m : MemoryMap) (i j k : ℕ) → 0 < m.data_size → i < j → count (data_slot m i) (slots m j k) ≡ 0
slots_behind m i j zero size h = refl
slots_behind m i j (suc k) size h =
    let (p, q) = slots_apart m i j h in
    ground (arith, slots_behind m i (j + 1) k size (omega arith))

indicator_self : (a : ℕ) → indicator a a ≡ 1
indicator_self a = ground arith

slots_once :
    (m : MemoryMap) (i j k : ℕ)
    → 0 < m.data_size
    → j ≤ i
    → i < j + k
    → count (data_slot m i) (slots m j k) ≡ 1
slots_once m i j zero size h room = absurd (omega arith)
slots_once m i j (suc k) size h room = elim (Bool-cases (i == j)) [
  | inl e ↦
      let at : i ≡ j = ground arith in
      let same : data_slot m i ≡ data_slot m j = ap (data_slot m) at in
      let one : indicator (data_slot m i) (data_slot m j) ≡ 1 =
        rw same (indicator_self (data_slot m j)) in
      omega (arith, slots_behind m i (j + 1) k size (omega arith), one)
  | inr e ↦
      let (p, q) = slots_apart m j i (ground arith) in
      ground (arith, slots_once m i (j + 1) k size (ground arith) (omega arith))
]

-- A segment that the pipeline works on: its sizes do not wrap, and it has buffers, not too many.
pub record Usable (m : MemoryMap) : Type 0 where
  pub fits : Fits m
  pub some_buffers : 0 < m.data_cnt
  pub few_buffers : m.data_cnt + m.data_cnt ≤ int_max
  pub wide_buffers : 0 < m.data_size

abbrev all_slots : MemoryMap → (ℕ → ℕ) → ℕ
all_slots m w = weigh w (slots m 0 m.data_cnt)

size_lem : (m : MemoryMap) → all_slots m (λ _. 1) ≤ m.data_cnt
size_lem m = omega (arith, weigh-one (slots m 0 m.data_cnt), length-slots m 0 m.data_cnt)

init-Chain : (unset : ℕ) (kinds : List Kind) → Line kinds → Chain (map (init_module unset) kinds)
unfolding init_module
init-Chain unset [] h = h
init-Chain unset (k ∷ ks) h = (h.0, entry-PcOf k, init-Tail unset k ks h.1)

-- All modules of a chain but the last will start a child.
init-pending :
    (unset : ℕ) (k : Kind) (ks : List Kind)
    → Behind k ks
    → weigh pending (map (init_module unset) (k ∷ ks)) + 1 ≡ length (k ∷ ks)
unfolding init_module entry
init-pending unset source [] h = absurd cc
init-pending unset process [] h = absurd cc
init-pending unset finalization [] h = refl
init-pending unset source (n ∷ ns) h = omega (arith, init-pending unset n ns h.2)
init-pending unset process (n ∷ ns) h = omega (arith, init-pending unset n ns h.2)
init-pending unset finalization (n ∷ ns) h = absurd (h.0 refl)

init-room :
    (unset cnt_max : ℕ) (kinds : List Kind)
    → Line kinds
    → length kinds ≤ cnt_max + 1
    → 0 + weigh pending (map (init_module unset) kinds) ≤ cnt_max
init-room unset cnt_max [] line enough = absurd line
init-room unset cnt_max (k ∷ ks) line enough = omega (arith, enough, init-pending unset k ks line.1)

init-weight :
    (unset : ℕ) (kinds : List Kind) (w : ℕ → ℕ) (xs ys : List ℕ)
    → xs ≡ ys
    → weigh w xs + weigh (held w) (map (init_module unset) kinds) ≡ weigh w ys
init-weight unset kinds w xs ys e = rw e (omega (arith, init-weigh unset w kinds))

module _ (m : MemoryMap) (kinds : List Kind) (r : Ring) (unset : ℕ) (usable : Usable m)
    (line : Line kinds) (ready : init_ring true true m ≡ ok r) (cnt_max : ℕ) (forks : ℕ → Bool)
    (enough : length kinds ≤ cnt_max + 1) (fork_succeeds : (k : ℕ) → forks k ≡ true) where
  holds : Holds m.data_cnt (slots m 0 m.data_cnt) r
  holds =
      let (r', run, h) = init_ring_lem m usable.fits usable.some_buffers usable.few_buffers in
      let same : ◌≡◌ {A = Run Ring} (ok r) (ok r') = sym ready ∙ run in
      let at : r ≡ r' = cc in rw at h

  init-Intact : Intact ring_pool m.data_cnt (all_slots m) (init_system unset cnt_max forks kinds r)
  unfolding init_system
  init-Intact = (
    (
      (holds.valid, holds.capacity),
      init-Chain unset kinds line,
      λ w. init-weight unset kinds w (contents r) _ holds.items,
    ),
    init-room unset cnt_max kinds line enough,
    fork_succeeds,
  )

  module _ {y : System ring_pool}
      (run : Reach ring_pool (init_system unset cnt_max forks kinds r) y) where
    intact : Intact ring_pool m.data_cnt (all_slots m) y
    intact = Reach-Intact ring_pool m.data_cnt (all_slots m) (size_lem m) _ y init-Intact run

    -- For a segment whose sizes do not wrap, with buffers of a positive size and not too many, and
    -- a source, any number of filters and one destination that start on the filled pool, with an
    -- entry of the process table for the source and for each filter, and a `fork` that succeeds for
    -- each of them: however the threads and children have run, each data buffer of the segment is in
    -- exactly one place, the pool of free buffers, one thread's hands, or one module's command.
    pub buffer_once :
        (i : ℕ)
        → i < m.data_cnt
        → count (data_slot m i) (contents y.store)
            + weigh (held (indicator (data_slot m i))) y.modules
          ≡ 1
    buffer_once i h =
        intact.0.2 (indicator (data_slot m i))
        ∙ slots_once m i 0 m.data_cnt usable.wide_buffers (omega arith) (omega arith)
