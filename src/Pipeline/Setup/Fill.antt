-- ===== src/Pipeline/Setup/Fill.antt =====
-- What `pipeline_thread` of pipeline/src/pipeline_server.c leaves in the pool of free buffers.
use multiprocessor.RingBuffer.Fifo.{Holds, step_round, window}
use multiprocessor.SharedMemory.Layout.{data_slot-lt, Fits, data_slot}
use multiprocessor.RingBuffer
use mathlib.Core.Path.{ap₂}
use multiprocessor.RingBuffer.{int_max, Ring}
use multiprocessor.SharedMemory.{size_mod, get_data_offset, MemoryMap}
use multiprocessor.Pipeline.Setup.{fill, init_ring}
use multiprocessor.Common.{
  Bool-cases, ◌==◌, ◌+◌, inr, ℕ, suc, true, length-set, get_or-set_self, ◌∙◌, ◌≤◌, ap,
  length-replicate, length, List, set, get_or-set_ne, get_or, replicate, inl, refl, ◌<◌, ◌%◌, ◌≡◌,
  arith, ok, [], ◌*◌, ◌∷◌, zero,
}

-- The offsets of `k` data buffers from number `i` on.
abbrev pub slots : MemoryMap → (i k : ℕ) → List ℕ
slots m i zero = []
slots m i (suc k) = data_slot m i ∷ slots m (i + 1) k

-- The cells from `i` to below `j` hold their buffers' offsets.
abbrev Filled : MemoryMap → List ℕ → (i j : ℕ) → Type 0
Filled m buf i j = (x : ℕ) → i ≤ x → x < j → get_or buf x 0 ≡ data_slot m x

fill-Filled :
    (m : MemoryMap) (n i : ℕ) (r : Ring)
    → Fits m
    → i + n ≤ m.data_cnt
    → length r.buffer ≡ m.data_cnt
    → Filled m r.buffer 0 i
    → (buf : List ℕ) × (fill m n i r ≡ ok (record r { buffer = buf }))
      × (length buf ≡ m.data_cnt)
      × Filled m buf 0 (i + n)
unfolding fill
fill-Filled m zero i r fits room size done = (r.buffer, refl, size, λ x p q. done x p (omega arith))
fill-Filled m (suc n) i r fits room size done =
    let v = (get_data_offset m + i * m.data_size) % size_mod in
    let buf = set r.buffer i v in
    let value : v ≡ data_slot m i = omega (arith, data_slot-lt m i fits (omega arith)) in
    let more : Filled m buf 0 (i + 1) = λ x p q. elim (Bool-cases (x == i)) [
      | inl e ↦
          let at : x ≡ i = ground arith in
          rw at (get_or-set_self r.buffer i v 0 (omega arith) ∙ value)
      | inr e ↦ get_or-set_ne r.buffer i x v 0 (ground arith) ∙ done x p (ground arith)
    ] in
    let (buf', run, size', done') =
      fill-Filled m n (i + 1) (record r { buffer = buf }) fits (omega arith)
        (length-set r.buffer i v ∙ size) more in
    (buf', ground (arith, run), size', λ x p q. done' x p (omega arith))

window-slots :
    (m : MemoryMap) (buf : List ℕ) (i k : ℕ)
    → i + k ≤ m.data_cnt
    → Filled m buf i (i + k)
    → window buf m.data_cnt i k ≡ slots m i k
window-slots m buf i zero room done = refl
window-slots m buf i (suc zero) room done = ap (λ x. x ∷ []) (done i (omega arith) (omega arith))
window-slots m buf i (suc (suc k)) room done =
    let round : step_round m.data_cnt i ≡ i + 1 = ground arith in
    ap₂ ◌∷◌ (done i (omega arith) (omega arith)) (
      rw round (
        window-slots m buf (i + 1) (suc k) (omega arith)
          λ x p q. done x (omega arith) (omega arith)))

-- For a segment whose sizes do not wrap, with at least one buffer and few enough of them, the pool
-- starts valid and holds the offset of every data buffer, in order.
pub init_ring_lem :
    (m : MemoryMap)
    → Fits m
    → 0 < m.data_cnt
    → m.data_cnt + m.data_cnt ≤ int_max
    → (r : Ring) × (init_ring true true m ≡ ok r) × Holds m.data_cnt (slots m 0 m.data_cnt) r
unfolding init_ring RingBuffer.create
init_ring_lem m fits pos small =
    let n = m.data_cnt in
    let blank : Ring = record {
      max_cnt = n;
      used = n;
      start = 0;
      buffer = replicate n 0;
      sem = n;
    } in
    let (buf, run, size, done) =
      fill-Filled m n 0 blank fits (omega arith) (length-replicate {A = ℕ} n 0)
        (λ x p q. absurd (omega arith)) in
    (
      record blank { buffer = buf },
      run,
      record {
        valid = ground arith;
        capacity = refl;
        items = window-slots m buf 0 n (omega arith) λ x p q. done x p (omega arith);
      },
    )
