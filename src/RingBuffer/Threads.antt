-- ===== src/RingBuffer/Threads.antt =====
-- Any number of threads inside `ring_buffer_push` and `ring_buffer_pop` of misc/src/ring_buffer.c.
-- The mutex makes each critical section one step; the semaphore calls before and behind it are
-- steps of their own, so other threads run in between.
use mathlib.Core.List.{append-nil, append_assoc}
use multiprocessor.RingBuffer.Fifo.{insert-append, extract-uncons, contents}
use multiprocessor.RingBuffer.Invariant.{IsValid, IsSound}
use multiprocessor.Common.{◌∙◌, sym, Run, ◌∷◌, ◌-◌, ◌<◌, ◌++◌, ok, ◌+◌, arith, ◌≡◌, [], ℕ, List}
use multiprocessor.RingBuffer.{insert, extract, post, wait, Ring}

-- `takers` have passed `sem_wait` and not yet the critical section of a pop, `posters` have left
-- the critical section of a push and not yet called `sem_post`. `entered` and `taken` are what the
-- critical sections have put in and taken out, in order.
pub record System : Type 0 where
  pub ring : Ring
  pub takers : ℕ
  pub posters : ℕ
  pub entered : List ℕ
  pub taken : List ℕ

-- The callers of `ring_buffer_push` keep to the room that there is.
pub data Step (s : System) : System → Type 0 where
  begin_pop :
      (r : Ring) → wait s.ring ≡ ok r → Step s (record s { ring = r; takers = s.takers + 1 })
  end_pop :
      (v : ℕ) (r : Ring)
      → 0 < s.takers
      → extract s.ring ≡ ok (v, r)
      → Step s (record s { ring = r; takers = s.takers - 1; taken = s.taken ++ v ∷ [] })
  begin_push :
      (v : ℕ) (r : Ring)
      → s.ring.used < s.ring.max_cnt
      → insert v s.ring ≡ ok r
      → Step s (record s { ring = r; posters = s.posters + 1; entered = s.entered ++ v ∷ [] })
  end_push : 0 < s.posters → Step s (record s { ring = post s.ring; posters = s.posters - 1 })

pub data Reach (s : System) : System → Type 0 where
  here : Reach s s
  next : {t u : System} → Reach s t → Step t u → Reach s u

-- No thread is inside a call.
abbrev pub idle : Ring → System
idle r = record { ring = r; takers = 0; posters = 0; entered = []; taken = [] }

pub record Consistent (held : List ℕ) (s : System) : Type 0 where
  pub sound : IsSound s.ring
  pub counted : s.ring.sem + s.takers + s.posters ≡ s.ring.used
  pub ordered : s.taken ++ contents s.ring ≡ held ++ s.entered

wait-eq-ok : {r r' : Ring} → wait r ≡ ok r' → (0 < r.sem) × (r' ≡ record r { sem = r.sem - 1 })
unfolding wait
wait-eq-ok {r} e = ground arith

module _ {held : List ℕ} where
  Step-Consistent : {s t : System} → Step s t → Consistent held s → Consistent held t
  unfolding wait post
  Step-Consistent {s} (begin_pop r e) c =
      let (some_sem, same) = wait-eq-ok e in
      rw same (record {
        sound = ground (arith, c.sound);
        counted = omega (arith, c.counted);
        ordered = c.ordered;
      })
  Step-Consistent {s} (end_pop v r some_taker e) c =
      let (w, r', run, sound, split, fewer, size, sem) =
        extract-uncons c.sound (omega (arith, c.counted)) in
      let same : ◌≡◌ {A = Run (ℕ × Ring)} (ok (v, r)) (ok (w, r')) = sym e ∙ run in
      record {
        sound = ground (arith, sound);
        counted = ground (arith, c.counted);
        ordered = cc (c.ordered, append_assoc s.taken (v ∷ []) (contents r));
      }
  Step-Consistent {s} (begin_push v r room e) c =
      let (r', run, sound, grown, more, size, sem) = insert-append v c.sound room in
      let same : ◌≡◌ {A = Run Ring} (ok r) (ok r') = sym e ∙ run in
      record {
        sound = ground (arith, sound);
        counted = ground (arith, c.counted);
        ordered = cc (
          c.ordered,
          grown,
          append_assoc s.taken (contents s.ring) (v ∷ []),
          append_assoc held s.entered (v ∷ []),
        );
      }
  Step-Consistent {s} (end_push some_poster) c = record {
    sound = ground (arith, c.sound);
    counted = omega (arith, c.counted);
    ordered = c.ordered;
  }

  Reach-Consistent : {s t : System} → Consistent held s → Reach s t → Consistent held t
  Reach-Consistent c here = c
  Reach-Consistent c (next r st) = Step-Consistent st (Reach-Consistent c r)

-- Start from a valid ring with no thread inside a call, and let any number of threads push and pop,
-- pushing only where there is room. However their steps interleave, the values taken so far,
-- followed by what the ring holds, are what the ring held at first followed by the values put in,
-- in order. A thread that has passed the semaphore of a pop finds a value, and one that pushes into
-- a ring with room writes inside the array.
pub interleaved_fifo :
    {r : Ring} {s : System}
    → IsValid r
    → Reach (idle r) s
    → (s.taken ++ contents s.ring ≡ contents r ++ s.entered)
      × (0 < s.takers → (v : ℕ) × (r' : Ring) × (extract s.ring ≡ ok (v, r')))
      × ((v : ℕ) → s.ring.used < s.ring.max_cnt → (r' : Ring) × (insert v s.ring ≡ ok r'))
interleaved_fifo {r} {s} h reach =
    let c =
      Reach-Consistent {s = idle r} {t = s}
        (record {
          sound = h.sound;
          counted = omega (arith, h.counted);
          ordered = sym (append-nil (contents r));
        })
        reach in
    (
      c.ordered,
      λ some_taker. let t = extract-uncons c.sound (omega (arith, c.counted)) in (t.0, t.1, t.2),
      λ v room. let t = insert-append v c.sound room in (t.0, t.1),
    )
