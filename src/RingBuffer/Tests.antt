-- ===== src/RingBuffer/Tests.antt =====
-- Runs of misc/src/ring_buffer.c on small rings.
use multiprocessor.RingBuffer.Threads.{end_pop, begin_push, interleaved_fifo, begin_pop, idle}
use multiprocessor.RingBuffer.Fifo.{pop-uncons, push-append, Holds, contents}
use multiprocessor.RingBuffer.Invariant.{IsValid}
use multiprocessor.RingBuffer.{Ring}
use multiprocessor.Common.{ok, ◌<◌, ◌≡◌, ◌∷◌, refl, [], arith, ℕ}
use multiprocessor.RingBuffer
use multiprocessor.RingBuffer.Threads

-- Three cells, with 10 before 20; the array has been gone round once.
abbrev two_items : Ring
two_items = record { max_cnt = 3; used = 2; start = 2; buffer = 20 ∷ 0 ∷ 10 ∷ []; sem = 2 }

two_items-IsValid : IsValid two_items
two_items-IsValid = record {
  sound = record {
    storage = refl;
    small = omega arith;
    start_in = omega arith;
    used_in = omega arith;
  };
  counted = refl;
}

pop_two :
    RingBuffer.pop two_items
    ≡ ok (10, record { max_cnt = 3; used = 1; start = 0; buffer = 20 ∷ 0 ∷ 10 ∷ []; sem = 1 })
unfolding RingBuffer.pop RingBuffer.wait RingBuffer.extract
pop_two = refl

-- A push into a full ring writes over the oldest value.
full_push :
    RingBuffer.push 9 (record { max_cnt = 2; used = 2; start = 0; buffer = 1 ∷ 2 ∷ []; sem = 2 })
    ≡ ok (record { max_cnt = 2; used = 3; start = 0; buffer = 9 ∷ 2 ∷ []; sem = 3 })
unfolding RingBuffer.push RingBuffer.insert RingBuffer.post
full_push = refl

push-append_example :
    (r' : Ring) × (RingBuffer.push 30 two_items ≡ ok r') × Holds 3 (10 ∷ 20 ∷ 30 ∷ []) r'
push-append_example = push-append {r = two_items} 30 two_items-IsValid (omega arith)

pop-uncons_example : (r' : Ring) × (RingBuffer.pop two_items ≡ ok (10, r')) × Holds 3 (20 ∷ []) r'
pop-uncons_example = pop-uncons {r = two_items} 10 (20 ∷ []) two_items-IsValid refl

-- A pop waits, a push of 30 comes in between, and the pop goes on.
abbrev end_state : Threads.System
end_state = record {
  ring = record { max_cnt = 3; used = 2; start = 0; buffer = 20 ∷ 30 ∷ 10 ∷ []; sem = 1 };
  takers = 0;
  posters = 1;
  entered = 30 ∷ [];
  taken = 10 ∷ [];
}

run_between : Threads.Reach (idle two_items) end_state
unfolding RingBuffer.wait RingBuffer.insert RingBuffer.extract
run_between =
    Threads.next
      (Threads.next (Threads.next Threads.here (begin_pop _ refl))
        (begin_push 30 _ (omega arith) refl))
      (end_pop 10 _ (omega arith) refl)

interleaved_fifo_example :
    (10 ∷ contents end_state.ring ≡ 10 ∷ 20 ∷ 30 ∷ [])
    × (0 < 0 → (v : ℕ) × (r' : Ring) × (RingBuffer.extract end_state.ring ≡ ok (v, r')))
    × ((v : ℕ) → 2 < 3 → (r' : Ring) × (RingBuffer.insert v end_state.ring ≡ ok r'))
interleaved_fifo_example =
    interleaved_fifo {r = two_items} {s = end_state} two_items-IsValid run_between
