-- ===== src/RingBuffer.antt =====
-- misc/src/ring_buffer.c: a queue of `size_t` values in a circular array, with a counting
-- semaphore of the values that may be taken. (capture/src/ring_buffer.c is the same text.)
pub mod Invariant
pub mod Fifo
pub mod Threads
mod Tests
use multiprocessor.Common.{
  ℕ, ◌+◌, ◌-◌, ◌^◌, Bool, true, false, Option, none, some, List, ◌||◌, leb, ltb, ◌==◌,
  if◌then◌else◌, length, get_elem?, set, replicate, Run, ok, blocked, fault, ◌>>=◌,
}

-- `struct ring_buffer`. The `int` fields are numbers: a step that would take one of them out of
-- range is a fault. The mutex is held for the whole of a critical section and has no field.
pub record Ring : Type 0 where
  pub max_cnt : ℕ
  pub used : ℕ
  pub start : ℕ
  pub buffer : List ℕ
  pub sem : ℕ

-- The largest `int`.
abbrev pub int_max : ℕ
int_max = 2 ^ 31 - 1

-- `ring_buffer_create`. `allocated` and `sem_ready` are what `malloc` and `sem_init` answer.
-- The array is cleared, also where the ring starts full.
unfoldable pub create : (allocated sem_ready : Bool) → ℕ → Bool → Option Ring
create allocated sem_ready max_cnt empty =
    if allocated
    then if sem_ready
      then some (record {
        max_cnt = max_cnt;
        used = if empty then 0 else max_cnt;
        start = 0;
        buffer = replicate max_cnt 0;
        sem = if empty then 0 else max_cnt;
      })
      else none
    else none

-- The critical section of `ring_buffer_push`: `pos` goes round once, and there is no check that
-- the ring has room.
unfoldable pub insert : ℕ → Ring → Run Ring
insert v r =
    if ltb int_max (r.start + r.used) || ltb int_max (r.used + 1)
    then fault
    else let pos =
        if leb r.max_cnt (r.start + r.used)
        then r.start + r.used - r.max_cnt
        else r.start + r.used in
      if ltb pos (length r.buffer)
      then ok (record r { used = r.used + 1; buffer = set r.buffer pos v })
      else fault

-- `sem_post`.
unfoldable pub post : Ring → Ring
post r = record r { sem = r.sem + 1 }

-- `sem_wait`.
unfoldable pub wait : Ring → Run Ring
wait r = if r.sem == 0 then blocked else ok (record r { sem = r.sem - 1 })

-- The critical section of `ring_buffer_pop`. A count that would fall below zero is a fault.
unfoldable pub extract : Ring → Run (ℕ × Ring)
extract r = if r.used == 0 then fault else elim (get_elem? r.buffer r.start) [
  | none ↦ fault
  | some v ↦ ok (
    v,
    record r { used = r.used - 1; start = if leb r.max_cnt (r.start + 1) then 0 else r.start + 1 },
  )
]

unfoldable pub push : ℕ → Ring → Run Ring
unfolding insert post
push v r = insert v r >>= λ r'. ok (post r')

unfoldable pub pop : Ring → Run (ℕ × Ring)
unfolding wait extract
pop r = wait r >>= extract
