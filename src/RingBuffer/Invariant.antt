-- ===== src/RingBuffer/Invariant.antt =====
-- The representation invariant of `struct ring_buffer`.
use multiprocessor.Common.{
  ℕ, ◌+◌, ◌-◌, ◌≤◌, ◌<◌, ◌≡◌, arith, length, set, if◌then◌else◌, leb, ok, get_or,
  get_elem?-eq-get_or,
}
use multiprocessor.RingBuffer.{Ring, int_max, insert, extract}

-- All but the semaphore.
pub record IsSound (r : Ring) : Type 0 where
  pub storage : length r.buffer ≡ r.max_cnt
  pub small : r.max_cnt + r.max_cnt ≤ int_max
  pub start_in : r.start < r.max_cnt
  pub used_in : r.used ≤ r.max_cnt

-- No thread is inside a call: the semaphore counts the values.
pub record IsValid (r : Ring) : Type 0 where
  pub sound : IsSound r
  pub counted : r.sem ≡ r.used

-- The index that `insert` writes.
abbrev pub tail : Ring → ℕ
tail r = if leb r.max_cnt (r.start + r.used) then r.start + r.used - r.max_cnt else r.start + r.used

abbrev pub next_start : Ring → ℕ
next_start r = if leb r.max_cnt (r.start + 1) then 0 else r.start + 1

pub insert-ok :
    {r : Ring} (v : ℕ)
    → IsSound r
    → r.used < r.max_cnt
    → insert v r ≡ ok (record r { used = r.used + 1; buffer = set r.buffer (tail r) v })
unfolding insert
insert-ok v s room = ground arith

pub extract-ok :
    {r : Ring}
    → IsSound r
    → 0 < r.used
    → extract r
      ≡ ok (get_or r.buffer r.start 0, record r { used = r.used - 1; start = next_start r })
unfolding extract
extract-ok {r} s some_used = ground (arith, get_elem?-eq-get_or r.buffer r.start 0)
