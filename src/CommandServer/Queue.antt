-- ===== src/CommandServer/Queue.antt =====
-- What becomes of the commands that are put into the queue of command_server/src/command_server.c.
use multiprocessor.Common.{
  ap, some, get_elem?, ◌%◌, if◌then◌else◌, ◌||◌, true, ltb, ◌-◌, leb, length-set, refl, arith, ◌∙◌,
  fault, List, ok, ◌≤◌, set, ◌≡◌, ◌<◌, ◌==◌, length, ℕ, ◌+◌, false,
}
use multiprocessor.RingBuffer
use multiprocessor.RingBuffer.{Ring}
use multiprocessor.CommandServer.{
  Server, command_queue_size, command_buf_len, push_new_command, pop_next_command,
}

-- The ring counts `n` values more than its array has room for, all of them waiting.
pub record Waits (start n : ℕ) (s : Server) : Type 0 where
  pub size : length s.cmd_ring.buffer ≡ command_queue_size
  pub max_cnt : s.cmd_ring.max_cnt ≡ command_queue_size
  pub at_start : s.cmd_ring.start ≡ start
  pub inside : start < command_queue_size
  pub used : s.cmd_ring.used ≡ command_queue_size + n
  pub sem : s.cmd_ring.sem ≡ command_queue_size + n
  pub ready : s.command_ready ≡ n

-- A command's address and text.
pub record Fits (address : ℕ) (request : List ℕ) : Type 0 where
  pub nonnull : (address == 0) ≡ false
  pub short : length request < command_buf_len

-- The place that a push writes to lies as far behind the start as commands wait; it does not go round
-- the end of the array a second time.
pub push-Waits :
    (start n address : ℕ) (request : List ℕ) (s : Server)
    → Fits address request
    → Waits start n s
    → start + n < command_queue_size
    → (s' : Server) × (push_new_command address request s ≡ ok s')
      × Waits start (n + 1) s'
      × (s'.cmd_ring.buffer ≡ set s.cmd_ring.buffer (start + n) address)
      × (s'.full_command address ≡ request)
      × (s'.executed ≡ s.executed)
      × (s'.exit_flag ≡ s.exit_flag)
unfolding push_new_command RingBuffer.push RingBuffer.insert RingBuffer.post
push-Waits start n address request s f w room =
    let r = s.cmd_ring in
    let small : (ltb RingBuffer.int_max (r.start + r.used) || ltb RingBuffer.int_max (r.used + 1))
        ≡ false =
      ground (arith, w.at_start, w.used, w.inside) in
    let round : leb r.max_cnt (r.start + r.used) ≡ true = ground (arith, w.max_cnt, w.used) in
    let pos : r.start + r.used - r.max_cnt ≡ start + n =
      omega (arith, w.max_cnt, w.used, w.at_start) in
    let inside : ltb (start + n) (length r.buffer) ≡ true = ground (arith, w.size, room) in
    let short : ltb (length request) command_buf_len ≡ true = ground (arith, f.short) in
    let self : (address == address) ≡ true = ground arith in
    (
      record s {
        cmd_ring = record r {
          used = r.used + 1;
          buffer = set r.buffer (start + n) address;
          sem = r.sem + 1;
        };
        command_ready = s.command_ready + 1;
        full_command = λ a. if a == address then request else s.full_command a;
      },
      rw (push_new_command, f.nonnull, short, small, round, pos, inside) refl,
      record {
        size = length-set r.buffer (start + n) address ∙ w.size;
        max_cnt = w.max_cnt;
        at_start = w.at_start;
        inside = w.inside;
        used = omega (arith, w.used);
        sem = omega (arith, w.sem);
        ready = omega (arith, w.ready);
      },
      refl,
      rw self refl,
      refl,
      refl,
    )

pub push-fault :
    (start n address : ℕ) (request : List ℕ) (s : Server)
    → Fits address request
    → Waits start n s
    → n ≤ command_queue_size
    → command_queue_size ≤ start + n
    → push_new_command address request s ≡ fault
unfolding push_new_command RingBuffer.push RingBuffer.insert
push-fault start n address request s f w small full =
    let r = s.cmd_ring in
    let int : (ltb RingBuffer.int_max (r.start + r.used) || ltb RingBuffer.int_max (r.used + 1))
        ≡ false =
      ground (arith, w.at_start, w.used, w.inside, small) in
    let round : leb r.max_cnt (r.start + r.used) ≡ true = ground (arith, w.max_cnt, w.used) in
    let pos : r.start + r.used - r.max_cnt ≡ start + n =
      omega (arith, w.max_cnt, w.used, w.at_start) in
    let outside : ltb (start + n) (length r.buffer) ≡ false = ground (arith, w.size, full) in
    let short : ltb (length request) command_buf_len ≡ true = ground (arith, f.short) in
    rw (push_new_command, f.nonnull, short, int, round, pos, outside) refl

-- A pop takes what stands at the start.
pub pop-Waits :
    (start n v : ℕ) (s : Server)
    → Waits start (n + 1) s
    → get_elem? s.cmd_ring.buffer start ≡ some v
    → (s' : Server) × (pop_next_command s ≡ ok (v, s'))
      × Waits ((start + 1) % command_queue_size) n s'
      × (s'.full_command ≡ s.full_command)
      × (s'.executed ≡ s.executed)
      × (s'.exit_flag ≡ s.exit_flag)
unfolding pop_next_command RingBuffer.pop RingBuffer.wait RingBuffer.extract
pop-Waits start n v s w value =
    let r = s.cmd_ring in
    let waiting : (s.command_ready == 0) ≡ false = ground (arith, w.ready) in
    let posted : (r.sem == 0) ≡ false = ground (arith, w.sem) in
    let nonempty : (r.used == 0) ≡ false = ground (arith, w.used) in
    let next : (if leb r.max_cnt (r.start + 1) then 0 else r.start + 1)
        ≡ (start + 1) % command_queue_size =
      ground (arith, w.max_cnt, w.at_start, w.inside) in
    let at_start : get_elem? r.buffer r.start ≡ some v =
      ap (get_elem? r.buffer) w.at_start ∙ value in
    (
      record s {
        cmd_ring = record r {
          used = r.used - 1;
          start = if leb r.max_cnt (r.start + 1) then 0 else r.start + 1;
          sem = r.sem - 1;
        };
        command_ready = s.command_ready - 1;
      },
      rw (pop_next_command, waiting, posted, nonempty, at_start) refl,
      record {
        size = w.size;
        max_cnt = w.max_cnt;
        at_start = next;
        inside = omega arith;
        used = omega (arith, w.used);
        sem = omega (arith, w.sem);
        ready = omega (arith, w.ready);
      },
      refl,
      refl,
      refl,
    )
