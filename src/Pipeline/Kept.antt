-- ===== src/Pipeline/Kept.antt =====
-- What a step of one thread keeps: where its buffer is, and which counters it may have changed.
-- A thread is between taking a buffer and passing it on.
use multiprocessor.Pipeline.System.{at_start}
use multiprocessor.Pipeline.Pool.{Pool}
use multiprocessor.ProcessManager.{cmd_stop}
use multiprocessor.Pipeline.{
  Module, finalization, process, source, Kind, Pc, finished, stop_hand_over, hand_over, await_next,
  give_back, check_result, await_job, send_job, copy_cmd, await_cmd, take_buffer, loop_top,
  starting,
}
use multiprocessor.Common.{
  none, weigh, fault, Run, Option, ok, refl, arith, some, blocked, ℕ, ◌==◌, if◌then◌else◌, true,
  ◌+◌, ◌≡◌, Bool, false,
}

abbrev pub carries : Pc → Bool
carries send_job = true
carries await_job = true
carries check_result = true
carries give_back = true
carries await_next = true
carries hand_over = true
carries _ = false

-- A thread has waited for the next module's `result` and not yet posted its `new_cmd`.
abbrev pub sending : Pc → ℕ
sending hand_over = 1
sending stop_hand_over = 1
sending _ = 0

-- A thread has waited for its `new_cmd` and not yet posted its `result`.
abbrev pub receiving : Pc → ℕ
receiving copy_cmd = 1
receiving _ = 0

-- The buffers that a module has: one in its thread's hands, and one under its command.
abbrev pub in_hand : (ℕ → ℕ) → Module → ℕ
in_hand w m = if carries m.pc then w m.local_offset else 0

abbrev pub in_box : (ℕ → ℕ) → Module → ℕ
in_box w m =
    if m.new_cmd + receiving m.pc == 0 then 0 else if m.cmd == cmd_stop then 0 else w m.dataoffset

abbrev pub held : (ℕ → ℕ) → Module → ℕ
held w m = in_hand w m + in_box w m

-- The places where each thread can be.
abbrev pub PcOf : Kind → Pc → Type 0
PcOf source await_cmd = ⊥
PcOf source copy_cmd = ⊥
PcOf source check_result = ⊥
PcOf source give_back = ⊥
PcOf source _ = Unit
PcOf process loop_top = ⊥
PcOf process take_buffer = ⊥
PcOf process _ = Unit
PcOf finalization await_cmd = Unit
PcOf finalization copy_cmd = Unit
PcOf finalization give_back = Unit
PcOf finalization finished = Unit
PcOf finalization _ = ⊥

-- Where a thread can be behind a step: not before its call of `process_start` again.
abbrev pub Later : Kind → Pc → Type 0
Later k starting = ⊥
Later k c = PcOf k c

pub Later-PcOf : (k : Kind) (c : Pc) → Later k c → PcOf k c
Later-PcOf k starting later = absurd later
Later-PcOf k _ later = later

pub Later-away : (k : Kind) (c : Pc) → Later k c → at_start c ≡ 0
Later-away k starting later = absurd later
Later-away k _ later = refl

-- The protocol between the place of a module's thread and the next module: exactly one of the four holds the turn.
abbrev pub Turn : Pc → Module → Type 0
Turn k m = m.result + m.new_cmd + sending k + receiving m.pc ≡ 1

abbrev pub TurnTo : Pc → Option Module → Type 0
TurnTo k none = Unit
TurnTo k (some n) = Turn k n

abbrev pub held_next : (ℕ → ℕ) → Option Module → ℕ
held_next w none = 0
held_next w (some n) = held w n

abbrev pub SameSide : Option Module → Option Module → Type 0
SameSide none none = Unit
SameSide (some n) (some n') = (n'.pc ≡ n.pc) × (n'.kind ≡ n.kind)
SameSide _ _ = ⊥

-- What an outcome satisfies if a call returns; a blocked call has none, and a fault is refused.
abbrev pub Fine {ℓ} : {A : Type ℓ} → (A → Type 0) → Run A → Type 0
Fine P (ok a) = P a
Fine P blocked = Unit
Fine P fault = ⊥

module _ (pool : Pool) (cap : ℕ) (w : ℕ → ℕ) where
  open pool use {Store, give, take, Good, items}

  -- A step of the thread of `m` beside `next`.
  pub record Kept (s : Store) (m : Module) (next : Option Module)
      (out : Store × Module × Option Module) : Type 0 where
    pub good : Good cap out.0
    pub weight :
        weigh w (items out.0) + held w out.1 + held_next w out.2
        ≡ weigh w (items s) + held w m + held_next w next
    pub same_kind : out.1.kind ≡ m.kind
    pub in_place : Later m.kind out.1.pc
    pub incoming :
        out.1.result + out.1.new_cmd + receiving out.1.pc ≡ m.result + m.new_cmd + receiving m.pc
    pub turn : TurnTo out.1.pc out.2
    pub side : SameSide next out.2

  module _ {s : Store} {m : Module} (k : Pc) (at : m.pc ≡ k) (good : Good cap s) where
    -- A move that touches neither buffers nor counters.
    pub quiet :
        (next : Option Module) (m' : Module)
        → m'.kind ≡ m.kind
        → Later m.kind m'.pc
        → m'.result ≡ m.result
        → m'.new_cmd ≡ m.new_cmd
        → m'.cmd ≡ m.cmd
        → m'.dataoffset ≡ m.dataoffset
        → m'.local_offset ≡ m.local_offset
        → carries m'.pc ≡ carries k
        → sending m'.pc ≡ sending k
        → receiving m'.pc ≡ receiving k
        → TurnTo m.pc next
        → Kept s m next (s, m', next)
    quiet none m' kind place r n c d l e₁ e₂ e₃ turn = record {
      good = good;
      weight = ground arith;
      same_kind = kind;
      in_place = place;
      incoming = ground arith;
      turn = tt;
      side = tt;
    }
    quiet (some x) m' kind place r n c d l e₁ e₂ e₃ turn = record {
      good = good;
      weight = ground arith;
      same_kind = kind;
      in_place = place;
      incoming = ground arith;
      turn = ground arith;
      side = (refl, refl);
    }
