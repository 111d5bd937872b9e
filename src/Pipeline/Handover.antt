-- ===== src/Pipeline/Handover.antt =====
-- The steps of pipeline/src/pipeline_server.c that move a buffer or a turn keep both.
use multiprocessor.ProcessManager.{cmd_stop}
use multiprocessor.Pipeline.Threads.{
  give_buffer, copy, wait_cmd, hand_stop, hand_job, wait_next, goes,
}
use multiprocessor.Pipeline.Kept.{SameSide, Kept, Fine, TurnTo, Later, receiving, sending, carries}
use multiprocessor.Pipeline.Pool.{take-ne-fault, take-eq-ok, Pool}
use multiprocessor.Pipeline.{
  give_back, copy_cmd, await_cmd, Module, source, Pc, stop_send_job, stop_hand_over, hand_over,
  send_job, take_buffer,
}
use multiprocessor.Common.{
  true, ◌<◌, ◌∷◌, Run-cases, length, ap, weigh, [], weigh-append, inl, inr, Bool-cases, ◌≡◌, some,
  ◌≢◌, arith, Option, ℕ, false, refl, none, ◌>>=◌, ◌==◌,
}

-- A step that leaves `next` alone.
turn_same :
    (j k : Pc) (next : Option Module) → sending k ≡ sending j → TurnTo j next → TurnTo k next
turn_same j k none e turn = tt
turn_same j k (some n) e turn = ground arith

side_same : (next : Option Module) → SameSide next next
side_same none = tt
side_same (some n) = (refl, refl)

module _ (pool : Pool) (cap : ℕ) (w : ℕ → ℕ) where
  open pool use {Store, give, take, Good, items}

  module _ (s : Store) (m : Module) (k : Pc) (at : m.pc ≡ k) (good : Good cap s) where
    pub keeps_take :
        (next : Option Module)
        → k ≡ take_buffer
        → m.kind ≡ source
        → TurnTo m.pc next
        → Fine (Kept pool cap w s m next) (
            take s >>= λ (offset, s').
            goes pool s' (record m { pc = send_job; local_offset = offset }) next)
    keeps_take next e kind turn = elim (Run-cases (take s)) [
      | inl b ↦ rw b tt
      | inr (inl f) ↦ absurd (take-ne-fault pool cap s good f)
      | inr (inr ((offset, s'), run)) ↦
          let (good', split) = take-eq-ok pool cap offset s s' good run in
          rw run (record {
            good = good';
            weight = ground arith;
            same_kind = refl;
            in_place = rw kind tt;
            incoming = ground arith;
            turn = turn_same m.pc send_job next (ground arith) turn;
            side = side_same next;
          })
    ]

    pub keeps_wait_next :
        (after : Pc) (next : Option Module)
        → next ≢ none
        → Later m.kind after
        → carries after ≡ carries k
        → sending k ≡ 0
        → sending after ≡ 1
        → receiving k ≡ 0
        → receiving after ≡ 0
        → TurnTo m.pc next
        → Fine (Kept pool cap w s m next) (wait_next pool after s m next)
    keeps_wait_next after none some_next place c a b d e turn = absurd (some_next refl)
    keeps_wait_next after (some n) some_next place c a b d e turn =
        elim (Bool-cases (n.result == 0)) [
          | inl z ↦ rw z tt
          | inr nz ↦ rw nz (record {
            good = good;
            weight = ground arith;
            same_kind = refl;
            in_place = place;
            incoming = ground arith;
            turn = ground arith;
            side = (refl, refl);
          })
        ]

    pub keeps_hand_job :
        (after : Pc) (next : Option Module)
        → next ≢ none
        → k ≡ hand_over
        → Later m.kind after
        → carries after ≡ false
        → sending after ≡ 0
        → receiving after ≡ 0
        → TurnTo m.pc next
        → Fine (Kept pool cap w s m next) (hand_job pool after s m next)
    keeps_hand_job after none some_next e place a b d turn = absurd (some_next refl)
    keeps_hand_job after (some n) some_next e place a b d turn = record {
      good = good;
      weight = ground arith;
      same_kind = refl;
      in_place = place;
      incoming = ground arith;
      turn = ground arith;
      side = (refl, refl);
    }

    pub keeps_hand_stop :
        (next : Option Module)
        → next ≢ none
        → k ≡ stop_hand_over
        → Later m.kind stop_send_job
        → TurnTo m.pc next
        → Fine (Kept pool cap w s m next) (hand_stop pool stop_send_job s m next)
    keeps_hand_stop none some_next e place turn = absurd (some_next refl)
    keeps_hand_stop (some n) some_next e place turn = record {
      good = good;
      weight = ground arith;
      same_kind = refl;
      in_place = place;
      incoming = ground arith;
      turn = ground arith;
      side = (refl, refl);
    }

    pub keeps_wait_cmd :
        (next : Option Module)
        → k ≡ await_cmd
        → Later m.kind copy_cmd
        → TurnTo m.pc next
        → Fine (Kept pool cap w s m next) (wait_cmd pool s m next)
    keeps_wait_cmd next e place turn = elim (Bool-cases (m.new_cmd == 0)) [
      | inl z ↦ rw z tt
      | inr nz ↦ rw nz (record {
        good = good;
        weight = ground arith;
        same_kind = refl;
        in_place = place;
        incoming = ground arith;
        turn = turn_same m.pc copy_cmd next (ground arith) turn;
        side = side_same next;
      })
    ]

    pub keeps_copy :
        (at_stop at_job : Pc) (next : Option Module)
        → k ≡ copy_cmd
        → m.new_cmd ≡ 0
        → Later m.kind at_stop
        → Later m.kind at_job
        → carries at_stop ≡ false
        → carries at_job ≡ true
        → (sending at_stop ≡ 0) × (sending at_job ≡ 0)
        → (receiving at_stop ≡ 0) × (receiving at_job ≡ 0)
        → TurnTo m.pc next
        → Kept pool cap w s m next (s, copy pool at_stop at_job m, next)
    keeps_copy at_stop at_job next e empty p₁ p₂ c₁ c₂ sends receives turn =
        elim (Bool-cases (m.cmd == cmd_stop)) [
          | inl stops ↦ rw stops (record {
            good = good;
            weight = ground arith;
            same_kind = refl;
            in_place = p₁;
            incoming = ground arith;
            turn = turn_same m.pc _ next (ground arith) turn;
            side = side_same next;
          })
          | inr works ↦ rw works (record {
            good = good;
            weight = ground arith;
            same_kind = refl;
            in_place = p₂;
            incoming = ground arith;
            turn = turn_same m.pc _ next (ground arith) turn;
            side = side_same next;
          })
        ]

    pub keeps_give :
        (next : Option Module)
        → k ≡ give_back
        → length (items s) < cap
        → Later m.kind await_cmd
        → TurnTo m.pc next
        → Fine (Kept pool cap w s m next) (give_buffer pool s m next)
    keeps_give next e room place turn =
        let (s', run, good', more) = pool.give_law cap m.local_offset s good room in
        rw run (record {
          good = good';
          weight =
              ground (arith, weigh-append w (items s) (m.local_offset ∷ []), ap (weigh w) more);
          same_kind = refl;
          in_place = place;
          incoming = ground arith;
          turn = turn_same m.pc await_cmd next (ground arith) turn;
          side = side_same next;
        })
