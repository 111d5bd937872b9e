-- ===== src/Messenger/Repeats.antt =====
-- The messages of one connection of messenger/src/messenger.c, whatever it receives.
use mathlib.Core.List.{append_assoc}
use multiprocessor.Messenger.Extract.{
  extract-eq, copied-Says, parse-SameText, Says, parse-cases, copied, c_string-append,
  extract-cases, read-Kept, set-append, AllSay, find_byte-append, Kept, Line,
}
use multiprocessor.Common.{
  take, find_byte, c_string, drop, write_at, blocked, length-append, Run, ◌>>=◌, fault, leb, ◌-◌,
  ok, ◌+◌, ◌≡◌, inr, ◌∷◌, refl, ◌<◌, inl, set, length, arith, ℕ, List, [], false, ◌⊎◌, ◌++◌, count,
  Bool-cases, some, ap, ◌∙◌,
}
use multiprocessor.Messenger.{Message, Connection, max_msg_len}
use multiprocessor.Messenger.Parse.{parse_api_request}
use multiprocessor.Messenger.Receive.{received, read_connection_data, serve, Arrival}

serve-cases :
    (line : List ℕ) (arrivals : List Arrival) (conn : Connection)
    → Kept line conn
    → count 10 line ≡ 0
    → (serve arrivals conn ≡ fault)
      ⊎ ((ms : List Message) × (serve arrivals conn ≡ ok ms) × AllSay line ms)
unfolding serve
serve-cases line [] conn kept free = inr ([], refl, tt)
serve-cases line (a ∷ arrivals) conn kept free =
    let next = (read_connection_data a.read conn).0 in
    let kept' = read-Kept line a.read conn kept in
    elim (Bool-cases (read_connection_data a.read conn).1) [
      | inl broken ↦ inr ([], rw broken refl, tt)
      | inr going ↦ elim (extract-cases line next a.memory kept' free) [
        | inl faulty ↦ inl (rw (going, faulty) refl)
        | inr x ↦ elim (serve-cases line arrivals x.conn' x.kept free) [
          | inl faulty ↦ inl (rw (going, x.ran, faulty) refl)
          | inr (ms, ran, all) ↦ inr (x.m' ∷ ms, rw (going, x.ran, ran) refl, (x.says, all))
        ]
      ]
    ]

received-some :
    (bytes : List ℕ) (conn : Connection)
    → 0 < length bytes
    → received (some bytes) conn ≡ (
      record conn {
        buffer = write_at conn.offset bytes conn.buffer;
        offset = conn.offset + length bytes;
      },
      false,
    )
received-some [] conn nonempty = absurd (omega (arith, nonempty))
received-some (b ∷ bytes) conn nonempty = refl

-- A first arrival that has a newline, on a connection that received nothing before.
pub record Opens (line more : List ℕ) (conn : Connection) (a : Arrival) : Type 0 where
  pub empty : conn.offset ≡ 0
  pub clean : Line line
  pub arrived : a.read (max_msg_len + 1) ≡ some (line ++ 10 ∷ more)

record Opened (line : List ℕ) (conn : Connection) (a : Arrival) : Type 0 where
  pub next : Connection
  pub endl : ℕ
  pub ran : read_connection_data a.read conn ≡ (next, false)
  pub found : find_byte 10 next.offset next.buffer ≡ some endl
  pub holds : c_string (set next.buffer endl 0) ≡ some line
  pub behind : length line < next.offset

opens :
    (line more : List ℕ) (conn : Connection) (a : Arrival)
    → Opens line more conn a
    → Opened line conn a
unfolding read_connection_data
opens line more conn a o =
    let bytes = line ++ 10 ∷ more in
    let long = length-append line (10 ∷ more) in
    let rest = drop (conn.offset + length bytes) conn.buffer in
    let buffer : write_at conn.offset bytes conn.buffer ≡ line ++ 10 ∷ (more ++ rest) =
      ap (λ t. t ++ bytes ++ rest) (ap (λ i. take i conn.buffer) o.empty)
      ∙ append_assoc line (10 ∷ more) rest in
    let room : leb (max_msg_len + 1) conn.offset ≡ false = ground (arith, o.empty) in
    let asked : max_msg_len + 1 - conn.offset ≡ max_msg_len + 1 = omega (arith, o.empty) in
    let read : a.read (max_msg_len + 1 - conn.offset) ≡ some bytes = ap a.read asked ∙ o.arrived in
    record {
      next = record conn {
        buffer = write_at conn.offset bytes conn.buffer;
        offset = conn.offset + length bytes;
      };
      endl = length line;
      ran = rw (room, read) (received-some bytes conn (omega (arith, long)));
      found = rw buffer (
          find_byte-append line (more ++ rest) (conn.offset + length bytes) o.clean.no_newline
            (omega (arith, long)));
      holds =
          rw (buffer, set-append line 10 0 (more ++ rest))
            (c_string-append line (more ++ rest) o.clean.no_zero);
      behind = omega (arith, long);
    }

open_step :
    (line more : List ℕ) (conn : Connection) (a : Arrival) (r : Run Message)
    (arrivals : List Arrival)
    → (o : Opens line more conn a) → parse_api_request (copied line a.memory) ≡ r
    → serve (a ∷ arrivals) conn ≡ (
        r >>= λ m.
        let f = opens line more conn a o in
        serve arrivals (record f.next { buffer = set f.next.buffer f.endl 0 }) >>= λ ms.
        ok (m ∷ ms))
unfolding serve
open_step line more conn a fault arrivals o parsed =
    let f = opens line more conn a o in
    let extracted = extract-eq line f.endl f.next a.memory fault f.found f.holds parsed in
    rw (f.ran, extracted) refl
open_step line more conn a blocked arrivals o parsed =
    let f = opens line more conn a o in
    let extracted = extract-eq line f.endl f.next a.memory blocked f.found f.holds parsed in
    rw (f.ran, extracted) refl
open_step line more conn a (ok m) arrivals o parsed =
    let f = opens line more conn a o in
    let extracted = extract-eq line f.endl f.next a.memory (ok m) f.found f.holds parsed in
    rw (f.ran, extracted) refl

-- Let a connection that received nothing yet receive bytes with a newline, the line before it without
-- a byte 0, and let the memory of the message have a byte 0 behind the place of the line. Then one
-- message is extracted, with the line's length and, in its first bytes, the line.
pub serve-first :
    (line more text : List ℕ) (conn : Connection) (a : Arrival)
    → Opens line more conn a
    → c_string (write_at 0 line a.memory.msg_string) ≡ some text
    → (m : Message) × (serve (a ∷ []) conn ≡ ok (m ∷ [])) × Says line m
unfolding serve
serve-first line more text conn a o room =
    let (m, parsed, same) = parse-SameText text (copied line a.memory) room in
    (m, open_step line more conn a (ok m) [] o parsed, copied-Says line a.memory m same)

-- After such a first arrival, whatever arrives, the run ends with a fault or every message that it
-- extracts is the first line again: a line that was extracted is never taken out of the buffer.
pub serve-repeats :
    (line more : List ℕ) (conn : Connection) (a : Arrival) (arrivals : List Arrival)
    → Opens line more conn a
    → (serve (a ∷ arrivals) conn ≡ fault)
      ⊎ ((ms : List Message) × (serve (a ∷ arrivals) conn ≡ ok ms) × AllSay line ms)
serve-repeats line more conn a arrivals o = elim (parse-cases (copied line a.memory)) [
  | inl faulty ↦ inl (open_step line more conn a fault arrivals o faulty)
  | inr (m, parsed, same) ↦
      let f = opens line more conn a o in
      let conn' = record f.next { buffer = set f.next.buffer f.endl 0 } in
      let step = open_step line more conn a (ok m) arrivals o parsed in
      elim (serve-cases line arrivals conn' (record { first = f.holds; behind = f.behind })
        o.clean.no_newline) [
          | inl faulty ↦ inl (step ∙ rw faulty refl)
          | inr (ms, ran, all) ↦
              inr (m ∷ ms, step ∙ rw ran refl, (copied-Says line a.memory m same, all))
        ]
]
