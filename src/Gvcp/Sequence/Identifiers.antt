-- ===== src/Gvcp/Sequence/Identifiers.antt =====
-- What the sequences of capture/src/gvcp.c send, and that they finish where every packet is
-- answered.
use multiprocessor.Gvcp.Register.{listen_lem}
use mathlib.Core.List.{append_assoc, append-nil}
use multiprocessor.Gvcp.Sequence.{
  write_back, write_op, bump, read_op, wire_id, Session, perform_all, perform, Op,
}
use multiprocessor.Gvcp.{
  send, write_reg_cmd, write_register_packet, listen, read_register_packet, type_ack, read_reg_cmd,
  write_register, encode, first_bytes, datagram, value_of, read_register, Received, register_ack,
  Packet, decode, Wire,
}
use multiprocessor.Common.{
  ◌/◌, ◌*◌, ◌==◌, map, ◌≡◌, ◌<◌, ◌≤◌, arith, ◌∷◌, inr, ℕ, ◌∙◌, length, [], ◌%◌, refl, inl, ok, suc,
  none, some, ◌+◌, get_elem?, ◌≢◌, List, ap, zero, Bool-cases, ◌++◌,
}

-- The command and the identifier in a packet's bytes.
abbrev pub heading : List ℕ → ℕ × ℕ
heading bytes = elim (decode bytes) [ none ↦ (0, 0) | some p ↦ (p.command, p.id) ]

abbrev pub command_of : Op → ℕ
command_of (read_op reg_addr) = read_reg_cmd
command_of (write_op reg_addr reg_value) = write_reg_cmd
command_of (write_back reg_addr) = write_reg_cmd

-- The headings of the packets of a sequence that starts with `packet_id`.
abbrev pub requests : List Op → ℕ → List (ℕ × ℕ)
requests [] packet_id = []
requests (op ∷ ops) packet_id =
    (command_of op, wire_id (bump packet_id)) ∷ requests ops (bump packet_id)

abbrev pub headings : Wire → List (ℕ × ℕ)
headings w = map heading w.sent

-- Answers that are long enough, one for each packet.
abbrev pub AllFull : List (List ℕ) → Type 0
AllFull [] = Unit
AllFull (bytes ∷ rest) = (12 ≤ length bytes) × AllFull rest

pub register_ack-full :
    (old : ℕ) (bytes : List ℕ)
    → 12 ≤ length bytes
    → (v : ℕ) × (register_ack old (decode (first_bytes 12 bytes)) ≡ ok v)
unfolding register_ack value_of
register_ack-full old (a ∷ b ∷ c ∷ d ∷ e ∷ f ∷ g ∷ h ∷ i ∷ j ∷ k ∷ l ∷ rest) full =
    elim (Bool-cases (a == type_ack)) [ inl z ↦ rw z (_, refl) | inr nz ↦ rw nz (_, refl) ]
register_ack-full old _ full = absurd (omega arith)

-- What one call leaves, whatever the answer says.
pub record After (op : Op) (s : Session) (rest : List Received) (s' : Session) : Type 0 where
  pub counted : s'.packet_id ≡ bump s.packet_id
  pub left : s'.wire.incoming ≡ rest
  pub closed : s'.wire.fds ≡ s.wire.fds
  pub asked : headings s'.wire ≡ headings s.wire ++ (command_of op, wire_id (bump s.packet_id)) ∷ []

map-snoc :
    (xs : List (List ℕ)) (x : List ℕ)
    → map heading (xs ++ x ∷ []) ≡ map heading xs ++ heading x ∷ []
map-snoc [] x = refl
map-snoc (y ∷ ys) x = ap (λ t. heading y ∷ t) (map-snoc ys x)

pub sent_lem :
    (p : Packet) (sent : List (List ℕ)) (command id : ℕ)
    → p.command ≡ command
    → command < 65536
    → p.id ≡ wire_id id % 65536
    → map heading (sent ++ encode p ∷ []) ≡ map heading sent ++ (command, wire_id id) ∷ []
sent_lem p sent command id c small i =
    let command_back : p.command / 256 % 256 * 256 + p.command % 256 ≡ command = omega (arith, c) in
    let id_back : p.id / 256 % 256 * 256 + p.id % 256 ≡ wire_id id = omega (arith, i) in
    let head : heading (encode p) ≡ (command, wire_id id) = rw (command_back, id_back) refl in
    map-snoc sent (encode p) ∙ rw head refl

pub listen-full :
    (w : Wire) (bytes : List ℕ) (rest : List Received)
    → w.incoming ≡ datagram bytes ∷ rest
    → 12 ≤ length bytes
    → listen w ≡ ok (decode (first_bytes 12 bytes), record w { incoming = rest })
listen-full w bytes rest e full = rw (← e) at (listen_lem w [] rest bytes tt full).0

abbrev pub asked_with : Packet → ℕ → Session → List Received → Session
asked_with p v s rest = record {
  value = v;
  packet_id = bump s.packet_id;
  wire = record (send p s.wire) { incoming = rest };
}

pub asked_with-After :
    (op : Op) (s : Session) (rest : List Received) (p : Packet) (v : ℕ)
    → p.command ≡ command_of op
    → command_of op < 65536
    → p.id ≡ wire_id (bump s.packet_id) % 65536
    → After op s rest (asked_with p v s rest)
asked_with-After op s rest p v c small i = record {
  counted = refl;
  left = refl;
  closed = refl;
  asked = sent_lem p s.wire.sent (command_of op) (bump s.packet_id) c small i;
}

perform_lem :
    (op : Op) (s : Session) (bytes : List ℕ) (rest : List Received)
    → s.wire.incoming ≡ datagram bytes ∷ rest
    → 12 ≤ length bytes
    → (s' : Session) × (perform op s ≡ ok s') × After op s rest s'
unfolding perform read_register write_register read_register_packet write_register_packet
perform_lem (read_op a) s bytes rest e full =
    let p = read_register_packet a (wire_id (bump s.packet_id)) in
    let (v, r) = register_ack-full s.value bytes full in
    (
      asked_with p v s rest,
      rw (listen-full (send p s.wire) bytes rest e full) (rw r refl),
      asked_with-After (read_op a) s rest p v refl (omega arith) refl,
    )
perform_lem (write_op a v) s bytes rest e full =
    let p = write_register_packet a v (wire_id (bump s.packet_id)) in
    (
      asked_with p s.value s rest,
      rw (listen-full (send p s.wire) bytes rest e full)
          (rw ((register_ack-full v bytes full).1) refl),
      asked_with-After (write_op a v) s rest p s.value refl (omega arith) refl,
    )
perform_lem (write_back a) s bytes rest e full =
    let p = write_register_packet a s.value (wire_id (bump s.packet_id)) in
    (
      asked_with p s.value s rest,
      rw (listen-full (send p s.wire) bytes rest e full)
          (rw ((register_ack-full s.value bytes full).1) refl),
      asked_with-After (write_back a) s rest p s.value refl (omega arith) refl,
    )

-- Where every packet of a sequence is answered by a datagram that is long enough, whatever is in
-- it, the sequence runs to its end. It sends its reads and writes in order, with one identifier
-- after the other from the one that it was given, takes one datagram for each, and leaves no
-- descriptor open.
pub perform_all_lem :
    (ops : List Op) (s : Session) (replies : List (List ℕ)) (rest : List Received)
    → s.wire.incoming ≡ map datagram replies ++ rest
    → length replies ≡ length ops
    → AllFull replies
    → (s' : Session) × (perform_all ops s ≡ ok s')
      × (headings s'.wire ≡ headings s.wire ++ requests ops s.packet_id)
      × (s'.wire.incoming ≡ rest)
      × (s'.wire.fds ≡ s.wire.fds)
unfolding perform_all
perform_all_lem [] s [] rest e same all = (s, refl, rw (append-nil (headings s.wire)) refl, e, refl)
perform_all_lem [] s (bytes ∷ replies) rest e same all = absurd (omega arith)
perform_all_lem (op ∷ ops) s [] rest e same all = absurd (omega arith)
perform_all_lem (op ∷ ops) s (bytes ∷ replies) rest e same all =
    let (t, run, h) = perform_lem op s bytes (map datagram replies ++ rest) e all.0 in
    let (s', run', asked, left, closed) =
      perform_all_lem ops t replies rest h.left (omega arith) all.1 in
    (
      s',
      rw run run',
      cc (
        asked,
        h.asked,
        h.counted,
        append_assoc (headings s.wire) ((command_of op, wire_id (bump s.packet_id)) ∷ [])
            (requests ops (bump s.packet_id)),
      ),
      left,
      closed ∙ h.closed,
    )

requests-id :
    (ops : List Op) (packet_id i : ℕ) (r : ℕ × ℕ)
    → get_elem? (requests ops packet_id) i ≡ some r
    → r.1 ≡ 0xf000 + (packet_id + i + 1) % 0x1000
requests-id [] packet_id i r e = cc
requests-id (op ∷ ops) packet_id zero r e =
    let same : (command_of op, wire_id (bump packet_id)) ≡ r = cc in rw (← same) (omega arith)
requests-id (op ∷ ops) packet_id (suc i) r e = omega (arith, requests-id ops (bump packet_id) i r e)

-- Two packets of one sequence have different identifiers, if fewer than 4096 packets apart.
pub requests_apart :
    (ops : List Op) (packet_id i j : ℕ) (r t : ℕ × ℕ)
    → get_elem? (requests ops packet_id) i ≡ some r
    → get_elem? (requests ops packet_id) j ≡ some t
    → i < j
    → j < i + 0x1000
    → r.1 ≢ t.1
requests_apart ops packet_id i j r t e f h near same =
    omega (arith, requests-id ops packet_id i r e, requests-id ops packet_id j t f)
