-- ===== src/Gvcp/Sequence/Sessions.antt =====
-- The sequences that begin and end the work with a camera, where its answers are long enough.
use multiprocessor.Common.{
  map, ◌^◌, ◌<◌, ◌∙◌, ok, refl, ◌≡◌, ◌++◌, [], ◌≤◌, arith, ◌∷◌, ℕ, length, List,
}
use multiprocessor.Gvcp.Register.{ack}
use multiprocessor.Gvcp.Sequence.Identifiers.{
  perform_all_lem, requests, headings, asked_with, AllFull, listen-full, register_ack-full,
  sent_lem,
}
use multiprocessor.Gvcp.Sequence.Answers.{read_op_lem}
use multiprocessor.Gvcp.{
  read_reg_cmd, encode, datagram, Received, read_register_packet, read_register, Wire, send,
}
use multiprocessor.Gvcp.Sequence

-- The calls of `gvcp_init` behind the first one.
abbrev pub init_ops : (ip port : ℕ) → List Sequence.Op
init_ops ip port =
    Sequence.read_op Sequence.gvcp_capability
    ∷ Sequence.write_op Sequence.channel_privilege 2
    ∷ Sequence.write_op Sequence.channel_ip_address ip
    ∷ Sequence.write_op Sequence.channel_port port
    ∷ []

-- What the last call of `gvcp_init` asks for.
abbrev pub size_op : List Sequence.Op
size_op = Sequence.read_op Sequence.channel_packet_size ∷ []

first_read :
    (k value : ℕ) (w : Wire) (bytes : List ℕ) (rest : List Received)
    → w.incoming ≡ datagram bytes ∷ rest
    → 12 ≤ length bytes
    → (v : ℕ) × (w' : Wire) × (read_register Sequence.n_stream_channels value (Sequence.wire_id k) w
        ≡ ok (v, w'))
      × (headings w' ≡ headings w ++ (read_reg_cmd, Sequence.wire_id k) ∷ [])
      × (w'.incoming ≡ rest)
      × (w'.fds ≡ w.fds)
unfolding read_register read_register_packet
first_read k value w bytes rest e full =
    let p = read_register_packet Sequence.n_stream_channels (Sequence.wire_id k) in
    let (v, r) = register_ack-full value bytes full in
    (
      v,
      record (send p w) { incoming = rest },
      rw (listen-full (send p w) bytes rest e full) (rw r refl),
      sent_lem p w.sent read_reg_cmd k refl (omega arith) refl,
      refl,
      refl,
    )

-- Where the first five packets of `gvcp_init` are answered by datagrams that are long enough, and the
-- last one by an acknowledgement of a number, `gvcp_init` returns this number.
pub init_lem :
    (k ip port command id size : ℕ) (w : Wire) (bytes : List ℕ) (replies : List (List ℕ))
    (rest : List Received)
    → size < 2 ^ 32
    → w.incoming
      ≡ datagram bytes ∷ map datagram replies ++ datagram (encode (ack command id size)) ∷ rest
    → 12 ≤ length bytes
    → length replies ≡ 4
    → AllFull replies
    → (w' : Wire) × (Sequence.init (Sequence.wire_id k) ip port w ≡ ok (size, w'))
      × (w'.incoming ≡ rest)
      × (w'.fds ≡ w.fds)
unfolding Sequence.init
init_lem k ip port command id size w bytes replies rest small e full four all =
    let last = datagram (encode (ack command id size)) ∷ rest in
    let (v, w₁, ran, _, left, same) =
      first_read k Sequence.all_ones w bytes (map datagram replies ++ last) e full in
    let s : Sequence.Session = record { value = v; packet_id = Sequence.wire_id k; wire = w₁ } in
    let (s', ran', _, left', same') =
      perform_all_lem (init_ops ip port) s replies last left (omega (arith, four)) all in
    let t : Sequence.Session = record s' { value = 0 } in
    let u =
      asked_with
        (read_register_packet Sequence.channel_packet_size
          (Sequence.wire_id (Sequence.bump s'.packet_id)))
        size t rest in
    let read = read_op_lem Sequence.channel_packet_size t rest command id size left' small in
    (u.wire, rw ran (rw ran' (rw read refl)), refl, same' ∙ same)

-- `gvcp_start` and `gvcp_stop` run to their ends.
pub start_stream_lem :
    (packet_id : ℕ) (w : Wire) (replies : List (List ℕ)) (rest : List Received)
    → w.incoming ≡ map datagram replies ++ rest
    → length replies ≡ length Sequence.start_ops
    → AllFull replies
    → (s : Sequence.Session) × (Sequence.start_stream packet_id w ≡ ok s)
      × (headings s.wire ≡ headings w ++ requests Sequence.start_ops packet_id)
      × (s.wire.incoming ≡ rest)
      × (s.wire.fds ≡ w.fds)
unfolding Sequence.start_stream
start_stream_lem packet_id w replies rest e same all =
    perform_all_lem Sequence.start_ops
      (record { value = Sequence.all_ones; packet_id = packet_id; wire = w }) replies rest e same
      all

pub stop_stream_lem :
    (packet_id : ℕ) (w : Wire) (replies : List (List ℕ)) (rest : List Received)
    → w.incoming ≡ map datagram replies ++ rest
    → length replies ≡ length Sequence.stop_ops
    → AllFull replies
    → (s : Sequence.Session) × (Sequence.stop_stream packet_id w ≡ ok s)
      × (headings s.wire ≡ headings w ++ requests Sequence.stop_ops packet_id)
      × (s.wire.incoming ≡ rest)
      × (s.wire.fds ≡ w.fds)
unfolding Sequence.stop_stream
stop_stream_lem packet_id w replies rest e same all =
    perform_all_lem Sequence.stop_ops
      (record { value = Sequence.all_ones; packet_id = packet_id; wire = w }) replies rest e same
      all
