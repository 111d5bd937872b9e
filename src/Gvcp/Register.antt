-- ===== src/Gvcp/Register.antt =====
-- `read_register` and the wait for an acknowledgement in capture/src/gvcp.c.
use multiprocessor.Gvcp.{
  send, first_bytes, read_register_packet, decode, recv_failed, encode, be32, datagram, wait_failed,
  register_ack, Received, Wire, type_ack, read_register, listen_loop, listen, Packet,
}
use multiprocessor.Common.{
  ap, [], none, ◌<◌, ◌+◌, blocked, ◌-◌, ◌≤◌, ◌∙◌, map, arith, ◌++◌, ◌∷◌, ◌≡◌, length, ok, ℕ, List,
  refl, ◌^◌,
}

-- Datagrams that are too short to be an acknowledgement.
abbrev pub AllShort : List (List ℕ) → Type 0
AllShort [] = Unit
AllShort (bytes ∷ rest) = (length bytes < 12) × AllShort rest

listen_loop-short :
    (shorts : List (List ℕ)) (rest : List Received) (sent : List (List ℕ)) (fds : ℕ)
    → AllShort shorts
    → listen_loop (map datagram shorts ++ rest) sent fds ≡ listen_loop rest sent fds
unfolding listen_loop
listen_loop-short [] rest sent fds all = refl
listen_loop-short (bytes ∷ shorts) rest sent fds all =
    ground (arith, all.0, listen_loop-short shorts rest sent fds all.1)

-- The wait for an acknowledgement drops datagrams that are too short. It closes the epoll
-- descriptor behind a full datagram and a failed `epoll_wait`, but behind a failed `recvfrom` one
-- more descriptor is open than before; with nothing further to come it has no end.
pub listen_lem :
    (w : Wire) (shorts : List (List ℕ)) (rest : List Received) (bytes : List ℕ)
    → AllShort shorts
    → 12 ≤ length bytes
    → (listen (record w { incoming = map datagram shorts ++ datagram bytes ∷ rest })
        ≡ ok (decode (first_bytes 12 bytes), record w { incoming = rest }))
      × (listen (record w { incoming = map datagram shorts ++ wait_failed ∷ rest })
          ≡ ok (none, record w { incoming = rest }))
      × (listen (record w { incoming = map datagram shorts ++ recv_failed ∷ rest })
          ≡ ok (none, record w { incoming = rest; fds = w.fds + 1 }))
      × (listen (record w { incoming = map datagram shorts ++ [] }) ≡ blocked)
unfolding listen listen_loop
listen_lem w shorts rest bytes all full =
    let skip = λ (rx : List Received). listen_loop-short shorts rx w.sent (w.fds + 1) all in
    let same : w.fds + 1 - 1 ≡ w.fds = omega arith in
    (
      skip (datagram bytes ∷ rest) ∙ ground arith,
      skip (wait_failed ∷ rest) ∙ rw same refl,
      skip (recv_failed ∷ rest),
      skip [],
    )

-- An acknowledgement with a value, under any command and identifier.
abbrev pub ack : (command id value : ℕ) → Packet
ack command id value = record {
  packet_type = type_ack;
  packet_flags = 0;
  command = command;
  size = 4;
  id = id;
  payload = be32 value;
}

-- `read_register` sends the packet for the register and, behind any datagrams that are too short,
-- takes the first acknowledgement of a 32-bit value for the answer, whatever its command and
-- identifier are: the caller gets its value, and no descriptor stays open.
pub read_register_lem :
    (w : Wire) (shorts : List (List ℕ)) (rest : List Received)
    (reg_addr old packet_id command id value : ℕ)
    → AllShort shorts
    → value < 2 ^ 32
    → read_register reg_addr old packet_id (record w {
      incoming = map datagram shorts ++ datagram (encode (ack command id value)) ∷ rest;
    })
      ≡ ok (
        value,
        record w {
          sent = w.sent ++ encode (read_register_packet reg_addr packet_id) ∷ [];
          incoming = rest;
        },
      )
unfolding read_register register_ack
read_register_lem w shorts rest reg_addr old packet_id command id value all small =
    let w' = send (read_register_packet reg_addr packet_id) w in
    rw ((listen_lem w' shorts rest (encode (ack command id value)) all (omega arith)).0)
      (ap (λ (v : ℕ). ok (v, record w' { incoming = rest })) (omega arith))

-- Where no acknowledgement comes, since `epoll_wait` or `recvfrom` fails, `read_register` returns
-- all the same and leaves the caller's value as it was.
pub read_register_failed :
    (w : Wire) (rest : List Received) (reg_addr old packet_id : ℕ)
    → ((w' : Wire) × (read_register reg_addr old packet_id
            (record w { incoming = wait_failed ∷ rest })
          ≡ ok (old, w')))
      × ((w' : Wire) × (read_register reg_addr old packet_id
              (record w { incoming = recv_failed ∷ rest })
            ≡ ok (old, w'))
          × (w'.fds ≡ w.fds + 1))
unfolding read_register register_ack listen listen_loop
read_register_failed w rest reg_addr old packet_id = ((_, refl), (_, refl, refl))
