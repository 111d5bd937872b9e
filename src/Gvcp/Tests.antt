-- ===== src/Gvcp/Tests.antt =====
-- Runs of capture/src/gvcp.c against small sockets.
use multiprocessor.Gvcp.Discovery.{
  Field, Announcement, Identity, data_of, discovery_ack, discovery_ack_cmd,
}
use multiprocessor.Gvcp.Discovery.Answers.{discovery_ack-answer}
use multiprocessor.Api.{codes}
use multiprocessor.Gvcp.Register.{listen_lem, ack}
use multiprocessor.Gvcp.Bytes.{register_packets, drop}
use multiprocessor.Gvcp.Sequence.{all_ones, Session}
use multiprocessor.Gvcp.{
  ack_required, value_of, recv_failed, write_reg_cmd, read_reg_cmd, datagram, wait_failed, type_cmd,
  write_register_packet, read_register_packet, listen, Received, encode, decode, Packet, Wire,
}
use multiprocessor.Common.{
  replicate, refl, ok, List, none, ◌∷◌, [], ℕ, blocked, ◌≡◌, arith, map, length, some,
}

abbrev socket : List Received → Wire
socket incoming = record { sent = []; incoming = incoming; fds = 4 }

abbrev some_ack : ℕ → List ℕ
some_ack v = encode (ack 0x81 9 v)

-- The bytes of a read of the control privilege with the identifier 0xf001.
read_bytes :
    encode (read_register_packet 0xa00 0xf001)
    ≡ 0x42 ∷ 1 ∷ 0 ∷ 0x80 ∷ 0 ∷ 4 ∷ 0xf0 ∷ 1 ∷ 0 ∷ 0 ∷ 0x0a ∷ 0 ∷ []
unfolding read_register_packet
read_bytes = refl

abbrev request : Packet
request = record {
  packet_type = type_cmd;
  packet_flags = 1;
  command = 0x80;
  size = 0;
  id = 7;
  payload = [];
}

register_packets_example :
    (p : Packet) × (decode (encode (read_register_packet 0xa00 0xf001)) ≡ some p)
    × (q : Packet) × (decode (encode (write_register_packet 0xa00 2 0xf001)) ≡ some q)
    × (p.packet_type ≡ type_cmd)
    × (q.packet_type ≡ type_cmd)
    × (p.packet_flags ≡ ack_required)
    × (q.packet_flags ≡ ack_required)
    × (p.command ≡ read_reg_cmd)
    × (q.command ≡ write_reg_cmd)
    × (p.size ≡ length p.payload)
    × (q.size ≡ length q.payload)
    × (p.id ≡ 0xf001)
    × (q.id ≡ 0xf001)
    × (value_of p.payload ≡ ok 0xa00)
    × (value_of q.payload ≡ ok 0xa00)
    × (value_of (drop 4 q.payload) ≡ ok 2)
register_packets_example = register_packets 0xa00 2 0xf001 (omega arith) (omega arith) (omega arith)

listen_lem_example :
    (listen (socket (datagram (1 ∷ []) ∷ datagram (some_ack 5) ∷ []))
      ≡ ok (decode (some_ack 5), socket []))
    × (listen (socket (datagram (1 ∷ []) ∷ wait_failed ∷ [])) ≡ ok (none, socket []))
    × (listen (socket (datagram (1 ∷ []) ∷ recv_failed ∷ []))
        ≡ ok (none, record { sent = []; incoming = []; fds = 5 }))
    × (listen (socket (datagram (1 ∷ []) ∷ [])) ≡ blocked)
listen_lem_example =
    listen_lem (socket []) ((1 ∷ []) ∷ []) [] (some_ack 5) (omega arith, tt) (omega arith)

abbrev three_acks : List (List ℕ)
three_acks = some_ack 2 ∷ some_ack 3 ∷ some_ack 4 ∷ []

abbrev stopping : Session
stopping = record { value = all_ones; packet_id = 0xffe; wire = socket (map datagram three_acks) }

-- "abc" in a field of 32 bytes.
abbrev field_of_32 : Field 32
field_of_32 = record {
  text = 97 ∷ 98 ∷ 99 ∷ [];
  fill = replicate 28 7;
  no_zero = refl;
  filled = refl;
}

abbrev field_of_16 : Field 16
field_of_16 = record { text = 49 ∷ []; fill = replicate 14 7; no_zero = refl; filled = refl }

abbrev one_answer : Announcement
one_answer = record {
  before = replicate 10 0;
  address = 0 ∷ 1 ∷ 0xab ∷ 16 ∷ 255 ∷ 9 ∷ [];
  behind = replicate 56 1;
  vendor = field_of_32;
  model = field_of_32;
  between = replicate 80 2;
  serial = field_of_16;
  user_id = field_of_16;
  before_size = refl;
  address_size = refl;
  behind_size = refl;
  between_size = refl;
}

abbrev answer_packet : Packet
answer_packet = record {
  packet_type = 0;
  packet_flags = 0;
  command = discovery_ack_cmd;
  size = 248;
  id = 0xffff;
  payload = data_of one_answer;
}

abbrev blank_identity : Identity
blank_identity = record { vendor = []; model = []; serial = []; user_id = []; mac = [] }

discovery_ack-answer_example :
    discovery_ack blank_identity (some answer_packet)
    ≡ ok (record {
      vendor = 97 ∷ 98 ∷ 99 ∷ [];
      model = 97 ∷ 98 ∷ 99 ∷ [];
      serial = 49 ∷ [];
      user_id = 49 ∷ [];
      mac = codes "00:01:ab:10:ff:09";
    })
discovery_ack-answer_example =
    discovery_ack-answer blank_identity answer_packet one_answer refl refl refl
