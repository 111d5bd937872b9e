-- ===== src/Gvcp.antt =====
-- capture/src/gvcp.c and capture/include/capture/gvcp.h: the control protocol of a GigE Vision
-- camera. A register is read or written by a packet on the command socket and its acknowledgement.
pub mod Bytes
pub mod Discovery
pub mod Register
pub mod Sequence
mod Tests
use multiprocessor.Common.{
  List, some, if◌then◌else◌, blocked, ◌==◌, length, ◌*◌, ◌>>=◌, ◌-◌, ◌∷◌, ◌+◌, [], Run, ◌/◌, none,
  ltb, suc, ℕ, ok, ◌%◌, zero, ◌++◌, Option, fault,
}

-- `GVCP_PACKET_TYPE_CMD`, `GVCP_PACKET_TYPE_ACK` and `GVCP_CMD_PACKET_FLAGS_ACK_REQUIRED`.
abbrev pub type_cmd : ℕ
type_cmd = 0x42

abbrev pub type_ack : ℕ
type_ack = 0

abbrev pub ack_required : ℕ
ack_required = 1

-- `GVCP_COMMAND_DISCOVERY_CMD`, `GVCP_COMMAND_READ_REG_CMD` and `GVCP_COMMAND_WRITE_REG_CMD`.
abbrev pub discovery_cmd : ℕ
discovery_cmd = 0x0002

abbrev pub read_reg_cmd : ℕ
read_reg_cmd = 0x0080

abbrev pub write_reg_cmd : ℕ
write_reg_cmd = 0x0082

-- The two and four bytes of a number in network order.
abbrev pub be16 : ℕ → List ℕ
be16 n = n / 256 % 256 ∷ n % 256 ∷ []

abbrev pub be32 : ℕ → List ℕ
be32 n = n / 16777216 % 256 ∷ n / 65536 % 256 ∷ n / 256 % 256 ∷ n % 256 ∷ []

-- `struct gvcp_packet` with its fields in the order of bytes of the host; `payload` is `data`.
pub record Packet : Type 0 where
  pub packet_type : ℕ
  pub packet_flags : ℕ
  pub command : ℕ
  pub size : ℕ
  pub id : ℕ
  pub payload : List ℕ

-- The bytes of a packet, as `write` sends them.
abbrev pub encode : Packet → List ℕ
encode p = p.packet_type ∷ p.packet_flags ∷ be16 p.command ++ be16 p.size ++ be16 p.id ++ p.payload

-- Bytes received, read as a `struct gvcp_packet`.
abbrev pub decode : List ℕ → Option Packet
decode (t ∷ f ∷ c₁ ∷ c₀ ∷ s₁ ∷ s₀ ∷ i₁ ∷ i₀ ∷ payload) = some (record {
  packet_type = t;
  packet_flags = f;
  command = c₁ * 256 + c₀;
  size = s₁ * 256 + s₀;
  id = i₁ * 256 + i₀;
  payload = payload;
})
decode _ = none

-- `gvcp_discovery_packet`.
pub discovery_packet : Packet
discovery_packet = record {
  packet_type = type_cmd;
  packet_flags = ack_required;
  command = discovery_cmd;
  size = 0;
  id = 0xffff;
  payload = [];
}

-- `gvcp_read_register_packet`. `htons` cuts the identifier to 16 bits, `htonl` has 32.
pub read_register_packet : (reg_addr packet_id : ℕ) → Packet
read_register_packet reg_addr packet_id = record {
  packet_type = type_cmd;
  packet_flags = ack_required;
  command = read_reg_cmd;
  size = 4;
  id = packet_id % 65536;
  payload = be32 reg_addr;
}

-- `gvcp_write_register_packet`.
pub write_register_packet : (reg_addr reg_value packet_id : ℕ) → Packet
write_register_packet reg_addr reg_value packet_id = record {
  packet_type = type_cmd;
  packet_flags = ack_required;
  command = write_reg_cmd;
  size = 8;
  id = packet_id % 65536;
  payload = be32 reg_addr ++ be32 reg_value;
}

-- `ntohl` of the first four bytes of the data; fewer bytes are a read outside of the packet.
pub value_of : List ℕ → Run ℕ
value_of (a ∷ b ∷ c ∷ d ∷ rest) = ok (a * 16777216 + b * 65536 + c * 256 + d)
value_of _ = fault

-- `gvcp_register_ack`: what it leaves in `*value`. No packet, and one that is not an
-- acknowledgement, leave it alone; `id` and `command` are not looked at.
pub register_ack : ℕ → Option Packet → Run ℕ
unfolding value_of
register_ack value none = ok value
register_ack value (some p) = if p.packet_type == type_ack then value_of p.payload else ok value

-- What happens on the socket while a thread waits on it: `epoll_wait` fails, `recvfrom` fails, or a
-- datagram comes.
pub data Received : Type 0 where
  wait_failed : Received
  recv_failed : Received
  datagram : List ℕ → Received

-- The command socket: what was sent, what will be received, and the descriptors that are open.
pub record Wire : Type 0 where
  pub sent : List (List ℕ)
  pub incoming : List Received
  pub fds : ℕ

-- The first 12 bytes of a datagram: the rest of a longer one is lost.
abbrev pub first_bytes : ℕ → List ℕ → List ℕ
first_bytes zero xs = []
first_bytes (suc n) [] = []
first_bytes (suc n) (x ∷ xs) = x ∷ first_bytes n xs

-- The loop of `listen_packet_ack_new`, where the epoll descriptor could be made. It is closed on
-- every way out but the one behind a failed `recvfrom`. With nothing to come the wait has no end.
pub listen_loop : List Received → List (List ℕ) → ℕ → Run (Option Packet × Wire)
listen_loop [] sent fds = blocked
listen_loop (wait_failed ∷ rest) sent fds =
    ok (none, record { sent = sent; incoming = rest; fds = fds - 1 })
listen_loop (recv_failed ∷ rest) sent fds =
    ok (none, record { sent = sent; incoming = rest; fds = fds })
listen_loop (datagram bytes ∷ rest) sent fds =
    let later = listen_loop rest sent fds in
    if ltb (length bytes) 12
    then later
    else ok (decode (first_bytes 12 bytes), record { sent = sent; incoming = rest; fds = fds - 1 })

-- `listen_packet_ack_new`.
pub listen : Wire → Run (Option Packet × Wire)
unfolding listen_loop
listen w = listen_loop w.incoming w.sent (w.fds + 1)

-- `write(fd, packet, packet_size)`.
abbrev pub send : Packet → Wire → Wire
send p w = record w { sent = w.sent ++ encode p ∷ [] }

-- `read_register`: what it leaves in `*value`.
pub read_register : (reg_addr value packet_id : ℕ) → Wire → Run (ℕ × Wire)
unfolding read_register_packet listen register_ack
read_register reg_addr value packet_id w =
    listen (send (read_register_packet reg_addr packet_id) w) >>= λ (packet, w').
    register_ack value packet >>= λ value'. ok (value', w')

-- `write_register`: the value in the acknowledgement goes to the parameter alone.
pub write_register : (reg_addr value packet_id : ℕ) → Wire → Run Wire
unfolding write_register_packet listen register_ack
write_register reg_addr value packet_id w =
    listen (send (write_register_packet reg_addr value packet_id) w) >>= λ (packet, w').
    register_ack value packet >>= λ value'. ok w'
