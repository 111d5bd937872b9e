-- ===== src/Gvcp/Bytes.antt =====
-- The bytes of the packets of capture/src/gvcp.c.
use multiprocessor.Gvcp.{
  type_cmd, ack_required, write_reg_cmd, read_reg_cmd, encode, decode, be32, write_register_packet,
  value_of, read_register_packet, Packet,
}
use multiprocessor.Common.{
  List, ok, ◌%◌, ◌^◌, arith, ◌≡◌, ◌<◌, some, ◌+◌, refl, ◌*◌, ap, suc, ℕ, length, zero, [], ◌++◌,
  ◌∷◌, ◌/◌,
}

-- A packet whose command, size and identifier have 16 bits is read back from its bytes as it was.
pub decode-encode :
    (p : Packet) → p.command < 65536 → p.size < 65536 → p.id < 65536 → decode (encode p) ≡ some p
decode-encode p c s i =
    let command : p.command / 256 % 256 * 256 + p.command % 256 ≡ p.command = omega arith in
    let size : p.size / 256 % 256 * 256 + p.size % 256 ≡ p.size = omega arith in
    let id : p.id / 256 % 256 * 256 + p.id % 256 ≡ p.id = omega arith in rw (command, size, id) refl

-- `ntohl` undoes `htonl`.
pub value_of-be32 : (v : ℕ) (rest : List ℕ) → v < 2 ^ 32 → value_of (be32 v ++ rest) ≡ ok v
unfolding value_of
value_of-be32 v rest h = ap ok (omega arith)

abbrev pub drop : ℕ → List ℕ → List ℕ
drop zero xs = xs
drop (suc n) [] = []
drop (suc n) (x ∷ xs) = drop n xs

-- What a device reads from the packets of `gvcp_read_register_packet` and
-- `gvcp_write_register_packet`: a command that asks for an acknowledgement, a size that is that of
-- the data, the identifier, the address, and for a write the value behind it.
pub register_packets :
    (reg_addr reg_value packet_id : ℕ)
    → reg_addr < 2 ^ 32
    → reg_value < 2 ^ 32
    → packet_id < 65536
    → (p : Packet) × (decode (encode (read_register_packet reg_addr packet_id)) ≡ some p)
      × (q : Packet) × (decode (encode (write_register_packet reg_addr reg_value packet_id))
          ≡ some q)
      × (p.packet_type ≡ type_cmd)
      × (q.packet_type ≡ type_cmd)
      × (p.packet_flags ≡ ack_required)
      × (q.packet_flags ≡ ack_required)
      × (p.command ≡ read_reg_cmd)
      × (q.command ≡ write_reg_cmd)
      × (p.size ≡ length p.payload)
      × (q.size ≡ length q.payload)
      × (p.id ≡ packet_id)
      × (q.id ≡ packet_id)
      × (value_of p.payload ≡ ok reg_addr)
      × (value_of q.payload ≡ ok reg_addr)
      × (value_of (drop 4 q.payload) ≡ ok reg_value)
unfolding read_register_packet write_register_packet
register_packets reg_addr reg_value packet_id a v i =
    let p = read_register_packet reg_addr packet_id in
    let q = write_register_packet reg_addr reg_value packet_id in
    (
      p,
      decode-encode p (omega arith) (omega arith) (omega arith),
      q,
      decode-encode q (omega arith) (omega arith) (omega arith),
      refl,
      refl,
      refl,
      refl,
      refl,
      refl,
      refl,
      refl,
      omega arith,
      omega arith,
      value_of-be32 reg_addr [] a,
      value_of-be32 reg_addr (be32 reg_value) a,
      value_of-be32 reg_value [] v,
    )
