-- ===== src/Gvcp/Sequence.antt =====
-- The command sequences of capture/src/gvcp.c: `gvcp_init`, `gvcp_watchdog`, `gvcp_start` and
-- `gvcp_stop` (those that the preprocessor keeps), and the reads of camera parameters.
pub mod Identifiers
pub mod Answers
pub mod Sessions
use multiprocessor.Gvcp.{write_register, read_register, Wire}
use multiprocessor.Common.{
  ◌^◌, List, ◌*◌, if◌then◌else◌, ◌>>=◌, Run, ◌+◌, ◌==◌, ◌∷◌, ℕ, [], ◌%◌, ◌-◌, ok,
}

-- The register addresses of capture/include/capture/gvcp.h.
abbrev pub gvcp_capability : ℕ
gvcp_capability = 0x934

abbrev pub n_stream_channels : ℕ
n_stream_channels = 0x904

abbrev pub tick_frequency_high : ℕ
tick_frequency_high = 0x93c

abbrev pub tick_frequency_low : ℕ
tick_frequency_low = 0x940

abbrev pub channel_ip_address : ℕ
channel_ip_address = 0xd18

abbrev pub channel_port : ℕ
channel_port = 0xd00

abbrev pub channel_packet_size : ℕ
channel_packet_size = 0xd04

abbrev pub channel_source_port : ℕ
channel_source_port = 0xd1c

abbrev pub channel_privilege : ℕ
channel_privilege = 0xa00

-- A call of a sequence: `read_register` into `value`, `write_register` of a constant, or
-- `write_register` of `value`.
pub data Op : Type 0 where
  read_op : (reg_addr : ℕ) → Op
  write_op : (reg_addr reg_value : ℕ) → Op
  write_back : (reg_addr : ℕ) → Op

-- The locals `value` and `packet_id` of a sequence, and the command socket.
pub record Session : Type 0 where
  pub value : ℕ
  pub packet_id : ℕ
  pub wire : Wire

-- What `next_packet_id` leaves in `packet_id`, and what it gives: `0xf000 | (id & 0xfff)`.
abbrev pub bump : ℕ → ℕ
bump id = (id + 1) % 2 ^ 32

abbrev pub wire_id : ℕ → ℕ
wire_id id = 0xf000 + id % 0x1000

-- One call with the next identifier.
pub perform : Op → Session → Run Session
perform (read_op reg_addr) s =
    read_register reg_addr s.value (wire_id (bump s.packet_id)) s.wire >>= λ (value, w).
    ok (record { value = value; packet_id = bump s.packet_id; wire = w })
perform (write_op reg_addr reg_value) s =
    write_register reg_addr reg_value (wire_id (bump s.packet_id)) s.wire >>= λ w.
    ok (record s { packet_id = bump s.packet_id; wire = w })
perform (write_back reg_addr) s =
    write_register reg_addr s.value (wire_id (bump s.packet_id)) s.wire >>= λ w.
    ok (record s { packet_id = bump s.packet_id; wire = w })

pub perform_all : List Op → Session → Run Session
unfolding perform
perform_all [] s = ok s
perform_all (op ∷ ops) s = perform op s >>= perform_all ops

-- `uint32_t value = -1`.
abbrev pub all_ones : ℕ
all_ones = 2 ^ 32 - 1

-- `gvcp_init`: `ip` and `port` are those of the data socket. It returns the packet size, and what
-- it leaves on the command socket.
pub init : (packet_id ip port : ℕ) → Wire → Run (ℕ × Wire)
unfolding perform_all
init packet_id ip port w = read_register n_stream_channels all_ones packet_id w >>= λ (value, w₁).
    perform_all
      (read_op gvcp_capability
        ∷ write_op channel_privilege 2
        ∷ write_op channel_ip_address ip
        ∷ write_op channel_port port
        ∷ [])
      (record { value = value; packet_id = packet_id; wire = w₁ })
    >>= λ s. perform (read_op channel_packet_size) (record s { value = 0 }) >>= λ s'.
        ok (s'.value, s'.wire)

-- `gvcp_watchdog`.
pub watchdog : (packet_id : ℕ) → Wire → Run Session
unfolding perform_all
watchdog packet_id w =
    perform (read_op channel_privilege)
      (record { value = all_ones; packet_id = packet_id; wire = w })
    >>= λ s.
        (if s.value == 2 then ok s else perform (write_op channel_privilege 2) s)
        >>= perform_all (write_op 0xF0F04030 0x80000000 ∷ read_op channel_source_port ∷ [])

abbrev pub start_ops : List Op
start_ops =
    write_op channel_privilege 2
    ∷ write_op 0xF0F00A08 0
    ∷ read_op 0xF0F00A0C
    ∷ write_back 0xF0F00A0C
    ∷ write_op 0xF0F00A08 0
    ∷ read_op 0xF0F00960
    ∷ read_op 0xF0F00964
    ∷ read_op 0xF0F00530
    ∷ read_op 0xF0F00830
    ∷ write_op 0xF0F00830 0x80000000
    ∷ read_op 0xF0F0083C
    ∷ write_back 0xF0F0083C
    ∷ read_op 0xF0F0053C
    ∷ read_op 0xF0F0083C
    ∷ write_op 0xF0F0083C 0xC2000610
    ∷ write_op 0xF0F00968 0x41200000
    ∷ read_op 0xF0F05410
    ∷ read_op 0xF0F04050
    ∷ read_op 0xF0F04054
    ∷ read_op channel_port
    ∷ read_op channel_source_port
    ∷ write_op 0xF0F04030 0x80000000
    ∷ []

-- `gvcp_start`.
pub start_stream : (packet_id : ℕ) → Wire → Run Session
unfolding perform_all
start_stream packet_id w =
    perform_all start_ops (record { value = all_ones; packet_id = packet_id; wire = w })

abbrev pub stop_ops : List Op
stop_ops = write_op channel_privilege 2 ∷ read_op 0xF0F00614 ∷ write_op 0xF0F00614 0 ∷ []

-- `gvcp_stop`.
pub stop_stream : (packet_id : ℕ) → Wire → Run Session
unfolding perform_all
stop_stream packet_id w =
    perform_all stop_ops (record { value = all_ones; packet_id = packet_id; wire = w })

-- `gvcp_get_packet_size`. `unset` is what stands in the local that has no initial value.
pub get_packet_size : (unset packet_id : ℕ) → Wire → Run (ℕ × Wire)
unfolding perform
get_packet_size unset packet_id w =
    perform (read_op channel_packet_size)
      (record { value = unset; packet_id = packet_id; wire = w })
    >>= λ s. ok (s.value, s.wire)

-- `gvcp_get_timestamp_tick_frequency`: the two halves side by side.
pub get_tick_frequency : (unset_high unset_low packet_id : ℕ) → Wire → Run (ℕ × Wire)
unfolding perform
get_tick_frequency unset_high unset_low packet_id w =
    perform (read_op tick_frequency_high)
      (record { value = unset_high; packet_id = packet_id; wire = w })
    >>= λ s. perform (read_op tick_frequency_low) (record s { value = unset_low }) >>= λ s'.
        ok (s.value * 2 ^ 32 + s'.value, s'.wire)
