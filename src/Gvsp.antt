-- ===== src/Gvsp.antt =====
-- capture/include/capture/gvsp.h and the thread `gvsp_thread` of capture/src/camera.c: the packets of
-- a camera's video stream, and the frames that are put together from them.
pub mod Groups
pub mod Accept
pub mod Frames
pub mod Timestamp
mod Tests
use multiprocessor.Common.{
  ◌++◌, Bool, some, leb, ◌||◌, ◌%◌, ◌*◌, List, suc, fault, Run, none, false, true, length, set, ◌∷◌,
  ◌>>=◌, ltb, ◌-◌, ◌+◌, ◌==◌, Option, if◌then◌else◌, [], ◌&&◌, ok, ◌^◌, ℕ, ◌/◌, get_or, zero,
  get_elem?,
}
use mathlib.Core.Bool.{not}

-- `MAX_FRAME_SIZE`.
abbrev pub max_frame_size : ℕ
max_frame_size = 2048 * 2448 * 3 * 2

-- `GVSP_CONTENT_TYPE_DATA_LEADER`, `GVSP_CONTENT_TYPE_DATA_TRAILER`, `GVSP_CONTENT_TYPE_DATA_BLOCK`,
-- and the packet type of `gvsp_packet_type_is_error`, which is `GVCP_PACKET_TYPE_ERROR`.
abbrev pub data_leader : ℕ
data_leader = 1

abbrev pub data_trailer : ℕ
data_trailer = 2

abbrev pub data_block : ℕ
data_block = 3

abbrev pub type_error : ℕ
type_error = 0x80

-- `GVSP_PAYLOAD_TYPE_IMAGE` and `GVSP_PAYLOAD_TYPE_FILE`.
abbrev pub payload_image : ℕ
payload_image = 1

abbrev pub payload_file : ℕ
payload_file = 3

-- A packet, with what the accessors `gvsp_packet_get_...` read of it. `payload` is all of the packet
-- buffer that is behind the header.
pub record Packet : Type 0 where
  pub packet_type : ℕ
  pub has_extended_ids : Bool
  pub content_type : ℕ
  pub packet_id : ℕ
  pub frame_id : ℕ
  pub payload : List ℕ

-- Behind the packet type: `struct gvsp_extended_header`. The frame's number is read in the order of
-- bytes of the host, the lowest first.
abbrev pub extended : (packet_type content : ℕ) → List ℕ → Option Packet
extended t p (a ∷ b ∷ c ∷ d ∷ e ∷ f ∷ g ∷ h ∷ k₃ ∷ k₂ ∷ k₁ ∷ k₀ ∷ payload) = some (record {
  packet_type = t;
  has_extended_ids = true;
  content_type = p % 128;
  packet_id = k₃ * 2 ^ 24 + k₂ * 2 ^ 16 + k₁ * 2 ^ 8 + k₀;
  frame_id =
      a + b * 2 ^ 8 + c * 2 ^ 16 + d * 2 ^ 24 + e * 2 ^ 32 + f * 2 ^ 40 + g * 2 ^ 48 + h * 2 ^ 56;
  payload = payload;
})
extended t p _ = none

-- The bytes of the packet buffer. `none` where a header would be read past its end.
unfoldable pub parse : List ℕ → Option Packet
parse (t₁ ∷ t₀ ∷ f₁ ∷ f₀ ∷ p₃ ∷ p₂ ∷ p₁ ∷ p₀ ∷ rest) =
    if leb 128 p₃
    then extended (t₁ * 256 + t₀) p₃ rest
    else some (record {
      packet_type = t₁ * 256 + t₀;
      has_extended_ids = false;
      content_type = p₃ % 128;
      packet_id = p₂ * 2 ^ 16 + p₁ * 2 ^ 8 + p₀;
      frame_id = f₁ * 256 + f₀;
      payload = rest;
    })
parse _ = none

-- `gvsp_packet_get_payload_type`: whether it is `GVSP_PAYLOAD_TYPE_IMAGE`.
abbrev pub is_image : ℕ → Bool
is_image n = n == payload_image || n == payload_file

-- The part of `struct frame_data` that the thread uses: `content` is the first `real_size` bytes of
-- `buffer`, `payload_image` what the last leader said.
pub record Frame : Type 0 where
  pub is_started : Bool
  pub content : List ℕ
  pub leader_is_image : Bool
  pub frame_id : ℕ
  pub n_packets : ℕ
  pub error_packets_received : ℕ
  pub last_valid_packet : ℕ
  pub packet_data : List Bool

-- The locals of `gvsp_thread`, and what `new_frame_action` was called with: the frame before the
-- last number, and its bytes.
pub record Stream : Type 0 where
  pub frame : Frame
  pub last_frame_id : ℕ
  pub n_received_packets : ℕ
  pub n_error_packets : ℕ
  pub n_ignored_packets : ℕ
  pub packet : List ℕ
  pub delivered : List (ℕ × List ℕ)

-- `recvfrom` writes the first bytes of the packet buffer, cut to its length, and leaves the others.
abbrev pub overlay : (received buffer : List ℕ) → List ℕ
overlay [] buffer = buffer
overlay (x ∷ xs) [] = []
overlay (x ∷ xs) (y ∷ ys) = x ∷ overlay xs ys

-- The loop that looks for the first packet that is missing: from `i` on, with `fuel` rounds at most.
-- `packet_data` has no entry behind its end.
unfoldable pub track : (fuel : ℕ) → List Bool → (n_packets i : ℕ) → Run ℕ
track zero flags n i = ok i
track (suc fuel) flags n i =
    let later = track fuel flags n (i + 1) in
    if ltb i n
    then elim (get_elem? flags i) [ none ↦ fault | some b ↦ if b then later else ok i ]
    else ok i

-- Another frame's number: the frame before is handed over if one was started, and a new one begins.
unfoldable pub begin_frame : (action : Bool) → Packet → Stream → Stream
begin_frame action p s = if s.last_frame_id == p.frame_id then s else record s {
  frame = record s.frame {
    content = [];
    frame_id = p.frame_id;
    last_valid_packet = 2 ^ 32 - 1;
    is_started = true;
    n_packets = 0;
    error_packets_received = 0;
  };
  last_frame_id = p.frame_id;
  delivered =
      if s.frame.is_started && action
      then s.delivered ++ (s.last_frame_id, s.frame.content) ∷ []
      else s.delivered;
}

-- Whether a leader says that an image follows, and how many of its bytes are read: of an image all of
-- `struct gvsp_data_leader`, of anything else up to its type.
abbrev pub leads_image : Packet → Bool
leads_image p = is_image (get_or p.payload 2 0 * 256 + get_or p.payload 3 0)

abbrev pub leader_read : Packet → ℕ
leader_read p = if leads_image p then 32 else 4

-- The `switch` over the content type. A leader that is too short is read past its end, and a block
-- that the frame's buffer has no room for is written past its end.
unfoldable pub dispatch : Packet → Stream → Run Stream
dispatch p s =
    if p.content_type == data_leader
    then if leb (leader_read p) (length p.payload)
      then ok (record s { frame = record s.frame { leader_is_image = leads_image p } })
      else fault
    else if p.content_type == data_block
    then if leb (length s.frame.content + length p.payload) max_frame_size
      then ok (record s { frame = record s.frame { content = s.frame.content ++ p.payload } })
      else fault
    else if p.content_type == data_trailer
    then ok s
    else ok (record s { n_ignored_packets = s.n_ignored_packets + 1 })

abbrev pub mark : ℕ → Frame → Frame
mark i f = if ltb i f.n_packets then record f { packet_data = set f.packet_data i true } else f

-- Whether a packet's number is one that was received before.
abbrev pub is_duplicate : ℕ → Frame → Bool
is_duplicate i f = ltb i f.n_packets && get_or f.packet_data i false

-- What the thread does with a packet of the frame that is under way.
unfoldable pub accept : Packet → Stream → Run Stream
unfolding track dispatch
accept p s =
    if not s.frame.is_started
    then ok (record s { n_ignored_packets = s.n_ignored_packets + 1 })
    else if p.packet_type == type_error
    then ok (record s {
      n_error_packets = s.n_error_packets + 1;
      frame = record s.frame { error_packets_received = s.frame.error_packets_received + 1 };
    })
    else if is_duplicate p.packet_id s.frame
    then ok s
    else let f = mark p.packet_id s.frame in
      track f.n_packets f.packet_data f.n_packets ((f.last_valid_packet + 1) % 2 ^ 32) >>= λ i.
      dispatch p (record s { frame = record f { last_valid_packet = (i + 2 ^ 32 - 1) % 2 ^ 32 } })

-- What happens while the thread waits: a datagram comes, `recvfrom` fails, or half a second passes.
pub data Event : Type 0 where
  datagram : List ℕ → Event
  recv_failed : Event
  timeout : Event

-- A datagram, from `recvfrom` on.
unfoldable pub receive : (action : Bool) → List ℕ → Stream → Run Stream
unfolding parse begin_frame accept
receive action bytes s =
    let packet = overlay bytes s.packet in
    elim (parse packet) [
      | none ↦ fault
      | some p ↦ accept p (
          begin_frame action p
            (record s { packet = packet; n_received_packets = s.n_received_packets + 1 }))
    ]

-- The loop, until the camera is no longer live; `false` where a failed `recvfrom` ends it.
unfoldable pub run : (action : Bool) → List Event → Stream → Run (Stream × Bool)
unfolding receive
run action [] s = ok (s, true)
run action (timeout ∷ events) s = run action events s
run action (recv_failed ∷ events) s = ok (s, false)
run action (datagram bytes ∷ events) s = receive action bytes s >>= run action events

-- The stream before the first packet: `packet` is what `malloc` gave for `cam->packet_size` less the
-- two headers of IP and UDP, `unset` the frame that it gave.
unfoldable pub begin : (unset : Frame) → (packet : List ℕ) → Stream
begin unset packet = record {
  frame = record unset { is_started = false };
  last_frame_id = 0;
  n_received_packets = 0;
  n_error_packets = 0;
  n_ignored_packets = 0;
  packet = packet;
  delivered = [];
}

-- `gvsp_packet_get_timestamp`, in `uint64_t` arithmetic: the leader's ticks in nanoseconds.
unfoldable pub get_timestamp : (high low tick_frequency : ℕ) → ℕ
get_timestamp high low tick_frequency =
    if ltb tick_frequency 1
    then 0
    else let timestamp = high * 2 ^ 32 + low in
      (timestamp % tick_frequency * 1000000000 % 2 ^ 64 / tick_frequency
        + timestamp / tick_frequency * 1000000000 % 2 ^ 64)
      % 2 ^ 64
