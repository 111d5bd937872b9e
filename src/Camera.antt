-- ===== src/Camera.antt =====
-- `gige_camera_init`, `gige_camera_destroy` and `gige_camera_test` of capture/src/camera.c: the sockets of
-- a camera and the sequences of packets on its command socket. Its thread for the stream is in Gvsp.
pub mod Sockets
pub mod Watch
mod Tests
use multiprocessor.Common.{
  ◌∷◌, suc, ◌&&◌, [], ◌>>=◌, Option, ◌==◌, none, if◌then◌else◌, ok, List, ℕ, Run, some, zero, Bool,
}
use mathlib.Core.Bool.{not}
use multiprocessor.Gvcp.{Received, Wire}
use multiprocessor.Gvcp.Sequence.{bump, wire_id, watchdog, start_stream, stop_stream}
use multiprocessor.Gvcp.Sequence
use multiprocessor.Interfaces.{no_fd}

-- `enum gige_camera_state`, and a state that was never assigned.
pub data State : Type 0 where
  unassigned : State
  stopped : State
  live : State

-- `struct gige_camera`, with what was sent and will come on the command socket.
pub record Camera : Type 0 where
  pub state : State
  pub gvcp_fd : ℕ
  pub gvsp_fd : ℕ
  pub last_gvcp_packet_id : ℕ
  pub packet_size : ℕ
  pub wire : Wire

-- What the caller gives, how the calls for the two sockets answer, the address of the data socket, and
-- what comes in on the command socket.
pub record Opening : Type 0 where
  pub has_device : Bool
  pub has_memory : Bool
  pub command_socket : Option ℕ
  pub command_bound : Bool
  pub connected : Bool
  pub data_socket : Option ℕ
  pub data_bound : Bool
  pub ip : ℕ
  pub port : ℕ
  pub incoming : List Received

-- What `gige_camera_init` returns, `none` for `NULL`, and the sockets that it leaves open.
pub record Opened : Type 0 where
  pub camera : Option Camera
  pub sockets : List ℕ

abbrev pub first_packet_id : ℕ
first_packet_id = 0xf000

abbrev pub failed : (sockets : List ℕ) → Run Opened
failed sockets = ok (record { camera = none; sockets = sockets })

-- `gvcp_init` on the two sockets, and what is made of the packet size.
unfoldable pub connect_camera : (o : Opening) → (gvcp_fd gvsp_fd : ℕ) → Run Opened
connect_camera o gvcp_fd gvsp_fd =
    Sequence.init (wire_id (bump first_packet_id)) o.ip o.port
      (record { sent = []; incoming = o.incoming; fds = 0 })
    >>= λ (packet_size, wire).
        (if packet_size == 0
          then failed (gvcp_fd ∷ gvsp_fd ∷ [])
          else ok (record {
            camera = some (record {
              state = State.unassigned;
              gvcp_fd = gvcp_fd;
              gvsp_fd = gvsp_fd;
              last_gvcp_packet_id = bump first_packet_id;
              packet_size = packet_size;
              wire = wire;
            });
            sockets = gvcp_fd ∷ gvsp_fd ∷ [];
          }))

unfoldable pub gige_camera_init : Opening → Run Opened
unfolding connect_camera
gige_camera_init o =
    if not (o.has_device && o.has_memory) then failed [] else elim o.command_socket [
      | none ↦ failed []
      | some gvcp_fd ↦
          if not o.command_bound
          then failed (gvcp_fd ∷ [])
          else if not o.connected
          then failed (gvcp_fd ∷ [])
          else elim o.data_socket [
            | none ↦ failed []
            | some gvsp_fd ↦ if o.data_bound then connect_camera o gvcp_fd gvsp_fd else failed []
          ]
    ]

-- What `gige_camera_destroy` closes.
unfoldable pub gige_camera_destroy : Camera → List ℕ
gige_camera_destroy cam = cam.gvsp_fd ∷ cam.gvcp_fd ∷ []

-- `next_packet_id(cam->last_gvcp_packet_id)`: the identifier that is passed on, and the camera after it.
abbrev pub next_id : Camera → ℕ
next_id cam = wire_id (bump cam.last_gvcp_packet_id)

abbrev pub counted : Wire → Camera → Camera
counted w cam = record cam { wire = w; last_gvcp_packet_id = bump cam.last_gvcp_packet_id }

-- The loop with the watchdog, of so many rounds.
unfoldable pub watch : (rounds : ℕ) → Camera → Run Camera
watch zero cam = ok cam
watch (suc n) cam = watchdog (next_id cam) cam.wire >>= λ s. watch n (counted s.wire cam)

-- `gige_camera_test`, with the sockets that it closes.
unfoldable pub gige_camera_test : Camera → Run (Camera × List ℕ)
unfolding watch
gige_camera_test cam = start_stream (next_id cam) cam.wire >>= λ s.
    watch 10 (record (counted s.wire cam) { state = State.live }) >>= λ cam₁.
    stop_stream (next_id cam₁) cam₁.wire >>= λ t.
    let cam₂ = counted t.wire cam₁ in
    ok (
      record cam₂ { state = State.stopped; gvcp_fd = no_fd; gvsp_fd = no_fd },
      cam₂.gvcp_fd ∷ cam₂.gvsp_fd ∷ [],
    )
